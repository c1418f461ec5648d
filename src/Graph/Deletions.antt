-- ===== src/Graph/Deletions.antt =====
-- storage/deletions.py: `step`, which deletes at most so many rows of one owner.
use justpen_knowledgebase_mc.Base.{
  ℕ, zero, suc, ◌+◌, ◌-◌, String, Bool, true, false, ◌||◌, ◌&&◌, not, Option, none, some, List, [],
  ◌∷◌, ◌++◌, Result, ok, conflict, invalid_params, raise_if, ◌>>◌, ltb, leb, ◌==◌, str_eq, any,
  length, if◌then◌else◌,
}
use justpen_knowledgebase_mc.Graph.Tables.{
  Kind, nodes, relations, evidence, Deletion, Owner, Table, node_evidence, relation_evidence,
  node_property_index, relation_property_index, search_documents, evidence_sources, Column, by_node,
  by_relation, by_evidence, by_owner, Child, is_child, is_id, Store, rows_of, with_rows, first_row,
  row_by_id,
}

pub record DeleteIntent : Type 0 where
  pub kind : Kind
  pub owner_id : ℕ
  pub uuid : String
  pub deletion : Deletion

pub record DeleteStep : Type 0 where
  pub rows_deleted : ℕ
  pub done : Bool
  pub files_pending : Bool
  pub purged : List String

-- The tables of `_delete_children` and of `_has_children`.
abbrev pub child_tables : Kind → List (Table × Column)
child_tables nodes =
    (node_evidence, by_node) ∷ (node_property_index, by_owner) ∷ (search_documents, by_node) ∷ []
child_tables relations =
    (relation_evidence, by_relation)
    ∷ (relation_property_index, by_owner)
    ∷ (search_documents, by_relation)
    ∷ []
child_tables evidence =
    (node_evidence, by_evidence)
    ∷ (relation_evidence, by_evidence)
    ∷ (evidence_sources, by_evidence)
    ∷ (search_documents, by_evidence)
    ∷ []

-- `DELETE … WHERE rowid IN (SELECT rowid … LIMIT ?)`
unfoldable pub delete_some : ℕ → (Child → Bool) → List Child → List Child
delete_some zero p rows = rows
delete_some (suc n) p [] = []
delete_some (suc n) p (c ∷ rows) =
    if p c then delete_some n p rows else c ∷ delete_some (suc n) p rows

-- The store, and the rows that were deleted so far.
abbrev pub Progress : Type 0
Progress = Store × ℕ

-- One round of the loop of `_delete_children`.
abbrev pub delete_from : Table × Column → ℕ → ℕ → Progress → Progress
delete_from t owner budget (s, deleted) =
    let rest = delete_some (budget - deleted) (is_child t owner) s.children in
    (record s { children = rest }, deleted + (length s.children - length rest))

-- The loop, which breaks when the budget is spent.
unfoldable pub delete_tables : List (Table × Column) → ℕ → ℕ → Progress → Progress
delete_tables [] owner budget (s, deleted) = (s, deleted)
delete_tables (t ∷ ts) owner budget (s, deleted) =
    if leb budget deleted
    then (s, deleted)
    else delete_tables ts owner budget (delete_from t owner budget (s, deleted))

unfoldable pub delete_children : Store → Kind → ℕ → ℕ → Progress
delete_children s kind owner budget = delete_tables (child_tables kind) owner budget (s, 0)

unfoldable pub has_children : Store → Kind → ℕ → Bool
has_children s kind owner = any (λ t. any (is_child t owner) s.children) (child_tables kind)

-- `DELETE FROM … WHERE id=?`
unfoldable pub delete_owner : ℕ → List Owner → List Owner
delete_owner i [] = []
delete_owner i (o ∷ os) = if o.id == i then delete_owner i os else o ∷ delete_owner i os

-- The queries of `_INCIDENT` in their order.
unfoldable pub incident : Store → ℕ → Option Owner
incident s owner = elim (first_row (λ r. is_id owner r.source_id) s.relation_rows) [
  | some r ↦ some r
  | none ↦ first_row (λ r. is_id owner r.target_id) s.relation_rows
]

-- `delete_job_id == job_id`
abbrev pub is_intent_of : String → Owner → Bool
is_intent_of job o = elim o.deletion [ none ↦ false | some d ↦ str_eq d.job_id job ]

-- The store, the rows that were deleted, and the uuids of `purged`.
pub record Sweep : Type 0 where
  pub store : Store
  pub deleted : ℕ
  pub purged : List String

-- The end of one round of `_delete_incident`, after the children of the relation.
unfoldable pub delete_relation : Owner → ℕ → String → Sweep → Sweep
delete_relation r budget job w =
    if ltb w.deleted budget && not (has_children w.store relations r.id)
    then (let rest = delete_owner r.id w.store.relation_rows in
        record {
          store = record w.store { relation_rows = rest };
          deleted = w.deleted + (length w.store.relation_rows - length rest);
          purged = if is_intent_of job r then w.purged ++ r.uuid ∷ [] else w.purged;
        })
    else w

-- One round on a relation that was found.
unfoldable pub incident_round : Owner → ℕ → String → Sweep → Sweep
incident_round r budget job w =
    let (s, n) = delete_children w.store relations r.id (budget - w.deleted) in
    delete_relation r budget job (record w { store = s; deleted = w.deleted + n })

-- The loop of `_delete_incident`. Every round deletes a row, so as many rounds as the budget has rows
-- are enough.
unfoldable pub delete_incident : ℕ → ℕ → ℕ → String → Sweep → Sweep
delete_incident zero owner budget job w = w
delete_incident (suc fuel) owner budget job w =
    if ltb w.deleted budget
    then elim (incident w.store owner) [
      | none ↦ w
      | some r ↦ delete_incident fuel owner budget job (incident_round r budget job w)
    ]
    else w

abbrev pub same_flag : Bool → Bool → Bool
same_flag true b = b
same_flag false b = not b

-- `delete_pending` under the same intent
abbrev pub same_deletion : Deletion → Option Deletion → Bool
same_deletion d none = false
same_deletion d (some e) =
    str_eq e.job_id d.job_id && (same_flag e.cascade d.cascade && e.requested_at == d.requested_at)

abbrev pub unfinished : ℕ → List String → DeleteStep
unfinished n purged = record {
  rows_deleted = n;
  done = false;
  files_pending = false;
  purged = purged;
}

-- An owner without children: evidence waits for its files, another is deleted.
unfoldable pub finish_owner : Kind → DeleteIntent → Sweep → Store × DeleteStep
finish_owner evidence intent w =
    (w.store, record { rows_deleted = w.deleted; done = false; files_pending = true; purged = [] })
finish_owner kind intent w =
    let rest = delete_owner intent.owner_id (rows_of kind w.store) in
    (
      with_rows kind rest w.store,
      record {
        rows_deleted = w.deleted + (length (rows_of kind w.store) - length rest);
        done = true;
        files_pending = false;
        purged = w.purged ++ intent.uuid ∷ [];
      },
    )

-- The end of `step`, after the children of the owner.
unfoldable pub finish_step : DeleteIntent → ℕ → Sweep → Store × DeleteStep
finish_step intent budget w =
    if w.deleted == budget || has_children w.store intent.kind intent.owner_id
    then (w.store, unfinished w.deleted w.purged)
    else finish_owner intent.kind intent w

-- `step` after the relations of a node: its own children, then the owner itself.
unfoldable pub step_children : DeleteIntent → ℕ → Sweep → Store × DeleteStep
step_children intent budget w =
    let (s, n) = delete_children w.store intent.kind intent.owner_id (budget - w.deleted) in
    finish_step intent budget (record w { store = s; deleted = w.deleted + n })

abbrev pub start_sweep : Store → Sweep
start_sweep s = record { store = s; deleted = 0; purged = [] }

-- `step` on an owner whose intent matches.
unfoldable pub step_owner : Kind → Store → DeleteIntent → ℕ → Store × DeleteStep
step_owner nodes s intent budget =
    let w = delete_incident budget intent.owner_id budget intent.deletion.job_id (start_sweep s) in
    if w.deleted == budget
    then (w.store, unfinished w.deleted w.purged)
    else step_children intent budget w
step_owner kind s intent budget = step_children intent budget (start_sweep s)

abbrev pub is_mismatch : DeleteIntent → Owner → Bool
is_mismatch intent owner =
    not (str_eq owner.uuid intent.uuid && same_deletion intent.deletion owner.deletion)

unfoldable pub step : Store → DeleteIntent → ℕ → Result (Store × DeleteStep)
step s intent budget = do
  raise_if (ltb budget 1 || ltb 100 budget) (invalid_params "invalid deletion row budget")
  elim (row_by_id s intent.kind intent.owner_id) [
    | none ↦ ok (s, record { rows_deleted = 0; done = true; files_pending = false; purged = [] })
    | some owner ↦ do
      raise_if (is_mismatch intent owner) (conflict "delete intent mismatch")
      ok (step_owner intent.kind s intent budget)
  ]
