-- ===== src/Graph/Tables.antt =====
-- The graph tables of storage/schema.py, and `row_by_id`, `pending_blocker` and `require_ready` of
-- storage/graph.py. Rows stand in ascending id. A CHECK of the schema ties `lifecycle` to the three
-- delete columns, so they are one optional intent.
use justpen_knowledgebase_mc.Base.{
  ℕ, String, Bool, true, false, Option, none, some, List, [], ◌∷◌, Result, ok, err, not_found,
  record_conflict, BlockerDetails, ◌>>=◌, ◌==◌, ◌&&◌, str_eq, if◌then◌else◌,
}

pub data Kind : Type 0 where
  nodes relations evidence : Kind

abbrev pub kind_name : Kind → String
kind_name nodes = "nodes"
kind_name relations = "relations"
kind_name evidence = "evidence"

-- `delete_job_id`, `delete_cascade` and `delete_requested_at` of a row that is `delete_pending`.
pub record Deletion : Type 0 where
  pub job_id : String
  pub cascade : Bool
  pub requested_at : ℕ

-- A row of `nodes`, `relations` or `evidence`. Only evidence has a digest, only a relation the two
-- ends, and only a node the five columns of its state.
pub record Owner : Type 0 where
  pub id : ℕ
  pub uuid : String
  pub type : String
  pub deletion : Option Deletion
  pub sha256 : Option String
  pub source_id : Option ℕ
  pub target_id : Option ℕ
  pub ownership : Option String
  pub authorization : Option String
  pub authorization_override : Option String
  pub allowlist_scoped : Bool
  pub state_root_uuid : Option String

-- The tables whose rows belong to an owner.
pub data Table : Type 0 where
  node_evidence relation_evidence node_property_index relation_property_index : Table
  search_documents evidence_sources : Table

abbrev pub same_table : Table → Table → Bool
same_table node_evidence node_evidence = true
same_table relation_evidence relation_evidence = true
same_table node_property_index node_property_index = true
same_table relation_property_index relation_property_index = true
same_table search_documents search_documents = true
same_table evidence_sources evidence_sources = true
same_table _ _ = false

-- The columns that name an owner: `node_id`, `relation_id`, `evidence_id` and `owner_id`.
pub data Column : Type 0 where
  by_node by_relation by_evidence by_owner : Column

-- A row of such a table; a column that its table lacks is none.
pub record Child : Type 0 where
  pub table : Table
  pub node_id : Option ℕ
  pub relation_id : Option ℕ
  pub evidence_id : Option ℕ
  pub owner_id : Option ℕ

abbrev pub column_of : Column → Child → Option ℕ
column_of by_node c = c.node_id
column_of by_relation c = c.relation_id
column_of by_evidence c = c.evidence_id
column_of by_owner c = c.owner_id

abbrev pub is_id : ℕ → Option ℕ → Bool
is_id i none = false
is_id i (some j) = j == i

-- `WHERE column=?` on one of the tables
abbrev pub is_child : Table × Column → ℕ → Child → Bool
is_child (t, col) owner c = same_table c.table t && is_id owner (column_of col c)

pub record Store : Type 0 where
  pub node_rows : List Owner
  pub relation_rows : List Owner
  pub evidence_rows : List Owner
  pub children : List Child

abbrev pub rows_of : Kind → Store → List Owner
rows_of nodes s = s.node_rows
rows_of relations s = s.relation_rows
rows_of evidence s = s.evidence_rows

abbrev pub with_rows : Kind → List Owner → Store → Store
with_rows nodes rows s = record s { node_rows = rows }
with_rows relations rows s = record s { relation_rows = rows }
with_rows evidence rows s = record s { evidence_rows = rows }

-- The first row that meets a condition: `ORDER BY id LIMIT 1`.
unfoldable pub first_row {ℓ} : {A : Type ℓ} → (A → Bool) → List A → Option A
first_row p [] = none
first_row p (r ∷ rs) = if p r then some r else first_row p rs

-- `row_by_id` with an internal id, and with a uuid.
abbrev pub row_by_id : Store → Kind → ℕ → Option Owner
row_by_id s kind i = first_row (λ (o : Owner). o.id == i) (rows_of kind s)

abbrev pub row_by_uuid : Store → Kind → String → Option Owner
row_by_uuid s kind u = first_row (λ (o : Owner). str_eq o.uuid u) (rows_of kind s)

-- The record that blocks: its kind, its uuid, and its intent.
pub record Blocker : Type 0 where
  pub kind : Kind
  pub uuid : String
  pub deletion : Deletion

abbrev pub blocker_details : Blocker → BlockerDetails
blocker_details b = record {
  blocking_record = (kind_name b.kind, b.uuid);
  delete_job_id = some b.deletion.job_id;
  pending_since = some b.deletion.requested_at;
  deletion_owner = none;
}

abbrev pub own_blocker : Kind → Owner → Option Blocker
own_blocker kind row = elim row.deletion [
  | none ↦ none
  | some d ↦ some (record { kind = kind; uuid = row.uuid; deletion = d })
]

-- One round of the loop over the ends of a relation.
unfoldable pub end_blocker : Store → Option ℕ → Result (Option Blocker)
end_blocker s none = err (not_found "relation endpoint missing")
end_blocker s (some i) = elim (row_by_id s nodes i) [
  | none ↦ err (not_found "relation endpoint missing")
  | some endpoint ↦ ok (own_blocker nodes endpoint)
]

unfoldable pub ends_blocker : Store → Owner → Result (Option Blocker)
ends_blocker s row = do
  source ← end_blocker s row.source_id
  elim source [ some b ↦ ok (some b) | none ↦ end_blocker s row.target_id ]

unfoldable pub pending_blocker : Store → Kind → Owner → Result (Option Blocker)
pending_blocker s kind row = elim (own_blocker kind row) [
  | some b ↦ ok (some b)
  | none ↦ elim kind [ relations ↦ ends_blocker s row | _ ↦ ok none ]
]

unfoldable pub require_ready : Store → Kind → Owner → Result (Unit {0})
require_ready s kind row = do
  blocker ← pending_blocker s kind row
  elim blocker [
    | none ↦ ok tt
    | some b ↦ err (record_conflict "RECORD_DELETING" (blocker_details b))
  ]
