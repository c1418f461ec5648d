-- ===== src/Graph/Blocking.antt =====
-- storage/deletions.py: what stands in the way of a deletion. `scoped` is `SCOPE_RELATION_TYPES`.
use justpen_knowledgebase_mc.Base.{
  ℕ, String, Bool, false, ◌||◌, ◌&&◌, not, Option, none, some, List, [], ◌∷◌, Result, ok, err,
  conflict, record_conflict, BlockerDetails, raise_if, ◌>>=◌, str_eq, any, if◌then◌else◌, is_some,
}
use justpen_knowledgebase_mc.Graph.Tables.{
  Kind, nodes, relations, evidence, kind_name, Owner, Table, node_evidence, relation_evidence,
  Column, by_node, by_relation, by_evidence, Child, column_of, is_child, is_id, Store, first_row,
  row_by_id, Blocker, pending_blocker,
}

abbrev pub is_one_of : List String → String → Bool
is_one_of us u = any (str_eq u) us

-- A query of `_dependency`: the id that its first row gives.
pub data Query : Type 0 where
  relation_from relation_into : Query
  linked : Table → Column → Column → Query

unfoldable pub run_query : Store → ℕ → Query → Option ℕ
run_query s i relation_from = elim (first_row (λ r. is_id i r.source_id) s.relation_rows) [
  | none ↦ none
  | some r ↦ some r.id
]
run_query s i relation_into = elim (first_row (λ r. is_id i r.target_id) s.relation_rows) [
  | none ↦ none
  | some r ↦ some r.id
]
run_query s i (linked table owner other) = elim (first_row (is_child (table, owner) i) s.children) [
  | none ↦ none
  | some c ↦ column_of other c
]

abbrev pub dependency_queries : Kind → List (Kind × Query)
dependency_queries nodes =
    (relations, relation_from)
    ∷ (relations, relation_into)
    ∷ (evidence, linked node_evidence by_node by_evidence)
    ∷ []
dependency_queries relations = (evidence, linked relation_evidence by_relation by_evidence) ∷ []
dependency_queries evidence =
    (nodes, linked node_evidence by_evidence by_node)
    ∷ (relations, linked relation_evidence by_evidence by_relation)
    ∷ []

-- The loop of `_dependency`.
unfoldable pub first_dependency : Store → ℕ → List (Kind × Query) → Result (Option (Kind × Owner))
first_dependency s i [] = ok none
first_dependency s i ((kind, query) ∷ rest) = elim (run_query s i query) [
  | none ↦ first_dependency s i rest
  | some j ↦ elim (row_by_id s kind j) [
    | none ↦ err (conflict "owner disappeared")
    | some row ↦ ok (some (kind, row))
  ]
]

abbrev pub same_record : String × String → String × String → Bool
same_record (kind, id) (kind', id') = str_eq kind kind' && str_eq id id'

-- `details` of `_reject_dependency`
abbrev pub dependency_details : String × String → Option Blocker → BlockerDetails
dependency_details other none = record {
  blocking_record = other;
  delete_job_id = none;
  pending_since = none;
  deletion_owner = none;
}
dependency_details other (some b) = record {
  blocking_record = other;
  delete_job_id = some b.deletion.job_id;
  pending_since = some b.deletion.requested_at;
  deletion_owner =
      if same_record (kind_name b.kind, b.uuid) other
      then none
      else some (kind_name b.kind, b.uuid);
}

unfoldable pub reject_dependency : Store → Kind → Owner → Result (Unit {0})
reject_dependency s kind row = do
  dependency ← first_dependency s row.id (dependency_queries kind)
  elim dependency [
    | none ↦ ok tt
    | some (other_kind, other) ↦ do
      blocker ← pending_blocker s other_kind other
      err (
          record_conflict "DEPENDENCIES_EXIST"
            (dependency_details (kind_name other_kind, other.uuid) blocker))
  ]

-- `column IN (…)`, which a NULL is not.
abbrev pub is_claim : List String → Option String → Bool
is_claim values none = false
is_claim values (some v) = is_one_of values v

abbrev pub ownership_claims : List String
ownership_claims = "owned" ∷ "dependency" ∷ "rejected" ∷ []

abbrev pub authorization_claims : List String
authorization_claims = "in_scope" ∷ "out_of_scope" ∷ []

-- `CLAIM_HELD`
abbrev pub claim_held : Owner → Bool
claim_held n =
    is_claim ownership_claims n.ownership
    || (is_claim authorization_claims n.authorization
        || is_claim authorization_claims n.authorization_override)

abbrev pub is_ready : Owner → Bool
is_ready o = not (is_some o.deletion)

-- The evidence that a link names is ready and is not among the ids.
abbrev pub is_ready_link : List Owner → List String → ℕ → Child → Bool
is_ready_link sources ids node c =
    is_child (node_evidence, by_node) node c
    && any (λ (e : Owner). is_id e.id c.evidence_id && (is_ready e && not (is_one_of ids e.uuid)))
        sources

-- `READY_LINK`
abbrev pub has_ready_link : Store → List String → ℕ → Bool
has_ready_link s ids node = any (is_ready_link s.evidence_rows ids node) s.children

abbrev pub is_bare : Store → List String → Owner → Bool
is_bare s ids n = is_ready n && (claim_held n && not (has_ready_link s ids n.id))

-- `_BARE_CLAIM`, from the links of the evidence in their order: a link and the node it joins.
unfoldable pub bare_claim : Store → List String → ℕ → List Child → Option Owner
bare_claim s ids owner [] = none
bare_claim s ids owner (c ∷ cs) =
    if is_child (node_evidence, by_evidence) owner c
    then elim (first_row (λ (n : Owner). is_id n.id c.node_id && is_bare s ids n) s.node_rows) [
      | some n ↦ some n
      | none ↦ bare_claim s ids owner cs
    ]
    else bare_claim s ids owner cs

unfoldable pub reject_bare_claim : Store → List String → Owner → Result (Unit {0})
reject_bare_claim s ids row = elim (bare_claim s ids row.id s.children) [
  | none ↦ ok tt
  | some n ↦
      err
        (record_conflict "LAST_CLAIM_EVIDENCE" (dependency_details (kind_name nodes, n.uuid) none))
]

-- `SCOPED_CHILD_BY_PARENT`
abbrev pub is_scoped_child : Store → List String → ℕ → Owner → Bool
is_scoped_child s scoped parent r =
    is_id parent r.source_id
    && (is_one_of scoped r.type && any (λ (n : Owner). is_id n.id r.target_id) s.node_rows)

unfoldable pub is_scope_orphan : List String → Store → Kind → Owner → Bool
is_scope_orphan scoped s relations row =
    is_one_of scoped row.type && any (λ (n : Owner). is_id n.id row.target_id) s.node_rows
is_scope_orphan scoped s nodes row = any (is_scoped_child s scoped row.id) s.relation_rows
is_scope_orphan scoped s evidence row = false

abbrev pub reject_scope_orphan : List String → Store → Kind → Owner → Result (Unit {0})
reject_scope_orphan scoped s kind row =
    raise_if (is_scope_orphan scoped s kind row) (conflict "scoped child must be deleted first")
