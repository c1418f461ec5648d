-- ===== src/Graph/Admitting.antt =====
-- storage/deletions.py: `prepare`, which admits a delete request, and the checks before it.
-- `scoped` is `SCOPE_RELATION_TYPES`, and `now` the time of the call in microseconds.
use justpen_knowledgebase_mc.Base.{
  ℕ, String, Bool, false, ◌||◌, none, some, List, [], ◌∷◌, map, Result, ok, err, invalid_params,
  missing_records, raise_if, ◌>>=◌, ◌>>◌, ◌==◌, if◌then◌else◌,
}
use justpen_knowledgebase_mc.Graph.Tables.{
  Kind, evidence, Deletion, Owner, Store, rows_of, with_rows, row_by_uuid, require_ready,
}
use justpen_knowledgebase_mc.Graph.Deletions.{DeleteIntent}
use justpen_knowledgebase_mc.Graph.Blocking.{
  is_one_of, reject_bare_claim, reject_dependency, reject_scope_orphan,
}

pub record DeleteRequest : Type 0 where
  pub kind : Kind
  pub ids : List String
  pub cascade : Bool

-- `len(set(ids)) != len(ids)`
unfoldable pub has_duplicates : List String → Bool
has_duplicates [] = false
has_duplicates (u ∷ us) = is_one_of us u || has_duplicates us

abbrev pub reject_uncascaded : Store → DeleteRequest → Owner → Result (Unit {0})
reject_uncascaded s request row =
    if request.cascade then ok tt else reject_dependency s request.kind row

abbrev pub reject_unbacked : Kind → Store → DeleteRequest → Owner → Result (Unit {0})
reject_unbacked evidence s request row = reject_bare_claim s request.ids row
reject_unbacked _ s request row = ok tt

-- One round of the loop of `_validated_delete_rows`.
unfoldable pub validate_row : List String → Store → DeleteRequest → Owner → Result (Unit {0})
validate_row scoped s request row = do
  require_ready s request.kind row
  reject_scope_orphan scoped s request.kind row
  reject_uncascaded s request row
  reject_unbacked request.kind s request row

unfoldable pub validate_rows : List String → Store → DeleteRequest → List Owner → Result (Unit {0})
validate_rows scoped s request [] = ok tt
validate_rows scoped s request (row ∷ rows) = do
  validate_row scoped s request row
  validate_rows scoped s request rows

-- The rows that the ids name, and the ids that name none.
unfoldable pub found_rows : Store → Kind → List String → List Owner
found_rows s kind [] = []
found_rows s kind (u ∷ us) = elim (row_by_uuid s kind u) [
  | none ↦ found_rows s kind us
  | some row ↦ row ∷ found_rows s kind us
]

unfoldable pub missing_ids : Store → Kind → List String → List String
missing_ids s kind [] = []
missing_ids s kind (u ∷ us) = elim (row_by_uuid s kind u) [
  | none ↦ u ∷ missing_ids s kind us
  | some row ↦ missing_ids s kind us
]

abbrev pub raise_missing : List String → Result (Unit {0})
raise_missing [] = ok tt
raise_missing us = err (missing_records us)

unfoldable pub validated_delete_rows : List String → Store → DeleteRequest → Result (List Owner)
validated_delete_rows scoped s request = do
  let rows = found_rows s request.kind request.ids
  raise_missing (missing_ids s request.kind request.ids)
  validate_rows scoped s request rows
  ok rows

-- `OWNER_PENDING`
unfoldable pub set_pending : ℕ → Deletion → List Owner → List Owner
set_pending i d [] = []
set_pending i d (o ∷ os) =
    (if o.id == i then (record o { deletion = some d }) else o) ∷ set_pending i d os

abbrev pub admit : Kind → Deletion → Owner → DeleteIntent
admit kind d row = record { kind = kind; owner_id = row.id; uuid = row.uuid; deletion = d }

-- The updates of the loop of `prepare`.
unfoldable pub set_all_pending : Kind → Deletion → List Owner → Store → Store
set_all_pending kind d [] s = s
set_all_pending kind d (row ∷ rows) s =
    set_all_pending kind d rows (with_rows kind (set_pending row.id d (rows_of kind s)) s)

abbrev pub intent_deletion : DeleteRequest → String → ℕ → Deletion
intent_deletion request job now = record {
  job_id = job;
  cascade = request.cascade;
  requested_at = now;
}

unfoldable pub prepare :
    List String → Store → DeleteRequest → String → ℕ → Result (Store × List DeleteIntent)
prepare scoped s request job now = do
  raise_if (has_duplicates request.ids) (invalid_params "duplicate delete ids")
  rows ← validated_delete_rows scoped s request
  let d = intent_deletion request job now
  ok (set_all_pending request.kind d rows s, map (admit request.kind d) rows)
