-- ===== src/Deleting.antt =====
-- The delete jobs of `JobStore` in storage/jobs.py, over the job table and the graph together: `tables` shows the
-- marks and the evidence of a store in the columns of `Db` that the job code reads. `types`
-- is `_REJECTION_NODE_TYPES`, `scoped` is `SCOPE_RELATION_TYPES`, and `show` is `str` on an integer.
-- The n-th value of a clock is the n-th time that a call reads.
pub mod Rejecting
pub mod Completing
pub mod Ordinary
pub mod Failing
pub mod Keeping
mod Tests
use justpen_knowledgebase_mc.Base.{
  ℕ, zero, suc, ◌+◌, String, Bool, true, false, not, Option, none, some, List, [], ◌∷◌, ◌++◌, take,
  length, ℤ, pos, ◌+ℤ◌, ltb_ℤ, Result, ok, err, conflict, value_error, type_error, raise_if,
  or_raise, ◌>>=◌, ◌>>◌, ◌==◌, str_eq, if◌then◌else◌, ◌&&◌,
}
use justpen_knowledgebase_mc.Json.{
  Value, Fields, Items, str, int, arr, boolean, nil, cons, end, field, get, put,
}
use justpen_knowledgebase_mc.Graph.Tables.{
  Kind, nodes, relations, evidence, kind_name, Owner, Store, rows_of, row_by_id, row_by_uuid,
  with_rows, first_row, Deletion,
}
use justpen_knowledgebase_mc.Graph.Deletions.{
  DeleteIntent, DeleteStep, is_intent_of, delete_owner, step,
}
use justpen_knowledgebase_mc.Graph.Rejections.{RejectionStep, purge_rejection}
use justpen_knowledgebase_mc.Graph.Admitting.{DeleteRequest, admit, prepare}
use justpen_knowledgebase_mc.Properties.Pointer.{append}
use justpen_knowledgebase_mc.Jobs.Table.{Db, Evidence, completed}
use justpen_knowledgebase_mc.Jobs.Lease.{Claim, fence, finish, release}
use justpen_knowledgebase_mc.Jobs.Admin.{insert, is_truthy}

pub record Tables : Type 0 where
  pub db : Db
  pub store : Store

-- The jobs that the marks of some rows name.
unfoldable pub marked_by : List Owner → List String
marked_by [] = []
marked_by (o ∷ os) = elim o.deletion [ none ↦ marked_by os | some d ↦ d.job_id ∷ marked_by os ]

abbrev pub job_of : Option Deletion → Option String
job_of none = none
job_of (some d) = some d.job_id

-- The rows of `evidence` that are there still, with their marks.
unfoldable pub evidence_left : List Owner → List Evidence → List Evidence
evidence_left rows [] = []
evidence_left rows (e ∷ es) =
    let rest = evidence_left rows es in
    elim (first_row (λ (o : Owner). str_eq o.uuid e.uuid) rows) [
      | none ↦ rest
      | some o ↦ record e { delete_job = job_of o.deletion } ∷ rest
    ]

-- The graph after a write, as the columns that the job code reads show it.
abbrev pub synced : Store → Db → Db
synced s db = record db {
  pending = marked_by s.node_rows ++ marked_by s.relation_rows;
  evidence = evidence_left s.evidence_rows db.evidence;
}

abbrev pub tables : Db → Store → Tables
tables db s = record { db = synced s db; store = s }

abbrev pub Clock : Type 0
Clock = ℕ → ℕ

-- An integer that the job wrote in its progress, and what absence means.
abbrev pub int_of : Option Value → Result ℤ
int_of none = ok (pos 0)
int_of (some (int n)) = ok n
int_of (some _) = err type_error

abbrev pub list_of : Option Value → Result Items
list_of none = ok nil
list_of (some (arr items)) = ok items
list_of (some _) = err type_error

-- `[*items, *uuids]`
unfoldable pub extend : Items → List String → Items
extend nil [] = nil
extend nil (u ∷ us) = cons (str u) (extend nil us)
extend (cons v items) us = cons v (extend items us)

-- `items[:n]`
unfoldable pub take_items : ℕ → Items → Items
take_items zero items = nil
take_items (suc n) nil = nil
take_items (suc n) (cons v items) = cons v (take_items n items)

abbrev pub ids_cap : ℕ
ids_cap = 100

-- `progress` of `_rejection_step`
pub record RejectionProgress : Type 0 where
  pub rows_deleted : ℤ
  pub deleted_ids : Items
  pub deleted_count : ℤ

unfoldable pub rejection_progress : Fields → RejectionStep → Result RejectionProgress
rejection_progress progress st = do
  ids ← list_of (get "deleted_ids" progress)
  rows ← int_of (get "rows_deleted" progress)
  count ← int_of (get "deleted_count" progress)
  ok (record {
    rows_deleted = rows +ℤ pos st.rows_deleted;
    deleted_ids = take_items ids_cap (extend ids st.purged);
    deleted_count = count +ℤ pos (length st.purged);
  })

abbrev pub progress_fields : RejectionProgress → Fields
progress_fields p =
    field "rows_deleted" (int p.rows_deleted)
      (field "deleted_ids" (arr p.deleted_ids) (field "deleted_count" (int p.deleted_count) end))

-- `{"rows_deleted": n}`
abbrev pub rows_field : ℤ → Fields
rows_field n = field "rows_deleted" (int n) end

-- The objects that a delete job finishes with.
abbrev pub ids_field : Value → Fields
ids_field ids = field "deleted_ids" ids end

-- The evidence file that a caller unlinks: its uuid and its digest.
abbrev pub File : Type 0
File = String × Option String

module _ (show : ℤ → String) where
  -- The warning of `_rejection_result`
  abbrev pub cap_warning : ℤ → String
  cap_warning n =
      append (append "deleted " (show n))
        (append " records; deleted_ids lists the first " (show (pos ids_cap)))

  unfoldable pub rejection_result : RejectionProgress → Fields
  rejection_result p =
      let result =
        field "deleted_ids" (arr p.deleted_ids)
          (field "progress" (Value.obj (rows_field p.rows_deleted)) end) in
      if ltb_ℤ (pos ids_cap) p.deleted_count
      then put "warnings" (arr (cons (str (cap_warning p.deleted_count)) nil)) result
      else result

  -- The end of `_rejection_step`
  unfoldable pub end_rejection : Db → Claim → Bool → RejectionProgress → Clock → Result Db
  end_rejection db c true p clock = finish db c completed (rejection_result p) (clock 1) (clock 2)
  end_rejection db c false p clock = release db c (progress_fields p) (clock 1) (clock 2)

  unfoldable pub rejection_step : List String → Tables → Claim → Clock → Result Tables
  rejection_step types t c clock = do
    (s, st) ← purge_rejection types t.store c.job_id 100
    p ← rejection_progress c.progress st
    db ← end_rejection t.db c st.done p clock
    ok (tables db s)

  -- `INTENT_SQL`
  unfoldable pub intents_from : Kind → String → List Owner → List DeleteIntent
  intents_from kind job [] = []
  intents_from kind job (o ∷ os) = elim o.deletion [
    | none ↦ intents_from kind job os
    | some d ↦
        if str_eq d.job_id job
        then admit kind d o ∷ intents_from kind job os
        else intents_from kind job os
  ]

  abbrev pub intents : Kind → Store → String → List DeleteIntent
  intents kind s job = take 100 (intents_from kind job (rows_of kind s))

  abbrev pub is_kind : Kind → Option Value → Bool
  is_kind kind (some (str name)) = str_eq name (kind_name kind)
  is_kind kind _ = false

  -- `claim.payload["kind"]`, as the key of `INTENT_SQL`
  abbrev pub payload_kind : Fields → Result Kind
  payload_kind payload =
      let name = get "kind" payload in
      if is_kind nodes name
      then ok nodes
      else if is_kind relations name
      then ok relations
      else if is_kind evidence name
      then ok evidence
      else err (value_error "KeyError")

  -- `claim.payload["ids"]`
  abbrev pub payload_ids : Fields → Result Value
  payload_ids payload = or_raise (get "ids" payload) (value_error "KeyError")

  -- `progress.update(files_pending=intent.uuid)`, and the release
  unfoldable pub await_files :
      Db → Store → Claim → DeleteIntent → ℤ → Clock → Result (Tables × Option File)
  await_files db s c intent rows clock = do
    owner ← or_raise (row_by_id s evidence intent.owner_id) (conflict "delete owner disappeared")
    db' ←
        release db c (field "rows_deleted" (int rows) (field "files_pending" (str intent.uuid) end))
          (clock 1) (clock 2)
    ok (tables db' s, some (intent.uuid, owner.sha256))

  unfoldable pub end_delete : Db → Store → Claim → Bool → ℤ → Clock → Result (Tables × Option File)
  end_delete db s c true rows clock = do
    ids ← payload_ids c.payload
    db' ←
        finish db c completed
          (field "deleted_ids" ids (field "progress" (Value.obj (rows_field rows)) end)) (clock 1)
          (clock 2)
    ok (tables db' s, none)
  end_delete db s c false rows clock = do
    db' ← release db c (rows_field rows) (clock 1) (clock 2)
    ok (tables db' s, none)

  -- `delete_step` on the first of the intents
  unfoldable pub step_intent :
      Tables → Claim → DeleteIntent → Bool → Clock → Result (Tables × Option File)
  step_intent t c intent last clock = do
    (s, st) ← step t.store intent 100
    before ← int_of (get "rows_deleted" c.progress)
    let rows = before +ℤ pos st.rows_deleted
    (if st.files_pending
        then await_files t.db s c intent rows clock
        else end_delete t.db s c (last && st.done) rows clock)

  abbrev pub is_empty : List DeleteIntent → Bool
  is_empty [] = true
  is_empty (_ ∷ _) = false

  -- The rest of `delete_step`, from the rows of the intents.
  unfoldable pub step_first :
      Tables → Claim → List DeleteIntent → Clock → Result (Tables × Option File)
  step_first t c [] clock = do
    ids ← payload_ids c.payload
    db ← finish t.db c completed (ids_field ids) (clock 1) (clock 2)
    ok (tables db t.store, none)
  step_first t c (intent ∷ rest) clock = step_intent t c intent (is_empty rest) clock

  unfoldable pub plain_step : Tables → Claim → Clock → Result (Tables × Option File)
  plain_step t c clock = do
    kind ← payload_kind c.payload
    step_first t c (intents kind t.store c.job_id) clock

  unfoldable pub delete_step : List String → Tables → Claim → Clock → Result (Tables × Option File)
  delete_step types t c clock = do
    _ ← fence t.db c (clock 0)
    (if is_truthy (get "rejection" c.payload)
        then (do t' ← rejection_step types t c clock; ok (t', none))
        else plain_step t c clock)

  -- The row of `finalize_evidence`, if it is there still
  unfoldable pub remove_evidence : Store → String → String → Result Store
  remove_evidence s job uuid = elim (row_by_uuid s evidence uuid) [
    | none ↦ ok s
    | some row ↦ do
      raise_if (not (is_intent_of job row)) (conflict "delete intent mismatch")
      ok (with_rows evidence (delete_owner row.id s.evidence_rows) s)
  ]

  -- The end of `finalize_evidence`, by the intents that remain
  unfoldable pub after_file : Db → Claim → List DeleteIntent → Clock → Result Db
  after_file db c [] clock = do
    ids ← payload_ids c.payload
    finish db c completed (ids_field ids) (clock 1) (clock 2)
  after_file db c (_ ∷ _) clock = do
    before ← int_of (get "rows_deleted" c.progress)
    release db c (rows_field (before +ℤ pos 1)) (clock 1) (clock 2)

  unfoldable pub finalize_evidence : Tables → Claim → String → Clock → Result Tables
  finalize_evidence t c uuid clock = do
    _ ← fence t.db c (clock 0)
    s ← remove_evidence t.store c.job_id uuid
    db ← after_file t.db c (intents evidence s c.job_id) clock
    ok (tables db s)

unfoldable pub strings : List String → Items
strings [] = nil
strings (u ∷ us) = cons (str u) (strings us)

abbrev pub request_payload : DeleteRequest → Fields
request_payload request =
    field "kind" (str (kind_name request.kind))
      (field "ids" (arr (strings request.ids)) (field "cascade" (boolean request.cascade) end))

unfoldable pub admit_delete : List String → Tables → DeleteRequest → String → Clock → Result Tables
admit_delete scoped t request job clock = do
  db ← insert t.db job "delete" "short" (request_payload request) (clock 0)
  (s, _) ← prepare scoped t.store request job (clock 1)
  ok (tables db s)
