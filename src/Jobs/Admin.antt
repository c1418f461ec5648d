-- ===== src/Jobs/Admin.antt =====
-- `JobStore` of storage/jobs.py: admission, cancellation and retry of jobs. `cancel` and
-- `retry` end in `JobStore.get`, of which only the outcome stands here. A payload of a reindex row is JSON to
-- SQLite, since the index `jobs_active_full` evaluates the same `json_extract` at each write.
use justpen_knowledgebase_mc.Base.{
  ℕ, zero, suc, ◌+◌, ◌^◌, String, Bool, true, false, ◌||◌, ◌&&◌, not, Option, none, some, [], ◌∷◌,
  ◌++◌, pos, negsuc, Result, ok, err, storage_io, conflict, invalid_params, value_error,
  constraint_error, raise_if, ◌>>=◌, ◌>>◌, ◌==◌, str_eq, any, is_some, if◌then◌else◌,
}
use justpen_knowledgebase_mc.Json.{
  Value, Fields, null, boolean, int, float, str, arr, obj, nil, cons, end, field, get, erase, has,
}
use justpen_knowledgebase_mc.Jobs.Table.{
  Cell, malformed, object, dumped, queued, cancelled, is_queued, is_running, is_failed_cancelled,
  Job, Db, find, job_row, update, adjust_terminal_count,
}
use justpen_knowledgebase_mc.Jobs.Ownership.{row_metadata}

-- Python's truth of `payload.get("all")`
abbrev pub is_truthy : Option Value → Bool
is_truthy none = false
is_truthy (some null) = false
is_truthy (some (boolean b)) = b
is_truthy (some (int (pos zero))) = false
is_truthy (some (int _)) = true
is_truthy (some (float bits)) = not (bits == 0 || bits == 2 ^ 63)
is_truthy (some (str s)) = not (str_eq s "")
is_truthy (some (arr nil)) = false
is_truthy (some (arr (cons _ _))) = true
is_truthy (some (obj end)) = false
is_truthy (some (obj (field _ _ _))) = true

-- `json_extract(payload,'$.all')=1`
abbrev pub is_one : Option Value → Bool
is_one (some (boolean true)) = true
is_one (some (int (pos (suc zero)))) = true
is_one _ = false

abbrev pub cell_all : Cell → Option Value
cell_all malformed = none
cell_all (object fs) = get "all" fs

-- The rows of the unique index `jobs_active_full`.
abbrev pub is_active_full : Job → Bool
is_active_full r =
    str_eq r.kind "reindex"
    && (is_one (cell_all r.payload) && (is_queued r.state || is_running r.state))

-- The columns that an INSERT leaves out take their defaults.
abbrev pub new_job : ℕ → String → String → String → Fields → ℕ → Job
new_job id job_id kind lane payload now = record {
  id = id;
  uuid = job_id;
  kind = kind;
  state = queued;
  requested_at = now;
  updated_at = now;
  lease_token = none;
  lease_expires_at = none;
  progress = object end;
  blob_sha256 = none;
  cancel_requested = false;
  error_code = none;
  payload = dumped payload;
  lane = lane;
  finished_at = none;
  result = object end;
  attempts = 0;
  purge_tokens = some [];
  purge_pending = false;
}

-- `JobStore.insert`, with the two unique indexes of the table.
unfoldable pub insert : Db → String → String → String → Fields → ℕ → Result Db
insert db job_id kind lane payload now = do
  raise_if (has "text" payload || has "base64" payload)
      (invalid_params "inline body cannot be stored in job")
  let job = new_job db.next_id job_id kind lane payload now
  raise_if (is_some (find job_id db.jobs) || (is_active_full job && any is_active_full db.jobs))
      constraint_error
  ok (record db { jobs = db.jobs ++ job ∷ []; next_id = db.next_id + 1 })

-- `payload`, or the error that replaces `StorageIOError`
abbrev pub metadata_or_conflict :
    Result (Fields × Fields × Fields) → Result (Fields × Fields × Fields)
metadata_or_conflict (ok cells) = ok cells
metadata_or_conflict (err (storage_io m)) = err (conflict "JOB_METADATA_INVALID")
metadata_or_conflict (err e) = err e

-- `"all" in payload and not isinstance(payload["all"], bool)`
abbrev pub is_bad_all : Option Value → Bool
is_bad_all none = false
is_bad_all (some (boolean _)) = false
is_bad_all (some _) = true

abbrev pub flagged : Job → Job
flagged r = record r { cancel_requested = true }

abbrev pub cancelled_at : ℕ → ℕ → Job → Job
cancelled_at now now' r = record r {
  state = cancelled;
  cancel_requested = true;
  finished_at = some now;
  updated_at = now';
}

-- The writes of `cancel`: a queued full reindex is only flagged, other queued work ends at once.
unfoldable pub cancel_write : Db → Job → Fields → ℕ → ℕ → Db
cancel_write db row payload now now' =
    if is_queued row.state && (str_eq row.kind "reindex" && is_truthy (get "all" payload))
    then record db { jobs = update row.uuid flagged db.jobs }
    else if is_queued row.state
    then adjust_terminal_count cancelled (pos 1)
        (record db { jobs = update row.uuid (cancelled_at now now') db.jobs })
    else if is_running row.state
    then record db { jobs = update row.uuid flagged db.jobs }
    else db

-- `JobStore.get` as far as it can raise. `shows` says whether Pydantic accepts the view of a readable
-- row as a `JobResult`; a row whose metadata is not readable has a view that needs no cell.
abbrev pub is_invalid_metadata : Option String → Bool
is_invalid_metadata none = false
is_invalid_metadata (some code) = str_eq code "JOB_METADATA_INVALID"

unfoldable pub get_view : Bool → Job → Result (Fields × Fields × Fields) → Result (Unit {0})
get_view shown row (ok cells) =
    raise_if (not (is_invalid_metadata row.error_code || shown)) (value_error "ValidationError")
get_view shown row (err (storage_io m)) = ok tt
get_view shown row (err e) = err e

unfoldable pub get_job : (Db → Job → Bool) → Db → String → Result (Unit {0})
get_job shows db job_id = do row ← job_row db job_id; get_view (shows db row) row (row_metadata row)

-- `cancel` before its last line
unfoldable pub cancel_row : Db → String → ℕ → ℕ → Result Db
cancel_row db job_id now now' = do
  row ← job_row db job_id
  raise_if (str_eq row.kind "delete") (conflict "DELETE_ALREADY_COMMITTED")
  raise_if row.purge_pending (conflict "JOB_PURGING")
  (payload, _, _) ← metadata_or_conflict (row_metadata row)
  raise_if (str_eq row.kind "reindex" && is_bad_all (get "all" payload))
      (conflict "JOB_METADATA_INVALID")
  ok (cancel_write db row payload now now')

unfoldable pub cancel : (Db → Job → Bool) → Db → String → ℕ → ℕ → Result Db
cancel shows db job_id now now' = do
  db' ← cancel_row db job_id now now'
  get_job shows db' job_id
  ok db'

-- `json_remove(result,'$.error','$.reason','$.details')`
abbrev pub without_error : Cell → Cell
without_error malformed = malformed
without_error (object fs) = object (erase "details" (erase "reason" (erase "error" fs)))

abbrev pub emptied : Job → Job
emptied r = record r { progress = object end; result = object end }

abbrev pub requeued : ℕ → Job → Job
requeued now r = record r {
  state = queued;
  result = without_error r.result;
  cancel_requested = false;
  finished_at = none;
  lease_token = none;
  lease_expires_at = none;
  error_code = none;
  updated_at = now;
}

-- A full reindex starts a new query epoch, unless another one is active.
unfoldable pub retry_full : Db → Job → Fields → Result Db
retry_full db row payload =
    if str_eq row.kind "reindex" && is_truthy (get "all" payload)
    then (do
      raise_if (any is_active_full db.jobs) (conflict "FULL_REINDEX_ACTIVE")
      ok (record db { query_epoch = db.query_epoch + 1; jobs = update row.uuid emptied db.jobs }))
    else ok db

-- `retry` before its last line
unfoldable pub retry_row : Db → String → ℕ → Result Db
retry_row db job_id now = do
  row ← job_row db job_id
  raise_if row.purge_pending (conflict "JOB_PURGING")
  raise_if (not (is_failed_cancelled row.state))
      (invalid_params "only failed or cancelled jobs can retry")
  (payload, _, _) ← metadata_or_conflict (row_metadata row)
  db' ← retry_full db row payload
  let counted = adjust_terminal_count row.state (negsuc 0) db'
  ok (record counted { jobs = update job_id (requeued now) counted.jobs })

unfoldable pub retry : (Db → Job → Bool) → Db → String → ℕ → Result Db
retry shows db job_id now = do db' ← retry_row db job_id now; get_job shows db' job_id; ok db'

-- `rejection_payload`, and its admission
abbrev pub rejection_payload : String → Fields
rejection_payload node_id = field "node_id" (str node_id) (field "rejection" (boolean true) end)

unfoldable pub admit_rejection : Db → String → String → ℕ → Result Db
admit_rejection db job_id node_id now =
    insert db job_id "delete" "short" (rejection_payload node_id) now
