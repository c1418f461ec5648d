-- ===== src/Jobs/Purge.antt =====
-- The purge of one job in storage/job_retention.py: its files, then its blob, then the row.
use justpen_knowledgebase_mc.Base.{
  ℕ, String, Bool, true, false, ◌||◌, ◌&&◌, not, Option, none, some, List, [], ◌∷◌, Result, ok,
  storage_io, conflict, raise_if, or_raise, ◌>>=◌, ◌>>◌, ltb, ◌==◌, str_eq, any, length, select,
  is_some, if◌then◌else◌,
}
use justpen_knowledgebase_mc.Json.{erase}
use justpen_knowledgebase_mc.Jobs.Table.{
  Cell, malformed, object, Job, Evidence, Db, find, job_row, update,
}
use justpen_knowledgebase_mc.Jobs.Retention.{
  is_eligible, holds_token, recorded_tokens, recorded_blob, prune,
}

-- `progress=json_remove(progress,'$.verified_sha256')`
abbrev pub without_locator : Cell → Cell
without_locator malformed = malformed
without_locator (object fs) = object (erase "verified_sha256" fs)

abbrev pub disowned : Job → Job
disowned r = record r { blob_sha256 = none; progress = without_locator r.progress }

-- `json_remove(purge_tokens,'$[0]')`
abbrev pub without_first : Option (List String) → Option (List String)
without_first none = none
without_first (some []) = some []
without_first (some (t ∷ ts)) = some ts

abbrev pub head_of : List String → Option String
head_of [] = none
head_of (t ∷ ts) = some t

-- `OTHER_BLOB_OWNER_SQL`
abbrev pub is_other_owner : String → String → Job → Bool
is_other_owner digest job_id r = elim r.blob_sha256 [
  | none ↦ false
  | some d ↦ str_eq d digest && not (str_eq r.uuid job_id)
]

-- `not isinstance(token, str) or token not in recorded` for none of at most two
abbrev pub is_bad_purge : List String → List String → Bool
is_bad_purge values recorded =
    ltb 2 (length values)
    || not (length (select (λ t. holds_token t recorded) values) == length values)

module _ (uuid : String → Option String) where
  unfoldable pub next_file : Db → String → ℕ → Result (Option String)
  next_file db job_id now = do
    row ← job_row db job_id
    raise_if (not row.purge_pending || not (is_eligible db row now))
        (conflict "JOB_RETENTION_PROTECTED")
    values ← or_raise row.purge_tokens (storage_io "IO_ERROR: malformed purge ownership metadata")
    recorded ← recorded_tokens uuid row
    raise_if (is_bad_purge values recorded)
        (storage_io "IO_ERROR: malformed purge ownership metadata")
    ok (head_of values)

  unfoldable pub next_blob : Db → String → ℕ → Result (Option String)
  next_blob db job_id now = do
    row ← job_row db job_id
    raise_if (not row.purge_pending || not (is_eligible db row now))
        (conflict "JOB_RETENTION_PROTECTED")
    _ ← recorded_tokens uuid row
    recorded_blob uuid row

  -- `JobRetention.next_blob(…) != digest`
  abbrev pub is_changed : Option String → String → Bool
  is_changed none digest = true
  is_changed (some d) digest = not (str_eq d digest)

  unfoldable pub blob_disposable : Db → String → String → ℕ → Result Bool
  blob_disposable db job_id digest now = do
    blob ← next_blob db job_id now
    raise_if (is_changed blob digest) (conflict "PURGE_BLOB_CHANGED")
    ok (
        if any (λ (e : Evidence). str_eq e.sha256 digest) db.evidence
        then false
        else not (any (is_other_owner digest job_id) db.jobs))

  unfoldable pub acknowledge_blob : Db → String → String → ℕ → Result Db
  acknowledge_blob db job_id digest now = do
    blob ← next_blob db job_id now
    raise_if (is_changed blob digest) (conflict "PURGE_BLOB_CHANGED")
    ok (record db { jobs = update job_id disowned db.jobs })

  unfoldable pub acknowledge : Db → String → String → ℕ → Result Db
  acknowledge db job_id token now = do
    head ← next_file db job_id now
    raise_if (is_changed head token) (conflict "PURGE_TOKEN_CHANGED")
    ok (record db {
      jobs = update job_id (λ r. record r { purge_tokens = without_first r.purge_tokens }) db.jobs;
    })

  -- The last test of `finalize`, on the row that is still there.
  unfoldable pub finalize_row : Db → String → Option String → Result (Db × Bool)
  finalize_row db job_id (some token) = ok (db, false)
  finalize_row db job_id none = do
    row ← job_row db job_id
    blob ← recorded_blob uuid row
    ok (if is_some blob then (db, false) else (prune db row, true))

  unfoldable pub finalize : Db → String → ℕ → Result (Db × Bool)
  finalize db job_id now =
      if is_some (find job_id db.jobs)
      then (do head ← next_file db job_id now; finalize_row db job_id head)
      else ok (db, false)
