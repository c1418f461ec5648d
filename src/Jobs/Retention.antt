-- ===== src/Jobs/Retention.antt =====
-- storage/job_retention.py: which terminal jobs are pruned, and how the files and the blob that a
-- job still owns are given up first. `uuid` is `str(UUID(value))`, with none for its ValueError.
use Prim.Native.String.{◌++◌ as concat}
use justpen_knowledgebase_mc.Base.{
  ℕ, ◌+◌, String, Bool, true, false, ◌||◌, ◌&&◌, not, Option, none, some, List, [], ◌∷◌, ◌++◌, ℤ,
  pos, negsuc, ◌+ℤ◌, Error, Result, ok, err, storage_io, raise_if, or_raise, ◌>>=◌, ◌>>◌, str_eq,
  any, is_some, count, if◌then◌else◌,
}
use justpen_knowledgebase_mc.Json.{Value, Fields, str, get, present}
use justpen_knowledgebase_mc.Jobs.Table.{
  State, completed, is_terminal, is_completed, Job, Db, seconds, delete, adjust_terminal_count,
  protected,
}
use justpen_knowledgebase_mc.Jobs.Ownership.{row_metadata}
use justpen_knowledgebase_mc.Jobs.Lease.{has_expired}

-- The fields of `WorkspacePolicy` that retention reads.
pub record Policy : Type 0 where
  pub completed_retention_count : ℕ
  pub completed_retention_seconds : ℕ
  pub failed_cancelled_retention_count : ℕ
  pub failed_cancelled_retention_seconds : ℕ

-- A number for each of the two groups.
pub record Groups : Type 0 where
  pub completed_jobs : ℤ
  pub failed_cancelled_jobs : ℤ

-- `counts[_group(state)]`
abbrev pub at_group : State → Groups → ℤ
at_group completed g = g.completed_jobs
at_group _ g = g.failed_cancelled_jobs

-- `counts[_group(state)] += d`
abbrev pub add_group : State → ℤ → Groups → Groups
add_group completed d g = record g { completed_jobs = g.completed_jobs +ℤ d }
add_group _ d g = record g { failed_cancelled_jobs = g.failed_cancelled_jobs +ℤ d }

abbrev pub retention_count : State → Policy → ℕ
retention_count completed p = p.completed_retention_count
retention_count _ p = p.failed_cancelled_retention_count

abbrev pub retention_time : State → Policy → ℕ
retention_time completed p = seconds p.completed_retention_seconds
retention_time _ p = seconds p.failed_cancelled_retention_seconds

-- `_unleased`
abbrev pub is_unleased : Job → ℕ → Bool
is_unleased row now =
    is_terminal row.state
    && (not (is_some row.lease_expires_at) || has_expired row.lease_expires_at now)

-- `_eligible`
abbrev pub is_eligible : Db → Job → ℕ → Bool
is_eligible db row now = is_unleased row now && not (protected db row.uuid)

malformed_token : Error
malformed_token = storage_io "IO_ERROR: malformed job ownership token"

mismatch : Error
mismatch = storage_io "IO_ERROR: recorded input ownership mismatch"

abbrev pub is_invalid_code : Option String → Bool
is_invalid_code none = false
is_invalid_code (some c) = str_eq c "JOB_METADATA_INVALID"

-- `token in tokens`
abbrev pub holds_token : String → List String → Bool
holds_token t = any (λ u. str_eq u t)

module _ (uuid : String → Option String) where
  -- `_canonical_uuid` of a string: its one spelling, or an error.
  unfoldable pub canonical_text : String → Result String
  unfolding malformed_token
  canonical_text s = do
    canonical ← or_raise (uuid s) malformed_token
    raise_if (not (str_eq canonical s)) malformed_token
    ok canonical

  unfoldable pub canonical_uuid : Value → Result String
  unfolding canonical_text malformed_token
  canonical_uuid (str s) = canonical_text s
  canonical_uuid _ = err malformed_token

  -- `stage_name` of storage/evidence.py
  unfoldable pub stage_name : String → String → String
  stage_name job_id token = concat job_id (concat "." (concat token ".stage"))

  -- `_owned_token`, and the token itself
  unfoldable pub owned_token : String → Value → Result (String × String)
  unfolding canonical_uuid stage_name
  owned_token job_id token = do
    job ← canonical_text job_id
    t ← canonical_uuid token
    ok (stage_name job t, t)

  -- `_ownership`
  unfoldable pub ownership : Job → Result (Fields × Fields)
  unfolding canonical_text
  ownership row = do
    _ ← canonical_text row.uuid
    raise_if (is_invalid_code row.error_code) (storage_io "IO_ERROR: JOB_METADATA_INVALID")
    (payload, progress, _) ← row_metadata row
    ok (payload, progress)

  -- `_owned_token(…) != payload.get("input_stage")`
  abbrev pub is_other_stage : String → Option Value → Bool
  is_other_stage name (some (str s)) = not (str_eq name s)
  is_other_stage name _ = true

  -- The token of the durable input, if the payload records one.
  unfoldable pub input_tokens : Job → Fields → Result (List String)
  unfolding owned_token mismatch
  input_tokens row payload = elim (present (get "input_token" payload)) [
    | none ↦ do raise_if (is_some (present (get "input_stage" payload))) mismatch; ok []
    | some token ↦ do
      (name, t) ← owned_token row.uuid token
      raise_if (is_other_stage name (get "input_stage" payload)) mismatch
      ok (t ∷ [])
  ]

  -- The token of the last stage, after that of the input.
  unfoldable pub stage_tokens : Job → Fields → List String → Result (List String)
  unfolding owned_token
  stage_tokens row progress tokens = elim (present (get "stage_token" progress)) [
    | none ↦ ok tokens
    | some token ↦ do
      (_, t) ← owned_token row.uuid token
      ok (if holds_token t tokens then tokens else tokens ++ t ∷ [])
  ]

  -- `_recorded_tokens`
  unfoldable pub recorded_tokens : Job → Result (List String)
  unfolding ownership input_tokens stage_tokens
  recorded_tokens row = do
    (payload, progress) ← ownership row
    tokens ← input_tokens row payload
    stage_tokens row progress tokens

  unfoldable pub recorded_blob : Job → Result (Option String)
  unfolding ownership
  recorded_blob row = do _ ← ownership row; ok row.blob_sha256

-- `_prune`
unfoldable pub prune : Db → Job → Db
prune db row =
    let counted =
      adjust_terminal_count row.state (negsuc 0) (record db { jobs = delete row.uuid db.jobs }) in
    record counted { pruned_total = counted.pruned_total + 1 }

-- `JobRetention.reconcile`
unfoldable pub reconcile : Db → Db
reconcile db = record db {
  completed_count = pos (count (λ r. is_completed r.state) db.jobs);
  failed_cancelled_count =
      pos (count (λ r. is_terminal r.state && not (is_completed r.state)) db.jobs);
}
