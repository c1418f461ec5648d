-- ===== src/Jobs/Lease.antt =====
-- `JobStore` of storage/jobs.py: the claim of a job under a lease, and what a worker writes while
-- the lease is live. `time.time()` and `uuid4()` are arguments, one for each call. Each method runs
-- inside one transaction.
use justpen_knowledgebase_mc.Base.{
  ℕ, ◌+◌, ◌-◌, ◌^◌, String, Bool, true, false, ◌||◌, ◌&&◌, not, Option, none, some, List, [], ◌∷◌,
  pos, Result, ok, err, storage_io, conflict, invalid_params, type_error, raise_if, ◌>>=◌, ◌>>◌,
  ltb, leb, ◌==◌, str_eq, length, take, select, if◌then◌else◌,
}
use justpen_knowledgebase_mc.Json.{Value, Fields, str, get}
use justpen_knowledgebase_mc.Jobs.Table.{
  dumped, State, queued, running, failed, is_terminal, is_queued, is_running, Job, Db, seconds,
  job_row, update, adjust_terminal_count,
}
use justpen_knowledgebase_mc.Jobs.Ownership.{row_metadata, checkpoint_ownership}

abbrev pub lease_time : ℕ
lease_time = seconds 30

abbrev pub max_id : ℕ
max_id = 2 ^ 63 - 1

-- One expiring capability of a worker.
pub record Claim : Type 0 where
  pub job_id : String
  pub token : String
  pub kind : String
  pub lane : String
  pub payload : Fields
  pub progress : Fields
  pub expires_at : ℕ
  pub is_cancelled : Bool
  pub lost : Bool
  pub result : Fields

-- `Claim.check`
unfoldable pub check : Claim → ℕ → Result (Unit {0})
check c now = do
  raise_if (c.lost || leb c.expires_at now) (conflict "CLAIM_LOST")
  raise_if c.is_cancelled (conflict "JOB_CANCELLED")

-- `expires is not None and expires <= now`
abbrev pub has_expired : Option ℕ → ℕ → Bool
has_expired none now = false
has_expired (some t) now = leb t now

-- The WHERE clause of `isolate_failed_metadata`, and the test of `claim_batch`.
abbrev pub is_claimable : ℕ → Job → Bool
is_claimable now r = is_queued r.state || (is_running r.state && has_expired r.lease_expires_at now)

abbrev pub isolated : ℕ → Job → Job
isolated now r = record r {
  state = failed;
  error_code = some "JOB_METADATA_INVALID";
  finished_at = some now;
  updated_at = now;
  lease_token = none;
  lease_expires_at = none;
}

-- The counter moves only when the UPDATE changed a row.
unfoldable pub isolate_failed_metadata : Db → Job → ℕ → Result Db
isolate_failed_metadata db row now = do
  durable ← job_row db row.uuid
  ok (
      if is_claimable now durable
      then adjust_terminal_count failed (pos 1)
          (record db { jobs = update row.uuid (isolated now) db.jobs })
      else db)

abbrev pub claimed : String → ℕ → Job → Job
claimed token now r = record r {
  state = running;
  lease_token = some token;
  lease_expires_at = some (now + lease_time);
  updated_at = now;
  attempts = r.attempts + 1;
}

abbrev pub claim_of : Job → String → ℕ → Fields × Fields × Fields → Claim
claim_of row token now (payload, progress, result) = record {
  job_id = row.uuid;
  token = token;
  kind = row.kind;
  lane = row.lane;
  payload = payload;
  progress = progress;
  expires_at = now + lease_time;
  is_cancelled = row.cancel_requested;
  lost = false;
  result = result;
}

-- The two ways out of the `try` of `_claim_selected`.
unfoldable pub claim_read :
    Db → Job → String → ℕ → Result (Fields × Fields × Fields) → Result (Db × Option Claim)
claim_read db row token now (ok cells) = ok (
  record db { jobs = update row.uuid (claimed token now) db.jobs },
  some (claim_of row token now cells),
)
claim_read db row token now (err (storage_io m)) = do
  db' ← isolate_failed_metadata db row now
  ok (db', none)
claim_read db row token now (err e) = err e

unfoldable pub claim_selected : Db → String → String → ℕ → Result (Db × Option Claim)
claim_selected db value token now = do
  row ← job_row db value
  claim_read db row token now (row_metadata row)

-- `CLAIM_BATCH_SQL`
abbrev pub is_candidate : String → String → ℕ → ℕ → Job → Bool
is_candidate lane kind lower upper r =
    str_eq r.lane lane
    && (str_eq r.kind kind
        && (not r.purge_pending
            && ((is_queued r.state || is_running r.state) && (ltb lower r.id && leb r.id upper))))

-- The state, the claim and the last id examined.
abbrev pub Scan : Type 0
Scan = Db × Option Claim × ℕ

-- The loop over the rows of one range, which are read before the loop.
unfoldable pub examine : List Job → String → ℕ → Db → ℕ → Result Scan
examine [] token now db after = ok (db, none, after)
examine (r ∷ rows) token now db after =
    if is_queued r.state || has_expired r.lease_expires_at now
    then (do
      (db', found) ← claim_selected db r.uuid token now
      elim found [ none ↦ examine rows token now db' r.id | some c ↦ ok (db', some c, r.id) ])
    else examine rows token now db r.id

abbrev pub range_rows : Db → String → String → ℕ → ℕ → ℕ → List Job
range_rows db lane kind lower upper limit =
    take limit (select (is_candidate lane kind lower upper) db.jobs)

-- The second range, which wraps to the ids up to `after_id`.
unfoldable pub wrap_around : String → String → ℕ → String → ℕ → ℕ → Scan → Result Scan
wrap_around lane kind after_id token now remaining (db, some c, after) = ok (db, some c, after)
wrap_around lane kind after_id token now remaining (db, none, after) =
    if after_id == 0 || remaining == 0
    then ok (db, none, after)
    else examine (range_rows db lane kind 0 after_id remaining) token now db after

unfoldable pub claim_batch : Db → String → String → ℕ → String → ℕ → Result Scan
claim_batch db lane kind after_id token now = do
  let rows = range_rows db lane kind after_id max_id 100
  scan ← examine rows token now db after_id
  wrap_around lane kind after_id token now (100 - length rows) scan

unfoldable pub claim : Db → String → String → String → ℕ → Result (Db × Option Claim)
claim db lane kind token now = do
  (db', found, _) ← claim_batch db lane kind 0 token now
  ok (db', found)

-- `row["lease_token"] != claim.token`
abbrev pub other_token : Option String → String → Bool
other_token none token = true
other_token (some t) token = not (str_eq t token)

-- `float(row["lease_expires_at"]) <= now`, where `float(None)` raises.
abbrev pub lease_over : Option ℕ → ℕ → Result Bool
lease_over none now = err type_error
lease_over (some t) now = ok (leb t now)

unfoldable pub fence_row : Job → Claim → ℕ → Result Job
fence_row row c now = do
  raise_if (not (is_running row.state) || other_token row.lease_token c.token)
      (conflict "CLAIM_LOST")
  over ← lease_over row.lease_expires_at now
  raise_if (over || row.purge_pending) (conflict "CLAIM_LOST")
  ok row

unfoldable pub fence : Db → Claim → ℕ → Result Job
fence db c now = do row ← job_row db c.job_id; fence_row row c now

-- The UPDATE names the token as well.
abbrev pub renewed : Claim → ℕ → ℕ → Job → Job
renewed c expires now r =
    if other_token r.lease_token c.token
    then r
    else record r { lease_expires_at = some expires; updated_at = now }

unfoldable pub heartbeat : Db → Claim → ℕ → ℕ → ℕ → Result (Db × ℕ × Bool)
heartbeat db c now now' now'' = do
  row ← fence db c now
  let expires = now' + lease_time
  ok (
    record db { jobs = update c.job_id (renewed c expires now'') db.jobs },
    expires,
    row.cancel_requested,
  )

abbrev pub checkpointed : Fields → Option String → ℕ → Job → Job
checkpointed progress digest now r = record r {
  progress = dumped progress;
  blob_sha256 = digest;
  updated_at = now;
}

unfoldable pub checkpoint : Db → Claim → Fields → ℕ → ℕ → Result Db
checkpoint db c progress now now' = do
  row ← fence db c now
  raise_if row.cancel_requested (conflict "JOB_CANCELLED")
  (updated, digest) ← checkpoint_ownership row progress
  ok (record db { jobs = update c.job_id (checkpointed updated digest now') db.jobs })

-- `result.get("error")`
abbrev pub error_text : Option Value → Option String
error_text (some (str s)) = some s
error_text _ = none

abbrev pub finished : State → Fields → ℕ → Job → Job
finished state result now r = record r {
  state = state;
  result = dumped result;
  finished_at = some now;
  updated_at = now;
  lease_token = none;
  lease_expires_at = none;
  error_code = error_text (get "error" result);
}

unfoldable pub finish : Db → Claim → State → Fields → ℕ → ℕ → Result Db
finish db c state result now now' = do
  raise_if (not (is_terminal state)) (invalid_params "invalid terminal state")
  _ ← fence db c now
  ok (
      adjust_terminal_count state (pos 1)
        (record db { jobs = update c.job_id (finished state result now') db.jobs }))

abbrev pub released : Fields → Option String → ℕ → Job → Job
released progress digest now r = record r {
  state = queued;
  progress = dumped progress;
  blob_sha256 = digest;
  updated_at = now;
  lease_token = none;
  lease_expires_at = none;
}

unfoldable pub release : Db → Claim → Fields → ℕ → ℕ → Result Db
release db c progress now now' = do
  row ← fence db c now
  (updated, digest) ← checkpoint_ownership row progress
  ok (record db { jobs = update c.job_id (released updated digest now') db.jobs })
