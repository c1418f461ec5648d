-- ===== src/Jobs/Upkeep.antt =====
-- storage/job_retention.py: which purge comes next, and the input that a finished job lets go.
use justpen_knowledgebase_mc.Base.{
  ℕ, String, Bool, false, ◌&&◌, not, Option, none, some, List, [], ◌∷◌, Result, ok, ◌>>=◌, ltb, leb,
  str_eq, is_some, count, if◌then◌else◌,
}
use justpen_knowledgebase_mc.Json.{Value, str, get, has, erase}
use justpen_knowledgebase_mc.Jobs.Table.{
  Cell, malformed, object, is_terminal, Job, Db, find, job_row, update, protected,
}
use justpen_knowledgebase_mc.Jobs.Ownership.{row_metadata}
use justpen_knowledgebase_mc.Jobs.Retention.{ownership}

-- The lesser id of a row and of what the rest of the table gives.
abbrev pub earlier : Job → Option (ℕ × String) → Option (ℕ × String)
earlier r none = some (r.id, r.uuid)
earlier r (some (i, u)) = if leb r.id i then some (r.id, r.uuid) else some (i, u)

abbrev pub is_marked_after : ℕ → Job → Bool
is_marked_after after r = r.purge_pending && ltb after r.id

-- `JobRetention.next_job`: `WHERE purge_pending=1 AND id>? ORDER BY id LIMIT 1`
unfoldable pub next_job : ℕ → List Job → Option (ℕ × String)
next_job after [] = none
next_job after (r ∷ rs) =
    let rest = next_job after rs in if is_marked_after after r then earlier r rest else rest

-- `json_remove(payload,'$.input_token','$.input_stage','$.input_size','$.input_sha256')`
abbrev pub without_input : Cell → Cell
without_input malformed = malformed
without_input (object fs) =
    object
      (erase "input_sha256" (erase "input_size" (erase "input_stage" (erase "input_token" fs))))

abbrev pub forgotten : Job → Job
forgotten r = record r { payload = without_input r.payload }

-- `payload.get("input_token") == token`
abbrev pub is_token : Option Value → String → Bool
is_token (some (str t)) token = str_eq t token
is_token _ token = false

module _ (uuid : String → Option String) where
  -- The tests of `forget_clean_input` on the row.
  unfoldable pub forget_row : Db → Job → String → Result Db
  forget_row db row token = do
    (payload, _) ← ownership uuid row
    (_, _, result) ← row_metadata row
    ok (
        if not row.purge_pending
          && (is_token (get "input_token" payload) token && has "evidence_id" result)
        then record db { jobs = update row.uuid forgotten db.jobs }
        else db)

  unfoldable pub forget_clean_input : Db → String → String → Result Db
  forget_clean_input db job_id token =
      if is_some (find job_id db.jobs)
      then (do row ← job_row db job_id; forget_row db row token)
      else ok db

-- `JobRetention.snapshot`, without the flag that it derives.
pub record Snapshot : Type 0 where
  pub protected_count : ℕ
  pub pending_prune_count : ℕ
  pub pruned_total : ℕ

abbrev pub snapshot : Db → Snapshot
snapshot db = record {
  protected_count = count (λ r. protected db r.uuid && is_terminal r.state) db.jobs;
  pending_prune_count = count (λ r. r.purge_pending) db.jobs;
  pruned_total = db.pruned_total;
}
