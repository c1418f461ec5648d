-- ===== src/Jobs/Table.antt =====
-- The `jobs` table and the columns of `settings` that the job code reads and writes. A row stands in
-- the list in ascending id, as `INTEGER PRIMARY KEY AUTOINCREMENT` assigns them. A text column that
-- holds JSON is represented by what the strict decoder makes of it. A time is a number of
-- microseconds.
use justpen_knowledgebase_mc.Base.{
  ℕ, ◌*◌, String, Bool, true, false, ◌||◌, Option, none, some, List, [], ◌∷◌, ℤ, ◌+ℤ◌, Result,
  not_found, or_raise, str_eq, any, if◌then◌else◌,
}
use justpen_knowledgebase_mc.Json.{Fields, is_strict}

-- `json.loads` of the cell under the hooks of `ownership_object`: an object, or anything else.
pub data Cell : Type 0 where
  malformed : Cell
  object : Fields → Cell

-- `json.dumps` of an object, as those hooks read it back: it writes NaN and the infinities as the
-- constants that `_reject_constant` refuses.
abbrev pub dumped : Fields → Cell
dumped fs = if is_strict fs then object fs else malformed

pub data State : Type 0 where
  queued running completed failed cancelled : State

-- `row["state"] in TERMINAL`
abbrev pub is_terminal : State → Bool
is_terminal queued = false
is_terminal running = false
is_terminal _ = true

abbrev pub is_completed : State → Bool
is_completed completed = true
is_completed _ = false

-- the states that the counter `failed_cancelled` counts
abbrev pub is_failed_cancelled : State → Bool
is_failed_cancelled failed = true
is_failed_cancelled cancelled = true
is_failed_cancelled _ = false

abbrev pub is_queued : State → Bool
is_queued queued = true
is_queued _ = false

abbrev pub is_running : State → Bool
is_running running = true
is_running _ = false

-- One row of `jobs`.
pub record Job : Type 0 where
  pub id : ℕ
  pub uuid : String
  pub kind : String
  pub state : State
  pub requested_at : ℕ
  pub updated_at : ℕ
  pub lease_token : Option String
  pub lease_expires_at : Option ℕ
  pub progress : Cell
  pub blob_sha256 : Option String
  pub cancel_requested : Bool
  pub error_code : Option String
  pub payload : Cell
  pub lane : String
  pub finished_at : Option ℕ
  pub result : Cell
  pub attempts : ℕ
  pub purge_tokens : Option (List String)
  pub purge_pending : Bool

-- The columns of `evidence` that the job code reads; `delete_job` is the `delete_job_id` of a row
-- whose lifecycle is `delete_pending`.
pub record Evidence : Type 0 where
  pub uuid : String
  pub sha256 : String
  pub media_type : String
  pub index_state : String
  pub incomplete : Bool
  pub delete_job : Option String

-- `jobs`, the sequence of its ids, `evidence`, and the counters in `settings`. `pending` holds the
-- `delete_job_id` of every node and relation whose lifecycle is `delete_pending`.
pub record Db : Type 0 where
  pub jobs : List Job
  pub next_id : ℕ
  pub completed_count : ℤ
  pub failed_cancelled_count : ℤ
  pub query_epoch : ℕ
  pub pruned_total : ℕ
  pub pending : List String
  pub evidence : List Evidence

abbrev pub seconds : ℕ → ℕ
seconds n = n * 1_000_000

-- `SELECT * FROM jobs WHERE uuid=?`
unfoldable pub find : String → List Job → Option Job
find u [] = none
find u (r ∷ rs) = if str_eq r.uuid u then some r else find u rs

unfoldable pub job_row : Db → String → Result Job
unfolding find
job_row db u = or_raise (find u db.jobs) (not_found "job not found")

-- `UPDATE jobs SET … WHERE uuid=?`
unfoldable pub update : String → (Job → Job) → List Job → List Job
update u f [] = []
update u f (r ∷ rs) = (if str_eq r.uuid u then f r else r) ∷ update u f rs

-- `DELETE FROM jobs WHERE uuid=?`
unfoldable pub delete : String → List Job → List Job
delete u [] = []
delete u (r ∷ rs) = if str_eq r.uuid u then delete u rs else r ∷ delete u rs

-- One counter for `completed`, one for `failed` and `cancelled`, none for an active state.
unfoldable pub adjust_terminal_count : State → ℤ → Db → Db
adjust_terminal_count completed d db = record db { completed_count = db.completed_count +ℤ d }
adjust_terminal_count failed d db = record db {
  failed_cancelled_count = db.failed_cancelled_count +ℤ d;
}
adjust_terminal_count cancelled d db = record db {
  failed_cancelled_count = db.failed_cancelled_count +ℤ d;
}
adjust_terminal_count _ d db = db

-- The row is `delete_pending` under the job.
abbrev pub is_intent : String → Evidence → Bool
is_intent u e = elim e.delete_job [ none ↦ false | some j ↦ str_eq j u ]

-- A pending delete intent on a node, a relation or an evidence row names the job.
unfoldable pub protected : Db → String → Bool
protected db u = any (λ p. str_eq p u) db.pending || any (is_intent u) db.evidence

-- `pending_owners`: the jobs of a page that a pending delete intent names.
unfoldable pub pending_owners : Db → List String → List String
unfolding protected
pending_owners db [] = []
pending_owners db (u ∷ us) =
    if protected db u then u ∷ pending_owners db us else pending_owners db us
