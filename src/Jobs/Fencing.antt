-- ===== src/Jobs/Fencing.antt =====
-- The fence before every write of a worker: what it admits, and what it turns away.
use justpen_knowledgebase_mc.Base.{
  ℕ, ◌+◌, ◌<◌, String, ◌≡◌, Bool, true, false, Option, some, none, pos, arith, ok, Result-cases,
  inl, inr, eq_iff, Option-cases,
}
use justpen_knowledgebase_mc.Json.{Fields}
use justpen_knowledgebase_mc.Jobs.Table.{
  State, running, is_terminal, Job, Db, find, job_row, update, adjust_terminal_count,
}
use justpen_knowledgebase_mc.Jobs.Ownership.{checkpoint_ownership}
use justpen_knowledgebase_mc.Jobs.Lease.{
  Claim, fence, fence_row, heartbeat, renewed, lease_time, checkpoint, checkpointed, finish,
  finished, release, released, other_token,
}

-- The claim holds the lease of a running row, and the lease is live.
pub record IsLive (c : Claim) (now : ℕ) (row : Job) : Type 0 where
  pub is_run : row.state ≡ running
  pub holds : row.lease_token ≡ some c.token
  pub until : ℕ
  pub expires : row.lease_expires_at ≡ some until
  pub live : now < until
  pub kept : row.purge_pending ≡ false

until_of : Option ℕ → ℕ
until_of none = 0
until_of (some t) = t

token_held : (o : Option String) (t : String) → other_token o t ≡ false → o ≡ some t
token_held none t h = cc
token_held (some s) t h = ground (arith, eq_iff s t)

fence_row-IsLive :
    (row r : Job) (c : Claim) (now : ℕ) → fence_row row c now ≡ ok r → (r ≡ row) × IsLive c now row
unfolding fence_row until_of
fence_row-IsLive row r c now h = (
  ground arith,
  record {
    is_run = ground arith;
    holds = ground (arith, token_held row.lease_token c.token);
    until = until_of row.lease_expires_at;
    expires = ground arith;
    live = ground arith;
    kept = ground arith;
  },
)

-- A fence that passes has found the row of the claim, under a live lease.
pub fence-IsLive :
    (db : Db) (c : Claim) (now : ℕ) (row : Job)
    → fence db c now ≡ ok row
    → (find c.job_id db.jobs ≡ some row) × IsLive c now row
unfolding fence job_row
fence-IsLive db c now row h = elim (Option-cases (find c.job_id db.jobs)) [
  | inl e ↦ absurd (ground arith)
  | inr (r, e) ↦ ground (arith, fence_row-IsLive r row c now)
]

pub finish-inv :
    (db : Db) (c : Claim) (s : State) (result : Fields) (now now' : ℕ) (db' : Db)
    → finish db c s result now now' ≡ ok db'
    → (row : Job) × (fence db c now ≡ ok row)
      × (is_terminal s ≡ true)
      × (db'
          ≡ adjust_terminal_count s
              (pos 1)
              (record db { jobs = update c.job_id (finished s result now') db.jobs }))
unfolding finish
finish-inv db c s result now now' db' h = elim (Result-cases (fence db c now)) [
  | inl (e, q) ↦ absurd (ground arith)
  | inr (row, q) ↦ (row, q, ground arith, ground arith)
]

pub heartbeat-inv :
    (db : Db) (c : Claim) (now now' now'' : ℕ) (db' : Db) (expires : ℕ) (flag : Bool)
    → heartbeat db c now now' now'' ≡ ok (db', expires, flag)
    → (row : Job) × (fence db c now ≡ ok row)
      × (expires ≡ now' + lease_time)
      × (db' ≡ record db { jobs = update c.job_id (renewed c expires now'') db.jobs })
unfolding heartbeat
heartbeat-inv db c now now' now'' db' expires flag h = elim (Result-cases (fence db c now)) [
  | inl (e, q) ↦ absurd (ground arith)
  | inr (row, q) ↦ (row, q, ground arith, ground arith)
]

pub checkpoint-inv :
    (db : Db) (c : Claim) (progress : Fields) (now now' : ℕ) (db' : Db)
    → checkpoint db c progress now now' ≡ ok db'
    → (row : Job) × (fence db c now ≡ ok row)
      × (updated : Fields) × (digest : Option String) × (checkpoint_ownership row progress
          ≡ ok (updated, digest))
      × (row.cancel_requested ≡ false)
      × (db' ≡ record db { jobs = update c.job_id (checkpointed updated digest now') db.jobs })
unfolding checkpoint
checkpoint-inv db c progress now now' db' h = elim (Result-cases (fence db c now)) [
  | inl (e, q) ↦ absurd (ground arith)
  | inr (row, q) ↦ elim (Result-cases (checkpoint_ownership row progress)) [
    | inl (e, o) ↦ absurd (ground arith)
    | inr ((updated, digest), o) ↦ (row, q, updated, digest, o, ground arith, ground arith)
  ]
]

pub release-inv :
    (db : Db) (c : Claim) (progress : Fields) (now now' : ℕ) (db' : Db)
    → release db c progress now now' ≡ ok db'
    → (row : Job) × (fence db c now ≡ ok row)
      × (updated : Fields) × (digest : Option String) × (checkpoint_ownership row progress
          ≡ ok (updated, digest))
      × (db' ≡ record db { jobs = update c.job_id (released updated digest now') db.jobs })
unfolding release
release-inv db c progress now now' db' h = elim (Result-cases (fence db c now)) [
  | inl (e, q) ↦ absurd (ground arith)
  | inr (row, q) ↦ elim (Result-cases (checkpoint_ownership row progress)) [
    | inl (e, o) ↦ absurd (ground arith)
    | inr ((updated, digest), o) ↦ (row, q, updated, digest, o, ground arith)
  ]
]
