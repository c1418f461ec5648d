-- ===== src/Jobs/Stale.antt =====
-- About the claims of storage/jobs.py whose lease is gone, and the calls made under them.
use mathlib.Core.Path.{subst}
use justpen_knowledgebase_mc.Base.{
  ℕ, String, ◌≡◌, ◌≢◌, refl, ap, sym, ◌∙◌, ok-injective, true, some, arith, ok, err, conflict,
  eq_iff,
}
use justpen_knowledgebase_mc.Json.{Fields}
use justpen_knowledgebase_mc.Jobs.Table.{State, is_terminal, Job, Db, find, job_row}
use justpen_knowledgebase_mc.Jobs.Rows.{find-update_self}
use justpen_knowledgebase_mc.Jobs.Lease.{
  Claim, fence, fence_row, other_token, heartbeat, checkpoint, finish, finished, release,
  claim_batch, claimed, Scan,
}
use justpen_knowledgebase_mc.Jobs.Invariant.{IsConsistent, jobs-adjust}
use justpen_knowledgebase_mc.Jobs.Fencing.{fence-IsLive, finish-inv}
use justpen_knowledgebase_mc.Jobs.Scanning.{Taken, found_in, db_in}
use justpen_knowledgebase_mc.Jobs.Batch.{IsWork, Claims, claim_batch-Claims}

-- Every write that the claim permits is refused, at any time.
pub record IsLost (db : Db) (c : Claim) : Type 0 where
  pub no_heartbeat : (t t' t'' : ℕ) → heartbeat db c t t' t'' ≡ err (conflict "CLAIM_LOST")
  pub no_checkpoint :
      (progress : Fields) (t t' : ℕ) → checkpoint db c progress t t' ≡ err (conflict "CLAIM_LOST")
  pub no_finish :
      (s : State) (result : Fields) (t t' : ℕ)
      → is_terminal s ≡ true
      → finish db c s result t t' ≡ err (conflict "CLAIM_LOST")
  pub no_release :
      (progress : Fields) (t t' : ℕ) → release db c progress t t' ≡ err (conflict "CLAIM_LOST")

fence-IsLost :
    (db : Db) (c : Claim) → ((t : ℕ) → fence db c t ≡ err (conflict "CLAIM_LOST")) → IsLost db c
unfolding heartbeat checkpoint finish release
fence-IsLost db c h = record {
  no_heartbeat = λ t t' t''. rw (h t);
  no_checkpoint = λ progress t t'. rw (h t);
  no_finish = λ s result t t' terminal. rw (terminal, h t);
  no_release = λ progress t t'. rw (h t);
}

fence_lost :
    (db : Db) (c : Claim) (row : Job) (t : ℕ)
    → find c.job_id db.jobs ≡ some row
    → other_token row.lease_token c.token ≡ true
    → fence db c t ≡ err (conflict "CLAIM_LOST")
unfolding fence job_row fence_row
fence_lost db c row t found other = ground arith

module _ (lane kind token : String) (now after_id : ℕ) (db : Db) (s : Scan) (new old : Claim)
    (inv : IsConsistent db) (claimed_now : claim_batch db lane kind after_id token now ≡ ok s)
    (took : found_in s ≡ some new) where
  batch-Claims : Claims lane kind token now db s
  batch-Claims =
      let (s', e, claims) = claim_batch-Claims lane kind token now db after_id inv in
      subst (Claims lane kind token now db) (ok-injective (sym e ∙ claimed_now)) claims

  -- Once a pass of `claim_batch` on a consistent table has claimed a job under a fresh token, every
  -- heartbeat, checkpoint, release, and finish with a terminal state under an older claim of that job
  -- is refused with CLAIM_LOST, at any time.
  pub reclaimed-IsLost : old.job_id ≡ new.job_id → old.token ≢ token → IsLost (db_in s) old
  unfolding batch-Claims
  reclaimed-IsLost same fresh =
      fence-IsLost (db_in s) old
        (λ t. fence_lost (db_in s) old (claimed token now k.row) t found other)
    where
      k : Taken token now (IsWork lane kind) db (db_in s) new
      k = batch-Claims.taken new took

      found : find old.job_id (db_in s).jobs ≡ some (claimed token now k.row)
      found = rw (same, ap (λ (c : Claim). c.job_id) k.claim_is) k.after

      other : other_token (some token) old.token ≡ true
      other = ground (arith, eq_iff token old.token)

-- After a successful `finish` the claim is lost: a second finish with a terminal state, and every
-- heartbeat, checkpoint or release under it, is refused with CLAIM_LOST.
pub finish-IsLost :
    (db db' : Db) (c : Claim) (state : State) (result : Fields) (now now' : ℕ)
    → finish db c state result now now' ≡ ok db'
    → IsLost db' c
finish-IsLost db db' c state result now now' h =
    let (row, passed, terminal, e) = finish-inv db c state result now now' db' h in
    let (found, live) = fence-IsLive db c now row passed in
    fence-IsLost db' c (λ t.
      fence_lost db' c (finished state result now' row) t
        (subst (λ d. find c.job_id d.jobs ≡ some (finished state result now' row)) (sym e)
          (rw jobs-adjust
            (find-update_self c.job_id (finished state result now') (λ r. refl) db.jobs row found)))
        refl)
