-- ===== src/Jobs/Reach.antt =====
-- The `jobs` table over time: one step for each committed call of `JobStore` and of `JobRetention`
-- that writes, and one for any other code that writes the graph. `admit_rejection` writes the table
-- by `insert`.
use justpen_knowledgebase_mc.Base.{
  ℕ, String, ◌≡◌, refl, ap, Bool, true, ◌&&◌, not, Option, List, [], ◌∷◌, ℤ, pos, count, ok, sym,
  ◌∙◌, ok-injective,
}
use mathlib.Core.Path.{subst}
use justpen_knowledgebase_mc.Json.{Fields}
use justpen_knowledgebase_mc.Jobs.Table.{
  State, queued, running, completed, failed, cancelled, is_terminal, is_completed,
  is_failed_cancelled, Job, Evidence, Db,
}
use justpen_knowledgebase_mc.Jobs.Lease.{Claim, claim_batch, heartbeat, checkpoint, finish, release}
use justpen_knowledgebase_mc.Jobs.Admin.{insert, cancel, retry}
use justpen_knowledgebase_mc.Jobs.Retention.{Policy, reconcile}
use justpen_knowledgebase_mc.Jobs.Page.{Page, Position, batch}
use justpen_knowledgebase_mc.Jobs.Paging.{batch-IsConsistent}
use justpen_knowledgebase_mc.Jobs.Purge.{finalize, acknowledge, acknowledge_blob}
use justpen_knowledgebase_mc.Jobs.Upkeep.{forget_clean_input}
use justpen_knowledgebase_mc.Jobs.Rotation.{
  acknowledge-IsConsistent, acknowledge_blob-IsConsistent, forget_clean_input-IsConsistent,
}
use justpen_knowledgebase_mc.Jobs.PurgeLaws.{finalize_prunes}
use justpen_knowledgebase_mc.Jobs.Invariant.{IsConsistent, in_failed_cancelled}
use justpen_knowledgebase_mc.Jobs.Consistency.{
  insert-IsConsistent, cancel-IsConsistent, retry-IsConsistent, finish-IsConsistent,
  heartbeat-IsConsistent, checkpoint-IsConsistent, release-IsConsistent,
}
use justpen_knowledgebase_mc.Jobs.Batch.{claim_batch-Claims}
use justpen_knowledgebase_mc.Jobs.Scanning.{db_in}
use justpen_knowledgebase_mc.Graph.Admitting.{DeleteRequest}
use justpen_knowledgebase_mc.Deleting.{
  Tables, Clock, File, admit_delete, delete_step, finalize_evidence,
}
use justpen_knowledgebase_mc.Deleting.Failing.{finish_failure}
use justpen_knowledgebase_mc.Deleting.Keeping.{
  admit_delete-Keeps, delete_step-Keeps, finalize_evidence-Keeps, finish_failure-Keeps,
}

-- A call that returns commits its table; one that raises is rolled back and is no step.
pub data Step (a b : Db) : Type 0 where
  inserted :
      (job_id kind lane : String) (payload : Fields) (now : ℕ)
      → insert a job_id kind lane payload now ≡ ok b
      → Step a b
  batched :
      (lane kind token : String) (after_id now : ℕ) (found : Option Claim) (after : ℕ)
      → claim_batch a lane kind after_id token now ≡ ok (b, found, after)
      → Step a b
  heartbeat_step :
      (c : Claim) (now now' now'' expires : ℕ) (flag : Bool)
      → heartbeat a c now now' now'' ≡ ok (b, expires, flag)
      → Step a b
  checkpoint_step :
      (c : Claim) (progress : Fields) (now now' : ℕ)
      → checkpoint a c progress now now' ≡ ok b
      → Step a b
  finish_step :
      (c : Claim) (s : State) (result : Fields) (now now' : ℕ)
      → finish a c s result now now' ≡ ok b
      → Step a b
  release_step :
      (c : Claim) (progress : Fields) (now now' : ℕ)
      → release a c progress now now' ≡ ok b
      → Step a b
  cancel_step :
      (shows : Db → Job → Bool) (job_id : String) (now now' : ℕ)
      → cancel shows a job_id now now' ≡ ok b
      → Step a b
  retried :
      (shows : Db → Job → Bool) (job_id : String) (now : ℕ)
      → retry shows a job_id now ≡ ok b
      → Step a b
  paged :
      (uuid : String → Option String) (policy : Policy) (cursor cursor' : Position)
      (now examined : ℕ) (page : Page)
      → batch uuid policy a cursor now ≡ ok (page, cursor', examined)
      → page.db ≡ b
      → Step a b
  purged :
      (uuid : String → Option String) (job_id : String) (now : ℕ)
      → finalize uuid a job_id now ≡ ok (b, true)
      → Step a b
  acknowledged :
      (uuid : String → Option String) (job_id token : String) (now : ℕ)
      → acknowledge uuid a job_id token now ≡ ok b
      → Step a b
  blob_acknowledged :
      (uuid : String → Option String) (job_id digest : String) (now : ℕ)
      → acknowledge_blob uuid a job_id digest now ≡ ok b
      → Step a b
  input_forgotten :
      (uuid : String → Option String) (job_id token : String)
      → forget_clean_input uuid a job_id token ≡ ok b
      → Step a b
  reconciled : b ≡ reconcile a → Step a b
  delete_admitted :
      (scoped : List String) (t t' : Tables) (request : DeleteRequest) (job_id : String)
      (clock : Clock)
      → t.db ≡ a
      → admit_delete scoped t request job_id clock ≡ ok t'
      → t'.db ≡ b
      → Step a b
  delete_stepped :
      (show : ℤ → String) (types : List String) (t : Tables) (c : Claim) (clock : Clock)
      (r : Tables × Option File)
      → t.db ≡ a
      → delete_step show types t c clock ≡ ok r
      → r.0.db ≡ b
      → Step a b
  evidence_finalized :
      (show : ℤ → String) (t t' : Tables) (c : Claim) (uuid : String) (clock : Clock)
      → t.db ≡ a
      → finalize_evidence show t c uuid clock ≡ ok t'
      → t'.db ≡ b
      → Step a b
  failed_step :
      (t : Tables) (c : Claim) (s : State) (result : Fields) (clock : Clock)
      → t.db ≡ a
      → finish_failure t c s result clock ≡ ok b
      → Step a b
  graph_written :
      (pending : List String) (evidence : List Evidence)
      → b ≡ record a { pending = pending; evidence = evidence }
      → Step a b

-- Any number of workers and administrators, in any order: the transactions are serial.
pub data Reach (a : Db) : Db → Type 0 where
  here : Reach a a
  next : {b c : Db} → Reach a b → Step b c → Reach a c

failed_group :
    (r : Job) → (is_terminal r.state && not (is_completed r.state)) ≡ in_failed_cancelled r
failed_group r = by_state r.state
  where
    by_state : (s : State) → (is_terminal s && not (is_completed s)) ≡ is_failed_cancelled s
    by_state queued = refl
    by_state running = refl
    by_state completed = refl
    by_state failed = refl
    by_state cancelled = refl

count-failed :
    (rs : List Job)
    → count (λ r. is_terminal r.state && not (is_completed r.state)) rs
      ≡ count in_failed_cancelled rs
count-failed [] = refl
count-failed (r ∷ rs) = rw (failed_group r, count-failed rs) refl

-- The counts need no counter that was right before.
reconcile-IsConsistent : (db : Db) → IsConsistent db → IsConsistent (reconcile db)
unfolding reconcile
reconcile-IsConsistent db inv = record {
  unique = inv.unique;
  rows = inv.rows;
  completed_exact = refl;
  failed_exact = ap pos (count-failed db.jobs);
}

Step-IsConsistent : (a b : Db) → Step a b → IsConsistent a → IsConsistent b
Step-IsConsistent a b (inserted j k l p now e) inv = insert-IsConsistent a inv j k l p now b e
Step-IsConsistent a b (batched l k t after_id now found after e) inv =
    let (s, e', claims) = claim_batch-Claims l k t now a after_id inv in
    subst (λ x. IsConsistent (db_in x)) (ok-injective (sym e' ∙ e)) claims.consistent
Step-IsConsistent a b (heartbeat_step c now now' now'' x f e) inv =
    heartbeat-IsConsistent a c now inv now' now'' b x f e
Step-IsConsistent a b (checkpoint_step c p now now' e) inv =
    checkpoint-IsConsistent a c now inv p now' b e
Step-IsConsistent a b (finish_step c s r now now' e) inv =
    finish-IsConsistent a c now inv s r now' b e
Step-IsConsistent a b (release_step c p now now' e) inv =
    release-IsConsistent a c now inv p now' b e
Step-IsConsistent a b (cancel_step shows j now now' e) inv =
    cancel-IsConsistent a inv shows j now now' b e
Step-IsConsistent a b (retried shows j now e) inv = retry-IsConsistent a inv shows j now b e
Step-IsConsistent a b (paged uuid policy cursor cursor' now n page e same) inv =
    subst IsConsistent same (batch-IsConsistent uuid policy a cursor cursor' now n page inv e)
Step-IsConsistent a b (purged uuid j now e) inv =
    let (_, _, _, _, kept) = finalize_prunes uuid a j now b inv e in kept
Step-IsConsistent a b (acknowledged uuid j token now e) inv =
    acknowledge-IsConsistent uuid a inv j token now b e
Step-IsConsistent a b (blob_acknowledged uuid j digest now e) inv =
    acknowledge_blob-IsConsistent uuid a inv j digest now b e
Step-IsConsistent a b (input_forgotten uuid j token e) inv =
    forget_clean_input-IsConsistent uuid a inv j token b e
Step-IsConsistent a b (reconciled e) inv = subst IsConsistent (sym e) (reconcile-IsConsistent a inv)
Step-IsConsistent a b (delete_admitted scoped t t' request j clock from e to) inv =
    subst IsConsistent to
      (admit_delete-Keeps scoped t request j clock t' (subst IsConsistent (sym from) inv) e)
Step-IsConsistent a b (delete_stepped show types t c clock r from e to) inv =
    subst IsConsistent to
      (delete_step-Keeps show t (subst IsConsistent (sym from) inv) c clock types r e)
Step-IsConsistent a b (evidence_finalized show t t' c uuid clock from e to) inv =
    subst IsConsistent to
      (finalize_evidence-Keeps show t (subst IsConsistent (sym from) inv) c clock uuid t' e)
Step-IsConsistent a b (failed_step t c s result clock from e) inv =
    finish_failure-Keeps t c s result clock b (subst IsConsistent (sym from) inv) e
Step-IsConsistent a b (graph_written pending evidence e) inv = subst IsConsistent (sym e) (record {
  unique = inv.unique;
  rows = inv.rows;
  completed_exact = inv.completed_exact;
  failed_exact = inv.failed_exact;
})

-- Whatever calls of the job store and of retention commit, those that delete graph rows and the
-- reconciliation included, and whatever other writes to the graph come between them, a consistent table
-- stays consistent: uuids stay unique, exactly the running rows carry a lease, exactly the terminal
-- rows an end time, and the two terminal counters are the numbers of completed and of failed or
-- cancelled rows.
pub Reach-IsConsistent : (a b : Db) → IsConsistent a → Reach a b → IsConsistent b
Reach-IsConsistent a b inv here = inv
Reach-IsConsistent a c inv (next {b} r st) = Step-IsConsistent b c st (Reach-IsConsistent a b inv r)
