-- ===== src/Deleting/Keeping.antt =====
-- About the delete jobs of storage/jobs.py: whatever they commit leaves the job table consistent.
use justpen_knowledgebase_mc.Base.{
  String, ◌≡◌, refl, Bool, true, false, ◌&&◌, Option, none, some, List, [], ◌∷◌, ℤ, pos, Result, ok,
  err, conflict, or_raise, ◌>>=◌, ◌+ℤ◌, if◌then◌else◌, ok-injective,
}
use mathlib.Core.Path.{subst}
use justpen_knowledgebase_mc.Json.{Value, Fields, field, end, get, str, int}
use justpen_knowledgebase_mc.Graph.Tables.{evidence, Store, row_by_id}
use justpen_knowledgebase_mc.Graph.Deletions.{DeleteIntent, step}
use justpen_knowledgebase_mc.Graph.Admitting.{DeleteRequest, prepare}
use justpen_knowledgebase_mc.Graph.Rejections.{purge_rejection}
use justpen_knowledgebase_mc.Jobs.Table.{State, completed, Db}
use justpen_knowledgebase_mc.Jobs.Lease.{Claim, fence, finish, release}
use justpen_knowledgebase_mc.Jobs.Admin.{is_truthy, insert}
use justpen_knowledgebase_mc.Jobs.Invariant.{IsConsistent}
use justpen_knowledgebase_mc.Jobs.Consistency.{
  finish-IsConsistent, release-IsConsistent, insert-IsConsistent,
}
use justpen_knowledgebase_mc.Deleting.{
  Tables, tables, Clock, File, int_of, rows_field, ids_field, payload_ids, payload_kind, is_empty,
  rejection_progress, after_file, remove_evidence, RejectionProgress, end_rejection,
  rejection_result, progress_fields, rejection_step, await_files, end_delete, step_intent,
  step_first, plain_step, delete_step, intents, finalize_evidence, admit_delete, request_payload,
}
use justpen_knowledgebase_mc.Deleting.Failing.{
  put_all, failure_evidence, failure_result, finish_failure,
}
use justpen_knowledgebase_mc.Deleting.Rejecting.{synced-IsConsistent}

-- What a call that returns leaves.
abbrev Ensures {ℓ κ} : {A : Type ℓ} → (A → Type κ) → Result A → Type (ℓ ⊔ κ)
Ensures P m = (a : _) → m ≡ ok a → P a

bind {ℓ ℓ₂ κ} :
    {A : Type ℓ} {B : Type ℓ₂} (P : B → Type κ) (m : Result A) (k : A → Result B)
    → ((a : A) → m ≡ ok a → Ensures P (k a))
    → Ensures P (m >>= k)
bind P (ok a) k h b e = h a refl b e
bind P (err x) k h b e = absurd (cc e)

returns {ℓ κ} : {A : Type ℓ} (P : A → Type κ) (a : A) → P a → Ensures P (ok a)
returns P a p b e = subst P (ok-injective e) p

choose {ℓ κ} :
    {A : Type ℓ} (P : A → Type κ) (b : Bool) (m n : Result A)
    → Ensures P m
    → Ensures P n
    → Ensures P (if b then m else n)
choose P true m n p q = p
choose P false m n p q = q

-- The table of a step's outcome
abbrev Keeps : Tables → Type 0
Keeps t = IsConsistent t.db

abbrev KeepsFile : Tables × Option File → Type 0
KeepsFile r = IsConsistent r.0.db

module _ (db : Db) (good : IsConsistent db) (c : Claim) (clock : Clock) where
  finishes :
      (result : Fields) → Ensures IsConsistent (finish db c completed result (clock 1) (clock 2))
  finishes result db' h = finish-IsConsistent db c (clock 1) good completed result (clock 2) db' h

  releases : (progress : Fields) → Ensures IsConsistent (release db c progress (clock 1) (clock 2))
  releases progress db' h = release-IsConsistent db c (clock 1) good progress (clock 2) db' h

module _ (show : ℤ → String) (t : Tables) (good : IsConsistent t.db) (c : Claim)
    (clock : Clock) where
  end_rejection-Keeps :
      (b : Bool) (p : RejectionProgress)
      → Ensures IsConsistent (end_rejection show t.db c b p clock)
  unfolding end_rejection
  end_rejection-Keeps true p = finishes t.db good c clock (rejection_result show p)
  end_rejection-Keeps false p = releases t.db good c clock (progress_fields p)

  rejection_step-Keeps : (types : List String) → Ensures Keeps (rejection_step show types t c clock)
  unfolding rejection_step
  rejection_step-Keeps types =
      bind Keeps (purge_rejection types t.store c.job_id 100) _ (λ (s, st) _.
        bind Keeps (rejection_progress c.progress st) _ (λ p _.
          bind Keeps (end_rejection show t.db c st.done p clock) _ (λ db e.
            returns Keeps (tables db s)
              (synced-IsConsistent s db (end_rejection-Keeps st.done p db e)))))

  -- The table after the job's row is written, with what the graph shows.
  file_kept :
      (m : Result Db) (s : Store) (f : Option File)
      → Ensures IsConsistent m
      → Ensures KeepsFile (m >>= (λ db. ok (tables db s, f)))
  file_kept m s f kept =
      bind KeepsFile m _
        (λ db e. returns KeepsFile (tables db s, f) (synced-IsConsistent s db (kept db e)))

  await_files-Keeps :
      (s : Store) (i : DeleteIntent) (rows : ℤ)
      → Ensures KeepsFile (await_files show t.db s c i rows clock)
  unfolding await_files
  await_files-Keeps s i rows =
      bind KeepsFile
        (or_raise (row_by_id s evidence i.owner_id) (conflict "delete owner disappeared")) _
        (λ o _.
          let fields = field "rows_deleted" (int rows) (field "files_pending" (str i.uuid) end) in
          file_kept (release t.db c fields (clock 1) (clock 2)) s (some (i.uuid, o.sha256))
            (releases t.db good c clock fields))

  end_delete-Keeps :
      (s : Store) (over : Bool) (rows : ℤ)
      → Ensures KeepsFile (end_delete show t.db s c over rows clock)
  unfolding end_delete
  end_delete-Keeps s true rows = bind KeepsFile (payload_ids show c.payload) _ (λ ids _.
      let fields = field "deleted_ids" ids (field "progress" (Value.obj (rows_field rows)) end) in
      file_kept (finish t.db c completed fields (clock 1) (clock 2)) s none
        (finishes t.db good c clock fields))
  end_delete-Keeps s false rows =
      file_kept (release t.db c (rows_field rows) (clock 1) (clock 2)) s none
        (releases t.db good c clock (rows_field rows))

  step_first-Keeps : (is : List DeleteIntent) → Ensures KeepsFile (step_first show t c is clock)
  unfolding step_first step_intent
  step_first-Keeps [] = bind KeepsFile (payload_ids show c.payload) _ (λ ids _.
      file_kept (finish t.db c completed (ids_field ids) (clock 1) (clock 2)) t.store none
        (finishes t.db good c clock (ids_field ids)))
  step_first-Keeps (i ∷ is) = bind KeepsFile (step t.store i 100) _ (λ (s, st) _.
      bind KeepsFile (int_of (get "rows_deleted" c.progress)) _ (λ before _.
        let rows = before +ℤ pos st.rows_deleted in
        choose KeepsFile st.files_pending (await_files show t.db s c i rows clock)
          (end_delete show t.db s c (is_empty show is && st.done) rows clock)
          (await_files-Keeps s i rows) (end_delete-Keeps s (is_empty show is && st.done) rows)))

  plain_step-Keeps : Ensures KeepsFile (plain_step show t c clock)
  unfolding plain_step
  plain_step-Keeps =
      bind KeepsFile (payload_kind show c.payload) _
        (λ kind _. step_first-Keeps (intents show kind t.store c.job_id))

  pub delete_step-Keeps :
      (types : List String) (r : Tables × Option File)
      → delete_step show types t c clock ≡ ok r
      → IsConsistent r.0.db
  unfolding delete_step
  delete_step-Keeps types = bind KeepsFile (fence t.db c (clock 0)) _ (λ row _.
      choose KeepsFile (is_truthy (get "rejection" c.payload))
        (rejection_step show types t c clock >>= (λ t'. ok (t', none))) (plain_step show t c clock)
        (bind KeepsFile (rejection_step show types t c clock) _
          (λ t' e. returns KeepsFile (t', none) (rejection_step-Keeps types t' e)))
        plain_step-Keeps)

  last_file-Keeps :
      (is : List DeleteIntent) → Ensures IsConsistent (after_file show t.db c is clock)
  unfolding after_file
  last_file-Keeps [] =
      bind IsConsistent (payload_ids show c.payload) _
        (λ ids _. finishes t.db good c clock (ids_field ids))
  last_file-Keeps (i ∷ is) =
      bind IsConsistent (int_of (get "rows_deleted" c.progress)) _
        (λ before _. releases t.db good c clock (rows_field (before +ℤ pos 1)))

  pub finalize_evidence-Keeps :
      (uuid : String) (t' : Tables)
      → finalize_evidence show t c uuid clock ≡ ok t'
      → IsConsistent t'.db
  unfolding finalize_evidence
  finalize_evidence-Keeps uuid = bind Keeps (fence t.db c (clock 0)) _ (λ row _.
      bind Keeps (remove_evidence show t.store c.job_id uuid) _ (λ s _.
        bind Keeps (after_file show t.db c (intents show evidence s c.job_id) clock) _ (λ db e.
          returns Keeps (tables db s)
            (synced-IsConsistent s db (last_file-Keeps (intents show evidence s c.job_id) db e)))))

pub finish_failure-Keeps :
    (t : Tables) (c : Claim) (state : State) (result : Fields) (clock : Clock) (db : Db)
    → IsConsistent t.db
    → finish_failure t c state result clock ≡ ok db
    → IsConsistent db
unfolding finish_failure
finish_failure-Keeps t c state result clock db good h =
    bind IsConsistent (fence t.db c (clock 0)) _
      (λ row _.
        bind IsConsistent (failure_result t (failure_evidence c) (put_all c.result result)) _
          (λ merged _ db' e.
            finish-IsConsistent t.db c (clock 1) good state merged (clock 2) db' e))
      db h

pub admit_delete-Keeps :
    (scoped : List String) (t : Tables) (request : DeleteRequest) (job : String) (clock : Clock)
    (t' : Tables)
    → IsConsistent t.db
    → admit_delete scoped t request job clock ≡ ok t'
    → IsConsistent t'.db
unfolding admit_delete
admit_delete-Keeps scoped t request job clock t' good h =
    bind Keeps (insert t.db job "delete" "short" (request_payload request) (clock 0)) _
      (λ db e. bind Keeps (prepare scoped t.store request job (clock 1)) _ (λ (s, is) _.
        returns Keeps (tables db s) (
          synced-IsConsistent s db (
            insert-IsConsistent t.db good job "delete" "short" (request_payload request) (clock 0)
              db e))))
      t' h
