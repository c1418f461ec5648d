-- ===== src/Deleting/Rejecting.antt =====
-- About the delete jobs of storage/jobs.py: a step of the job that purges a rejected node.
use mathlib.Core.Path.{subst}
use justpen_knowledgebase_mc.Base.{
  ℕ, ◌+◌, String, ◌≡◌, refl, sym, ◌∙◌, ap, Bool, true, false, ◌⊎◌, inl, inr, Option, none, some,
  List, ℤ, arith, ok, ok-injective, Result-cases, any,
}
use justpen_knowledgebase_mc.Json.{get, Fields}
use justpen_knowledgebase_mc.Graph.Tables.{Store}
use justpen_knowledgebase_mc.Graph.Deletions.{is_intent_of, start_sweep}
use justpen_knowledgebase_mc.Graph.Rejections.{RejectionStep}
use justpen_knowledgebase_mc.Graph.Sweeps.{size, IsKeyed}
use justpen_knowledgebase_mc.Graph.Purging.{Purges, purge_rejection-Purges}
use justpen_knowledgebase_mc.Jobs.Table.{
  State, queued, completed, Job, Db, find, adjust_terminal_count,
}
use justpen_knowledgebase_mc.Jobs.Lease.{Claim, fence, finish, finished, release, released}
use justpen_knowledgebase_mc.Jobs.Admin.{is_truthy}
use justpen_knowledgebase_mc.Jobs.Rows.{find-update_self}
use justpen_knowledgebase_mc.Jobs.Invariant.{IsConsistent}
use justpen_knowledgebase_mc.Jobs.Fencing.{fence-IsLive, finish-inv, release-inv}
use justpen_knowledgebase_mc.Jobs.Consistency.{finish-IsConsistent, release-IsConsistent}
use justpen_knowledgebase_mc.Deleting.{
  Tables, synced, tables, Clock, File, RejectionProgress, rejection_progress, rejection_result,
  progress_fields, end_rejection, rejection_step, delete_step,
}

-- The job is in the table, in the state.
abbrev pub HasState : State → String → Db → Type 0
HasState s u db = (row : Job) × (find u db.jobs ≡ some row) × (row.state ≡ s)

abbrev pub is_intended : String → Store → Bool
is_intended job s = any (is_intent_of job) s.node_rows

abbrev pub is_intended_relation : String → Store → Bool
is_intended_relation job s = any (is_intent_of job) s.relation_rows

-- What a step leaves: the tables are sound, and the job is over with no intent of it left, or is queued
-- again after 100 rows.
pub record Advances (job : String) (t t' : Tables) : Type 0 where
  pub consistent : IsConsistent t'.db
  pub keyed : IsKeyed t'.store
  pub ended :
      (HasState completed job t'.db
        × (is_intended job t'.store ≡ false)
        × (is_intended_relation job t'.store ≡ false))
      ⊎ (HasState queued job t'.db × (size t'.store + 100 ≡ size t.store))

pub finish-HasState :
    (db : Db) (c : Claim) (result : Fields) (now now' : ℕ) (db' : Db)
    → finish db c completed result now now' ≡ ok db'
    → HasState completed c.job_id db'
finish-HasState db c result now now' db' h =
    let (row, passed, _, e) = finish-inv db c completed result now now' db' h in
    let (found, _) = fence-IsLive db c now row passed in
    let f = finished completed result now' in
    subst (HasState completed c.job_id) (sym e) (
      unfold adjust_terminal_count in
      (f row, find-update_self c.job_id f (λ r. refl) db.jobs row found, refl))

pub release-HasState :
    (db : Db) (c : Claim) (progress : Fields) (now now' : ℕ) (db' : Db)
    → release db c progress now now' ≡ ok db'
    → HasState queued c.job_id db'
release-HasState db c progress now now' db' h =
    let (row, passed, updated, digest, _, e) = release-inv db c progress now now' db' h in
    let (found, _) = fence-IsLive db c now row passed in
    let f = released updated digest now' in
    subst (HasState queued c.job_id) (sym e)
      (f row, find-update_self c.job_id f (λ r. refl) db.jobs row found, refl)

pub synced-IsConsistent : (s : Store) (db : Db) → IsConsistent db → IsConsistent (synced s db)
synced-IsConsistent s db inv = record {
  unique = inv.unique;
  rows = inv.rows;
  completed_exact = inv.completed_exact;
  failed_exact = inv.failed_exact;
}

module _ (show : ℤ → String) where
  end_rejection-Advances :
      (t : Tables) (c : Claim) (s : Store) (st : RejectionStep) (p : RejectionProgress)
      (clock : Clock) (db : Db)
      → IsConsistent t.db
      → Purges c.job_id 100 (start_sweep t.store) (s, st)
      → end_rejection show t.db c st.done p clock ≡ ok db
      → Advances c.job_id t (tables db s)
  unfolding end_rejection
  end_rejection-Advances t c s st p clock db good f h = elim f.ended [
    | inl (done, no_nodes, no_relations) ↦
        let ends : finish t.db c completed (rejection_result show p) (clock 1) (clock 2) ≡ ok db =
          subst (λ b. end_rejection show t.db c b p clock ≡ ok db) done h in
        record {
          consistent = synced-IsConsistent s db (
              finish-IsConsistent t.db c (clock 1) good completed (rejection_result show p)
                (clock 2) db ends);
          keyed = f.keyed;
          ended = inl (
            finish-HasState t.db c (rejection_result show p) (clock 1) (clock 2) db ends,
            no_nodes,
            no_relations,
          );
        }
    | inr (more, spent) ↦
        let frees : release t.db c (progress_fields p) (clock 1) (clock 2) ≡ ok db =
          subst (λ b. end_rejection show t.db c b p clock ≡ ok db) more h in
        record {
          consistent =
              synced-IsConsistent s db
                (release-IsConsistent t.db c (clock 1) good (progress_fields p) (clock 2) db frees);
          keyed = f.keyed;
          ended = inr (
            release-HasState t.db c (progress_fields p) (clock 1) (clock 2) db frees,
            omega (arith, f.exact, spent),
          );
        }
  ]

  rejection_step-Advances :
      (types : List String) (t : Tables) (c : Claim) (clock : Clock) (t' : Tables)
      → IsConsistent t.db
      → IsKeyed t.store
      → rejection_step show types t c clock ≡ ok t'
      → Advances c.job_id t t'
  unfolding rejection_step
  rejection_step-Advances types t c clock t' good keyed h =
      let ((s, st), ran, f) =
        purge_rejection-Purges types t.store c.job_id 100 keyed (omega arith) (omega arith) in
      elim (Result-cases (rejection_progress c.progress st)) [
        | inl (x, e) ↦ absurd (let no = rw (ran, e) at h in cc no)
        | inr (p, e) ↦ elim (Result-cases (end_rejection show t.db c st.done p clock)) [
          | inl (x, g) ↦ absurd (let no = rw (ran, e, g) at h in cc no)
          | inr (db, g) ↦
              let same : tables db s ≡ t' = ok-injective (sym (rw (ran, e, g) refl) ∙ h) in
              subst (Advances c.job_id t) same (end_rejection-Advances t c s st p clock db good f g)
        ]
      ]

  -- A committed step of a rejection job, from a consistent job table and graph tables whose ids are
  -- unique, leaves both so, and hands out no file. Then the job is completed and no node and no
  -- relation has an intent of it any more, or it is queued again and exactly 100 rows are gone: the
  -- steps of a rejection come to an end, and it is completed only when its purge is whole.
  pub delete_step-Advances :
      (types : List String) (t : Tables) (c : Claim) (clock : Clock) (r : Tables × Option File)
      → IsConsistent t.db
      → IsKeyed t.store
      → is_truthy (get "rejection" c.payload) ≡ true
      → delete_step show types t c clock ≡ ok r
      → (r.1 ≡ none) × Advances c.job_id t r.0
  unfolding delete_step
  delete_step-Advances types t c clock r good keyed rejects h =
      elim (Result-cases (fence t.db c (clock 0))) [
        | inl (x, e) ↦ absurd (ground (arith, e, h))
        | inr (row, e) ↦ elim (Result-cases (rejection_step show types t c clock)) [
          | inl (x, g) ↦ absurd (ground (arith, e, rejects, g, h))
          | inr (t', g) ↦
              let same : (t', none) ≡ r = ok-injective (sym (rw (e, rejects, g) refl) ∙ h) in
              (
                ap (λ x. x.1) (sym same),
                subst (Advances c.job_id t) (ap (λ x. x.0) same)
                    (rejection_step-Advances types t c clock t' good keyed g),
              )
        ]
      ]
