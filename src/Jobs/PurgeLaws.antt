-- ===== src/Jobs/PurgeLaws.antt =====
-- About `_prune` and `finalize` of storage/job_retention.py: the rows and the counters after a prune.
use mathlib.Core.Path.{subst}
use justpen_knowledgebase_mc.Base.{
  ℕ, ◌+◌, String, ◌≡◌, refl, sym, Bool, true, false, Option, none, some, List, [], ◌∷◌, negsuc,
  +ℤ-pred, arith, ok, Result-cases, Option-cases, Bool-cases, inl, inr, str_eq, eq_iff, count, All,
}
use justpen_knowledgebase_mc.Jobs.Table.{
  State, queued, running, completed, is_terminal, Job, Db, find, job_row, delete,
  adjust_terminal_count,
}
use justpen_knowledgebase_mc.Jobs.Rows.{Unique, one, uuid-find}
use justpen_knowledgebase_mc.Jobs.Invariant.{
  IsJobOk, IsConsistent, with_jobs, jobs-adjust, in_completed, in_failed_cancelled,
}
use justpen_knowledgebase_mc.Jobs.Retention.{
  is_eligible, recorded_tokens, recorded_blob, prune, ownership,
}
use justpen_knowledgebase_mc.Jobs.Purge.{next_file, finalize, finalize_row}

find-delete_self : (u : String) (rs : List Job) → find u (delete u rs) ≡ none
unfolding find delete
find-delete_self u [] = refl
find-delete_self u (r ∷ rs) = ground (arith, find-delete_self u rs)

pub find-delete_ne :
    (u j : String) (rs : List Job) → str_eq u j ≡ false → find j (delete u rs) ≡ find j rs
unfolding find delete
find-delete_ne u j [] h = refl
find-delete_ne u j (r ∷ rs) h =
    ground (arith, eq_iff r.uuid u, eq_iff r.uuid j, eq_iff u j, find-delete_ne u j rs h)

find-delete-none : (u j : String) (rs : List Job) → find j rs ≡ none → find j (delete u rs) ≡ none
unfolding find delete
find-delete-none u j [] h = refl
find-delete-none u j (r ∷ rs) h = ground (arith, find-delete-none u j rs)

delete-Unique : (u : String) (rs : List Job) → Unique rs → Unique (delete u rs)
unfolding delete
delete-Unique u [] h = tt
delete-Unique u (r ∷ rs) h = ground (arith, find-delete-none u r.uuid rs, delete-Unique u rs h.1)

All-delete : (P : Job → Type 0) (u : String) (rs : List Job) → All P rs → All P (delete u rs)
unfolding delete
All-delete P u [] h = tt
All-delete P u (r ∷ rs) h = elim (Bool-cases (str_eq r.uuid u)) [
  | inl e ↦ rw e (All-delete P u rs h.1)
  | inr e ↦ rw e (h.0, All-delete P u rs h.1)
]

delete_missing : (u : String) (rs : List Job) → find u rs ≡ none → delete u rs ≡ rs
unfolding find delete
delete_missing u [] h = refl
delete_missing u (r ∷ rs) h = ground (arith, delete_missing u rs)

delete_alone :
    (u : String) (r : Job) (rs : List Job)
    → str_eq r.uuid u ≡ true
    → find r.uuid rs ≡ none
    → delete u rs ≡ rs
delete_alone u r rs e h =
    delete_missing u rs (subst (λ k. find k rs ≡ none) ((eq_iff r.uuid u).0 e) h)

count-delete :
    (p : Job → Bool) (u : String) (rs : List Job) (row : Job)
    → Unique rs
    → find u rs ≡ some row
    → count p (delete u rs) + one (p row) ≡ count p rs
unfolding find delete
count-delete p u [] row un h = cc
count-delete p u (r ∷ rs) row un h = elim (Bool-cases (str_eq r.uuid u)) [
  | inl e ↦ ground (arith, delete_alone u r rs e un.0)
  | inr e ↦ ground (arith, count-delete p u rs row un.1)
]

module _ (db : Db) (row : Job) (inv : IsConsistent db)
    (found : find row.uuid db.jobs ≡ some row) where
  dones :
      count in_completed (delete row.uuid db.jobs) + one (in_completed row)
      ≡ count in_completed db.jobs
  dones = count-delete in_completed row.uuid db.jobs row inv.unique found

  fails :
      count in_failed_cancelled (delete row.uuid db.jobs) + one (in_failed_cancelled row)
      ≡ count in_failed_cancelled db.jobs
  fails = count-delete in_failed_cancelled row.uuid db.jobs row inv.unique found

  delete-IsConsistent :
      (s : State)
      → row.state ≡ s
      → is_terminal s ≡ true
      → IsConsistent (adjust_terminal_count s (negsuc 0) (with_jobs db (delete row.uuid db.jobs)))
  unfolding adjust_terminal_count
  delete-IsConsistent queued e t = cc
  delete-IsConsistent running e t = cc
  delete-IsConsistent completed e t = record {
    unique = delete-Unique row.uuid db.jobs inv.unique;
    rows = All-delete IsJobOk row.uuid db.jobs inv.rows;
    completed_exact =
        ground (
          arith,
          inv.completed_exact,
          dones,
          +ℤ-pred (count in_completed (delete row.uuid db.jobs)),
        );
    failed_exact = ground (arith, inv.failed_exact, fails);
  }
  delete-IsConsistent _ e t = record {
    unique = delete-Unique row.uuid db.jobs inv.unique;
    rows = All-delete IsJobOk row.uuid db.jobs inv.rows;
    completed_exact = ground (arith, inv.completed_exact, dones);
    failed_exact = ground (
      arith,
      inv.failed_exact,
      fails,
      +ℤ-pred (count in_failed_cancelled (delete row.uuid db.jobs)),
    );
  }

  -- Pruning a terminal row keeps the counters exact.
  pub prune-IsConsistent : is_terminal row.state ≡ true → IsConsistent (prune db row)
  unfolding prune
  prune-IsConsistent t =
      let kept = delete-IsConsistent row.state refl t in
      record {
        unique = kept.unique;
        rows = kept.rows;
        completed_exact = kept.completed_exact;
        failed_exact = kept.failed_exact;
      }

find-prune : (db : Db) (row : Job) → find row.uuid (prune db row).jobs ≡ none
unfolding prune
find-prune db row = rw jobs-adjust (find-delete_self row.uuid db.jobs)

-- The job owns nothing: every recorded file and the blob were given up, no pending delete intent
-- names it, and no lease is live.
pub record IsDisowned (db : Db) (now : ℕ) (row : Job) : Type 0 where
  pub purging : row.purge_pending ≡ true
  pub eligible : is_eligible db row now ≡ true
  pub no_files : row.purge_tokens ≡ some []
  pub no_blob : row.blob_sha256 ≡ none

module _ (uuid : String → Option String) (db : Db) (job_id : String) (now : ℕ) where
  next_file-inv :
      (row : Job)
      → find job_id db.jobs ≡ some row
      → next_file uuid db job_id now ≡ ok none
      → (row.purge_pending ≡ true) × (is_eligible db row now ≡ true) × (row.purge_tokens ≡ some [])
  unfolding next_file job_row
  next_file-inv row found h = elim (Result-cases (recorded_tokens uuid row)) [
    | inl (e, q) ↦ absurd (ground arith)
    | inr (tokens, q) ↦ ground arith
  ]

  finalize_row-inv :
      (row : Job) (db' : Db)
      → find job_id db.jobs ≡ some row
      → finalize_row uuid db job_id none ≡ ok (db', true)
      → (row.blob_sha256 ≡ none) × (prune db row ≡ db')
  unfolding finalize_row job_row recorded_blob
  finalize_row-inv row db' found h = elim (Result-cases (ownership uuid row)) [
    | inl (e, q) ↦ absurd (ground arith)
    | inr (cells, q) ↦ ground arith
  ]

  -- When `finalize` reports that it pruned a job, the job had a durable purge mark, was terminal with
  -- no live lease, was named by no pending delete intent, and owned no file and no blob any more.
  -- Then its row is gone, and a consistent table is consistent still.
  pub finalize_prunes :
      (db' : Db)
      → IsConsistent db
      → finalize uuid db job_id now ≡ ok (db', true)
      → (row : Job) × (find job_id db.jobs ≡ some row)
        × IsDisowned db now row
        × (find job_id db'.jobs ≡ none)
        × IsConsistent db'
  unfolding finalize
  finalize_prunes db' inv h = elim (Option-cases (find job_id db.jobs)) [
    | inl e ↦ absurd (ground arith)
    | inr (row, e) ↦ elim (Result-cases (next_file uuid db job_id now)) [
      | inl (x, q) ↦ absurd (ground arith)
      | inr (some token, q) ↦ absurd (unfold finalize_row in ground arith)
      | inr (none, q) ↦
          let (purging, eligible, files) = next_file-inv row e q in
          let (blob, same) = finalize_row-inv row db' e (ground arith) in
          let u = uuid-find job_id db.jobs row e in
          (
            row,
            e,
            record { purging = purging; eligible = eligible; no_files = files; no_blob = blob },
            subst (λ d. find job_id d.jobs ≡ none) same
                (subst (λ k. find k (prune db row).jobs ≡ none) u (find-prune db row)),
            subst IsConsistent same (
                prune-IsConsistent db row inv (subst (λ k. find k db.jobs ≡ some row) (sym u) e)
                  (ground (arith, eligible))),
          )
    ]
  ]
