-- ===== src/Jobs/Consistency.antt =====
-- About the operations of storage/jobs.py and the invariant of the `jobs` table.
use justpen_knowledgebase_mc.Base.{
  ℕ, ◌+◌, String, ◌≡◌, refl, Bool, true, some, none, [], ◌∷◌, ◌++◌, pos, negsuc, arith, ok,
  Result-cases, ok-injective, ◌∙◌, inl, inr, str_eq, Option-cases, Bool-cases, ◌&&◌, count-append,
  All-append,
}
use mathlib.Core.Path.{subst}
use mathlib.Core.Path.{sym}
use justpen_knowledgebase_mc.Json.{Fields, get}
use justpen_knowledgebase_mc.Jobs.Table.{
  State, failed, cancelled, is_terminal, is_queued, is_running, Job, Db, find, job_row, update,
  adjust_terminal_count,
}
use justpen_knowledgebase_mc.Jobs.Rows.{find-update_self, Unique-append, uuid-find}
use justpen_knowledgebase_mc.Jobs.Ownership.{row_metadata}
use justpen_knowledgebase_mc.Jobs.Lease.{
  Claim, heartbeat, renewed, checkpoint, checkpointed, finish, finished, release, released,
  isolate_failed_metadata, isolated, is_claimable,
}
use justpen_knowledgebase_mc.Jobs.Admin.{
  insert, new_job, cancel, cancel_row, get_job, cancel_write, retry, retry_row, retry_full,
  is_truthy, requeued, emptied, flagged, cancelled_at,
}
use justpen_knowledgebase_mc.Jobs.Invariant.{
  IsJobOk, IsConsistent, All-find, with_jobs, same-IsConsistent, end-IsConsistent,
  revive-IsConsistent, adjust-with_jobs, jobs-adjust, in_completed, in_failed_cancelled,
}
use justpen_knowledgebase_mc.Jobs.Fencing.{
  fence-IsLive, finish-inv, heartbeat-inv, checkpoint-inv, release-inv,
}

module _ (db : Db) (c : Claim) (now : ℕ) (inv : IsConsistent db) where
  pub finish-IsConsistent :
      (s : State) (result : Fields) (now' : ℕ) (db' : Db)
      → finish db c s result now now' ≡ ok db'
      → IsConsistent db'
  finish-IsConsistent s result now' db' h =
      let (row, passed, terminal, e) = finish-inv db c s result now now' db' h in
      let (found, live) = fence-IsLive db c now row passed in
      subst IsConsistent (sym e) (
        end-IsConsistent db c.job_id (finished s result now') row (λ r. refl) inv found
          (ground arith) s refl (ground arith) terminal)

  pub heartbeat-IsConsistent :
      (now' now'' : ℕ) (db' : Db) (expires : ℕ) (flag : Bool)
      → heartbeat db c now now' now'' ≡ ok (db', expires, flag)
      → IsConsistent db'
  heartbeat-IsConsistent now' now'' db' expires flag h =
      let (row, passed, _, e) = heartbeat-inv db c now now' now'' db' expires flag h in
      let (found, live) = fence-IsLive db c now row passed in
      let good = All-find IsJobOk c.job_id db.jobs row inv.rows found in
      subst IsConsistent (sym e) (
        same-IsConsistent db c.job_id (renewed c expires now'') row (λ r. ground arith) inv found
          (ground arith) (ground arith) (ground arith))

  pub checkpoint-IsConsistent :
      (progress : Fields) (now' : ℕ) (db' : Db)
      → checkpoint db c progress now now' ≡ ok db'
      → IsConsistent db'
  checkpoint-IsConsistent progress now' db' h =
      let (row, passed, updated, digest, _, _, e) = checkpoint-inv db c progress now now' db' h in
      let (found, live) = fence-IsLive db c now row passed in
      let good = All-find IsJobOk c.job_id db.jobs row inv.rows found in
      subst IsConsistent (sym e) (
        same-IsConsistent db c.job_id (checkpointed updated digest now') row (λ r. refl) inv found
          (ground arith) refl refl)

  pub release-IsConsistent :
      (progress : Fields) (now' : ℕ) (db' : Db)
      → release db c progress now now' ≡ ok db'
      → IsConsistent db'
  release-IsConsistent progress now' db' h =
      let (row, passed, updated, digest, _, e) = release-inv db c progress now now' db' h in
      let (found, live) = fence-IsLive db c now row passed in
      let good = All-find IsJobOk c.job_id db.jobs row inv.rows found in
      subst IsConsistent (sym e) (
        same-IsConsistent db c.job_id (released updated digest now') row (λ r. refl) inv found
          (ground arith) (ground arith) (ground arith))

module _ (db : Db) (inv : IsConsistent db) where
  isolate-IsConsistent :
      (row : Job) (now : ℕ) (db' : Db)
      → isolate_failed_metadata db row now ≡ ok db'
      → IsConsistent db'
  unfolding isolate_failed_metadata job_row
  isolate-IsConsistent row now db' h = elim (Option-cases (find row.uuid db.jobs)) [
    | inl e ↦ absurd (ground arith)
    | inr (durable, e) ↦ elim (Bool-cases (is_claimable now durable)) [
      | inl t ↦ subst IsConsistent (ground arith) (
          end-IsConsistent db row.uuid (isolated now) durable (λ r. refl) inv e (ground arith)
            failed refl (ground arith) refl)
      | inr t ↦ subst IsConsistent (ground arith) inv
    ]
  ]

  pub insert-IsConsistent :
      (job_id kind lane : String) (payload : Fields) (now : ℕ) (db' : Db)
      → insert db job_id kind lane payload now ≡ ok db'
      → IsConsistent db'
  unfolding insert
  insert-IsConsistent job_id kind lane payload now db' h = subst IsConsistent (inserted.1) (record {
    unique = Unique-append db.jobs job inv.unique inserted.0;
    rows = All-append IsJobOk db.jobs (job ∷ []) inv.rows (ground arith);
    completed_exact =
        ground (arith, inv.completed_exact, count-append in_completed db.jobs (job ∷ []));
    failed_exact =
        ground (arith, inv.failed_exact, count-append in_failed_cancelled db.jobs (job ∷ []));
  })
    where
      job : Job
      job = new_job db.next_id job_id kind lane payload now

      inserted :
          (find job_id db.jobs ≡ none)
          × (record db { jobs = db.jobs ++ job ∷ []; next_id = db.next_id + 1 } ≡ db')
      inserted = (ground arith, ground arith)

  cancel_write-IsConsistent :
      (row : Job) (payload : Fields) (now now' : ℕ)
      → find row.uuid db.jobs ≡ some row
      → IsConsistent (cancel_write db row payload now now')
  unfolding cancel_write
  cancel_write-IsConsistent row payload now now' found =
      elim (Bool-cases
        (is_queued row.state && (str_eq row.kind "reindex" && is_truthy (get "all" payload)))) [
          | inl t ↦ rw t flag
          | inr t ↦ rw t (elim (Bool-cases (is_queued row.state)) [
            | inl q ↦ rw q (ends q)
            | inr q ↦
                rw q (elim (Bool-cases (is_running row.state)) [
                  | inl r ↦ rw r flag
                  | inr r ↦ rw r inv
                ])
          ])
        ]
    where
      good : IsJobOk row
      good = All-find IsJobOk row.uuid db.jobs row inv.rows found

      ends :
          is_queued row.state ≡ true
          → IsConsistent (
              adjust_terminal_count cancelled
                (pos 1)
                (with_jobs db (update row.uuid (cancelled_at now now') db.jobs)))
      ends q =
          end-IsConsistent db row.uuid (cancelled_at now now') row (λ r. refl) inv found
            (ground (arith, good)) cancelled refl (ground arith) refl

      flag : IsConsistent (with_jobs db (update row.uuid flagged db.jobs))
      flag =
          same-IsConsistent db row.uuid flagged row (λ r. refl) inv found (ground (arith, good))
            refl refl

  cancel_row-IsConsistent :
      (job_id : String) (now now' : ℕ) (db' : Db)
      → cancel_row db job_id now now' ≡ ok db'
      → IsConsistent db'
  unfolding cancel_row job_row
  cancel_row-IsConsistent job_id now now' db' h = elim (Option-cases (find job_id db.jobs)) [
    | inl e ↦ absurd (ground arith)
    | inr (row, e) ↦ elim (Result-cases (row_metadata row)) [
      | inl (x, m) ↦ absurd (ground arith)
      | inr ((payload, progress, result), m) ↦
          subst IsConsistent {x = cancel_write db row payload now now'} (ground arith) (
            cancel_write-IsConsistent row payload now now'
              (subst (λ u. find u db.jobs ≡ some row) (sym (uuid-find job_id db.jobs row e)) e))
    ]
  ]

  emptied-IsConsistent :
      (row : Job)
      → find row.uuid db.jobs ≡ some row
      → IsConsistent
          (record db { query_epoch = db.query_epoch + 1; jobs = update row.uuid emptied db.jobs })
  emptied-IsConsistent row found =
      let kept =
        same-IsConsistent db row.uuid emptied row (λ r. refl) inv found
          (ground (arith, All-find IsJobOk row.uuid db.jobs row inv.rows found)) refl refl in
      record {
        unique = kept.unique;
        rows = kept.rows;
        completed_exact = kept.completed_exact;
        failed_exact = kept.failed_exact;
      }

  requeue-IsConsistent :
      (job_id : String) (now : ℕ) (s : State) (row : Job)
      → find job_id db.jobs ≡ some row
      → row.state ≡ s
      → is_terminal s ≡ true
      → let counted = adjust_terminal_count s (negsuc 0) db in
        IsConsistent (record counted { jobs = update job_id (requeued now) counted.jobs })
  requeue-IsConsistent job_id now s row found e t = rw jobs-adjust (
      rw adjust-with_jobs (
        revive-IsConsistent db job_id (requeued now) row (λ r. refl) inv found
          (record { leased = refl; expiring = refl; ended = refl }) s e t refl))

module _ (db : Db) (inv : IsConsistent db) where
  retry_full-IsConsistent :
      (row : Job) (payload : Fields) (d : Db)
      → find row.uuid db.jobs ≡ some row
      → retry_full db row payload ≡ ok d
      → IsConsistent d
        × (row' : Job) × (find row.uuid d.jobs ≡ some row')
        × (row'.state ≡ row.state)
  unfolding retry_full
  retry_full-IsConsistent row payload d found h =
      elim (Bool-cases (str_eq row.kind "reindex" && is_truthy (get "all" payload))) [
        | inl t ↦
            let e : record db {
              query_epoch = db.query_epoch + 1;
              jobs = update row.uuid emptied db.jobs;
            }
                ≡ d =
              ground arith in
            (
              subst IsConsistent e (emptied-IsConsistent db inv row found),
              emptied row,
              subst (λ x. find row.uuid x.jobs ≡ some (emptied row)) e
                  (find-update_self row.uuid emptied (λ r. refl) db.jobs row found),
              refl,
            )
        | inr t ↦ (subst IsConsistent (ground arith) inv, row, ground arith, refl)
      ]

module _ (db : Db) (inv : IsConsistent db) where
  retry_row-IsConsistent :
      (job_id : String) (now : ℕ) (db' : Db) → retry_row db job_id now ≡ ok db' → IsConsistent db'
  unfolding retry_row job_row
  retry_row-IsConsistent job_id now db' h = elim (Option-cases (find job_id db.jobs)) [
    | inl e ↦ absurd (ground arith)
    | inr (row, e) ↦ elim (Result-cases (row_metadata row)) [
      | inl (x, m) ↦ absurd (ground arith)
      | inr (cells, m) ↦ elim (Result-cases (retry_full db row cells.0)) [
        | inl (x, full) ↦ absurd (ground arith)
        | inr (d, full) ↦
            let here =
              subst (λ u. find u db.jobs ≡ some row) (sym (uuid-find job_id db.jobs row e)) e in
            let (valid, row', found, same) =
              retry_full-IsConsistent db inv row cells.0 d here full in
            let found' =
              subst (λ u. find u d.jobs ≡ some row') (uuid-find job_id db.jobs row e) found in
            subst IsConsistent (ground arith)
              (requeue-IsConsistent d valid job_id now row.state row' found' same (ground arith))
      ]
    ]
  ]

  pub cancel-IsConsistent :
      (shows : Db → Job → Bool) (job_id : String) (now now' : ℕ) (db' : Db)
      → cancel shows db job_id now now' ≡ ok db'
      → IsConsistent db'
  unfolding cancel
  cancel-IsConsistent shows job_id now now' db' h =
      elim (Result-cases (cancel_row db job_id now now')) [
        | inl (x, e) ↦ absurd (ground (arith, e, h))
        | inr (d, e) ↦ elim (Result-cases (get_job shows d job_id)) [
          | inl (x, g) ↦ absurd (ground (arith, e, g, h))
          | inr (tt, g) ↦
              subst IsConsistent (ok-injective (sym (rw (e, g) refl) ∙ h))
                (cancel_row-IsConsistent db inv job_id now now' d e)
        ]
      ]

  pub retry-IsConsistent :
      (shows : Db → Job → Bool) (job_id : String) (now : ℕ) (db' : Db)
      → retry shows db job_id now ≡ ok db'
      → IsConsistent db'
  unfolding retry
  retry-IsConsistent shows job_id now db' h = elim (Result-cases (retry_row db job_id now)) [
    | inl (x, e) ↦ absurd (ground (arith, e, h))
    | inr (d, e) ↦ elim (Result-cases (get_job shows d job_id)) [
      | inl (x, g) ↦ absurd (ground (arith, e, g, h))
      | inr (tt, g) ↦
          subst IsConsistent (ok-injective (sym (rw (e, g) refl) ∙ h))
            (retry_row-IsConsistent job_id now d e)
    ]
  ]
