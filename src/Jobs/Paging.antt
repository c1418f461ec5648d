-- ===== src/Jobs/Paging.antt =====
-- About `JobRetention.batch` of storage/job_retention.py, row by row of its page.
use mathlib.Core.Path.{subst}
use justpen_knowledgebase_mc.Base.{
  ℕ, String, ◌≡◌, refl, ◌∙◌, true, false, ◌||◌, not, Option, some, List, [], ◌∷◌, arith, Result, ok,
  err, storage_io, Result-cases, Bool-cases, inl, inr, str_eq, All, All-map,
}
use justpen_knowledgebase_mc.Jobs.Table.{is_terminal, Job, Db, find, update, pending_owners}
use justpen_knowledgebase_mc.Jobs.Rows.{Unique, find-update_ne, All-other}
use justpen_knowledgebase_mc.Jobs.Invariant.{
  IsJobOk, IsConsistent, All-find, same-IsConsistent, jobs-adjust,
}
use justpen_knowledgebase_mc.Jobs.Retention.{
  Policy, is_unleased, holds_token, is_invalid_code, prune,
}
use justpen_knowledgebase_mc.Jobs.PurgeLaws.{prune-IsConsistent, find-delete_ne}
use justpen_knowledgebase_mc.Jobs.Ordering.{HasEnded, candidates-Unique, candidates-HasEnded}
use justpen_knowledgebase_mc.Jobs.Page.{
  Position, candidates, Page, start_page, is_due, marked_row, invalid_row, is_owning,
  tokens_and_blob, dispose, consider, consider_all, uuids, batch,
}

-- The table is consistent still, and of the other rows none has changed.
record Touches (row : Job) (db db' : Db) : Type 0 where
  consistent : IsConsistent db'
  others : (u : String) → str_eq row.uuid u ≡ false → find u db'.jobs ≡ find u db.jobs

module _ (row : Job) (db : Db) (inv : IsConsistent db)
    (found : find row.uuid db.jobs ≡ some row) where
  good : IsJobOk row
  good = All-find IsJobOk row.uuid db.jobs row inv.rows found

  marked-Touches :
      (tokens : List String) (now : ℕ)
      → Touches row db (record db { jobs = update row.uuid (marked_row tokens now) db.jobs })
  marked-Touches tokens now = record {
    consistent =
        same-IsConsistent db row.uuid (marked_row tokens now) row (λ r. refl) inv found
          (record { leased = good.leased; expiring = good.expiring; ended = good.ended }) refl refl;
    others = λ u e. find-update_ne row.uuid (marked_row tokens now) (λ r. refl) u db.jobs e;
  }

  invalid-Touches : Touches row db (record db { jobs = update row.uuid invalid_row db.jobs })
  invalid-Touches = record {
    consistent =
        same-IsConsistent db row.uuid invalid_row row (λ r. refl) inv found
          (record { leased = good.leased; expiring = good.expiring; ended = good.ended }) refl refl;
    others = λ u e. find-update_ne row.uuid invalid_row (λ r. refl) u db.jobs e;
  }

  prune-Touches : is_terminal row.state ≡ true → Touches row db (prune db row)
  unfolding prune
  prune-Touches t = record {
    consistent = unfold prune in prune-IsConsistent db row inv found t;
    others = λ u e. rw jobs-adjust (find-delete_ne row.uuid u db.jobs e);
  }

  none-Touches : Touches row db db
  none-Touches = record { consistent = inv; others = λ u e. refl }

still_found :
    (r : Job) (db db' : Db) (rows : List Job)
    → Touches r db db'
    → All (λ x. str_eq r.uuid x.uuid ≡ false) rows
    → All (λ x. find x.uuid db.jobs ≡ some x) rows
    → All (λ x. find x.uuid db'.jobs ≡ some x) rows
still_found r db db' [] touched apart found = tt
still_found r db db' (x ∷ rows) touched apart found =
    (touched.others x.uuid apart.0 ∙ found.0, still_found r db db' rows touched apart.1 found.1)

module _ (uuid : String → Option String) (policy : Policy) (durable : Db) (owners : List String)
    (now : ℕ) where
  dispose-Touches :
      (page page' : Page) (row : Job) (x : Result (List String × Option String))
      → IsConsistent page.db
      → find row.uuid page.db.jobs ≡ some row
      → is_terminal row.state ≡ true
      → dispose uuid page row now x ≡ ok page'
      → Touches row page.db page'.db
  unfolding dispose
  dispose-Touches page page' row (ok (tokens, digest)) inv found t h =
      elim (Bool-cases (is_owning tokens digest)) [
        | inl e ↦
            subst (λ d. Touches row page.db d) (ground arith)
              (marked-Touches row page.db inv found tokens now)
        | inr e ↦
            subst (λ d. Touches row page.db d) (ground arith)
              (prune-Touches row page.db inv found t)
      ]
  dispose-Touches page page' row (err (storage_io m)) inv found t h =
      subst (λ d. Touches row page.db d) (ground arith) (invalid-Touches row page.db inv found)
  dispose-Touches page page' row (err _) inv found t h = cc

  consider-Touches :
      (page page' : Page) (row : Job)
      → IsConsistent page.db
      → find row.uuid page.db.jobs ≡ some row
      → HasEnded durable row
      → consider uuid policy durable owners now row page ≡ ok page'
      → Touches row page.db page'.db
  unfolding consider
  consider-Touches page page' row inv found (same, t) h =
      elim (Bool-cases (is_invalid_code row.error_code)) [
        | inl e ↦
            subst (λ d. Touches row page.db d) (ground arith) (none-Touches row page.db inv found)
        | inr e ↦ elim (Bool-cases (is_due policy page row now)) [
          | inr d ↦
              subst (λ d. Touches row page.db d) (ground arith) (none-Touches row page.db inv found)
          | inl d ↦
              elim (Bool-cases
                (row.purge_pending || (not (is_unleased row now) || holds_token row.uuid owners))) [
                  | inl s ↦
                      subst (λ d. Touches row page.db d) (ground (arith, same))
                        (none-Touches row page.db inv found)
                  | inr s ↦
                      dispose-Touches page page' row (tokens_and_blob uuid row) inv found t
                        (ground (arith, same))
                ]
        ]
      ]

  consider_all-IsConsistent :
      (page page' : Page) (rows : List Job)
      → Unique rows
      → All (λ r. find r.uuid page.db.jobs ≡ some r) rows
      → All (HasEnded durable) rows
      → IsConsistent page.db
      → consider_all uuid policy durable owners now rows page ≡ ok page'
      → IsConsistent page'.db
  unfolding consider_all
  consider_all-IsConsistent page page' [] un found ended inv h =
      let e : page.db ≡ page'.db = ground arith in subst IsConsistent e inv
  consider_all-IsConsistent page page' (r ∷ rows) un found ended inv h =
      elim (Result-cases (consider uuid policy durable owners now r page)) [
        | inl (x, q) ↦ absurd (ground arith)
        | inr (next, q) ↦
            let touched = consider-Touches page next r inv found.0 ended.0 q in
            consider_all-IsConsistent next page' rows un.1
              (still_found r page.db next.db rows touched (All-other r rows un.0) found.1) ended.1
              touched.consistent (ground arith)
      ]

-- A page of retention leaves a consistent table consistent: whatever it prunes, marks or finds
-- invalid, uuids stay unique, leases and end times stand on the right rows, and the two terminal
-- counters are exact.
pub batch-IsConsistent :
    (uuid : String → Option String) (policy : Policy) (db : Db) (cursor cursor' : Position)
    (now examined : ℕ) (page : Page)
    → IsConsistent db
    → batch uuid policy db cursor now ≡ ok (page, cursor', examined)
    → IsConsistent page.db
unfolding batch
batch-IsConsistent uuid policy db cursor cursor' now examined page inv h =
    let rows = candidates db cursor in
    let owners = pending_owners db (uuids rows) in
    elim (Result-cases (consider_all uuid policy db owners now rows (start_page db))) [
      | inl (x, q) ↦ absurd (ground arith)
      | inr (last, q) ↦
          let e : last.db ≡ page.db = ground arith in
          subst IsConsistent e (
            consider_all-IsConsistent uuid policy db owners now (start_page db) last rows
              (candidates-Unique db inv.unique cursor)
              (All-map (HasEnded db) _ (λ r f. f.0) rows (candidates-HasEnded db inv.unique cursor))
              (candidates-HasEnded db inv.unique cursor) inv q)
    ]
