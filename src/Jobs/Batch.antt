-- ===== src/Jobs/Batch.antt =====
-- About `claim_batch` and `claim` of storage/jobs.py as a whole.
use justpen_knowledgebase_mc.Base.{
  ℕ, ◌-◌, ◌≤◌, String, ◌≡◌, refl, true, false, ◌||◌, some, none, List, arith, ok, inl, inr, eq_iff,
  Bool-cases, ◌==◌, All, All-map, All-take, All-select, All-unselect, take-all, select, length,
  is_ok,
}
use justpen_knowledgebase_mc.Jobs.Table.{is_terminal, Job, Db, find}
use justpen_knowledgebase_mc.Jobs.Rows.{Unique-select, Unique-take, All-find_self}
use justpen_knowledgebase_mc.Jobs.Ownership.{row_metadata}
use justpen_knowledgebase_mc.Jobs.Lease.{
  Claim, is_claimable, is_candidate, range_rows, max_id, Scan, examine, wrap_around, claim_batch,
  claim,
}
use justpen_knowledgebase_mc.Jobs.Invariant.{IsConsistent}
use justpen_knowledgebase_mc.Jobs.Claiming.{IsTracked}
use justpen_knowledgebase_mc.Jobs.Scanning.{
  Taken, Spares, found_in, db_in, Outcome, examine-Outcome,
}

-- The row is work of the lane and of the kind, and is not being purged.
pub record IsWork (lane kind : String) (r : Job) : Type 0 where
  pub in_lane : r.lane ≡ lane
  pub of_kind : r.kind ≡ kind
  pub kept : r.purge_pending ≡ false

-- What `claim_batch` may do to the table, whatever it returns.
pub record Claims (lane kind token : String) (now : ℕ) (db : Db) (s : Scan) : Type 0 where
  pub consistent : IsConsistent (db_in s)
  pub spares : Spares now db (db_in s)
  pub taken : (c : Claim) → found_in s ≡ some c → Taken token now (IsWork lane kind) db (db_in s) c

candidate-IsWork :
    (lane kind : String) (lower upper : ℕ) (r : Job)
    → is_candidate lane kind lower upper r ≡ true
    → IsWork lane kind r × (is_terminal r.state ≡ false)
candidate-IsWork lane kind lower upper r h = ground (arith, eq_iff r.lane lane, eq_iff r.kind kind)

module _ (lane kind token : String) (now : ℕ) where
  module _ (db : Db) (inv : IsConsistent db) (lower upper limit : ℕ) where
    abbrev rows : List Job
    rows = range_rows db lane kind lower upper limit

    range-facts : All (λ r. IsTracked db r × IsWork lane kind r) rows
    range-facts = All-take _ limit (select (is_candidate lane kind lower upper) db.jobs) (
        All-map _ _
          (λ r (h, found).
            let (work, active) = candidate-IsWork lane kind lower upper r h in
            (record { found = found; active = active }, work))
          (select (is_candidate lane kind lower upper) db.jobs)
          (All-select (λ r. find r.uuid db.jobs ≡ some r) (is_candidate lane kind lower upper)
            db.jobs (All-find_self db.jobs inv.unique)))

    range-Outcome :
        (after : ℕ)
        → (s : Scan) × (examine rows token now db after ≡ ok s)
          × Outcome token now (IsWork lane kind) rows db s
    range-Outcome after =
        examine-Outcome token now (IsWork lane kind) rows db after inv
          (Unique-take limit _ (Unique-select _ db.jobs inv.unique))
          (All-map _ (IsTracked db) (λ r h. h.0) rows range-facts)
          (All-map _ (IsWork lane kind) (λ r h. h.1) rows range-facts)

  wrap_around-Claims :
      (db : Db) (after_id remaining : ℕ) (rows : List Job) (s : Scan)
      → Outcome token now (IsWork lane kind) rows db s
      → (s' : Scan) × (wrap_around lane kind after_id token now remaining s ≡ ok s')
        × Claims lane kind token now db s'
  unfolding wrap_around
  wrap_around-Claims db after_id remaining rows (d, some c, after) o = (
    (d, some c, after),
    refl,
    record { consistent = o.consistent; spares = o.spares; taken = o.taken },
  )
  wrap_around-Claims db after_id remaining rows (d, none, after) o =
      elim (Bool-cases (after_id == 0 || remaining == 0)) [
        | inl stop ↦ (
          (d, none, after),
          rw stop,
          record { consistent = o.consistent; spares = o.spares; taken = o.taken },
        )
        | inr more ↦
            let (s, e, o') = range-Outcome d o.consistent 0 after_id remaining after in
            (
              s,
              rw more e,
              record {
                consistent = o'.consistent;
                spares = λ u x h b. o'.spares u x (o.spares u x h b) b;
                taken = λ c h.
                    let k = o'.taken c h in
                    record {
                      row = k.row;
                      matches = k.matches;
                      free = k.free;
                      before = o.only_ends refl k.row.uuid k.row k.before (ground (arith, k.free));
                      cells = k.cells;
                      read = k.read;
                      claim_is = k.claim_is;
                      after = k.after;
                    };
              },
            )
      ]

  -- From a consistent table `claim_batch` returns, whatever the rows hold and wherever it starts. The
  -- table stays consistent. A row that is not free (terminal, or under a live lease) is left exactly
  -- as it was. A claim that is returned is of a row of the lane and kind, not being purged, that was
  -- queued or whose lease had run out, and whose metadata could be read; that row is now running
  -- under the token until `now + 30 s`, with one more attempt.
  pub claim_batch-Claims :
      (db : Db) (after_id : ℕ)
      → IsConsistent db
      → (s : Scan) × (claim_batch db lane kind after_id token now ≡ ok s)
        × Claims lane kind token now db s
  unfolding claim_batch
  claim_batch-Claims db after_id inv =
      let (s, e, o) = range-Outcome db inv after_id max_id 100 after_id in
      let (s', e', c) =
        wrap_around-Claims db after_id (100 - length (rows db inv after_id max_id 100)) _ s o in
      (s', rw e e', c)

  scan_none :
      (db db' : Db) (s : Scan)
      → examine (range_rows db lane kind 0 max_id 100) token now db 0 ≡ ok s
      → claim db lane kind token now ≡ ok (db', none)
      → found_in s ≡ none
  unfolding claim claim_batch wrap_around
  scan_none db db' (d, none, after) e h = refl
  scan_none db db' (d, some c, after) e h = absurd (ground arith)

  -- If a consistent table has at most 100 active rows of the lane and kind that are not being purged
  -- and `claim` returns no claim, then each of these rows that was free has metadata that cannot be
  -- read.
  pub claim-none :
      (db db' : Db)
      → IsConsistent db
      → length (select (is_candidate lane kind 0 max_id) db.jobs) ≤ 100
      → claim db lane kind token now ≡ ok (db', none)
      → All
          (λ r.
            is_candidate lane kind 0 max_id r ≡ true
            → is_claimable now r ≡ true
            → is_ok (row_metadata r) ≡ false)
          db.jobs
  unfolding claim claim_batch
  claim-none db db' inv few h =
      let (s, e, o) = range-Outcome db inv 0 max_id 100 0 in
      All-unselect _ (is_candidate lane kind 0 max_id) db.jobs (
        rw (take-all 100 (select (is_candidate lane kind 0 max_id) db.jobs) few) at
          (o.exhausted (scan_none db db' s e h)))
