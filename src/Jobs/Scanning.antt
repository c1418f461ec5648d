-- ===== src/Jobs/Scanning.antt =====
-- The loop of `claim_batch` over the rows of one range.
use justpen_knowledgebase_mc.Base.{
  ℕ, String, ◌≡◌, refl, sym, ◌∙◌, true, false, Option, some, none, List, [], ◌∷◌, arith, ok,
  Result-cases, inl, inr, str_eq, eq_iff, Bool-cases, All, is_ok,
}
use justpen_knowledgebase_mc.Json.{Fields}
use justpen_knowledgebase_mc.Jobs.Table.{failed, is_terminal, Job, Db, find, update}
use justpen_knowledgebase_mc.Jobs.Rows.{Unique, find-update_self, find-update_ne, All-other}
use justpen_knowledgebase_mc.Jobs.Ownership.{row_metadata}
use justpen_knowledgebase_mc.Jobs.Lease.{
  Claim, is_claimable, isolated, claimed, claim_of, Scan, examine,
}
use justpen_knowledgebase_mc.Jobs.Invariant.{
  IsJobOk, IsConsistent, All-find, with_jobs, same-IsConsistent, end-IsConsistent, jobs-adjust,
}
use justpen_knowledgebase_mc.Jobs.Claiming.{
  after_isolation, IsTracked, claim_selected-ok, claim_selected-err, test-is_claimable,
}

-- The claim is of a free row whose metadata could be read, and the row now carries its lease.
pub record Taken (token : String) (now : ℕ) (P : Job → Type 0) (db db' : Db) (c : Claim)
    : Type 0 where
  pub row : Job
  pub matches : P row
  pub free : is_claimable now row ≡ true
  pub before : find row.uuid db.jobs ≡ some row
  pub cells : Fields × Fields × Fields
  pub read : row_metadata row ≡ ok cells
  pub claim_is : c ≡ claim_of row token now cells
  pub after : find row.uuid db'.jobs ≡ some (claimed token now row)

-- A row that is not free to claim is the same row afterwards.
abbrev pub Spares : ℕ → Db → Db → Type 0
Spares now db db' =
    (u : String) (x : Job)
    → find u db.jobs ≡ some x
    → is_claimable now x ≡ false
    → find u db'.jobs ≡ some x

-- The active rows of the second table were rows of the first.
abbrev pub OnlyEnds : Db → Db → Type 0
OnlyEnds db db' =
    (u : String) (x : Job)
    → find u db'.jobs ≡ some x
    → is_terminal x.state ≡ false
    → find u db.jobs ≡ some x

abbrev pub found_in : Scan → Option Claim
found_in (_, found, _) = found

abbrev pub db_in : Scan → Db
db_in (db, _, _) = db

free_active : (now : ℕ) (r : Job) → is_claimable now r ≡ true → is_terminal r.state ≡ false
free_active now r h = ground arith

-- What a pass that began at `db` has done.
pub record Outcome (token : String) (now : ℕ) (P : Job → Type 0) (rows : List Job) (db : Db)
    (s : Scan) : Type 0 where
  pub consistent : IsConsistent (db_in s)
  pub spares : Spares now db (db_in s)
  pub only_ends : found_in s ≡ none → OnlyEnds db (db_in s)
  pub taken : (c : Claim) → found_in s ≡ some c → Taken token now P db (db_in s) c
  pub exhausted :
      found_in s ≡ none → All (λ r. is_claimable now r ≡ true → is_ok (row_metadata r) ≡ false) rows

module _ (token : String) (now : ℕ) (P : Job → Type 0) (db : Db) (inv : IsConsistent db) where
  module _ (r : Job) (t : IsTracked db r) (free : is_claimable now r ≡ true) where
    -- An UPDATE of a free row leaves the others as they were.
    update-spares :
        (f : Job → Job)
        → ((x : Job) → (f x).uuid ≡ x.uuid)
        → (u : String) (x : Job) → find u db.jobs ≡ some x
        → is_claimable now x ≡ false
        → find u (update r.uuid f db.jobs) ≡ some x
    update-spares f keeps u x h busy = elim (Bool-cases (str_eq r.uuid u)) [
      | inl e ↦ absurd (clash ((eq_iff r.uuid u).0 e))
      | inr e ↦ find-update_ne r.uuid f keeps u db.jobs e ∙ h
    ]
      where
        clash : r.uuid ≡ u → ⊥
        clash e = cc (free, busy, t.found, h, e)

    isolation-IsConsistent : IsConsistent (after_isolation db r now)
    isolation-IsConsistent =
        end-IsConsistent db r.uuid (isolated now) r (λ x. refl) inv t.found
          (record { leased = refl; expiring = refl; ended = refl }) failed refl t.active refl

    isolation-Spares : Spares now db (after_isolation db r now)
    isolation-Spares u x h busy =
        rw jobs-adjust (update-spares (isolated now) (λ y. refl) u x h busy)

    isolation-OnlyEnds : OnlyEnds db (after_isolation db r now)
    isolation-OnlyEnds u x h a = elim (Bool-cases (str_eq r.uuid u)) [
      | inl e ↦ absurd (ended ((eq_iff r.uuid u).0 e))
      | inr e ↦ sym (find-update_ne r.uuid (isolated now) (λ y. refl) u db.jobs e) ∙ here
    ]
      where
        here : find u (update r.uuid (isolated now) db.jobs) ≡ some x
        here = rw jobs-adjust at h

        ended : r.uuid ≡ u → ⊥
        ended e =
            ground
              (arith, find-update_self r.uuid (isolated now) (λ y. refl) db.jobs r t.found, here, e)

    isolation-IsTracked :
        (rows : List Job)
        → find r.uuid rows ≡ none
        → All (IsTracked db) rows
        → All (IsTracked (after_isolation db r now)) rows
    isolation-IsTracked [] h a = tt
    isolation-IsTracked (x ∷ rows) h a =
        let (other, _) = All-other r (x ∷ rows) h in
        (
          record {
            found =
                rw jobs-adjust (
                  find-update_ne r.uuid (isolated now) (λ y. refl) x.uuid db.jobs other
                  ∙ a.0.found);
            active = a.0.active;
          },
          isolation-IsTracked rows (unfold find in ground (arith, other)) a.1,
        )

    claim-IsConsistent : IsConsistent (with_jobs db (update r.uuid (claimed token now) db.jobs))
    claim-IsConsistent =
        same-IsConsistent db r.uuid (claimed token now) r (λ x. refl) inv t.found
          (record { leased = refl; expiring = refl; ended = good.ended ∙ t.active })
          (ground (arith, t.active)) (ground (arith, t.active))
      where
        good : IsJobOk r
        good = All-find IsJobOk r.uuid db.jobs r inv.rows t.found

    claim-Spares : Spares now db (with_jobs db (update r.uuid (claimed token now) db.jobs))
    claim-Spares u x h busy = update-spares (claimed token now) (λ y. refl) u x h busy

module _ (token : String) (now : ℕ) (P : Job → Type 0) (r : Job) (rows : List Job) (db : Db) where
  busy-Outcome :
      (s : Scan)
      → is_claimable now r ≡ false
      → Outcome token now P rows db s
      → Outcome token now P (r ∷ rows) db s
  busy-Outcome s busy o = record {
    consistent = o.consistent;
    spares = o.spares;
    only_ends = o.only_ends;
    taken = o.taken;
    exhausted = λ n. ((λ free. cc), o.exhausted n);
  }

  isolated-Outcome :
      (s : Scan)
      → IsConsistent db
      → IsTracked db r
      → is_claimable now r ≡ true
      → is_ok (row_metadata r) ≡ false
      → Outcome token now P rows (after_isolation db r now) s
      → Outcome token now P (r ∷ rows) db s
  isolated-Outcome s inv t free bad o = record {
    consistent = o.consistent;
    spares = λ u x h b. o.spares u x (isolation-Spares token now P db inv r t free u x h b) b;
    only_ends =
        λ n u x h a. isolation-OnlyEnds token now P db inv r t free u x (o.only_ends n u x h a) a;
    taken = λ c h. back c (o.taken c h);
    exhausted = λ n. ((λ _. bad), o.exhausted n);
  }
    where
      back :
          (c : Claim)
          → Taken token now P (after_isolation db r now) (db_in s) c
          → Taken token now P db (db_in s) c
      back c k = record {
        row = k.row;
        matches = k.matches;
        free = k.free;
        before =
            isolation-OnlyEnds token now P db inv r t free k.row.uuid k.row k.before
              (free_active now k.row k.free);
        cells = k.cells;
        read = k.read;
        claim_is = k.claim_is;
        after = k.after;
      }

  claimed-Outcome :
      (cells : Fields × Fields × Fields)
      → IsConsistent db
      → IsTracked db r
      → is_claimable now r ≡ true
      → row_metadata r ≡ ok cells
      → P r
      → Outcome token now P (r ∷ rows) db (
        with_jobs db (update r.uuid (claimed token now) db.jobs),
        some (claim_of r token now cells),
        r.id,
      )
  claimed-Outcome cells inv t free good p = record {
    consistent = claim-IsConsistent token now P db inv r t free;
    spares = claim-Spares token now P db inv r t free;
    only_ends = λ n. cc;
    taken = λ c h. record {
      row = r;
      matches = p;
      free = free;
      before = t.found;
      cells = cells;
      read = good;
      claim_is = ground arith;
      after = find-update_self r.uuid (claimed token now) (λ y. refl) db.jobs r t.found;
    };
    exhausted = λ n. cc;
  }

module _ (token : String) (now : ℕ) (P : Job → Type 0) where
  -- The loop ends with a table and perhaps a claim, whatever the rows hold.
  pub examine-Outcome :
      (rows : List Job) (db : Db) (after : ℕ)
      → IsConsistent db
      → Unique rows
      → All (IsTracked db) rows
      → All P rows
      → (s : Scan) × (examine rows token now db after ≡ ok s) × Outcome token now P rows db s
  unfolding examine
  examine-Outcome [] db after inv un tr ps = (
    (db, none, after),
    refl,
    record {
      consistent = inv;
      spares = λ u x h _. h;
      only_ends = λ _ u x h _. h;
      taken = λ c h. absurd (ground arith);
      exhausted = λ _. tt;
    },
  )
  examine-Outcome (r ∷ rows) db after inv un tr ps =
      let good = All-find IsJobOk r.uuid db.jobs r inv.rows tr.0.found in
      let test = test-is_claimable token now r tr.0.active good in
      elim (Bool-cases (is_claimable now r)) [
        | inr busy ↦
            let (s, e, o) = examine-Outcome rows db r.id inv un.1 tr.1 ps.1 in
            (s, rw (test, busy) e, busy-Outcome token now P r rows db s busy o)
        | inl free ↦ elim (Result-cases (row_metadata r)) [
          | inl (x, bad) ↦
              let (s, e, o) =
                examine-Outcome rows (after_isolation db r now) r.id
                  (isolation-IsConsistent token now P db inv r tr.0 free) un.1
                  (isolation-IsTracked token now P db inv r tr.0 free rows un.0 tr.1) ps.1 in
              (
                s,
                rw (test, free, claim_selected-err token now db r x tr.0.found free bad) e,
                isolated-Outcome token now P r rows db s inv tr.0 free (rw bad) o,
              )
          | inr (cells, read) ↦ (
            (
              with_jobs db (update r.uuid (claimed token now) db.jobs),
              some (claim_of r token now cells),
              r.id,
            ),
            rw (test, free, claim_selected-ok token now db r cells tr.0.found read),
            claimed-Outcome token now P r rows db cells inv tr.0 free read ps.0,
          )
        ]
      ]
