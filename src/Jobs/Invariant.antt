-- ===== src/Jobs/Invariant.antt =====
-- What holds of the `jobs` table between two transactions, and how a transition of one row keeps it.
use mathlib.Core.Path.{subst}
use justpen_knowledgebase_mc.Base.{
  sym, Bool-cases, inl, inr, str_eq, ◌+◌, String, ◌≡◌, refl, Bool, true, false, some, List, [], ◌∷◌,
  ℤ, pos, negsuc, +ℤ-suc, +ℤ-pred, arith, is_some, count, All,
}
use justpen_knowledgebase_mc.Jobs.Table.{
  State, queued, running, completed, is_terminal, is_completed, is_failed_cancelled, is_running,
  Job, Db, find, update, adjust_terminal_count,
}
use justpen_knowledgebase_mc.Jobs.Rows.{
  find-head, Unique, KeepsUuid, one, update-Unique, All-update, count-update,
}

-- A lease stands on the running rows alone, and an end time on the terminal ones.
pub record IsJobOk (r : Job) : Type 0 where
  pub leased : is_some r.lease_token ≡ is_running r.state
  pub expiring : is_some r.lease_expires_at ≡ is_running r.state
  pub ended : is_some r.finished_at ≡ is_terminal r.state

abbrev pub in_completed : Job → Bool
in_completed r = is_completed r.state

abbrev pub in_failed_cancelled : Job → Bool
in_failed_cancelled r = is_failed_cancelled r.state

-- Uuids are unique, each row is consistent, and the two counters are exact.
pub record IsConsistent (db : Db) : Type 0 where
  pub unique : Unique db.jobs
  pub rows : All IsJobOk db.jobs
  pub completed_exact : db.completed_count ≡ pos (count in_completed db.jobs)
  pub failed_exact : db.failed_cancelled_count ≡ pos (count in_failed_cancelled db.jobs)

-- A predicate on all rows holds of the row that is found.
pub All-find {κ} :
    (P : Job → Type κ) (u : String) (rs : List Job) (row : Job)
    → All P rs
    → find u rs ≡ some row
    → P row
unfolding find
All-find P u [] row a h = cc
All-find P u (r ∷ rs) row a h = elim (Bool-cases (str_eq r.uuid u)) [
  | inl e ↦ subst P (sym (find-head u r row rs e h)) a.0
  | inr e ↦ All-find P u rs row a.1 (rw e at h)
]

abbrev pub with_jobs : Db → List Job → Db
with_jobs db rs = record db { jobs = rs }

pub adjust-with_jobs :
    (s : State) (d : ℤ) (db : Db) (rs : List Job)
    → with_jobs (adjust_terminal_count s d db) rs ≡ adjust_terminal_count s d (with_jobs db rs)
unfolding adjust_terminal_count
adjust-with_jobs completed d db rs = refl
adjust-with_jobs _ d db rs = refl

pub jobs-adjust : (s : State) (d : ℤ) (db : Db) → (adjust_terminal_count s d db).jobs ≡ db.jobs
unfolding adjust_terminal_count
jobs-adjust completed d db = refl
jobs-adjust _ d db = refl

module _ (db : Db) (u : String) (f : Job → Job) (row : Job) (keeps : KeepsUuid f)
    (inv : IsConsistent db) (found : find u db.jobs ≡ some row) (good : IsJobOk (f row)) where
  dones :
      count in_completed (update u f db.jobs) + one (in_completed row)
      ≡ count in_completed db.jobs + one (in_completed (f row))
  dones = count-update u f keeps in_completed db.jobs row inv.unique found

  fails :
      count in_failed_cancelled (update u f db.jobs) + one (in_failed_cancelled row)
      ≡ count in_failed_cancelled db.jobs + one (in_failed_cancelled (f row))
  fails = count-update u f keeps in_failed_cancelled db.jobs row inv.unique found

  -- A row that stays in its group, or stays active, leaves the counters exact.
  pub same-IsConsistent :
      in_completed (f row) ≡ in_completed row
      → in_failed_cancelled (f row) ≡ in_failed_cancelled row
      → IsConsistent (with_jobs db (update u f db.jobs))
  same-IsConsistent ec ef = record {
    unique = update-Unique u f keeps db.jobs inv.unique;
    rows = All-update u f keeps IsJobOk db.jobs row inv.unique found good inv.rows;
    completed_exact = ground (arith, inv.completed_exact, dones);
    failed_exact = ground (arith, inv.failed_exact, fails);
  }

  -- A row that ends is counted once.
  pub end-IsConsistent :
      (s : State)
      → (f row).state ≡ s
      → is_terminal row.state ≡ false
      → is_terminal s ≡ true
      → IsConsistent (adjust_terminal_count s (pos 1) (with_jobs db (update u f db.jobs)))
  unfolding adjust_terminal_count
  end-IsConsistent completed e active t = record {
    unique = update-Unique u f keeps db.jobs inv.unique;
    rows = All-update u f keeps IsJobOk db.jobs row inv.unique found good inv.rows;
    completed_exact =
        ground (arith, inv.completed_exact, dones, +ℤ-suc (count in_completed db.jobs));
    failed_exact = ground (arith, inv.failed_exact, fails);
  }
  end-IsConsistent queued e active t = cc
  end-IsConsistent running e active t = cc
  end-IsConsistent _ e active t = record {
    unique = update-Unique u f keeps db.jobs inv.unique;
    rows = All-update u f keeps IsJobOk db.jobs row inv.unique found good inv.rows;
    completed_exact = ground (arith, inv.completed_exact, dones);
    failed_exact =
        ground (arith, inv.failed_exact, fails, +ℤ-suc (count in_failed_cancelled db.jobs));
  }

  -- A terminal row that becomes active again is no longer counted.
  pub revive-IsConsistent :
      (s : State)
      → row.state ≡ s
      → is_terminal s ≡ true
      → is_terminal (f row).state ≡ false
      → IsConsistent (adjust_terminal_count s (negsuc 0) (with_jobs db (update u f db.jobs)))
  unfolding adjust_terminal_count
  revive-IsConsistent queued e t active = cc
  revive-IsConsistent running e t active = cc
  revive-IsConsistent completed e t active = record {
    unique = update-Unique u f keeps db.jobs inv.unique;
    rows = All-update u f keeps IsJobOk db.jobs row inv.unique found good inv.rows;
    completed_exact =
        ground
          (arith, inv.completed_exact, dones, +ℤ-pred (count in_completed (update u f db.jobs)));
    failed_exact = ground (arith, inv.failed_exact, fails);
  }
  revive-IsConsistent _ e t active = record {
    unique = update-Unique u f keeps db.jobs inv.unique;
    rows = All-update u f keeps IsJobOk db.jobs row inv.unique found good inv.rows;
    completed_exact = ground (arith, inv.completed_exact, dones);
    failed_exact =
        ground (
          arith,
          inv.failed_exact,
          fails,
          +ℤ-pred (count in_failed_cancelled (update u f db.jobs)),
        );
  }
