-- ===== src/Admission/Tests.antt =====
-- A `flock` as the manual states it, and a run of two owners.
use justpen_knowledgebase_mc.Base.{ℕ, ◌≡◌, ◌≢◌, refl, Bool, true, false, arith}
use justpen_knowledgebase_mc.Admission.{
  Mode, unlocked, shared, exclusive, Flock, idle, tx_entered, tx_both, tx_unwind, enter, tx_body,
  tx_intent, reset_entered, reset_intent, reset_body, silent, lock_intent, lock_transactions,
  enter_reset, reset_lock_intent, reset_lock_transactions, World, assign, start, perform, move,
  Reach, here, next, busy_timeout_ms,
}
use justpen_knowledgebase_mc.Admission.Exclusion.{reset_excludes, idle_releases, intent_bars}

abbrev Granted : (ℕ → Mode) → ℕ → Mode → Type 0
Granted held i unlocked = Unit
Granted held i shared = (j : ℕ) → j ≢ i → held j ≢ exclusive
Granted held i exclusive = (j : ℕ) → j ≢ i → held j ≡ unlocked

abbrev manual : Flock
manual = record {
  Grants = Granted;
  grants_shared = λ held i g. g;
  grants_exclusive = λ held i g. g;
}

abbrev entered : World
entered = perform start 0 silent reset_entered

abbrev intended : World
intended = perform entered 0 (lock_intent exclusive) reset_intent

abbrev resetting : World
resetting = perform intended 0 (lock_transactions exclusive) reset_body

intended-Reach : Reach manual intended
unfolding perform assign
intended-Reach = next (next here (move 0 idle reset_entered silent refl enter_reset tt refl)) (
    move 0 reset_entered reset_intent (lock_intent exclusive) refl reset_lock_intent (λ j d. refl)
      refl)

resetting-Reach : Reach manual resetting
unfolding perform assign
resetting-Reach = next intended-Reach (
    move 0 reset_intent reset_body (lock_transactions exclusive) refl reset_lock_transactions
      (λ j d. refl) refl)

reset_excludes_example :
    (resetting.intent 1 ≡ unlocked)
    × (resetting.transactions 1 ≡ unlocked)
    × (resetting.pc 1 ≢ tx_body)
    × (resetting.pc 1 ≢ reset_body)
unfolding perform assign
reset_excludes_example = reset_excludes manual resetting 0 1 resetting-Reach (omega arith) refl

idle_releases_example : (resetting.intent 1 ≡ unlocked) × (resetting.transactions 1 ≡ unlocked)
unfolding perform assign
idle_releases_example = idle_releases manual resetting 1 resetting-Reach refl

-- A transaction enters while the other owner waits.
abbrev entering : World
entering = perform intended 1 silent tx_entered

intent_bars_example :
    (intended.pc 1 ≢ tx_intent)
    × (intended.pc 1 ≢ tx_both)
    × ((b : Bool) → intended.pc 1 ≢ tx_unwind b true)
    × (intended.intent 1 ≡ unlocked → entering.intent 1 ≡ unlocked)
    × (intended.transactions 1 ≡ unlocked → entering.transactions 1 ≡ unlocked)
unfolding perform assign
intent_bars_example =
    intent_bars manual intended entering 0 1 intended-Reach
      (move 1 idle tx_entered silent refl enter tt refl) (omega arith) refl

timeout-clamps : busy_timeout_ms false 900 300 ≡ 200
unfolding busy_timeout_ms
timeout-clamps = refl
