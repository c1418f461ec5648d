-- ===== src/Admission/Exclusion.antt =====
-- About the locks of storage/admission.py that the owners hold, by where each owner stands.
use mathlib.Core.Path.{subst}
use justpen_knowledgebase_mc.Base.{ℕ, ◌≡◌, ◌≢◌, refl, sym, ◌∙◌, ap, Bool, true, arith}
use justpen_knowledgebase_mc.Admission.{
  Mode, unlocked, shared, exclusive, Flock, Pc, idle, tx_intent, tx_both, tx_body, tx_unwind,
  reset_intent, reset_body, reset_unwind, Effect, Local, tx_lock_intent, tx_lock_transactions,
  reset_lock_intent, reset_lock_transactions, enter, World, assign, Allowed, perform, Step, move,
  Reach, here, next,
}

-- What an owner holds of `reset-intent.lock`, by where it stands.
abbrev intent_of : Pc → Mode
intent_of tx_intent = shared
intent_of tx_both = shared
intent_of (tx_unwind _ true) = shared
intent_of reset_intent = exclusive
intent_of reset_body = exclusive
intent_of (reset_unwind _ true) = exclusive
intent_of _ = unlocked

-- What it holds of `db-transactions.lock`.
abbrev transactions_of : Pc → Mode
transactions_of tx_both = shared
transactions_of tx_body = shared
transactions_of (tx_unwind true _) = shared
transactions_of reset_body = exclusive
transactions_of (reset_unwind true _) = exclusive
transactions_of _ = unlocked

-- The kernel's table agrees with the owners, and an exclusive lock is alone.
record IsGuarded (w : World) : Type 0 where
  intent_exact : (k : ℕ) → w.intent k ≡ intent_of (w.pc k)
  transactions_exact : (k : ℕ) → w.transactions k ≡ transactions_of (w.pc k)
  intent_alone : (k j : ℕ) → j ≢ k → w.intent k ≡ exclusive → w.intent j ≡ unlocked
  transactions_alone :
      (k j : ℕ) → j ≢ k → w.transactions k ≡ exclusive → w.transactions j ≡ unlocked

module _ (F : Flock) where
  -- A lock that is granted leaves an exclusive lock alone.
  granted_alone :
      (held : ℕ → Mode) (i : ℕ) (m : Mode)
      → F.Grants held i m
      → m ≢ unlocked
      → ((k j : ℕ) → j ≢ k → held k ≡ exclusive → held j ≡ unlocked)
      → (k j : ℕ) → j ≢ k
      → assign held i m k ≡ exclusive
      → assign held i m j ≡ unlocked
  unfolding assign
  granted_alone held i unlocked g ne alone k j d h = absurd (ne refl)
  granted_alone held i shared g ne alone k j d h =
      ground (arith, alone k j, F.grants_shared held i g k)
  granted_alone held i exclusive g ne alone k j d h =
      ground (arith, alone k j, F.grants_exclusive held i g k, F.grants_exclusive held i g j)

  perform-IsGuarded :
      (w : World) (i : ℕ) {p p' : Pc} {e : Effect}
      → IsGuarded w
      → w.pc i ≡ p
      → Local p e p'
      → Allowed F w i e
      → IsGuarded (perform w i e p')
  unfolding perform assign
  perform-IsGuarded w i inv at tx_lock_intent g = record {
    intent_exact = λ k. ground (arith, inv.intent_exact k);
    transactions_exact = λ k. ground (arith, inv.transactions_exact k);
    intent_alone = granted_alone w.intent i shared g (λ e. cc) inv.intent_alone;
    transactions_alone = inv.transactions_alone;
  }
  perform-IsGuarded w i inv at reset_lock_intent g = record {
    intent_exact = λ k. ground (arith, inv.intent_exact k);
    transactions_exact = λ k. ground (arith, inv.transactions_exact k);
    intent_alone = granted_alone w.intent i exclusive g (λ e. cc) inv.intent_alone;
    transactions_alone = inv.transactions_alone;
  }
  perform-IsGuarded w i inv at tx_lock_transactions g = record {
    intent_exact = λ k. ground (arith, inv.intent_exact k);
    transactions_exact = λ k. ground (arith, inv.transactions_exact k);
    intent_alone = inv.intent_alone;
    transactions_alone = granted_alone w.transactions i shared g (λ e. cc) inv.transactions_alone;
  }
  perform-IsGuarded w i inv at reset_lock_transactions g = record {
    intent_exact = λ k. ground (arith, inv.intent_exact k);
    transactions_exact = λ k. ground (arith, inv.transactions_exact k);
    intent_alone = inv.intent_alone;
    transactions_alone =
        granted_alone w.transactions i exclusive g (λ e. cc) inv.transactions_alone;
  }
  perform-IsGuarded w i inv at enter g = record {
    intent_exact = λ k. ground (arith, inv.intent_exact k);
    transactions_exact = λ k. ground (arith, inv.transactions_exact k);
    intent_alone = inv.intent_alone;
    transactions_alone = inv.transactions_alone;
  }
  perform-IsGuarded w i inv at l g = record {
    intent_exact = λ k. ground (arith, inv.intent_exact k);
    transactions_exact = λ k. ground (arith, inv.transactions_exact k);
    intent_alone = λ k j d h. ground (arith, inv.intent_alone k j);
    transactions_alone = λ k j d h. ground (arith, inv.transactions_alone k j);
  }

  Reach-IsGuarded : (w : World) → Reach F w → IsGuarded w
  Reach-IsGuarded w here = record {
    intent_exact = λ k. refl;
    transactions_exact = λ k. refl;
    intent_alone = λ k j d h. refl;
    transactions_alone = λ k j d h. refl;
  }
  Reach-IsGuarded w (next {w = v} r (move i p p' e at l g same)) =
      subst IsGuarded (sym same) (perform-IsGuarded v i (Reach-IsGuarded v r) at l g)

  -- A move leaves the intent lock with none but the owner that has it alone.
  perform-intent :
      (w : World) (k i j : ℕ) {p p' : Pc} {e : Effect} {w' : World}
      → w.pc k ≡ p
      → Local p e p'
      → Allowed F w k e
      → j ≢ i
      → w.intent i ≡ exclusive
      → w.intent j ≡ unlocked
      → w' ≡ perform w k e p'
      → w'.intent j ≡ unlocked
  unfolding perform assign
  perform-intent w k i j at tx_lock_intent g d held free same =
      ground (arith, F.grants_shared w.intent k g i)
  perform-intent w k i j at reset_lock_intent g d held free same =
      ground (arith, F.grants_exclusive w.intent k g i)
  perform-intent w k i j at l g d held free same = ground arith

  -- An owner that does not hold the intent lock gets no lock on the transactions.
  perform-transactions :
      (w : World) (k j : ℕ) {p p' : Pc} {e : Effect} {w' : World}
      → w.pc k ≡ p
      → Local p e p'
      → Allowed F w k e
      → intent_of (w.pc j) ≡ unlocked
      → w.transactions j ≡ unlocked
      → w' ≡ perform w k e p'
      → w'.transactions j ≡ unlocked
  unfolding perform assign
  perform-transactions w k j at tx_lock_transactions g free mine same = ground arith
  perform-transactions w k j at reset_lock_transactions g free mine same = ground arith
  perform-transactions w k j at l g free mine same = ground arith

  -- While one owner is in the body of `reset_window`, no other owner holds either lock, and none is in
  -- the body of a transaction or of another `reset_window`.
  pub reset_excludes :
      (w : World) (i j : ℕ)
      → Reach F w
      → j ≢ i
      → w.pc i ≡ reset_body
      → (w.intent j ≡ unlocked)
        × (w.transactions j ≡ unlocked)
        × (w.pc j ≢ tx_body)
        × (w.pc j ≢ reset_body)
  reset_excludes w i j r d at =
      let inv = Reach-IsGuarded w r in
      ground (
        arith,
        inv.intent_exact i,
        inv.intent_exact j,
        inv.transactions_exact i,
        inv.transactions_exact j,
        inv.intent_alone i j,
        inv.transactions_alone i j,
      )

  -- An owner that is outside both scopes holds neither lock.
  pub idle_releases :
      (w : World) (i : ℕ)
      → Reach F w
      → w.pc i ≡ idle
      → (w.intent i ≡ unlocked) × (w.transactions i ≡ unlocked)
  idle_releases w i r at =
      let inv = Reach-IsGuarded w r in ground (arith, inv.intent_exact i, inv.transactions_exact i)

  -- While an owner of `reset_window` holds the intent lock and waits for the other, no other owner
  -- stands where `transaction` holds the intent lock, and a move of any owner gives neither lock to
  -- another owner that does not hold it: the transactions that it waits for only become fewer.
  pub intent_bars :
      (w w' : World) (i j : ℕ)
      → Reach F w
      → Step F w w'
      → j ≢ i
      → w.pc i ≡ reset_intent
      → (w.pc j ≢ tx_intent)
        × (w.pc j ≢ tx_both)
        × ((b : Bool) → w.pc j ≢ tx_unwind b true)
        × (w.intent j ≡ unlocked → w'.intent j ≡ unlocked)
        × (w.transactions j ≡ unlocked → w'.transactions j ≡ unlocked)
  intent_bars w w' i j r (move k p p' e at l g same) d held =
      let inv = Reach-IsGuarded w r in
      let alone : w.intent i ≡ exclusive = inv.intent_exact i ∙ ap intent_of held in
      let free : w.intent j ≡ unlocked = inv.intent_alone i j d alone in
      let none_held : intent_of (w.pc j) ≡ unlocked = sym (inv.intent_exact j) ∙ free in
      (
        (λ q. cc (none_held, ap intent_of q)),
        (λ q. cc (none_held, ap intent_of q)),
        (λ b q. cc (none_held, ap intent_of q)),
        (λ u. perform-intent w k i j at l g d alone u same),
        λ u. perform-transactions w k j at l g none_held u same,
      )
