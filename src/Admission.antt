-- ===== src/Admission.antt =====
-- storage/admission.py: the two lock files by which a WAL reset excludes transactions. Each owner
-- thread has a gate with its own descriptors. An owner runs one scope at a time, `transaction` or
-- `reset_window`; the scopes of the owners interleave in any way. A lock is granted by `flock(2)`,
-- which is a parameter.
pub mod Exclusion
pub mod Tests
use justpen_knowledgebase_mc.Base.{ℕ, ◌-◌, ◌≡◌, ◌≢◌, Bool, true, false, ◌==◌, leb, if◌then◌else◌}

-- What an open file description holds of a lock.
pub data Mode : Type 0 where
  unlocked shared exclusive : Mode

-- `fcntl.flock(fd, mode | LOCK_NB)`: `Grants held i m` says that the call of owner `i` succeeds where
-- `held` is what each owner holds. A shared lock is not granted beside an exclusive one of another
-- owner, nor an exclusive lock beside any lock of another owner.
pub record Flock : Type 1 where
  pub Grants : (ℕ → Mode) → ℕ → Mode → Type 0
  pub grants_shared :
      (held : ℕ → Mode) (i : ℕ) → Grants held i shared → (j : ℕ) → j ≢ i → held j ≢ exclusive
  pub grants_exclusive :
      (held : ℕ → Mode) (i : ℕ) → Grants held i exclusive → (j : ℕ) → j ≢ i → held j ≡ unlocked

-- Where an owner stands. The flags of an unwinding scope are the local variables `transactions` and
-- `intent` that its `finally` reads.
pub data Pc : Type 0 where
  idle : Pc
  tx_entered : Pc  -- `transaction` after `_enter`
  tx_intent : Pc  -- holds `reset-intent.lock`
  tx_both : Pc  -- holds both locks
  tx_body : Pc  -- holds `db-transactions.lock`: the `yield`, and the last `check`
  tx_unwind : Bool → Bool → Pc
  reset_entered : Pc
  reset_intent : Pc
  reset_body : Pc  -- the `yield` of `reset_window`, under both locks
  reset_unwind : Bool → Bool → Pc

-- What one system call does to the lock files.
pub data Effect : Type 0 where
  silent : Effect
  lock_intent lock_transactions : Mode → Effect
  unlock_intent unlock_transactions : Effect

-- The program of one owner. `token.check`, a deadline or the body may raise wherever the code
-- calls them, and `flock` may raise an OSError: a scope that raises, and one whose body returns, goes on in its `finally`.
pub data Local : Pc → Effect → Pc → Type 0 where
  enter : Local idle silent tx_entered
  tx_lock_intent : Local tx_entered (lock_intent shared) tx_intent
  tx_lock_transactions : Local tx_intent (lock_transactions shared) tx_both
  tx_unlock_intent : Local tx_both unlock_intent tx_body
  tx_raise_entered : Local tx_entered silent (tx_unwind false false)
  tx_raise_intent : Local tx_intent silent (tx_unwind false true)
  tx_raise_both : Local tx_both silent (tx_unwind true true)
  tx_leave : Local tx_body silent (tx_unwind true false)
  tx_finally_transactions :
      (b : Bool) → Local (tx_unwind true b) unlock_transactions (tx_unwind false b)
  tx_finally_intent : Local (tx_unwind false true) unlock_intent (tx_unwind false false)
  tx_done : Local (tx_unwind false false) silent idle
  enter_reset : Local idle silent reset_entered
  reset_lock_intent : Local reset_entered (lock_intent exclusive) reset_intent
  reset_lock_transactions : Local reset_intent (lock_transactions exclusive) reset_body
  reset_raise_entered : Local reset_entered silent (reset_unwind false false)
  reset_raise_intent : Local reset_intent silent (reset_unwind false true)
  reset_leave : Local reset_body silent (reset_unwind true true)
  reset_finally_transactions :
      (b : Bool) → Local (reset_unwind true b) unlock_transactions (reset_unwind false b)
  reset_finally_intent : Local (reset_unwind false true) unlock_intent (reset_unwind false false)
  reset_done : Local (reset_unwind false false) silent idle

-- The lock table of the kernel, and where each owner stands.
pub record World : Type 0 where
  pub intent : ℕ → Mode
  pub transactions : ℕ → Mode
  pub pc : ℕ → Pc

unfoldable pub assign {ℓ} : {A : Type ℓ} → (ℕ → A) → ℕ → A → ℕ → A
assign f i a j = if j == i then a else f j

abbrev pub start : World
start = record { intent = λ i. unlocked; transactions = λ i. unlocked; pc = λ i. idle }

-- The call of owner `i` may take its effect now.
abbrev pub Allowed : Flock → World → ℕ → Effect → Type 0
Allowed F w i (lock_intent m) = F.Grants w.intent i m
Allowed F w i (lock_transactions m) = F.Grants w.transactions i m
Allowed F w i _ = Unit

unfoldable pub perform : World → ℕ → Effect → Pc → World
perform w i silent p = record w { pc = assign w.pc i p }
perform w i (lock_intent m) p = record w { intent = assign w.intent i m; pc = assign w.pc i p }
perform w i (lock_transactions m) p = record w {
  transactions = assign w.transactions i m;
  pc = assign w.pc i p;
}
perform w i unlock_intent p = record w { intent = assign w.intent i unlocked; pc = assign w.pc i p }
perform w i unlock_transactions p = record w {
  transactions = assign w.transactions i unlocked;
  pc = assign w.pc i p;
}

-- One owner makes one move. A wait for a lock is no move.
pub data Step (F : Flock) (w w' : World) : Type 0 where
  move :
      (i : ℕ) (p p' : Pc) (e : Effect)
      → w.pc i ≡ p
      → Local p e p'
      → Allowed F w i e
      → w' ≡ perform w i e p'
      → Step F w w'

pub data Reach (F : Flock) : World → Type 0 where
  here : Reach F start
  next : {w w' : World} → Reach F w → Step F w w' → Reach F w'

-- `ResetWindow.busy_timeout_ms`, with times in milliseconds.
unfoldable pub busy_timeout_ms : Bool → ℕ → ℕ → ℕ
busy_timeout_ms opportunistic deadline now =
    if opportunistic then 0 else if leb (deadline - now) 200 then deadline - now else 200
