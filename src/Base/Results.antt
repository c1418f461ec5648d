-- ===== src/Base/Results.antt =====
-- errors.py: the exceptions that the modelled code raises, as values. An exception leaves a guarded
-- transaction without its writes (`Connection.transaction` rolls back), so a failed call carries no
-- state.
use Prim.Native.Nat.{ℕ}
use Prim.Native.String.{String}
use mathlib.Core.Path.{◌≡◌, refl, ap}
use mathlib.Core.Logic.{◌⊎◌, inl, inr}
use native.Mathlib.Omega.{arith}
use mathlib.Core.Bool.{Bool, true, false}
use mathlib.Core.Option.{Option, none, some}
use mathlib.Core.List.{List}

-- `BlockerDetails` of responses.py. A record is its kind and its id; `pending_since` is in microseconds.
pub record BlockerDetails : Type 0 where
  pub blocking_record : String × String
  pub delete_job_id : Option String
  pub pending_since : Option ℕ
  pub deletion_owner : Option (String × String)

-- The exception classes, each with the authored message, or the code and the details of a record
-- conflict.
pub data Error : Type 0 where
  validation : String → Error
  invalid_params : String → Error
  not_found : String → Error
  conflict : String → Error
  storage_io : String → Error
  wal_busy : String → Error
  runtime : String → Error
  value_error : String → Error
  record_conflict : String → BlockerDetails → Error
  missing_records : List String → Error
  indexing_error : String → Error
  limit_exceeded : String → Error
  cancelled_operation : String → Error
  type_error : Error
  constraint_error : Error

pub data Result {ℓ} (A : Type ℓ) : Type ℓ where
  ok : A → Result A
  err : Error → Result A

-- `if bad: raise e`
abbrev pub raise_if : Bool → Error → Result (Unit {0})
raise_if true e = err e
raise_if false e = ok tt

-- `if value is None: raise e`
abbrev pub or_raise {ℓ} : {A : Type ℓ} → Option A → Error → Result A
or_raise none e = err e
or_raise (some a) e = ok a

-- An error ends the call.
infixl 5 ◌>>=◌ ◌>>◌
abbrev pub ◌>>=◌ {ℓ₁ ℓ₂} : {A : Type ℓ₁} {B : Type ℓ₂} (m : Result A) → (A → Result B) → Result B
err e >>= next = err e
ok x >>= next = next x

abbrev pub ◌>>◌ {ℓ} : {B : Type ℓ} (m : Result (Unit {0})) (rest : Result B) → Result B
m >> rest = m >>= (λ done. rest)

abbrev pub is_ok {ℓ} : {A : Type ℓ} → Result A → Bool
is_ok (ok _) = true
is_ok (err _) = false

-- To split on the outcome of a call and keep the equation.
pub Result-cases {ℓ} :
    {A : Type ℓ} (m : Result A) → ((e : Error) × (m ≡ err e)) ⊎ ((a : A) × (m ≡ ok a))
Result-cases (ok a) = inr (a, refl)
Result-cases (err e) = inl (e, refl)

pub raise_if-eq-ok : (b : Bool) (e : Error) {u : Unit {0}} → raise_if b e ≡ ok u → b ≡ false
raise_if-eq-ok true e h = cc
raise_if-eq-ok false e h = refl

pub or_raise-eq-ok {ℓ} :
    {A : Type ℓ} (o : Option A) (e : Error) {a : A} → or_raise o e ≡ ok a → o ≡ some a
or_raise-eq-ok none e h = cc
or_raise-eq-ok (some b) e h = ground arith

pub ok-injective {ℓ} : {A : Type ℓ} {a b : A} → ok a ≡ ok b → a ≡ b
ok-injective {a} {b} h = ap (λ r. elim r [ ok x ↦ x | err _ ↦ a ]) h
