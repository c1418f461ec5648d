-- ===== src/Graph/Rows.antt =====
-- About the row deletions of storage/deletions.py: how many rows a loop deletes, and what is left.
use mathlib.Core.Path.{subst}
use justpen_knowledgebase_mc.Base.{
  ℕ, zero, suc, ◌+◌, ◌≤◌, ◌<◌, ◌≡◌, refl, sym, Bool, true, false, List, [], ◌∷◌, arith, Bool-cases,
  inl, inr, ◌==◌, any, length, some, none,
}
use justpen_knowledgebase_mc.Graph.Tables.{Owner, Child, first_row}
use justpen_knowledgebase_mc.Graph.Deletions.{delete_some, delete_owner}

-- The rows that are left are rows that were there.
abbrev pub Sub {ℓ} : {A : Type ℓ} → List A → List A → Type ℓ
Sub {A = A} xs ys = (p : A → Bool) → any p ys ≡ false → any p xs ≡ false

pub delete_some-Sub : (n : ℕ) (p : Child → Bool) (cs : List Child) → Sub (delete_some n p cs) cs
unfolding delete_some
delete_some-Sub zero p cs q h = h
delete_some-Sub (suc n) p [] q h = h
delete_some-Sub (suc n) p (c ∷ cs) q h =
    ground (arith, delete_some-Sub n p cs q, delete_some-Sub (suc n) p cs q)

pub length-delete_some :
    (n : ℕ) (p : Child → Bool) (cs : List Child)
    → (length (delete_some n p cs) ≤ length cs) × (length cs ≤ length (delete_some n p cs) + n)
unfolding delete_some
length-delete_some zero p cs = (omega arith, omega arith)
length-delete_some (suc n) p [] = (omega arith, omega arith)
length-delete_some (suc n) p (c ∷ cs) =
    ground (arith, length-delete_some n p cs, length-delete_some (suc n) p cs)

-- A deletion that stops short of its limit leaves no row that meets the condition.
pub delete_some-all :
    (n : ℕ) (p : Child → Bool) (cs : List Child)
    → length cs < length (delete_some n p cs) + n
    → any p (delete_some n p cs) ≡ false
unfolding delete_some
delete_some-all zero p cs h = absurd (omega arith)
delete_some-all (suc n) p [] h = refl
delete_some-all (suc n) p (c ∷ cs) h =
    ground (arith, delete_some-all n p cs, delete_some-all (suc n) p cs)

pub delete_owner-Sub : (i : ℕ) (os : List Owner) → Sub (delete_owner i os) os
unfolding delete_owner
delete_owner-Sub i [] q h = h
delete_owner-Sub i (o ∷ os) q h = ground (arith, delete_owner-Sub i os q)

pub length-delete_owner : (i : ℕ) (os : List Owner) → length (delete_owner i os) ≤ length os
unfolding delete_owner
length-delete_owner i [] = omega arith
length-delete_owner i (o ∷ os) = ground (arith, length-delete_owner i os)

-- A row that is there is deleted.
pub length-delete_owner-lt :
    (i : ℕ) (os : List Owner)
    → any (λ (o : Owner). o.id == i) os ≡ true
    → length (delete_owner i os) < length os
unfolding delete_owner
length-delete_owner-lt i [] h = cc
length-delete_owner-lt i (o ∷ os) h =
    ground (arith, length-delete_owner i os, length-delete_owner-lt i os)

-- No two rows have one id: the primary key of the table.
unfoldable pub UniqueIds : List Owner → Type 0
UniqueIds [] = Unit
UniqueIds (o ∷ os) = (any (λ (x : Owner). x.id == o.id) os ≡ false) × UniqueIds os

pub delete_owner-UniqueIds :
    (i : ℕ) (os : List Owner) → UniqueIds os → UniqueIds (delete_owner i os)
unfolding delete_owner UniqueIds
delete_owner-UniqueIds i [] un = tt
delete_owner-UniqueIds i (o ∷ os) un = elim (Bool-cases (o.id == i)) [
  | inl e ↦ rw e (delete_owner-UniqueIds i os un.1)
  | inr e ↦
      rw e
        (delete_owner-Sub i os (λ (x : Owner). x.id == o.id) un.0, delete_owner-UniqueIds i os un.1)
]

delete_owner-absent :
    (i : ℕ) (os : List Owner) → any (λ (o : Owner). o.id == i) os ≡ false → delete_owner i os ≡ os
unfolding delete_owner
delete_owner-absent i [] h = refl
delete_owner-absent i (o ∷ os) h = ground (arith, delete_owner-absent i os)

-- At most one row goes.
pub length-delete_owner-once :
    (i : ℕ) (os : List Owner) → UniqueIds os → length os ≤ length (delete_owner i os) + 1
unfolding delete_owner UniqueIds
length-delete_owner-once i [] un = omega arith
length-delete_owner-once i (o ∷ os) (fresh, un) = elim (Bool-cases (o.id == i)) [
  | inl e ↦
      let same : o.id ≡ i = ground (arith, e) in
      let absent : any (λ (x : Owner). x.id == i) os ≡ false =
        subst (λ k. any (λ (x : Owner). x.id == k) os ≡ false) same fresh in
      ground (arith, delete_owner-absent i os absent)
  | inr e ↦ ground (arith, length-delete_owner-once i os un)
]

pub first_row-any {ℓ} :
    {A : Type ℓ} (p : A → Bool) (xs : List A) (x : A)
    → first_row p xs ≡ some x
    → (p x ≡ true) × ((q : A → Bool) → q x ≡ true → any q xs ≡ true)
unfolding first_row
first_row-any p [] x h = cc
first_row-any p (y ∷ ys) x h = elim (Bool-cases (p y)) [
  | inl e ↦
      let same : y ≡ x = ground (arith, e) in
      (subst (λ z. p z ≡ true) same e, λ q t. rw (subst (λ z. q z ≡ true) (sym same) t) refl)
  | inr e ↦
      let (holds, among) = first_row-any p ys x (ground (arith, e)) in
      (holds, λ q t. let later = among q t in ground (arith, later))
]

pub first_row-none {ℓ} :
    {A : Type ℓ} (p : A → Bool) (xs : List A) → first_row p xs ≡ none → any p xs ≡ false
unfolding first_row
first_row-none p [] h = refl
first_row-none p (y ∷ ys) h = ground (arith, first_row-none p ys)
