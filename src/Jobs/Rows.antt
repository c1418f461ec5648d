-- ===== src/Jobs/Rows.antt =====
-- What a lookup, a count and a predicate make of an UPDATE or a DELETE of one job by its uuid.
use justpen_knowledgebase_mc.Base.{
  ℕ, suc, ◌+◌, String, ◌≡◌, refl, Bool, true, false, none, some, List, [], ◌∷◌, ◌++◌, arith, str_eq,
  eq_iff, Bool-cases, inl, inr, count, All, All-map, select, take, zero, eq_refl, if◌then◌else◌,
}
use mathlib.Core.Path.{subst}
use justpen_knowledgebase_mc.Jobs.Table.{Job, find, update}

-- No two rows share a uuid.
abbrev pub Unique : List Job → Type 0
Unique [] = Unit
Unique (r ∷ rs) = (find r.uuid rs ≡ none) × Unique rs

-- `f` writes other columns than the uuid.
abbrev pub KeepsUuid : (Job → Job) → Type 0
KeepsUuid f = (r : Job) → (f r).uuid ≡ r.uuid

abbrev pub one : Bool → ℕ
one true = 1
one false = 0

pub uuid-find : (u : String) (rs : List Job) (row : Job) → find u rs ≡ some row → row.uuid ≡ u
unfolding find
uuid-find u [] row h = cc
uuid-find u (r ∷ rs) row h = ground (arith, eq_iff r.uuid u, uuid-find u rs row)

pub find-head :
    (u : String) (r row : Job) (rs : List Job)
    → str_eq r.uuid u ≡ true
    → find u (r ∷ rs) ≡ some row
    → row ≡ r
unfolding find
find-head u r row rs e h = ground arith

module _ (u : String) (f : Job → Job) (keeps : KeepsUuid f) where
  pub find-update_self :
      (rs : List Job) (row : Job) → find u rs ≡ some row → find u (update u f rs) ≡ some (f row)
  unfolding find update
  find-update_self [] row h = cc
  find-update_self (r ∷ rs) row h = ground (arith, keeps r, find-update_self rs row)

  pub find-update_ne :
      (j : String) (rs : List Job) → str_eq u j ≡ false → find j (update u f rs) ≡ find j rs
  unfolding find update
  find-update_ne j [] h = refl
  find-update_ne j (r ∷ rs) h =
      ground (arith, eq_iff r.uuid u, eq_iff r.uuid j, eq_iff u j, keeps r, find-update_ne j rs h)

  pub find-update-none :
      (j : String) (rs : List Job) → find j rs ≡ none → find j (update u f rs) ≡ none
  unfolding find update
  find-update-none j [] h = refl
  find-update-none j (r ∷ rs) h = ground (arith, keeps r, find-update-none j rs)

  -- Where no row has the uuid, an UPDATE changes nothing.
  pub update_missing : (rs : List Job) → find u rs ≡ none → update u f rs ≡ rs
  unfolding find update
  update_missing [] h = refl
  update_missing (r ∷ rs) h = ground (arith, update_missing rs)

  pub update-Unique : (rs : List Job) → Unique rs → Unique (update u f rs)
  unfolding update
  update-Unique [] h = tt
  update-Unique (r ∷ rs) h =
      ground (arith, keeps r, find-update-none r.uuid rs, update-Unique rs h.1)

  update_alone :
      (r : Job) (rs : List Job)
      → str_eq r.uuid u ≡ true
      → find r.uuid rs ≡ none
      → update u f rs ≡ rs
  update_alone r rs e h =
      update_missing rs (subst (λ k. find k rs ≡ none) ((eq_iff r.uuid u).0 e) h)

  -- The row that was found is the only one that an UPDATE of its uuid touches.
  pub All-update {κ} :
      (P : Job → Type κ) (rs : List Job) (row : Job)
      → Unique rs
      → find u rs ≡ some row
      → P (f row)
      → All P rs
      → All P (update u f rs)
  unfolding find update
  All-update P [] row un h p a = tt
  All-update P (r ∷ rs) row un h p a = elim (Bool-cases (str_eq r.uuid u)) [
    | inl e ↦
        rw (e, update_alone r rs e un.0) (subst (λ x. P (f x)) (find-head u r row rs e h) p, a.1)
    | inr e ↦ rw e (a.0, All-update P rs row un.1 (rw e at h) p a.1)
  ]

  pub count-update :
      (p : Job → Bool) (rs : List Job) (row : Job)
      → Unique rs
      → find u rs ≡ some row
      → count p (update u f rs) + one (p row) ≡ count p rs + one (p (f row))
  unfolding find update
  count-update p [] row un h = cc
  count-update p (r ∷ rs) row un h = elim (Bool-cases (str_eq r.uuid u)) [
    | inl e ↦ ground (arith, update_alone r rs e un.0)
    | inr e ↦ ground (arith, count-update p rs row un.1)
  ]

pub find-append :
    (u : String) (rs : List Job) (r : Job)
    → find u (rs ++ r ∷ [])
      ≡ elim (find u rs) [ none ↦ if str_eq r.uuid u then some r else none | some x ↦ some x ]
unfolding find
find-append u [] r = refl
find-append u (x ∷ rs) r = ground (arith, find-append u rs r)

-- A row with a new uuid may be appended.
pub Unique-append :
    (rs : List Job) (r : Job) → Unique rs → find r.uuid rs ≡ none → Unique (rs ++ r ∷ [])
unfolding find
Unique-append [] r un h = (refl, tt)
Unique-append (x ∷ rs) r un h = ground (
  arith,
  find-append x.uuid rs r,
  eq_iff x.uuid r.uuid,
  eq_iff r.uuid x.uuid,
  Unique-append rs r un.1,
)

find-select-none :
    (u : String) (p : Job → Bool) (rs : List Job) → find u rs ≡ none → find u (select p rs) ≡ none
unfolding find
find-select-none u p [] h = refl
find-select-none u p (r ∷ rs) h = ground (arith, find-select-none u p rs)

find-take-none : (u : String) (n : ℕ) (rs : List Job) → find u rs ≡ none → find u (take n rs) ≡ none
unfolding find
find-take-none u zero rs h = refl
find-take-none u (suc n) [] h = refl
find-take-none u (suc n) (r ∷ rs) h = ground (arith, find-take-none u n rs)

pub Unique-select : (p : Job → Bool) (rs : List Job) → Unique rs → Unique (select p rs)
Unique-select p [] h = tt
Unique-select p (r ∷ rs) h = elim (Bool-cases (p r)) [
  | inl e ↦ rw e (find-select-none r.uuid p rs h.0, Unique-select p rs h.1)
  | inr e ↦ rw e (Unique-select p rs h.1)
]

pub Unique-take : (n : ℕ) (rs : List Job) → Unique rs → Unique (take n rs)
Unique-take zero rs h = tt
Unique-take (suc n) [] h = tt
Unique-take (suc n) (r ∷ rs) h = (find-take-none r.uuid n rs h.0, Unique-take n rs h.1)

-- Every row of a table is found by its uuid.
pub All-find_self : (rs : List Job) → Unique rs → All (λ r. find r.uuid rs ≡ some r) rs
unfolding find
All-find_self [] h = tt
All-find_self (r ∷ rs) h = (
  rw eq_refl,
  All-map (λ x. find x.uuid rs ≡ some x) (λ x. find x.uuid (r ∷ rs) ≡ some x)
      (λ x e. ground (arith, eq_iff r.uuid x.uuid, h.0)) rs (All-find_self rs h.1),
)

-- A row other than one that is found has another uuid.
pub All-other :
    (r : Job) (rs : List Job) → find r.uuid rs ≡ none → All (λ x. str_eq r.uuid x.uuid ≡ false) rs
unfolding find
All-other r [] h = tt
All-other r (x ∷ rs) h =
    (ground (arith, eq_iff r.uuid x.uuid, eq_iff x.uuid r.uuid), All-other r rs (ground arith))
