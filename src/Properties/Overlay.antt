-- ===== src/Properties/Overlay.antt =====
-- What stands at a path of a merged document of mutations.py.
use mathlib.Core.Path.{subst}
use justpen_knowledgebase_mc.Base.{
  ℕ, String, ◌≡◌, refl, ◌∙◌, ap, Bool, true, false, Option, none, some, List, [], ◌∷◌, arith, ok,
  Result-cases, Option-cases, Bool-cases, inl, inr, str_eq, eq_iff,
}
use justpen_knowledgebase_mc.Json.{Value, Fields, obj, end, field, get, put}
use justpen_knowledgebase_mc.Json.Laws.{get-put}
use justpen_knowledgebase_mc.Properties.Merge.{
  merge, merge_value, validate_properties, merge_properties, decode_removals, remove_all, fields_of,
}

unfoldable mutual
  -- The keys of every object are unique, as those of a `dict` are.
  pub IsUnique : Fields → Type 0
  IsUnique end = Unit
  IsUnique (field k v fs) = (get k fs ≡ none) × IsUniqueIn v × IsUnique fs

  pub IsUniqueIn : Value → Type 0
  IsUniqueIn (obj fs) = IsUnique fs
  IsUniqueIn _ = Unit

abbrev pub under : (Value → Option Value) → Option Value → Option Value
under f none = none
under f (some v) = f v

abbrev pub missing_or : (Value → Bool) → Option Value → Bool
missing_or f none = true
missing_or f (some v) = f v

-- What stands at a path that goes down through objects.
unfoldable pub at : List String → Value → Option Value
at [] v = some v
at (k ∷ ks) (obj fs) = under (at ks) (get k fs)
at (k ∷ ks) _ = none

abbrev pub is_object : Value → Bool
is_object (obj _) = true
is_object _ = false

-- The path leaves the patch at a key that one of its objects lacks.
unfoldable pub misses : List String → Value → Bool
misses [] v = false
misses (k ∷ ks) (obj fs) = missing_or (misses ks) (get k fs)
misses (k ∷ ks) _ = false

abbrev merged : Option Value → Option Value → Option Value
merged old none = old
merged old (some v) = some (merge_value old v)

get-IsUniqueIn :
    (k : String) (fs : Fields) (v : Value) → IsUnique fs → get k fs ≡ some v → IsUniqueIn v
unfolding get IsUnique
get-IsUniqueIn k end v un h = cc
get-IsUniqueIn k (field j w fs) v (_, here, later) h = elim (Bool-cases (str_eq j k)) [
  | inl e ↦ subst IsUniqueIn (ground arith) here
  | inr e ↦ get-IsUniqueIn k fs v later (ground arith)
]

-- One lookup in a merge, whatever the rest of the two dictionaries is.
get-merge :
    (j : String) (new old : Fields)
    → IsUnique new
    → get j (merge old new) ≡ merged (get j old) (get j new)
unfolding merge IsUnique get
get-merge j end old un = refl
get-merge j (field k v rest) old (fresh, _, later) = elim (Bool-cases (str_eq k j)) [
  | inl e ↦
      let q : k ≡ j = (eq_iff k j).0 e in
      let gone : get j rest ≡ none = subst (λ x. get x rest ≡ none) q fresh in
      rw
        (
          get-merge j rest (put k (merge_value (get k old) v) old) later,
          get-put k j (merge_value (get k old) v) old,
          e,
          gone,
        )
        (ap (λ x. some (merge_value (get x old) v)) q)
  | inr e ↦
      rw
        (
          get-merge j rest (put k (merge_value (get k old) v) old) later,
          get-put k j (merge_value (get k old) v) old,
          e,
        )
        refl
]

misses-none : (p : List String) (n : Value) → misses p n ≡ true → at p n ≡ none
unfolding misses at
misses-none [] n h = cc
misses-none (k ∷ ks) (obj fs) h = elim (Option-cases (get k fs)) [
  | inl e ↦ rw e refl
  | inr (v, e) ↦ rw e (misses-none ks v (rw e at h))
]
misses-none (k ∷ ks) _ h = refl

-- The merge of two objects below a key.
at_key :
    (k : String) (ks : List String) (old new : Fields)
    → IsUnique new
    → at (k ∷ ks) (obj (merge old new)) ≡ under (at ks) (merged (get k old) (get k new))
unfolding at
at_key k ks old new un = rw (get-merge k new old un) refl

-- A leaf of the patch is what one round stores there.
leaf :
    (p : List String) (o : Option Value) (n v : Value)
    → IsUniqueIn n
    → at p n ≡ some v
    → is_object v ≡ false
    → at p (merge_value o n) ≡ some v
unfolding merge
leaf [] (some (obj old)) (obj new) v un h flat = absurd (unfold at in ground arith)
leaf (k ∷ ks) (some (obj old)) (obj new) v un h flat = elim (Option-cases (get k new)) [
  | inl e ↦ absurd (unfold at in ground arith)
  | inr (m, e) ↦
      at_key k ks old new (unfold IsUnique in un)
      ∙ rw e (
          leaf ks (get k old) m v (get-IsUniqueIn k new m (unfold IsUnique in un) e)
            (unfold at in rw e at h) flat)
]
leaf p _ _ v un h flat = h

-- Where the patch lacks a key, what was there stays.
spared :
    (p : List String) (o : Option Value) (n : Value)
    → IsUniqueIn n
    → misses p n ≡ true
    → at p (merge_value o n) ≡ under (at p) o
unfolding merge
spared [] o n un h = absurd (unfold misses in cc)
spared (k ∷ ks) (some (obj old)) (obj new) un h = elim (Option-cases (get k new)) [
  | inl e ↦ at_key k ks old new (unfold IsUnique in un) ∙ rw e (unfold at in refl)
  | inr (m, e) ↦
      at_key k ks old new (unfold IsUnique in un)
      ∙ rw e (
          spared ks (get k old) m (get-IsUniqueIn k new m (unfold IsUnique in un) e)
            (unfold misses in rw e at h)
          ∙ unfold at in refl)
]
spared (k ∷ ks) none n un h = misses-none (k ∷ ks) n h
spared (k ∷ ks) (some o) (obj new) un h = misses-none (k ∷ ks) (obj new) h ∙ unfold at in refl
spared (k ∷ ks) (some o) n un h = absurd (unfold misses in cc)

module _ (old new : Fields) (un : IsUnique new) (p : List String) where
  -- A merge with a patch of unique keys holds every leaf of the patch at its path, whatever the
  -- document held there.
  merge-writes :
      (v : Value)
      → at p (obj new) ≡ some v
      → is_object v ≡ false
      → at p (obj (merge old new)) ≡ some v
  unfolding IsUnique merge
  merge-writes v = leaf p (some (obj old)) (obj new) v un

  -- Along a path that leaves a patch of unique keys at a key that one of its objects lacks, a merge
  -- holds what the document held.
  pub merge-spares : misses p (obj new) ≡ true → at p (obj (merge old new)) ≡ at p (obj old)
  unfolding IsUnique merge
  merge-spares = spared p (some (obj old)) (obj new) un

-- A document that `merge_properties` returns is valid, as the document and the patch were, and it
-- holds every leaf of a patch with unique keys at its path, whatever was removed.
pub merge_properties-writes :
    (size : Fields → ℕ) (current patch : Fields) (pointers : List String) (result : Fields)
    (p : List String) (v : Value)
    → IsUnique patch
    → merge_properties size current patch pointers ≡ ok result
    → at p (obj patch) ≡ some v
    → is_object v ≡ false
    → (validate_properties size result ≡ ok tt)
      × (validate_properties size current ≡ ok tt)
      × (validate_properties size patch ≡ ok tt)
      × (at p (obj result) ≡ some v)
unfolding merge_properties
merge_properties-writes size current patch pointers result p v un h there flat =
    elim (Result-cases (decode_removals pointers)) [
      | inl (x, q) ↦ absurd (ground arith)
      | inr (removals, q) ↦ elim (Result-cases (remove_all removals (obj current))) [
        | inl (x, r) ↦ absurd (ground arith)
        | inr (kept, r) ↦
            let e : merge (fields_of kept) patch ≡ result = ground arith in
            (
              ground arith,
              ground arith,
              ground arith,
              subst (λ x. at p (obj x) ≡ some v) e
                  (merge-writes (fields_of kept) patch un p v there flat),
            )
      ]
    ]
