-- ===== src/Inventory/Authorizing.antt =====
-- The authorization of a scope chain in storage/inventory.py, against a description of its own.
use justpen_knowledgebase_mc.Base.{
  String, ◌≡◌, ◌≢◌, refl, sym, ◌∙◌, ap, Bool, true, false, Option, none, some, List, ◌∷◌, arith,
  Option-cases, Bool-cases, inl, inr, str_eq, eq_iff, eq_refl, Memᴰ, any-Mem, Mem-any,
}
use mathlib.Core.Path.{subst}
use justpen_knowledgebase_mc.Inventory.{
  Node, holds, text_of, is_authorized, effective_authorization,
}

-- The authorization of a scoped node: `out_of_scope` at the root or on the chain wins; else, under an
-- allowlist-scoped root, only a widened chain is in scope; else it is the root's.
pub data Gives (root : Node) (overrides : List (Option String)) : String → Type 0 where
  barred : root.authorization ≡ some "out_of_scope" → Gives root overrides "out_of_scope"
  overridden : Memᴰ (some "out_of_scope") overrides → Gives root overrides "out_of_scope"
  widened :
      root.authorization ≢ some "out_of_scope"
      → ¬ Memᴰ (some "out_of_scope") overrides
      → root.allowlist_scoped ≡ true
      → Memᴰ (some "in_scope") overrides
      → Gives root overrides "in_scope"
  unlisted :
      root.allowlist_scoped ≡ true
      → ¬ Memᴰ (some "in_scope") overrides
      → Gives root overrides "out_of_scope"
  own :
      (a : String)
      → root.authorization ≡ some a
      → a ≢ "out_of_scope"
      → ¬ Memᴰ (some "out_of_scope") overrides
      → root.allowlist_scoped ≡ false
      → Gives root overrides a
  unset :
      root.authorization ≡ none
      → ¬ Memᴰ (some "out_of_scope") overrides
      → root.allowlist_scoped ≡ false
      → Gives root overrides "None"

abbrev is_some_of : String → Option String → Bool
is_some_of v o = elim o [ none ↦ false | some x ↦ str_eq x v ]

holds-Mem : (v : String) (os : List (Option String)) → holds v os ≡ true → Memᴰ (some v) os
holds-Mem v os h = let (o, m, e) = any-Mem (is_some_of v) os h in go o m e
  where
    go : (o : Option String) → Memᴰ o os → is_some_of v o ≡ true → Memᴰ (some v) os
    go none m e = absurd (cc e)
    go (some x) m e = subst (λ y. Memᴰ (some y) os) ((eq_iff x v).0 e) m

Mem-holds : (v : String) (os : List (Option String)) → Memᴰ (some v) os → holds v os ≡ true
Mem-holds v os m = Mem-any (is_some_of v) (some v) os m (eq_refl v)

not-holds : (v : String) (os : List (Option String)) → ¬ Memᴰ (some v) os → holds v os ≡ false
not-holds v os out = elim (Bool-cases (holds v os)) [
  | inl e ↦ absurd (out (holds-Mem v os e))
  | inr e ↦ e
]

not-Mem : (v : String) (os : List (Option String)) → holds v os ≡ false → ¬ Memᴰ (some v) os
not-Mem v os e m = cc (e, Mem-holds v os m)

is-authorized : (v : String) (n : Node) → is_authorized v n ≡ true → n.authorization ≡ some v
is-authorized v n e = elim (Option-cases n.authorization) [
  | inl q ↦ absurd (ground (arith, q, e))
  | inr (a, q) ↦ q ∙ ap some ((eq_iff a v).0 (sym (rw q refl) ∙ e))
]

authorized-is : (v : String) (n : Node) → n.authorization ≡ some v → is_authorized v n ≡ true
authorized-is v n q = rw q (eq_refl v)

not-authorized : (v : String) (n : Node) → n.authorization ≢ some v → is_authorized v n ≡ false
not-authorized v n out = elim (Bool-cases (is_authorized v n)) [
  | inl e ↦ absurd (out (is-authorized v n e))
  | inr e ↦ e
]

module _ (root : Node) (o : Option String) (os : List (Option String)) where
  abbrev all : List (Option String)
  all = o ∷ os

  own-Gives :
      is_authorized "out_of_scope" root ≡ false
      → holds "out_of_scope" all ≡ false
      → root.allowlist_scoped ≡ false
      → Gives root all (text_of root.authorization)
  own-Gives e f g = elim (Option-cases root.authorization) [
    | inl q ↦ subst (Gives root all) (ap text_of (sym q)) (unset q (not-Mem "out_of_scope" all f) g)
    | inr (a, q) ↦ subst (Gives root all) (ap text_of (sym q)) (
        own a q (λ same. cc (e, authorized-is "out_of_scope" root (q ∙ ap some same)))
          (not-Mem "out_of_scope" all f) g)
  ]

  pub effective-Gives : Gives root all (effective_authorization root all)
  unfolding effective_authorization
  effective-Gives = elim (Bool-cases (is_authorized "out_of_scope" root)) [
    | inl e ↦ subst (Gives root all) (rw e refl) (barred (is-authorized "out_of_scope" root e))
    | inr e ↦ elim (Bool-cases (holds "out_of_scope" all)) [
      | inl f ↦
          subst (Gives root all) (rw (e, f) refl) (overridden (holds-Mem "out_of_scope" all f))
      | inr f ↦ elim (Bool-cases root.allowlist_scoped) [
        | inr g ↦ subst (Gives root all) (rw (e, f, g) refl) (own-Gives e f g)
        | inl g ↦ elim (Bool-cases (holds "in_scope" all)) [
          | inl h ↦ subst (Gives root all) (rw (e, f, g, h) refl) (
              widened (λ q. cc (e, authorized-is "out_of_scope" root q))
                (not-Mem "out_of_scope" all f) g (holds-Mem "in_scope" all h))
          | inr h ↦
              subst (Gives root all) (rw (e, f, g, h) refl) (unlisted g (not-Mem "in_scope" all h))
        ]
      ]
    ]
  ]

  -- The description names one authorization: the one that the code computes.
  pub Gives-effective : (a : String) → Gives root all a → a ≡ effective_authorization root all
  unfolding effective_authorization
  Gives-effective _ (barred q) = rw (authorized-is "out_of_scope" root q) refl
  Gives-effective _ (overridden m) = ground (arith, Mem-holds "out_of_scope" all m)
  Gives-effective _ (widened q n g m) =
      rw
        (
          not-authorized "out_of_scope" root q,
          not-holds "out_of_scope" all n,
          g,
          Mem-holds "in_scope" all m,
        )
        refl
  Gives-effective _ (unlisted g n) = ground (arith, g, not-holds "in_scope" all n)
  Gives-effective a (own _ q ne n g) =
      rw
        (
          not-authorized "out_of_scope" root (λ e. ne (cc (q, e))),
          not-holds "out_of_scope" all n,
          g,
          q,
        )
        refl
  Gives-effective _ (unset q n g) =
      rw (not-authorized "out_of_scope" root (λ e. cc (q, e)), not-holds "out_of_scope" all n, g, q)
        refl
