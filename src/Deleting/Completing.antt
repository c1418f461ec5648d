-- ===== src/Deleting/Completing.antt =====
-- About the delete jobs of storage/jobs.py: when an ordinary delete job is completed.
use mathlib.Core.Path.{subst}
use justpen_knowledgebase_mc.Base.{
  ℕ, suc, String, ◌≡◌, refl, sym, ◌∙◌, ap, Bool, true, false, ◌&&◌, not, inl, inr, none, some, List,
  [], ◌∷◌, ℤ, arith, ok, ok-injective, Bool-cases, Option-cases, any, take, Memᴰ, ◌==◌, str_eq,
}
use justpen_knowledgebase_mc.Graph.Tables.{
  Kind, nodes, relations, evidence, Owner, Store, rows_of, row_by_id,
}
use justpen_knowledgebase_mc.Graph.Rows.{Sub}
use justpen_knowledgebase_mc.Graph.Deletions.{DeleteIntent, DeleteStep, is_intent_of, step}
use justpen_knowledgebase_mc.Graph.Sweeps.{IsKeyed}
use justpen_knowledgebase_mc.Graph.Stepping.{Steps, step-Steps}
use justpen_knowledgebase_mc.Graph.Selecting.{rows-UniqueIds}
use justpen_knowledgebase_mc.Graph.Claims.{first_row-of_id}
use justpen_knowledgebase_mc.Graph.Clearing.{step_done-Clears}
use justpen_knowledgebase_mc.Jobs.Table.{queued, completed, is_terminal, Db}
use justpen_knowledgebase_mc.Deleting.{intents_from}
use justpen_knowledgebase_mc.Deleting.Rejecting.{HasState}

pub take-nil {ℓ} : {A : Type ℓ} (n : ℕ) (xs : List A) → take (suc n) xs ≡ [] → xs ≡ []
take-nil n [] h = refl
take-nil n (x ∷ xs) h = absurd (ground (arith, h))

pub take-one {ℓ} :
    {A : Type ℓ} (n : ℕ) (x : A) (xs : List A) → take (suc (suc n)) xs ≡ x ∷ [] → xs ≡ x ∷ []
take-one n x [] h = absurd (ground (arith, h))
take-one n x (y ∷ []) h = h
take-one n x (y ∷ z ∷ xs) h = absurd (ground (arith, h))

any-narrow {ℓ} :
    {A : Type ℓ} (p q : A → Bool) (xs : List A)
    → any p xs ≡ false
    → any (λ x. p x && q x) xs ≡ false
any-narrow p q [] h = refl
any-narrow p q (x ∷ xs) h = ground (arith, h, any-narrow p q xs)

any-split {ℓ} :
    {A : Type ℓ} (p q : A → Bool) (xs : List A)
    → any (λ x. p x && not (q x)) xs ≡ false
    → any q xs ≡ false
    → any p xs ≡ false
any-split p q [] h k = refl
any-split p q (x ∷ xs) h k = ground (arith, h, k, any-split p q xs)

pub one_state : (u : String) (db : Db) → HasState completed u db → HasState queued u db → ⊥
one_state u db (a, found_a, is_a) (b, found_b, is_b) =
    let same : a ≡ b = ap (λ o. elim o [ some x ↦ x | none ↦ a ]) (sym found_a ∙ found_b) in
    let ends : is_terminal a.state ≡ true = rw is_a refl in
    let goes_on : is_terminal b.state ≡ false = rw is_b refl in
    let moved = subst (λ x. is_terminal x.state ≡ true) same ends in cc (moved, goes_on)

module _ (show : ℤ → String) where
  pub intents_from-none :
      (kind : Kind) (job : String) (os : List Owner)
      → intents_from show kind job os ≡ []
      → any (is_intent_of job) os ≡ false
  unfolding intents_from
  intents_from-none kind job [] h = refl
  intents_from-none kind job (o ∷ os) h = elim (Option-cases o.deletion) [
    | inl e ↦ ground (arith, e, h, intents_from-none kind job os)
    | inr (d, e) ↦ elim (Bool-cases (str_eq d.job_id job)) [
      | inl f ↦ absurd (ground (arith, e, f, h))
      | inr f ↦ ground (arith, e, f, h, intents_from-none kind job os)
    ]
  ]

  -- The row of the only intent, and the rest of the table.
  record Only (kind : Kind) (job : String) (os : List Owner) (i : DeleteIntent) : Type 0 where
    row : Owner
    among : Memᴰ row os
    same_kind : i.kind ≡ kind
    same_id : i.owner_id ≡ row.id
    others : any (λ (x : Owner). is_intent_of job x && not (x.id == i.owner_id)) os ≡ false

  intents_from-Only :
      (kind : Kind) (job : String) (os : List Owner) (i : DeleteIntent)
      → intents_from show kind job os ≡ i ∷ []
      → Only kind job os i
  unfolding intents_from
  intents_from-Only kind job [] i h = absurd (cc h)
  intents_from-Only kind job (o ∷ os) i h = elim (Option-cases o.deletion) [
    | inl e ↦
        let f = intents_from-Only kind job os i (ground (arith, e, h)) in
        record {
          row = f.row;
          among = Memᴰ.tail f.among;
          same_kind = f.same_kind;
          same_id = f.same_id;
          others = ground (arith, e, f.others);
        }
    | inr (d, e) ↦ elim (Bool-cases (str_eq d.job_id job)) [
      | inr miss ↦
          let f = intents_from-Only kind job os i (ground (arith, e, miss, h)) in
          record {
            row = f.row;
            among = Memᴰ.tail f.among;
            same_kind = f.same_kind;
            same_id = f.same_id;
            others = ground (arith, e, miss, f.others);
          }
      | inl hit ↦
          let rest : intents_from show kind job os ≡ [] = ground (arith, e, hit, h) in
          let here : record { kind = kind; owner_id = o.id; uuid = o.uuid; deletion = d } ≡ i =
            ground (arith, e, hit, h) in
          let id_of : i.owner_id ≡ o.id = ap (λ x. x.owner_id) (sym here) in
          let narrow =
            any-narrow (is_intent_of job) (λ (x : Owner). not (x.id == i.owner_id)) os
              (intents_from-none kind job os rest) in
          record {
            row = o;
            among = Memᴰ.head refl;
            same_kind = ap (λ x. x.kind) (sym here);
            same_id = id_of;
            others = ground (arith, id_of, narrow);
          }
    ]
  ]

  Steps-Sub :
      (kind : Kind) (s : Store) (r : Store × DeleteStep)
      → Steps kind s 100 r
      → (k : Kind) → Sub (rows_of k r.0) (rows_of k s)
  Steps-Sub kind s r f nodes = f.sub_nodes
  Steps-Sub kind s r f relations = f.sub_relations
  Steps-Sub kind s r f evidence = f.sub_evidence

  -- After the step that is done with the only intent, no intent is left.
  pub last-none :
      (kind : Kind) (job : String) (s : Store) (i : DeleteIntent) (r : Store × DeleteStep)
      → IsKeyed s
      → intents_from show kind job (rows_of kind s) ≡ i ∷ []
      → step s i 100 ≡ ok r
      → r.1.done ≡ true
      → any (is_intent_of job) (rows_of kind r.0) ≡ false
  last-none kind job s i r keyed one ran done =
      let f = intents_from-Only kind job (rows_of kind s) i one in
      let at_row = first_row-of_id f.row (rows_of kind s) (rows-UniqueIds kind s keyed) f.among in
      let found : row_by_id s i.kind i.owner_id ≡ some f.row = rw (f.same_kind, f.same_id) at_row in
      let clear = step_done-Clears s i 100 f.row r keyed found ran done in
      let gone : any (λ (o : Owner). o.id == i.owner_id) (rows_of kind r.0) ≡ false =
        subst (λ k. any (λ (o : Owner). o.id == i.owner_id) (rows_of k r.0) ≡ false) f.same_kind
          clear.gone in
      elim (step-Steps s 100 keyed i (omega arith) (omega arith)) [
        | inl e ↦ absurd (cc (e, ran))
        | inr (r', e, g) ↦
            let same : r' ≡ r = ok-injective (sym e ∙ ran) in
            let sub = Steps-Sub i.kind s r (subst (Steps i.kind s 100) same g) kind in
            any-split (is_intent_of job) (λ (o : Owner). o.id == i.owner_id) (rows_of kind r.0)
              (sub (λ (x : Owner). is_intent_of job x && not (x.id == i.owner_id)) f.others) gone
      ]
