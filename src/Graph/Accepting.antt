-- ===== src/Graph/Accepting.antt =====
-- About `GraphDeletion.prepare` of storage/deletions.py: what a request that is admitted leads to, and
-- what an unknown id does.
use mathlib.Core.Path.{subst}
use justpen_knowledgebase_mc.Base.{
  ℕ, ◌≤◌, String, ◌≡◌, refl, sym, ◌∙◌, ap, Bool, true, false, ◌||◌, not, List, [], ◌∷◌, map, arith,
  Option-cases, Bool-cases, Result-cases, inl, inr, str_eq, eq_refl, ok, err, missing_records,
  is_ok, is_some, ltb, any, select, All, ok-injective,
}
use justpen_knowledgebase_mc.Graph.Tables.{
  Kind, Deletion, Owner, Store, first_row, row_by_uuid, rows_of,
}
use justpen_knowledgebase_mc.Graph.Deletions.{DeleteIntent, same_deletion, is_mismatch, step}
use justpen_knowledgebase_mc.Graph.Admitting.{
  DeleteRequest, has_duplicates, found_rows, missing_ids, raise_missing, validate_rows,
  validated_delete_rows, admit, set_all_pending, intent_deletion, prepare,
}
use justpen_knowledgebase_mc.Graph.Sweeps.{IsKeyed}
use justpen_knowledgebase_mc.Graph.Marking.{
  Stands, set_all_pending-Stands, found_rows-Stands, found_rows-uuids,
}

-- What a request that is admitted has passed, and what it gives.
pub record Admits (scoped : List String) (s : Store) (request : DeleteRequest) (d : Deletion)
    (r : Store × List DeleteIntent) : Type 0 where
  pub all_there : missing_ids s request.kind request.ids ≡ []
  pub valid : validate_rows scoped s request (found_rows s request.kind request.ids) ≡ ok tt
  pub marks : r.0 ≡ set_all_pending request.kind d (found_rows s request.kind request.ids) s
  pub intents : r.1 ≡ map (admit request.kind d) (found_rows s request.kind request.ids)

raise_missing-eq-ok : (us : List String) → raise_missing us ≡ ok tt → us ≡ []
raise_missing-eq-ok [] h = refl
raise_missing-eq-ok (u ∷ us) h = cc

pub prepare-Admits :
    (scoped : List String) (s : Store) (request : DeleteRequest) (job : String) (now : ℕ)
    (r : Store × List DeleteIntent)
    → prepare scoped s request job now ≡ ok r
    → Admits scoped s request (intent_deletion request job now) r
unfolding prepare validated_delete_rows
prepare-Admits scoped s request job now r h =
    let d = intent_deletion request job now in
    let rows = found_rows s request.kind request.ids in
    elim (Bool-cases (has_duplicates request.ids)) [
      | inl e ↦ absurd (ground (arith, e, h))
      | inr e ↦ elim (Result-cases (raise_missing (missing_ids s request.kind request.ids))) [
        | inl (x, f) ↦ absurd (ground (arith, e, f, h))
        | inr (tt, f) ↦ elim (Result-cases (validate_rows scoped s request rows)) [
          | inl (x, g) ↦ absurd (ground (arith, e, f, g, h))
          | inr (tt, g) ↦
              let runs : prepare scoped s request job now
                  ≡ ok (set_all_pending request.kind d rows s, map (admit request.kind d) rows) =
                rw (e, f, g) refl in
              let same = ok-injective (sym h ∙ runs) in
              record {
                all_there = raise_missing-eq-ok _ f;
                valid = g;
                marks = ap (λ x. x.0) same;
                intents = ap (λ x. x.1) same;
              }
        ]
      ]
    ]

-- A step does not refuse the intent.
abbrev pub Accepts : Store → DeleteIntent → Type 0
Accepts s i = (budget : ℕ) → 1 ≤ budget → budget ≤ 100 → is_ok (step s i budget) ≡ true

admit-Accepts :
    (kind : Kind) (d : Deletion) (s : Store) (row : Owner)
    → Stands kind row (same_deletion d) s
    → Accepts s (admit kind d row)
unfolding step
admit-Accepts kind d s row st budget low high =
    let bounded : ltb budget 1 || ltb 100 budget ≡ false = ground (arith, low, high) in
    let same : is_mismatch (admit kind d row) st.owner ≡ false =
      rw (st.same, eq_refl row.uuid, st.passes) refl in
    rw (bounded, st.found, same) refl

map-Accepts :
    (kind : Kind) (d : Deletion) (s : Store) (rows : List Owner)
    → All (λ row. Stands kind row (same_deletion d) s) rows
    → All (Accepts s) (map (admit kind d) rows)
map-Accepts kind d s [] h = tt
map-Accepts kind d s (row ∷ rows) h =
    (admit-Accepts kind d s row h.0, map-Accepts kind d s rows h.1)

map-uuid-admit :
    (kind : Kind) (d : Deletion) (rows : List Owner)
    → map (λ (i : DeleteIntent). i.uuid) (map (admit kind d) rows)
      ≡ map (λ (o : Owner). o.uuid) rows
map-uuid-admit kind d [] = refl
map-uuid-admit kind d (row ∷ rows) = ap (λ us. row.uuid ∷ us) (map-uuid-admit kind d rows)

-- On tables whose ids are unique, a delete request that is admitted gives one intent for each id of the
-- request, in its order, and the store that it leaves accepts every one of them: a deletion step on it,
-- with a budget of 1 to 100 rows, does not fail.
pub prepare-Accepts :
    (scoped : List String) (s : Store) (request : DeleteRequest) (job : String) (now : ℕ)
    (r : Store × List DeleteIntent)
    → IsKeyed s
    → prepare scoped s request job now ≡ ok r
    → (map (λ (i : DeleteIntent). i.uuid) r.1 ≡ request.ids) × All (Accepts r.0) r.1
prepare-Accepts scoped s request job now r keyed h =
    let d = intent_deletion request job now in
    let rows = found_rows s request.kind request.ids in
    let a = prepare-Admits scoped s request job now r h in
    (
      ap (map (λ (i : DeleteIntent). i.uuid)) a.intents
          ∙ map-uuid-admit request.kind d rows
          ∙ found_rows-uuids s request.kind request.ids a.all_there,
      subst (All (Accepts r.0)) (sym a.intents) (
          subst (λ x. All (Accepts x) (map (admit request.kind d) rows)) (sym a.marks)
            (map-Accepts request.kind d _ rows (
              set_all_pending-Stands request.kind d rows s
                (found_rows-Stands s request.kind request.ids keyed)))),
    )

-- The ids of a request that name no row.
abbrev pub is_unknown : Store → Kind → String → Bool
is_unknown s kind u = not (any (λ (o : Owner). str_eq o.uuid u) (rows_of kind s))

first_row-any_none {ℓ} :
    {A : Type ℓ} (p : A → Bool) (xs : List A) → any p xs ≡ is_some (first_row p xs)
unfolding first_row
first_row-any_none p [] = refl
first_row-any_none p (x ∷ xs) = ground (arith, first_row-any_none p xs)

missing_ids-select :
    (s : Store) (kind : Kind) (us : List String)
    → missing_ids s kind us ≡ select (is_unknown s kind) us
unfolding missing_ids
missing_ids-select s kind [] = refl
missing_ids-select s kind (u ∷ us) =
    let same = first_row-any_none (λ (o : Owner). str_eq o.uuid u) (rows_of kind s) in
    let rest = missing_ids-select s kind us in
    elim (Option-cases (row_by_uuid s kind u)) [
      | inl e ↦ ground (arith, same, e, rest)
      | inr (row, e) ↦ ground (arith, same, e, rest)
    ]

-- A delete request without duplicates that names an unknown record fails with all of its unknown ids,
-- in the order of the request, whatever else stands in the way of the known ones.
pub prepare-unknown :
    (scoped : List String) (s : Store) (request : DeleteRequest) (job : String) (now : ℕ)
    → has_duplicates request.ids ≡ false
    → any (is_unknown s request.kind) request.ids ≡ true
    → prepare scoped s request job now
      ≡ err (missing_records (select (is_unknown s request.kind) request.ids))
unfolding prepare validated_delete_rows
prepare-unknown scoped s request job now fresh h =
    let (u, us, e) = select_some request.ids h in
    rw (fresh, missing_ids-select s request.kind request.ids, e) refl
  where
    select_some :
        (ids : List String)
        → any (is_unknown s request.kind) ids ≡ true
        → (u : String) × (us : List String) × (select (is_unknown s request.kind) ids ≡ u ∷ us)
    select_some [] h = absurd (cc h)
    select_some (u ∷ us) h = elim (Bool-cases (is_unknown s request.kind u)) [
      | inl e ↦ (u, select (is_unknown s request.kind) us, rw e refl)
      | inr e ↦ let (v, vs, f) = select_some us (ground (arith, e, h)) in (v, vs, rw e f)
    ]
