-- ===== src/Graph/Marking.antt =====
-- About `GraphDeletion.prepare` of storage/deletions.py: the intents that it stores.
use mathlib.Core.Path.{subst}
use justpen_knowledgebase_mc.Base.{
  ℕ, String, ◌≡◌, refl, sym, ◌∙◌, ap, Bool, true, false, List, [], ◌∷◌, map, arith, Option, some,
  Option-cases, Bool-cases, inl, inr, ◌==◌, eq_iff, if◌then◌else◌, All,
}
use justpen_knowledgebase_mc.Graph.Tables.{
  Kind, nodes, relations, evidence, Deletion, Owner, Store, first_row, rows_of, with_rows,
  row_by_id, row_by_uuid,
}
use justpen_knowledgebase_mc.Graph.Rows.{first_row-any}
use justpen_knowledgebase_mc.Graph.Deletions.{same_deletion}
use justpen_knowledgebase_mc.Graph.Admitting.{found_rows, missing_ids, set_pending, set_all_pending}
use justpen_knowledgebase_mc.Graph.Sweeps.{IsKeyed}
use justpen_knowledgebase_mc.Graph.Selecting.{first_row-id, rows-UniqueIds, same_deletion_refl}

pub rows_of-with_rows :
    (kind : Kind) (os : List Owner) (s : Store) → rows_of kind (with_rows kind os s) ≡ os
rows_of-with_rows nodes os s = refl
rows_of-with_rows relations os s = refl
rows_of-with_rows evidence os s = refl

-- A row keeps its id and its uuid; the marked one gets the intent.
first_row-set_pending :
    (i j : ℕ) (d : Deletion) (os : List Owner) (o : Owner)
    → first_row (λ (x : Owner). x.id == j) os ≡ some o
    → first_row (λ (x : Owner). x.id == j) (set_pending i d os)
      ≡ some (if j == i then (record o { deletion = some d }) else o)
unfolding first_row set_pending
first_row-set_pending i j d [] o h = cc
first_row-set_pending i j d (x ∷ xs) o h = elim (Bool-cases (x.id == j)) [
  | inl e ↦
      let same : x ≡ o = ground (arith, e) in
      let at_j : x.id ≡ j = ground (arith, e) in
      elim (Bool-cases (x.id == i)) [
        | inl f ↦
            let both : (j == i) ≡ true = subst (λ k. (k == i) ≡ true) at_j f in
            rw (f, e, both) (ap (λ (y : Owner). some (record y { deletion = some d })) same)
        | inr f ↦
            let both : (j == i) ≡ false = subst (λ k. (k == i) ≡ false) at_j f in
            rw (f, e, both) (ap some same)
      ]
  | inr e ↦
      let rest = first_row-set_pending i j d xs o (ground (arith, e)) in
      elim (Bool-cases (x.id == i)) [ inl f ↦ rw (f, e) rest | inr f ↦ rw (f, e) rest ]
]

-- A row of this id and this uuid stands in the table, with a deletion that passes the test.
pub record Stands (kind : Kind) (row : Owner) (p : Option Deletion → Bool) (s : Store)
    : Type 0 where
  pub owner : Owner
  pub found : row_by_id s kind row.id ≡ some owner
  pub same : owner.uuid ≡ row.uuid
  pub passes : p owner.deletion ≡ true

abbrev pub whatever : Option Deletion → Bool
whatever _ = true

module _ (kind : Kind) (d : Deletion) where
  -- A mark passes what the deletion passes, and what a row passed before.
  mark-Stands :
      (i : ℕ) (row : Owner) (p q : Option Deletion → Bool) (s : Store)
      → Stands kind row p s
      → ((row.id == i) ≡ true → q (some d) ≡ true)
      → ((row.id == i) ≡ false → (e : Option Deletion) → p e ≡ true → q e ≡ true)
      → Stands kind row q (with_rows kind (set_pending i d (rows_of kind s)) s)
  mark-Stands i row p q s st hit miss =
      let os = set_pending i d (rows_of kind s) in
      let rows = rows_of-with_rows kind os s in
      let moved = first_row-set_pending i row.id d (rows_of kind s) st.owner st.found in
      let there : first_row (λ (x : Owner). x.id == row.id) (rows_of kind (with_rows kind os s))
          ≡ some (if row.id == i then (record st.owner { deletion = some d }) else st.owner) =
        subst
          (λ rs.
            first_row (λ (x : Owner). x.id == row.id) rs
            ≡ some (if row.id == i then (record st.owner { deletion = some d }) else st.owner))
          (sym rows) moved in
      elim (Bool-cases (row.id == i)) [
        | inl e ↦ record {
          owner = record st.owner { deletion = some d };
          found = there ∙ rw e refl;
          same = st.same;
          passes = hit e;
        }
        | inr e ↦ record {
          owner = st.owner;
          found = there ∙ rw e refl;
          same = st.same;
          passes = miss e st.owner.deletion st.passes;
        }
      ]

  all-Stands :
      (row : Owner) (rows : List Owner) (s : Store)
      → Stands kind row (same_deletion d) s
      → Stands kind row (same_deletion d) (set_all_pending kind d rows s)
  unfolding set_all_pending
  all-Stands row [] s st = st
  all-Stands row (r ∷ rows) s st = all-Stands row rows _ (
      mark-Stands r.id row (same_deletion d) (same_deletion d) s st (λ e. same_deletion_refl d)
        (λ e x h. h))

  keep-Stands :
      (r : Owner) (rows : List Owner) (s : Store)
      → All (λ row. Stands kind row whatever s) rows
      → All
          (λ row. Stands kind row whatever (with_rows kind (set_pending r.id d (rows_of kind s)) s))
          rows
  keep-Stands r [] s h = tt
  keep-Stands r (row ∷ rows) s h = (
    mark-Stands r.id row whatever whatever s h.0 (λ e. refl) (λ e x k. refl),
    keep-Stands r rows s h.1,
  )

  pub set_all_pending-Stands :
      (rows : List Owner) (s : Store)
      → All (λ row. Stands kind row whatever s) rows
      → All (λ row. Stands kind row (same_deletion d) (set_all_pending kind d rows s)) rows
  unfolding set_all_pending
  set_all_pending-Stands [] s h = tt
  set_all_pending-Stands (r ∷ rows) s h = (
    all-Stands r rows _ (
        mark-Stands r.id r whatever (same_deletion d) s h.0 (λ e. same_deletion_refl d)
          (λ e x k. absurd (ground arith))),
    set_all_pending-Stands rows _ (keep-Stands r rows s h.1),
  )

-- The rows of the ids are the rows that stand in the table under them.
pub found_rows-Stands :
    (s : Store) (kind : Kind) (us : List String)
    → IsKeyed s
    → All (λ row. Stands kind row whatever s) (found_rows s kind us)
unfolding found_rows
found_rows-Stands s kind [] k = tt
found_rows-Stands s kind (u ∷ us) k = elim (Option-cases (row_by_uuid s kind u)) [
  | inl e ↦
      let same : found_rows s kind us ≡ found_rows s kind (u ∷ us) = ground (arith, e) in
      subst (All (λ row. Stands kind row whatever s)) same (found_rows-Stands s kind us k)
  | inr (row, e) ↦
      let same : row ∷ found_rows s kind us ≡ found_rows s kind (u ∷ us) = ground (arith, e) in
      subst (All (λ row. Stands kind row whatever s)) same (
        record {
          owner = row;
          found = first_row-id _ (rows_of kind s) row (rows-UniqueIds kind s k) e;
          same = refl;
          passes = refl;
        },
        found_rows-Stands s kind us k,
      )
]

pub found_rows-uuids :
    (s : Store) (kind : Kind) (us : List String)
    → missing_ids s kind us ≡ []
    → map (λ (o : Owner). o.uuid) (found_rows s kind us) ≡ us
unfolding found_rows missing_ids
found_rows-uuids s kind [] h = refl
found_rows-uuids s kind (u ∷ us) h = elim (Option-cases (row_by_uuid s kind u)) [
  | inl e ↦ absurd (ground (arith, e, h))
  | inr (row, e) ↦
      let named : row.uuid ≡ u = (eq_iff row.uuid u).0 (first_row-any _ (rows_of kind s) row e).0 in
      let rest = found_rows-uuids s kind us (ground (arith, e, h)) in
      let here : row ∷ found_rows s kind us ≡ found_rows s kind (u ∷ us) = ground (arith, e) in
      subst (λ rows. map (λ (o : Owner). o.uuid) rows ≡ u ∷ us) here (rw (named, rest) refl)
]
