-- ===== src/Graph/Clearing.antt =====
-- About a step of storage/deletions.py that is done: what it leaves of the owner.
use mathlib.Core.Path.{subst}
use justpen_knowledgebase_mc.Base.{
  ℕ, ◌-◌, ◌≡◌, refl, sym, ◌∙◌, true, false, ◌||◌, List, [], ◌∷◌, arith, Bool-cases, Option-cases,
  inl, inr, ◌==◌, ltb, any, none, some, ok, ok-injective,
}
use justpen_knowledgebase_mc.Graph.Tables.{
  Kind, nodes, relations, evidence, Owner, Store, rows_of, row_by_id, is_id, first_row,
}
use justpen_knowledgebase_mc.Graph.Rows.{first_row-none}
use justpen_knowledgebase_mc.Graph.Deletions.{
  DeleteIntent, DeleteStep, has_children, delete_owner, Sweep, incident, delete_incident,
  start_sweep, finish_owner, finish_step, step_children, step_owner, step, is_mismatch,
}
use justpen_knowledgebase_mc.Graph.Children.{delete_children-Deletes}
use justpen_knowledgebase_mc.Graph.Sweeps.{IsKeyed}
use justpen_knowledgebase_mc.Graph.Incident.{delete_incident-Ends}

-- No relation has the node for an end.
unfoldable pub IsUnlinked : Kind → ℕ → List Owner → Type 0
IsUnlinked nodes i rs =
    (any (λ (r : Owner). is_id i r.source_id) rs ≡ false)
    × (any (λ (r : Owner). is_id i r.target_id) rs ≡ false)
IsUnlinked _ i rs = Unit

-- The owner is gone, and so is every row that refers to it.
pub record Clears (kind : Kind) (i : ℕ) (s : Store) : Type 0 where
  pub gone : any (λ (o : Owner). o.id == i) (rows_of kind s) ≡ false
  pub childless : has_children s kind i ≡ false
  pub unlinked : IsUnlinked kind i s.relation_rows

delete_owner-gone :
    (i : ℕ) (os : List Owner) → any (λ (o : Owner). o.id == i) (delete_owner i os) ≡ false
unfolding delete_owner
delete_owner-gone i [] = refl
delete_owner-gone i (o ∷ os) = ground (arith, delete_owner-gone i os)

finish_owner-Clears :
    (kind : Kind) (intent : DeleteIntent) (w : Sweep)
    → has_children w.store kind intent.owner_id ≡ false
    → IsUnlinked kind intent.owner_id w.store.relation_rows
    → (finish_owner kind intent w).1.done ≡ true
    → Clears kind intent.owner_id (finish_owner kind intent w).0
unfolding finish_owner has_children IsUnlinked
finish_owner-Clears evidence intent w bare unlinked h = absurd (cc h)
finish_owner-Clears nodes intent w bare unlinked h = record {
  gone = delete_owner-gone intent.owner_id w.store.node_rows;
  childless = bare;
  unlinked = unlinked;
}
finish_owner-Clears relations intent w bare unlinked h = record {
  gone = delete_owner-gone intent.owner_id w.store.relation_rows;
  childless = bare;
  unlinked = tt;
}

abbrev Finishes : DeleteIntent → Store × DeleteStep → Type 0
Finishes intent r = r.1.done ≡ true → Clears intent.kind intent.owner_id r.0

finish_step-Clears :
    (intent : DeleteIntent) (budget : ℕ) (w : Sweep)
    → IsUnlinked intent.kind intent.owner_id w.store.relation_rows
    → Finishes intent (finish_step intent budget w)
unfolding finish_step
finish_step-Clears intent budget w unlinked =
    elim (Bool-cases (w.deleted == budget || has_children w.store intent.kind intent.owner_id)) [
      | inl e ↦ rw e (λ h. absurd (cc h))
      | inr e ↦
          let bare : has_children w.store intent.kind intent.owner_id ≡ false = ground (arith, e) in
          rw e (finish_owner-Clears intent.kind intent w bare unlinked)
    ]

step_children-Clears :
    (intent : DeleteIntent) (budget : ℕ) (w : Sweep)
    → IsUnlinked intent.kind intent.owner_id w.store.relation_rows
    → Finishes intent (step_children intent budget w)
unfolding step_children
step_children-Clears intent budget w unlinked = finish_step-Clears intent budget _ (
    subst (IsUnlinked intent.kind intent.owner_id)
      (sym
        (delete_children-Deletes w.store intent.kind intent.owner_id
          (budget - w.deleted)).relations_stay)
      unlinked)

incident-none : (s : Store) (i : ℕ) → incident s i ≡ none → IsUnlinked nodes i s.relation_rows
unfolding incident IsUnlinked
incident-none s i h =
    elim (Option-cases (first_row (λ (r : Owner). is_id i r.source_id) s.relation_rows)) [
      | inr (r, e) ↦ absurd (ground (arith, e, h))
      | inl e ↦ (
        first_row-none (λ (r : Owner). is_id i r.source_id) s.relation_rows e,
        first_row-none (λ (r : Owner). is_id i r.target_id) s.relation_rows (ground (arith, e, h)),
      )
    ]

step_owner-Clears :
    (kind : Kind) (s : Store) (intent : DeleteIntent) (budget : ℕ)
    → kind ≡ intent.kind
    → IsKeyed s
    → Finishes intent (step_owner kind s intent budget)
unfolding step_owner
step_owner-Clears nodes s intent budget same keyed =
    let d =
      delete_incident-Ends intent.owner_id budget intent.deletion.job_id budget (start_sweep s)
        keyed.keyed_relations (omega arith) (omega arith) in
    let w = delete_incident budget intent.owner_id budget intent.deletion.job_id (start_sweep s) in
    elim (Bool-cases (w.deleted == budget)) [
      | inl e ↦ rw e (λ h. absurd (cc h))
      | inr e ↦ rw e (
          step_children-Clears intent budget w (
            subst (λ k. IsUnlinked k intent.owner_id w.store.relation_rows) same
              (elim d.ended [
                | inl spent ↦ absurd (ground (arith, e, spent))
                | inr over ↦ incident-none w.store intent.owner_id over
              ])))
    ]
step_owner-Clears relations s intent budget same keyed =
    step_children-Clears intent budget (start_sweep s)
      (subst (λ k. IsUnlinked k intent.owner_id s.relation_rows) same (unfold IsUnlinked in tt))
step_owner-Clears evidence s intent budget same keyed =
    step_children-Clears intent budget (start_sweep s)
      (subst (λ k. IsUnlinked k intent.owner_id s.relation_rows) same (unfold IsUnlinked in tt))

-- A step on an owner that is in its table, and that reports that it is done, has cleared it, on tables
-- whose ids are unique: no row of the table has the id any more, no link, index row or search document
-- of it is left, and no relation has it for an end if it was a node.
pub step_done-Clears :
    (s : Store) (intent : DeleteIntent) (budget : ℕ) (o : Owner) (r : Store × DeleteStep)
    → IsKeyed s
    → row_by_id s intent.kind intent.owner_id ≡ some o
    → step s intent budget ≡ ok r
    → r.1.done ≡ true
    → Clears intent.kind intent.owner_id r.0
unfolding step
step_done-Clears s intent budget o r keyed found h done =
    elim (Bool-cases (ltb budget 1 || ltb 100 budget)) [
      | inl e ↦ absurd (ground (arith, e, h))
      | inr e ↦ elim (Bool-cases (is_mismatch intent o)) [
        | inl f ↦ absurd (ground (arith, e, f, found, h))
        | inr f ↦
            let runs : step s intent budget ≡ ok (step_owner intent.kind s intent budget) =
              rw (e, found, f) refl in
            let same : step_owner intent.kind s intent budget ≡ r = ok-injective (sym runs ∙ h) in
            subst (Finishes intent) same (step_owner-Clears intent.kind s intent budget refl keyed)
              done
      ]
    ]
