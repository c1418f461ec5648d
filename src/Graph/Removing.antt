-- ===== src/Graph/Removing.antt =====
-- About a step of storage/deletions.py that is done: the owner was there, and went.
use mathlib.Core.Path.{subst}
use justpen_knowledgebase_mc.Base.{
  ℕ, ◌-◌, ◌≤◌, ◌≡◌, refl, sym, true, ◌||◌, arith, Bool-cases, inl, inr, ◌==◌, any, some,
}
use justpen_knowledgebase_mc.Graph.Tables.{
  Kind, nodes, relations, evidence, Owner, Store, rows_of, row_by_id,
}
use justpen_knowledgebase_mc.Graph.Rows.{length-delete_owner-lt, first_row-any}
use justpen_knowledgebase_mc.Graph.Deletions.{
  DeleteIntent, DeleteStep, delete_children, has_children, Sweep, delete_incident, start_sweep,
  finish_owner, finish_step, step_children, step_owner,
}
use justpen_knowledgebase_mc.Graph.Children.{delete_children-Deletes}
use justpen_knowledgebase_mc.Graph.Sweeps.{IsKeyed}
use justpen_knowledgebase_mc.Graph.Incident.{delete_incident-Ends}

abbrev pub IsThere : Kind → ℕ → Store → Type 0
IsThere kind i s = any (λ (o : Owner). o.id == i) (rows_of kind s) ≡ true

abbrev Removes : Store × DeleteStep → Type 0
Removes r = r.1.done ≡ true → 1 ≤ r.1.rows_deleted

finish_owner-Removes :
    (kind : Kind) (intent : DeleteIntent) (w : Sweep)
    → IsThere kind intent.owner_id w.store
    → Removes (finish_owner kind intent w)
unfolding finish_owner
finish_owner-Removes evidence intent w there h = cc
finish_owner-Removes nodes intent w there h =
    omega (arith, length-delete_owner-lt intent.owner_id w.store.node_rows there)
finish_owner-Removes relations intent w there h =
    omega (arith, length-delete_owner-lt intent.owner_id w.store.relation_rows there)

finish_step-Removes :
    (intent : DeleteIntent) (budget : ℕ) (w : Sweep)
    → IsThere intent.kind intent.owner_id w.store
    → Removes (finish_step intent budget w)
unfolding finish_step
finish_step-Removes intent budget w there =
    elim (Bool-cases (w.deleted == budget || has_children w.store intent.kind intent.owner_id)) [
      | inl e ↦ rw e (λ h. absurd (cc h))
      | inr e ↦ rw e (finish_owner-Removes intent.kind intent w there)
    ]

children-IsThere :
    (kind other : Kind) (i owner budget : ℕ) (s : Store)
    → IsThere kind i s
    → IsThere kind i (delete_children s other owner budget).0
children-IsThere nodes other i owner budget s there =
    subst (λ rs. any (λ (o : Owner). o.id == i) rs ≡ true)
      (sym (delete_children-Deletes s other owner budget).nodes_stay) there
children-IsThere relations other i owner budget s there =
    subst (λ rs. any (λ (o : Owner). o.id == i) rs ≡ true)
      (sym (delete_children-Deletes s other owner budget).relations_stay) there
children-IsThere evidence other i owner budget s there =
    subst (λ rs. any (λ (o : Owner). o.id == i) rs ≡ true)
      (sym (delete_children-Deletes s other owner budget).evidence_stays) there

step_children-Removes :
    (intent : DeleteIntent) (budget : ℕ) (w : Sweep)
    → IsThere intent.kind intent.owner_id w.store
    → Removes (step_children intent budget w)
unfolding step_children
step_children-Removes intent budget w there = finish_step-Removes intent budget _ (
    children-IsThere intent.kind intent.kind intent.owner_id intent.owner_id (budget - w.deleted)
      w.store there)

step_owner-Removes :
    (kind : Kind) (s : Store) (intent : DeleteIntent) (budget : ℕ)
    → kind ≡ intent.kind
    → IsKeyed s
    → IsThere kind intent.owner_id s
    → Removes (step_owner kind s intent budget)
unfolding step_owner
step_owner-Removes nodes s intent budget same keyed there =
    let d =
      delete_incident-Ends intent.owner_id budget intent.deletion.job_id budget (start_sweep s)
        keyed.keyed_relations (omega arith) (omega arith) in
    let w = delete_incident budget intent.owner_id budget intent.deletion.job_id (start_sweep s) in
    let still : IsThere nodes intent.owner_id w.store =
      subst (λ rs. any (λ (o : Owner). o.id == intent.owner_id) rs ≡ true) (sym d.sweeps.nodes_stay)
        there in
    elim (Bool-cases (w.deleted == budget)) [
      | inl e ↦ rw e (λ h. absurd (cc h))
      | inr e ↦ rw e (
          step_children-Removes intent budget w
            (subst (λ k. IsThere k intent.owner_id w.store) same still))
    ]
step_owner-Removes kind s intent budget same keyed there =
    step_children-Removes intent budget (start_sweep s)
      (subst (λ k. IsThere k intent.owner_id s) same there)

-- A step on an owner that is there, and that is done, has deleted a row.
pub step_done-deletes :
    (s : Store) (intent : DeleteIntent) (budget : ℕ) (o : Owner)
    → IsKeyed s
    → row_by_id s intent.kind intent.owner_id ≡ some o
    → Removes (step_owner intent.kind s intent budget)
step_done-deletes s intent budget o keyed found =
    let (here, among) = first_row-any _ (rows_of intent.kind s) o found in
    step_owner-Removes intent.kind s intent budget refl keyed
      (among (λ (x : Owner). x.id == intent.owner_id) here)
