-- ===== src/Graph/Stepping.antt =====
-- About `GraphDeletion.step` of storage/deletions.py: its cost and its progress.
use mathlib.Core.Path.{subst}
use justpen_knowledgebase_mc.Base.{
  ℕ, ◌+◌, ◌-◌, ◌≤◌, ◌<◌, ◌≡◌, refl, sym, ◌∙◌, Bool, true, false, ◌||◌, ◌⊎◌, [], arith, Option-cases,
  Bool-cases, inl, inr, ◌==◌, ltb, ok, err, conflict,
}
use justpen_knowledgebase_mc.Graph.Tables.{Kind, nodes, relations, evidence, Store, row_by_id}
use justpen_knowledgebase_mc.Graph.Rows.{
  Sub, UniqueIds, delete_owner-Sub, delete_owner-UniqueIds, length-delete_owner,
  length-delete_owner-once,
}
use justpen_knowledgebase_mc.Graph.Deletions.{
  DeleteIntent, DeleteStep, has_children, Sweep, delete_incident, start_sweep, finish_owner,
  finish_step, step_children, step_owner, step, is_mismatch, unfinished,
}
use justpen_knowledgebase_mc.Graph.Children.{delete_children-NoneLeft}
use justpen_knowledgebase_mc.Graph.Sweeps.{
  size, IsKeyed, Sweeps, stay-Sweeps, trans-Sweeps, children-Sweeps,
}
use justpen_knowledgebase_mc.Graph.Incident.{delete_incident-Ends}

abbrev pub is_evidence : Kind → Bool
is_evidence evidence = true
is_evidence _ = false

-- What one step did: it deleted exactly so many rows, at most as many as the budget, put none in, and
-- the ids stay unique. A step that is neither done nor waiting for files has spent its whole budget.
pub record Steps (kind : Kind) (s : Store) (budget : ℕ) (r : Store × DeleteStep) : Type 0 where
  pub exact : size r.0 + r.1.rows_deleted ≡ size s
  pub within : r.1.rows_deleted ≤ budget
  pub keyed : IsKeyed r.0
  pub sub_nodes : Sub r.0.node_rows s.node_rows
  pub sub_relations : Sub r.0.relation_rows s.relation_rows
  pub sub_evidence : Sub r.0.evidence_rows s.evidence_rows
  pub progress :
      (r.1.done ≡ true)
      ⊎ (((r.1.files_pending ≡ true) × (is_evidence kind ≡ true)) ⊎ (r.1.rows_deleted ≡ budget))

module _ (s : Store) (budget : ℕ) (keyed : IsKeyed s) where
  swept-IsKeyed : (w : Sweep) → Sweeps budget (start_sweep s) w → IsKeyed w.store
  swept-IsKeyed w f = record {
    keyed_nodes = subst UniqueIds (sym f.nodes_stay) keyed.keyed_nodes;
    keyed_relations = f.keyed;
    keyed_evidence = subst UniqueIds (sym f.evidence_stays) keyed.keyed_evidence;
  }

  nodes-Sub : (w : Sweep) → Sweeps budget (start_sweep s) w → Sub w.store.node_rows s.node_rows
  nodes-Sub w f = subst (λ rs. Sub rs s.node_rows) (sym f.nodes_stay) (λ q h. h)

  evidence-Sub :
      (w : Sweep) → Sweeps budget (start_sweep s) w → Sub w.store.evidence_rows s.evidence_rows
  evidence-Sub w f = subst (λ rs. Sub rs s.evidence_rows) (sym f.evidence_stays) (λ q h. h)

  unfinished-Steps :
      (kind : Kind) (w : Sweep)
      → Sweeps budget (start_sweep s) w
      → w.deleted ≡ budget
      → Steps kind s budget (w.store, unfinished w.deleted w.purged)
  unfinished-Steps kind w f e = record {
    exact = f.exact ∙ omega arith;
    within = f.within;
    keyed = swept-IsKeyed w f;
    sub_nodes = nodes-Sub w f;
    sub_relations = f.sub_relations;
    sub_evidence = evidence-Sub w f;
    progress = inr (inr e);
  }

  owner-Steps :
      (kind : Kind) (intent : DeleteIntent) (w : Sweep)
      → Sweeps budget (start_sweep s) w
      → w.deleted < budget
      → Steps kind s budget (finish_owner kind intent w)
  unfolding finish_owner
  owner-Steps evidence intent w f lt = record {
    exact = f.exact ∙ omega arith;
    within = f.within;
    keyed = swept-IsKeyed w f;
    sub_nodes = nodes-Sub w f;
    sub_relations = f.sub_relations;
    sub_evidence = evidence-Sub w f;
    progress = inr (inl (refl, refl));
  }
  owner-Steps nodes intent w f lt =
      let k = swept-IsKeyed w f in
      let less = length-delete_owner intent.owner_id w.store.node_rows in
      let once = length-delete_owner-once intent.owner_id w.store.node_rows k.keyed_nodes in
      record {
        exact = omega (arith, f.exact, less);
        within = omega (arith, lt, once, less);
        keyed = record {
          keyed_nodes = delete_owner-UniqueIds intent.owner_id w.store.node_rows k.keyed_nodes;
          keyed_relations = k.keyed_relations;
          keyed_evidence = k.keyed_evidence;
        };
        sub_nodes = λ q h. delete_owner-Sub intent.owner_id w.store.node_rows q (nodes-Sub w f q h);
        sub_relations = f.sub_relations;
        sub_evidence = evidence-Sub w f;
        progress = inl refl;
      }
  owner-Steps relations intent w f lt =
      let k = swept-IsKeyed w f in
      let less = length-delete_owner intent.owner_id w.store.relation_rows in
      let once = length-delete_owner-once intent.owner_id w.store.relation_rows k.keyed_relations in
      record {
        exact = omega (arith, f.exact, less);
        within = omega (arith, lt, once, less);
        keyed = record {
          keyed_nodes = k.keyed_nodes;
          keyed_relations =
              delete_owner-UniqueIds intent.owner_id w.store.relation_rows k.keyed_relations;
          keyed_evidence = k.keyed_evidence;
        };
        sub_nodes = nodes-Sub w f;
        sub_relations =
            λ q h. delete_owner-Sub intent.owner_id w.store.relation_rows q (f.sub_relations q h);
        sub_evidence = evidence-Sub w f;
        progress = inl refl;
      }

  finish-Steps :
      (intent : DeleteIntent) (w : Sweep)
      → Sweeps budget (start_sweep s) w
      → (w.deleted < budget → has_children w.store intent.kind intent.owner_id ≡ false)
      → Steps intent.kind s budget (finish_step intent budget w)
  unfolding finish_step
  finish-Steps intent w f clear = elim (Bool-cases (w.deleted == budget)) [
    | inl e ↦ rw e (unfinished-Steps intent.kind w f (ground (arith, e)))
    | inr e ↦
        let lt : w.deleted < budget = ground (arith, e, f.within) in
        rw (e, clear lt) (owner-Steps intent.kind intent w f lt)
  ]

  children-Steps :
      (intent : DeleteIntent) (w : Sweep)
      → Sweeps budget (start_sweep s) w
      → Steps intent.kind s budget (step_children intent budget w)
  unfolding step_children
  children-Steps intent w f =
      let g = children-Sweeps budget intent.owner_id intent.kind w f.keyed f.within in
      finish-Steps intent _ (trans-Sweeps budget (start_sweep s) w _ f g) (λ lt.
        delete_children-NoneLeft w.store intent.kind intent.owner_id (budget - w.deleted)
          (omega (arith, lt)))

  owner_step-Steps :
      (kind : Kind) (intent : DeleteIntent)
      → Steps intent.kind s budget (step_owner kind s intent budget)
  unfolding step_owner
  owner_step-Steps nodes intent =
      let d =
        delete_incident-Ends intent.owner_id budget intent.deletion.job_id budget (start_sweep s)
          keyed.keyed_relations (omega arith) (omega arith) in
      let w =
        delete_incident budget intent.owner_id budget intent.deletion.job_id (start_sweep s) in
      elim (Bool-cases (w.deleted == budget)) [
        | inl e ↦ rw e (unfinished-Steps intent.kind w d.sweeps (ground (arith, e)))
        | inr e ↦ rw e (children-Steps intent w d.sweeps)
      ]
  owner_step-Steps _ intent =
      children-Steps intent (start_sweep s)
        (stay-Sweeps budget (start_sweep s) keyed.keyed_relations (omega arith))

  absent-Steps :
      (kind : Kind)
      → Steps kind s budget
          (s, record { rows_deleted = 0; done = true; files_pending = false; purged = [] })
  absent-Steps kind = record {
    exact = omega arith;
    within = omega arith;
    keyed = keyed;
    sub_nodes = λ q h. h;
    sub_relations = λ q h. h;
    sub_evidence = λ q h. h;
    progress = inl refl;
  }

  -- A deletion step with a budget of 1 to 100 rows either refuses an intent that is not the stored one,
  -- or returns. Then it has deleted exactly the rows that it reports, at most as many as its budget,
  -- it has put no owner in, and the ids of each table are unique still; and if it is neither done nor
  -- waiting for the files of evidence, it has spent its whole budget.
  pub step-Steps :
      (intent : DeleteIntent)
      → 1 ≤ budget
      → budget ≤ 100
      → (step s intent budget ≡ err (conflict "delete intent mismatch"))
        ⊎ ((r : Store × DeleteStep) × (step s intent budget ≡ ok r) × Steps intent.kind s budget r)
  unfolding step
  step-Steps intent low high =
      let bounded : ltb budget 1 || ltb 100 budget ≡ false = ground (arith, low, high) in
      elim (Option-cases (row_by_id s intent.kind intent.owner_id)) [
        | inl e ↦ inr (_, rw (bounded, e) refl, absent-Steps intent.kind)
        | inr (o, e) ↦ elim (Bool-cases (is_mismatch intent o)) [
          | inl m ↦ inl (rw (bounded, e, m) refl)
          | inr m ↦ inr (_, rw (bounded, e, m) refl, owner_step-Steps intent.kind intent)
        ]
      ]
