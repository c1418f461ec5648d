-- ===== src/Graph/Incident.antt =====
-- About the loop of `_delete_incident` of storage/deletions.py and its end.
use mathlib.Core.Path.{subst}
use justpen_knowledgebase_mc.Base.{
  ℕ, zero, suc, ◌+◌, ◌≤◌, ◌<◌, String, ◌≡◌, refl, false, ◌⊎◌, arith, some, none, Option-cases,
  Bool-cases, inl, inr, ltb,
}
use justpen_knowledgebase_mc.Graph.Tables.{Owner}
use justpen_knowledgebase_mc.Graph.Rows.{UniqueIds}
use justpen_knowledgebase_mc.Graph.Deletions.{incident, Sweep, incident_round, delete_incident}
use justpen_knowledgebase_mc.Graph.Sweeps.{
  Sweeps, stay-Sweeps, trans-Sweeps, round-Sweeps, incident-any, round-progress,
}

module _ (owner budget : ℕ) (job : String) where
  incident-step :
      (fuel : ℕ) (w : Sweep) (r : Owner)
      → w.deleted < budget
      → incident w.store owner ≡ some r
      → delete_incident fuel owner budget job (incident_round r budget job w)
        ≡ delete_incident (suc fuel) owner budget job w
  unfolding delete_incident
  incident-step fuel w r lt e = ground (arith, e)

  incident-stop :
      (fuel : ℕ) (w : Sweep)
      → incident w.store owner ≡ none
      → w ≡ delete_incident (suc fuel) owner budget job w
  unfolding delete_incident
  incident-stop fuel w e = ground (arith, e)

  incident-spent :
      (fuel : ℕ) (w : Sweep)
      → ltb w.deleted budget ≡ false
      → w ≡ delete_incident (suc fuel) owner budget job w
  unfolding delete_incident
  incident-spent fuel w e = rw e refl

  -- The loop ends because its budget is spent or no incident relation is left.
  pub record Ends (w w' : Sweep) : Type 0 where
    pub sweeps : Sweeps budget w w'
    pub ended : (w'.deleted ≡ budget) ⊎ (incident w'.store owner ≡ none)

  pub delete_incident-Ends :
      (fuel : ℕ) (w : Sweep)
      → UniqueIds w.store.relation_rows
      → w.deleted ≤ budget
      → budget ≤ w.deleted + fuel
      → Ends w (delete_incident fuel owner budget job w)
  delete_incident-Ends zero w un le enough =
      unfold delete_incident in
      record { sweeps = stay-Sweeps budget w un le; ended = inl (omega (arith, le, enough)) }
  delete_incident-Ends (suc fuel) w un le enough = elim (Bool-cases (ltb w.deleted budget)) [
    | inr e ↦
        subst (Ends w) (incident-spent fuel w e)
          (record { sweeps = stay-Sweeps budget w un le; ended = inl (ground (arith, e, le)) })
    | inl e ↦ elim (Option-cases (incident w.store owner)) [
      | inl q ↦
          subst (Ends w) (incident-stop fuel w q)
            (record { sweeps = stay-Sweeps budget w un le; ended = inr q })
      | inr (r, q) ↦
          let lt : w.deleted < budget = ground (arith, e) in
          let next = incident_round r budget job w in
          let f = round-Sweeps r budget job w un le in
          let more = round-progress r budget job w (incident-any w.store owner r q) lt in
          let g = delete_incident-Ends fuel next f.keyed f.within (omega (arith, more, enough)) in
          subst (Ends w) (incident-step fuel w r lt q)
            (record { sweeps = trans-Sweeps budget w next _ f g.sweeps; ended = g.ended })
    ]
  ]
