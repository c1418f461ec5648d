-- ===== src/Graph/Purging.antt =====
-- About `GraphDeletion.purge_rejection` of storage/deletions.py: its cost, and how it ends.
use mathlib.Core.Path.{subst}
use justpen_knowledgebase_mc.Base.{
  ℕ, zero, suc, ◌+◌, ◌-◌, ◌≤◌, ◌<◌, String, ◌≡◌, refl, sym, ◌∙◌, true, false, ◌||◌, ◌⊎◌, List, [],
  ◌∷◌, arith, some, Option-cases, Bool-cases, inl, inr, ltb, any, ok, ok-injective,
}
use justpen_knowledgebase_mc.Graph.Tables.{Owner, Store, row_by_id}
use justpen_knowledgebase_mc.Graph.Deletions.{
  DeleteIntent, DeleteStep, is_intent_of, is_mismatch, step, step_owner, Sweep, start_sweep,
}
use justpen_knowledgebase_mc.Graph.Rejections.{
  Probe, node_probes, next_intent, RejectionStep, swept, add_step, purge, purge_rejection,
}
use justpen_knowledgebase_mc.Graph.Sweeps.{size, IsKeyed}
use justpen_knowledgebase_mc.Graph.Stepping.{is_evidence, Steps, step-Steps}
use justpen_knowledgebase_mc.Graph.Selecting.{
  Pends, Sub-Pends, next_intent-Next, is_any_node, is_any_relation,
}
use justpen_knowledgebase_mc.Graph.Removing.{step_done-deletes}

-- A step on a stored intent runs.
pub step-runs :
    (s : Store) (budget : ℕ) (intent : DeleteIntent) (o : Owner)
    → IsKeyed s
    → row_by_id s intent.kind intent.owner_id ≡ some o
    → is_mismatch intent o ≡ false
    → 1 ≤ budget
    → budget ≤ 100
    → (r : Store × DeleteStep) × (step s intent budget ≡ ok r)
      × Steps intent.kind s budget r
      × (r.1.done ≡ true → 1 ≤ r.1.rows_deleted)
step-runs s budget intent o keyed found same low high =
    let bounded : ltb budget 1 || ltb 100 budget ≡ false = ground (arith, low, high) in
    let runs : step s intent budget ≡ ok (step_owner intent.kind s intent budget) =
      unfold step in rw (bounded, found, same) refl in
    elim (step-Steps s budget keyed intent low high) [
      | inl e ↦ absurd (cc (e, runs))
      | inr (r, e, f) ↦
          let this : step_owner intent.kind s intent budget ≡ r = ok-injective (sym runs ∙ e) in
          (
            r,
            e,
            f,
            subst (λ (x : Store × DeleteStep). x.1.done ≡ true → 1 ≤ x.1.rows_deleted) this
                (step_done-deletes s intent budget o keyed found),
          )
    ]

-- What a purge did: it deleted exactly so many rows, at most as many as the budget, and the ids stay
-- unique. It is done when no node and no relation has an intent of the job, and has spent its budget
-- otherwise.
pub record Purges (job : String) (budget : ℕ) (w : Sweep) (r : Store × RejectionStep) : Type 0 where
  pub exact : size r.0 + r.1.rows_deleted ≡ size w.store + w.deleted
  pub within : r.1.rows_deleted ≤ budget
  pub keyed : IsKeyed r.0
  pub ended :
      ((r.1.done ≡ true)
        × (any (is_intent_of job) r.0.node_rows ≡ false)
        × (any (is_intent_of job) r.0.relation_rows ≡ false))
      ⊎ ((r.1.done ≡ false) × (r.1.rows_deleted ≡ budget))

module _ (job : String) (budget : ℕ) (high : budget ≤ 100) where
  spent-Purges :
      (w : Sweep) → IsKeyed w.store → w.deleted ≡ budget → Purges job budget w (swept w false)
  spent-Purges w keyed e = record {
    exact = refl;
    within = omega (arith, e);
    keyed = keyed;
    ended = inr (refl, e);
  }

  clear-Purges :
      (w : Sweep)
      → IsKeyed w.store
      → w.deleted ≤ budget
      → Pends job [] w.store
      → Purges job budget w (swept w true)
  clear-Purges w keyed le pends = record {
    exact = refl;
    within = le;
    keyed = keyed;
    ended = inl (refl, nodes_clear pends.nodes_pend, relations_clear pends.relations_pend);
  }
    where
      nodes_clear :
          (any is_any_node [] ≡ true) ⊎ (any (is_intent_of job) w.store.node_rows ≡ false)
          → any (is_intent_of job) w.store.node_rows ≡ false
      nodes_clear (inl h) = absurd (ground (arith, h))
      nodes_clear (inr h) = h

      relations_clear :
          (any is_any_relation [] ≡ true) ⊎ (any (is_intent_of job) w.store.relation_rows ≡ false)
          → any (is_intent_of job) w.store.relation_rows ≡ false
      relations_clear (inl h) = absurd (ground (arith, h))
      relations_clear (inr h) = h

  -- A step that is not done has spent the budget that was left.
  stopped :
      (w : Sweep) (i : DeleteIntent) (r : Store × DeleteStep)
      → w.deleted ≤ budget
      → is_evidence i.kind ≡ false
      → Steps i.kind w.store (budget - w.deleted) r
      → r.1.done ≡ false
      → w.deleted + r.1.rows_deleted ≡ budget
  stopped w i r le kind f h = elim f.progress [
    | inl d ↦ absurd (ground (arith, d, h))
    | inr (inl (_, e)) ↦ absurd (ground (arith, e, kind))
    | inr (inr e) ↦ omega (arith, e, le)
  ]

  after-Purges :
      (w : Sweep) (i : DeleteIntent) (st : Store × DeleteStep) (r : Store × RejectionStep)
      → Steps i.kind w.store (budget - w.deleted) st
      → Purges job budget (add_step w st) r
      → Purges job budget w r
  after-Purges w i st r f p = record {
    exact = omega (arith, f.exact, p.exact);
    within = p.within;
    keyed = p.keyed;
    ended = p.ended;
  }

  -- The end of a round whose step is known: it ends the purge, or the next round goes on.
  round-Purges :
      (fuel : ℕ) (live : List Probe) (w : Sweep) (i : DeleteIntent) (st : Store × DeleteStep)
      → w.deleted ≤ budget
      → is_evidence i.kind ≡ false
      → Steps i.kind w.store (budget - w.deleted) st
      → (st.1.done ≡ true
          → (r : Store × RejectionStep) × (purge fuel budget job live (add_step w st) ≡ ok r)
            × Purges job budget (add_step w st) r)
      → (r : Store × RejectionStep) × ((elim st.1.done [
        | true ↦ purge fuel budget job live (add_step w st)
        | false ↦ ok (swept (add_step w st) false)
      ])
          ≡ ok r)
        × Purges job budget w r
  round-Purges fuel live w i st le kind f again = elim (Bool-cases st.1.done) [
    | inr d ↦ (
      swept (add_step w st) false,
      rw d refl,
      after-Purges w i st _ f (spent-Purges (add_step w st) f.keyed (stopped w i st le kind f d)),
    )
    | inl d ↦ let (r, ran, p) = again d in (r, rw d ran, after-Purges w i st r f p)
  ]

  purge-Purges :
      (fuel : ℕ) (ps : List Probe) (w : Sweep)
      → IsKeyed w.store
      → Pends job ps w.store
      → w.deleted ≤ budget
      → budget ≤ w.deleted + fuel
      → (r : Store × RejectionStep) × (purge fuel budget job ps w ≡ ok r) × Purges job budget w r
  unfolding purge
  purge-Purges zero ps w keyed pends le enough =
      (swept w false, refl, spent-Purges w keyed (omega (arith, le, enough)))
  purge-Purges (suc fuel) ps w keyed pends le enough = elim (Bool-cases (ltb w.deleted budget)) [
    | inr e ↦ (swept w false, ground (arith, e), spent-Purges w keyed (ground (arith, e, le)))
    | inl e ↦
        let lt : w.deleted < budget = ground (arith, e) in
        let next = next_intent-Next w.store job ps keyed pends in
        let live = (next_intent w.store job ps).1 in
        elim (Option-cases (next_intent w.store job ps).0) [
          | inl h ↦ (
            swept w true,
            rw (e, h) refl,
            clear-Purges w keyed le (subst (λ qs. Pends job qs w.store) (next.ended h) next.pends),
          )
          | inr (i, h) ↦
              let (o, found, same) = next.matches i h in
              let (st, runs, f, removes) =
                step-runs w.store (budget - w.deleted) i o keyed found same (omega (arith, lt))
                  (omega (arith, high)) in
              let (r, ran, p) = round-Purges fuel live w i st le (next.deletable i h) f (λ d.
                purge-Purges fuel live (add_step w st) f.keyed
                  (Sub-Pends job live w.store st.0 f.sub_nodes f.sub_relations next.pends)
                  (omega (arith, f.within, lt)) (omega (arith, removes d, enough))) in
              (r, rw (e, h, runs) ran, p)
        ]
  ]

Pends-at_start : (types : List String) (job : String) (s : Store) → Pends job (node_probes types) s
unfolding node_probes
Pends-at_start types job s = record {
  nodes_pend = inl (nodes_in types);
  relations_pend = inl (relations_in types);
}
  where
    nodes_in : (ts : List String) → any is_any_node (node_probes ts) ≡ true
    nodes_in [] = refl
    nodes_in (t ∷ ts) = nodes_in ts

    relations_in : (ts : List String) → any is_any_relation (node_probes ts) ≡ true
    relations_in [] = refl
    relations_in (t ∷ ts) = relations_in ts

-- On tables whose ids are unique, purging the intents of a job with a budget of 1 to 100 rows always
-- returns: no step refuses its intent. It has deleted exactly the rows that it reports, at most as
-- many as its budget. It reports that it is done when no node and no relation has an intent of the job
-- any more, and otherwise it has spent its whole budget; no intent is passed over.
pub purge_rejection-Purges :
    (types : List String) (s : Store) (job : String) (budget : ℕ)
    → IsKeyed s
    → 1 ≤ budget
    → budget ≤ 100
    → (r : Store × RejectionStep) × (purge_rejection types s job budget ≡ ok r)
      × Purges job budget (start_sweep s) r
unfolding purge_rejection
purge_rejection-Purges types s job budget keyed low high =
    let bounded : ltb budget 1 || ltb 100 budget ≡ false = ground (arith, low, high) in
    let (r, ran, p) =
      purge-Purges job budget high budget (node_probes types) (start_sweep s) keyed
        (Pends-at_start types job s) (omega arith) (omega arith) in
    (r, rw bounded ran, p)
