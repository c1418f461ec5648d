-- ===== src/Traversal/Rounds.antt =====
-- About `_Traversal.run` of storage/traversal.py: its rounds, and what it returns.
use justpen_knowledgebase_mc.Base.{
  ℕ, zero, suc, ◌+◌, ◌≤◌, String, ◌≡◌, refl, sym, ◌∙◌, false, ◌⊎◌, inl, inr, Option, none, some,
  List, [], ◌∷◌, ok, arith, ◌==◌, length, All, Bool-cases, Option-cases, Result-cases, List-cases,
  ok-injective,
}
use justpen_knowledgebase_mc.Graph.Tables.{Store}
use justpen_knowledgebase_mc.Graph.Admitting.{has_duplicates}
use justpen_knowledgebase_mc.Graph.Rows.{UniqueIds}
use justpen_knowledgebase_mc.Inventory.{ScopeRelations}
use justpen_knowledgebase_mc.Traversal.{
  NeighborsRequest, NodeItem, EdgeItem, Walk, empty_bytes, start_walk, lookup, Token,
}
use justpen_knowledgebase_mc.Traversal.Steps.{
  response_limit, Output, node_bytes, edge_bytes, pop, expand, waiting, whole, truncate, explore,
  run, seeds,
}
use justpen_knowledgebase_mc.Traversal.Bounds.{Joins, Fits, total}
use justpen_knowledgebase_mc.Traversal.Edges.{expand-Extends}
use justpen_knowledgebase_mc.Traversal.Seeds.{start-Seeded, seeds-Seeded}

module _ (node_json : NodeItem → ℕ) (edge_json : EdgeItem → ℕ) (scopes : ScopeRelations) (s : Store)
    (token : Token) (request : NeighborsRequest) where
  -- An output is within the budgets, and joins its edges to its nodes.
  pub record Within (o : Output) : Type 0 where
    pub few_nodes : length o.nodes ≤ request.max_nodes
    pub few_edges : length o.edges ≤ request.max_edges
    pub few_bytes :
        (empty_bytes
            + (total (node_bytes node_json edge_json) o.nodes
                + total (edge_bytes node_json edge_json) o.edges)
          ≤ response_limit)
        ⊎ (length o.edges ≡ 0)
    pub joined : All (Joins o.nodes) o.edges

  Fits-Within :
      (w : Walk) (reason : Option String) (frontier : List String)
      → Fits node_json edge_json request w
      → Within (record { nodes = w.nodes; edges = w.edges; reason = reason; frontier = frontier })
  Fits-Within w reason frontier f = record {
    few_nodes = omega (arith, f.same_nodes, f.few_nodes);
    few_edges = omega (arith, f.same_edges, f.few_edges);
    few_bytes = elim f.few_bytes [ inl le ↦ inl (omega (arith, f.bytes, le)) | inr e ↦ inr e ];
    joined = f.joined;
  }

  pop-Fits :
      (rest : List (ℕ × ℕ)) (w : Walk)
      → Fits node_json edge_json request w
      → Fits node_json edge_json request (pop rest w)
  pop-Fits rest w f = record {
    same_nodes = f.same_nodes;
    few_nodes = f.few_nodes;
    same_edges = f.same_edges;
    few_edges = f.few_edges;
    bytes = f.bytes;
    few_bytes = f.few_bytes;
    named = f.named;
    joined = f.joined;
  }

  truncate-Within :
      (owner : ℕ) (reason : String) (w : Walk) (r : Option Output)
      → Fits node_json edge_json request w
      → truncate node_json edge_json scopes s token request owner reason w ≡ ok r
      → (o : Output) × (r ≡ some o) × Within o
  unfolding truncate
  truncate-Within owner reason w r f h = elim (Option-cases (lookup owner w.visited)) [
    | inl e ↦ absurd (ground (arith, e, h))
    | inr (here, e) ↦
        elim (Result-cases (waiting node_json edge_json scopes s token request w.visited w.queue)) [
          | inl (x, g) ↦ absurd (ground (arith, e, g, h))
          | inr (rest, g) ↦ (
            record {
              nodes = w.nodes;
              edges = w.edges;
              reason = some reason;
              frontier = here ∷ rest;
            },
            sym (ok-injective (sym (rw (e, g) refl) ∙ h)),
            Fits-Within w (some reason) (here ∷ rest) f,
          )
        ]
  ]

  explore-Within :
      (fuel : ℕ) (w : Walk) (r : Option Output)
      → Fits node_json edge_json request w
      → length w.queue + request.max_nodes ≤ fuel + length w.visited
      → explore node_json edge_json scopes s token request fuel w ≡ ok r
      → (o : Output) × (r ≡ some o) × Within o
  unfolding explore
  explore-Within zero w r f enough h = elim (List-cases w.queue) [
    | inl e ↦ (
      whole node_json edge_json scopes s token request w,
      sym (ok-injective (sym (rw e refl) ∙ h)),
      Fits-Within w none [] f,
    )
    | inr (x, rest, e) ↦
        let more : length w.queue ≡ suc (length rest) = rw e refl in
        absurd (omega (arith, more, enough, f.few_nodes))
  ]
  explore-Within (suc fuel) w r f enough h = elim (List-cases w.queue) [
    | inl e ↦ (
      whole node_json edge_json scopes s token request w,
      sym (ok-injective (sym (rw e refl) ∙ h)),
      Fits-Within w none [] f,
    )
    | inr ((owner, depth), rest, e) ↦
        let more : length w.queue ≡ suc (length rest) = rw e refl in
        let popped = pop rest w in
        let good = pop-Fits rest w f in
        elim (Bool-cases (depth == request.depth)) [
          | inl deep ↦
              explore-Within fuel popped r good (omega (arith, more, enough))
                (sym (rw (e, explore, deep) refl) ∙ h)
          | inr near ↦
              elim (Result-cases
                (expand node_json edge_json scopes s token request owner depth popped)) [
                  | inl (x, bad) ↦ absurd (ground (arith, e, near, bad, h))
                  | inr (st, went) ↦
                      let on =
                        expand-Extends node_json edge_json scopes s token request owner depth popped
                          st good went in
                      elim (Option-cases st.0) [
                        | inr (reason, stop) ↦
                            truncate-Within owner reason st.1 r on.fits
                              (sym (rw (e, explore, near, went, stop) refl) ∙ h)
                        | inl go ↦
                            explore-Within fuel st.1 r on.fits
                              (omega (arith, more, enough, on.balance))
                              (sym (rw (e, explore, near, went, go) refl) ∙ h)
                      ]
                ]
        ]
  ]

  -- A walk from seeds without duplicates, at most as many as its budget of nodes, over nodes whose ids
  -- are unique, never runs out of its rounds: when no exception ends it, it has an output. That has at
  -- most max_nodes nodes and max_edges edges, the edges join nodes of it, and with its first edge the
  -- bytes of its members are at most the response limit.
  pub run-Within :
      (r : Option Output)
      → UniqueIds s.node_rows
      → has_duplicates request.seed_ids ≡ false
      → length request.seed_ids ≤ request.max_nodes
      → run node_json edge_json scopes s token request ≡ ok r
      → (o : Output) × (r ≡ some o) × Within o
  unfolding run
  run-Within r un fresh few h =
      elim (Result-cases
        (seeds node_json edge_json scopes s token request request.seed_ids start_walk)) [
          | inl (x, e) ↦ absurd (ground (arith, e, h))
          | inr (w, e) ↦
              let (done, sd) =
                seeds-Seeded node_json edge_json scopes s token request request.seed_ids []
                  start_walk w un (start-Seeded node_json edge_json scopes s token request) fresh
                  (none_done request.seed_ids) (omega (arith, few)) e in
              explore-Within request.max_nodes w r sd.fits (omega (arith, sd.queued))
                (sym (rw e refl) ∙ h)
        ]
    where
      none_done : (us : List String) → All (λ v. false ≡ false) us
      none_done [] = tt
      none_done (u ∷ us) = (refl, none_done us)
