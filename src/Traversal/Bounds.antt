-- ===== src/Traversal/Bounds.antt =====
-- About the budgets of `_Traversal` of storage/traversal.py: what one edge adds.
use mathlib.Core.Path.{subst}
use justpen_knowledgebase_mc.Base.{
  ℕ, suc, ◌+◌, ◌≤◌, ◌<◌, String, ◌≡◌, refl, sym, ◌∙◌, Bool, true, false, ◌⊎◌, inl, inr, none, some,
  List, [], ◌∷◌, ◌++◌, ok, arith, ltb, ◌==◌, str_eq, any, length, length-append, All, All-map,
  All-append, Bool-cases,
}
use justpen_knowledgebase_mc.Graph.Tables.{Owner, Store}
use justpen_knowledgebase_mc.Inventory.{ScopeRelations}
use justpen_knowledgebase_mc.Traversal.{
  NeighborsRequest, NodeItem, EdgeItem, empty_bytes, node_item, Walk, lookup, visit,
}
use justpen_knowledgebase_mc.Traversal.Steps.{
  response_limit, edge_item, node_bytes, edge_bytes, add_edge, add_node,
}

abbrev pub total {ℓ} : {A : Type ℓ} → (A → ℕ) → List A → ℕ
total f [] = 0
total f (x ∷ xs) = f x + total f xs

pub total-append {ℓ} :
    {A : Type ℓ} (f : A → ℕ) (xs ys : List A) → total f (xs ++ ys) ≡ total f xs + total f ys
total-append f [] ys = omega arith
total-append f (x ∷ xs) ys = omega (arith, total-append f xs ys)

pub any-append {ℓ} :
    {A : Type ℓ} (p : A → Bool) (xs : List A) (x : A)
    → ((any p xs ≡ true) ⊎ (p x ≡ true))
    → any p (xs ++ x ∷ []) ≡ true
any-append p [] x h = ground (arith, h)
any-append p (y ∷ ys) x (inr h) = ground (arith, any-append p ys x (inr h))
any-append p (y ∷ ys) x (inl h) = elim (Bool-cases (p y)) [
  | inl e ↦ rw e refl
  | inr e ↦ ground (arith, e, any-append p ys x (inl (ground (arith, e, h))))
]

-- A node of the output has the uuid.
abbrev pub Names : List NodeItem → String → Type 0
Names ns u = any (λ (n : NodeItem). str_eq n.id u) ns ≡ true

abbrev pub Joins : List NodeItem → EdgeItem → Type 0
Joins ns e = Names ns e.source_id × Names ns e.target_id

pub Names-append :
    (ns : List NodeItem) (n : NodeItem) (u : String) → Names ns u → Names (ns ++ n ∷ []) u
Names-append ns n u h = any-append (λ (m : NodeItem). str_eq m.id u) ns n (inl h)

pub length-visit :
    (i : ℕ) (u : String) (vs : List (ℕ × String))
    → lookup i vs ≡ none
    → length (visit i u vs) ≡ suc (length vs)
unfolding lookup visit
length-visit i u [] h = refl
length-visit i u ((j, v) ∷ vs) h = ground (arith, length-visit i u vs)

pub All-visit {κ} :
    (P : ℕ × String → Type κ) (i : ℕ) (u : String) (vs : List (ℕ × String))
    → P (i, u)
    → All P vs
    → All P (visit i u vs)
unfolding visit
All-visit P i u [] here h = (here, tt)
All-visit P i u ((j, v) ∷ vs) here h = elim (Bool-cases (j == i)) [
  | inl e ↦
      let same : j ≡ i = ground (arith, e) in rw e (subst (λ k. P (k, u)) (sym same) here, h.1)
  | inr e ↦ rw e (h.0, All-visit P i u vs here h.1)
]

pub lookup-All {κ} :
    (P : ℕ × String → Type κ) (i : ℕ) (u : String) (vs : List (ℕ × String))
    → All P vs
    → lookup i vs ≡ some u
    → P (i, u)
unfolding lookup
lookup-All P i u [] h e = absurd (cc e)
lookup-All P i u ((j, v) ∷ vs) h e = elim (Bool-cases (j == i)) [
  | inl f ↦
      let at_i : j ≡ i = ground (arith, f) in
      let same : v ≡ u = ground (arith, e, f) in
      subst (λ x. P (i, x)) same (subst (λ k. P (k, v)) at_i h.0)
  | inr f ↦ lookup-All P i u vs h.1 (ground (arith, e, f))
]

module _ (node_json : NodeItem → ℕ) (edge_json : EdgeItem → ℕ) (request : NeighborsRequest) where
  -- A walk is within its budgets, counts its bytes, and joins its edges to its nodes.
  pub record Fits (w : Walk) : Type 0 where
    pub same_nodes : length w.nodes ≡ length w.visited
    pub few_nodes : length w.visited ≤ request.max_nodes
    pub same_edges : length w.edges ≡ length w.seen
    pub few_edges : length w.seen ≤ request.max_edges
    pub bytes :
        w.response_bytes
        ≡ empty_bytes
          + (total (node_bytes node_json edge_json) w.nodes
              + total (edge_bytes node_json edge_json) w.edges)
    pub few_bytes : (w.response_bytes ≤ response_limit) ⊎ (length w.edges ≡ 0)
    pub named : All (λ (p : ℕ × String). Names w.nodes p.1) w.visited
    pub joined : All (Joins w.nodes) w.edges

  -- The queue grows by as many nodes as were visited.
  pub record Extends (w w' : Walk) : Type 0 where
    pub fits : Fits w'
    pub balance : length w'.queue + length w.visited ≡ length w.queue + length w'.visited

  pub same-Extends : (w : Walk) → Fits w → Extends w w
  same-Extends w f = record { fits = f; balance = refl }

  pub trans-Extends : (w x y : Walk) → Extends w x → Extends x y → Extends w y
  trans-Extends w x y e f = record { fits = f.fits; balance = omega (arith, e.balance, f.balance) }

  pub add_edge-Extends :
      (i : ℕ) (item : EdgeItem) (w : Walk)
      → Fits w
      → length w.seen < request.max_edges
      → Joins w.nodes item
      → Extends w (add_edge node_json edge_json i item w).1
  unfolding add_edge
  add_edge-Extends i item w f lt joins =
      elim (Bool-cases
        (ltb response_limit (w.response_bytes + edge_bytes node_json edge_json item))) [
          | inl e ↦ rw e (same-Extends w f)
          | inr e ↦
              let le : w.response_bytes + edge_bytes node_json edge_json item ≤ response_limit =
                ground (arith, e) in
              rw e (record {
                fits = record {
                  same_nodes = f.same_nodes;
                  few_nodes = f.few_nodes;
                  same_edges = length-append w.edges (item ∷ []) ∙ omega (arith, f.same_edges);
                  few_edges = omega (arith, lt);
                  bytes = omega (
                    arith,
                    f.bytes,
                    total-append (edge_bytes node_json edge_json) w.edges (item ∷ []),
                  );
                  few_bytes = inl le;
                  named = f.named;
                  joined = All-append (Joins w.nodes) w.edges (item ∷ []) f.joined (joins, tt);
                };
                balance = refl;
              })
        ]

  pub add_node-Extends :
      (i : ℕ) (item : EdgeItem) (depth : ℕ) (row : Owner) (node : NodeItem) (w : Walk)
      → Fits w
      → length w.seen < request.max_edges
      → length w.visited < request.max_nodes
      → lookup row.id w.visited ≡ none
      → Names (node ∷ []) row.uuid
      → Joins (w.nodes ++ node ∷ []) item
      → Extends w (add_node node_json edge_json i item depth row node w).1
  unfolding add_node
  add_node-Extends i item depth row node w f lt_edges lt_nodes new own joins =
      let cost = edge_bytes node_json edge_json item + node_bytes node_json edge_json node in
      let ns = w.nodes ++ node ∷ [] in
      elim (Bool-cases (ltb response_limit (w.response_bytes + cost))) [
        | inl e ↦ rw e (same-Extends w f)
        | inr e ↦
            let le : w.response_bytes + cost ≤ response_limit = ground (arith, e) in
            let longer = length-visit row.id row.uuid w.visited new in
            let mine : Names ns row.uuid =
              any-append (λ (m : NodeItem). str_eq m.id row.uuid) w.nodes node
                (inr (ground (arith, own))) in
            rw e (record {
              fits = record {
                same_nodes = omega (arith, length-append w.nodes (node ∷ []), f.same_nodes, longer);
                few_nodes = omega (arith, lt_nodes, longer);
                same_edges = length-append w.edges (item ∷ []) ∙ omega (arith, f.same_edges);
                few_edges = omega (arith, lt_edges);
                bytes = omega (
                  arith,
                  f.bytes,
                  total-append (edge_bytes node_json edge_json) w.edges (item ∷ []),
                  total-append (node_bytes node_json edge_json) w.nodes (node ∷ []),
                );
                few_bytes = inl le;
                named =
                    All-visit (λ (p : ℕ × String). Names ns p.1) row.id row.uuid w.visited mine
                      (All-map (λ (p : ℕ × String). Names w.nodes p.1)
                        (λ (p : ℕ × String). Names ns p.1) (λ p h. Names-append w.nodes node p.1 h)
                        w.visited f.named);
                joined =
                    All-append (Joins ns) w.edges (item ∷ [])
                      (All-map (Joins w.nodes) (Joins ns)
                        (λ x h. (
                          Names-append w.nodes node x.source_id h.0,
                          Names-append w.nodes node x.target_id h.1,
                        ))
                        w.edges f.joined)
                      (joins, tt);
              };
              balance = omega (arith, longer, length-append w.queue ((row.id, suc depth) ∷ []));
            })
      ]

  pub edge_item-Joins :
      (ns : List NodeItem) (r : Owner) (outgoing : Bool) (here other : String)
      → Names ns here
      → Names ns other
      → Joins ns (edge_item r outgoing here other)
  edge_item-Joins ns r true here other h o = (h, o)
  edge_item-Joins ns r false here other h o = (o, h)

  pub visited-Names :
      (w : Walk) (i : ℕ) (u : String) → Fits w → lookup i w.visited ≡ some u → Names w.nodes u
  visited-Names w i u f h =
      lookup-All (λ (p : ℕ × String). Names w.nodes p.1) i u w.visited f.named h

  pub node_item-Names :
      (scopes : ScopeRelations) (s : Store) (row : Owner) (node : NodeItem)
      → node_item scopes s row ≡ ok node
      → node.id ≡ row.uuid
  unfolding node_item
  node_item-Names scopes s row node h = ground (arith, h)
