-- ===== src/Traversal/Seeds.antt =====
-- About `seeds` of storage/traversal.py: the walk that it starts.
use mathlib.Core.Path.{subst}
use justpen_knowledgebase_mc.Base.{
  ℕ, ◌+◌, ◌≤◌, ◌<◌, String, ◌≡◌, refl, sym, ◌∙◌, ap, true, false, inl, inr, Option, none, some,
  List, [], ◌∷◌, ◌++◌, ok, arith, str_eq, eq_iff, eq_refl, length, length-append, All, All-map,
  Option-cases, Result-cases, ok-injective,
}
use justpen_knowledgebase_mc.Graph.Tables.{
  nodes, Owner, Store, row_by_id, row_by_uuid, require_ready,
}
use justpen_knowledgebase_mc.Graph.Blocking.{is_one_of}
use justpen_knowledgebase_mc.Graph.Admitting.{has_duplicates}
use justpen_knowledgebase_mc.Graph.Rows.{UniqueIds, first_row-any}
use justpen_knowledgebase_mc.Graph.Selecting.{first_row-id}
use justpen_knowledgebase_mc.Inventory.{ScopeRelations}
use justpen_knowledgebase_mc.Traversal.{
  NeighborsRequest, NodeItem, EdgeItem, node_item, Walk, start_walk, lookup, Token, check_token,
}
use justpen_knowledgebase_mc.Traversal.Steps.{add_seed, seed, seeds, node_bytes}
use justpen_knowledgebase_mc.Traversal.Bounds.{
  Names, Fits, length-visit, All-visit, lookup-All, any-append, total-append, Names-append,
  node_item-Names,
}

module _ (node_json : NodeItem → ℕ) (edge_json : EdgeItem → ℕ) (scopes : ScopeRelations) (s : Store)
    (token : Token) (request : NeighborsRequest) where
  -- A visited node is the row of a seed.
  abbrev IsSeed : List String → ℕ × String → Type 0
  IsSeed done (i, u) =
      (row : Owner) × (row_by_id s nodes i ≡ some row) × (row.uuid ≡ u) × (is_one_of done u ≡ true)

  -- The walk after some seeds.
  pub record Seeded (done : List String) (w : Walk) : Type 0 where
    pub fits : Fits node_json edge_json request w
    pub no_edges : w.edges ≡ []
    pub queued : length w.queue ≡ length w.visited
    pub counted : length w.visited ≡ length done
    pub are_seeds : All (IsSeed done) w.visited

  pub start-Seeded : Seeded [] start_walk
  start-Seeded = record {
    fits = record {
      same_nodes = refl;
      few_nodes = omega arith;
      same_edges = refl;
      few_edges = omega arith;
      bytes = refl;
      few_bytes = inr refl;
      named = tt;
      joined = tt;
    };
    no_edges = refl;
    queued = refl;
    counted = refl;
    are_seeds = tt;
  }

  seed-fresh :
      (u : String) (done : List String) (row : Owner) (vs : List (ℕ × String))
      → UniqueIds s.node_rows
      → All (IsSeed done) vs
      → row_by_uuid s nodes u ≡ some row
      → is_one_of done u ≡ false
      → lookup row.id vs ≡ none
  seed-fresh u done row vs un h found fresh = elim (Option-cases (lookup row.id vs)) [
    | inl e ↦ e
    | inr (v, e) ↦
        let (other, at_id, named, before) = lookup-All (IsSeed done) row.id v vs h e in
        let here = first_row-id _ s.node_rows row un found in
        let same : some other ≡ some row = sym at_id ∙ here in
        let uuids : other.uuid ≡ row.uuid =
          ap (λ (o : Option Owner). elim o [ some x ↦ x.uuid | none ↦ "" ]) same in
        let of_u : row.uuid ≡ u = (eq_iff row.uuid u).0 (first_row-any _ s.node_rows row found).0 in
        absurd (
          let yes_before = subst (λ x. is_one_of done x ≡ true) (sym named ∙ uuids ∙ of_u) before in
          cc (yes_before, fresh))
  ]

  add_seed-Seeded :
      (u : String) (done : List String) (row : Owner) (node : NodeItem) (w : Walk)
      → UniqueIds s.node_rows
      → Seeded done w
      → row_by_uuid s nodes u ≡ some row
      → node_item scopes s row ≡ ok node
      → is_one_of done u ≡ false
      → length done < request.max_nodes
      → Seeded (u ∷ done) (add_seed node_json edge_json row node w)
  add_seed-Seeded u done row node w un sd found made fresh lt =
      let f = sd.fits in
      let ns = w.nodes ++ node ∷ [] in
      let longer =
        length-visit row.id row.uuid w.visited
          (seed-fresh u done row w.visited un sd.are_seeds found fresh) in
      let mine : Names ns row.uuid =
        any-append (λ (m : NodeItem). str_eq m.id row.uuid) w.nodes node
          (inr (
            rw (node_item-Names node_json edge_json request scopes s row node made)
              (eq_refl row.uuid))) in
      let of_u : row.uuid ≡ u = (eq_iff row.uuid u).0 (first_row-any _ s.node_rows row found).0 in
      let asked : is_one_of (u ∷ done) row.uuid ≡ true =
        subst (λ x. is_one_of (u ∷ done) x ≡ true) (sym of_u) (rw (eq_refl u) refl) in
      let stands : IsSeed (u ∷ done) (row.id, row.uuid) =
        (row, first_row-id _ s.node_rows row un found, refl, asked) in
      record {
        fits = record {
          same_nodes = omega (arith, length-append w.nodes (node ∷ []), f.same_nodes, longer);
          few_nodes = omega (arith, lt, longer, sd.counted);
          same_edges = f.same_edges;
          few_edges = f.few_edges;
          bytes =
              omega
                (arith, f.bytes, total-append (node_bytes node_json edge_json) w.nodes (node ∷ []));
          few_bytes = inr (rw sd.no_edges refl);
          named =
              All-visit (λ (p : ℕ × String). Names ns p.1) row.id row.uuid w.visited mine
                (All-map (λ (p : ℕ × String). Names w.nodes p.1) (λ (p : ℕ × String). Names ns p.1)
                  (λ p h. Names-append w.nodes node p.1 h) w.visited f.named);
          joined = rw sd.no_edges tt;
        };
        no_edges = sd.no_edges;
        queued = omega (arith, longer, sd.queued, length-append w.queue ((row.id, 0) ∷ []));
        counted = omega (arith, longer, sd.counted);
        are_seeds = All-visit (IsSeed (u ∷ done)) row.id row.uuid w.visited stands (
            All-map (IsSeed done) (IsSeed (u ∷ done)) (λ p h. (h.0, h.1, h.2, ground (arith, h.3)))
              w.visited sd.are_seeds);
      }

  seed-Seeded :
      (u : String) (done : List String) (w w' : Walk)
      → UniqueIds s.node_rows
      → Seeded done w
      → is_one_of done u ≡ false
      → length done < request.max_nodes
      → seed node_json edge_json scopes s token request u w ≡ ok w'
      → Seeded (u ∷ done) w'
  unfolding seed
  seed-Seeded u done w w' un sd fresh lt h = elim (Result-cases (check_token token w.looks)) [
    | inl (x, e) ↦ absurd (ground (arith, e, h))
    | inr (tt, e) ↦ elim (Option-cases (row_by_uuid s nodes u)) [
      | inl missing ↦ absurd (ground (arith, e, missing, h))
      | inr (row, found) ↦ elim (Result-cases (require_ready s nodes row)) [
        | inl (x, f) ↦ absurd (ground (arith, e, found, f, h))
        | inr (tt, f) ↦ elim (Result-cases (node_item scopes s row)) [
          | inl (x, g) ↦ absurd (ground (arith, e, found, f, g, h))
          | inr (node, g) ↦
              let same : add_seed node_json edge_json row node w ≡ w' =
                ok-injective (sym (rw (e, found, f, g) refl) ∙ h) in
              subst (Seeded (u ∷ done)) same
                (add_seed-Seeded u done row node w un sd found g fresh lt)
        ]
      ]
    ]
  ]

  still_fresh :
      (u : String) (done us : List String)
      → is_one_of us u ≡ false
      → All (λ v. is_one_of done v ≡ false) us
      → All (λ v. is_one_of (u ∷ done) v ≡ false) us
  still_fresh u done [] h fresh = tt
  still_fresh u done (v ∷ vs) h fresh = (
    ground (arith, fresh.0, h, eq_iff u v, eq_iff v u),
    still_fresh u done vs (ground (arith, h)) fresh.1,
  )

  pub seeds-Seeded :
      (us done : List String) (w w' : Walk)
      → UniqueIds s.node_rows
      → Seeded done w
      → has_duplicates us ≡ false
      → All (λ v. is_one_of done v ≡ false) us
      → length us + length done ≤ request.max_nodes
      → seeds node_json edge_json scopes s token request us w ≡ ok w'
      → (all_done : List String) × Seeded all_done w'
  unfolding seeds has_duplicates
  seeds-Seeded [] done w w' un sd dup fresh le h = (done, subst (Seeded done) (ok-injective h) sd)
  seeds-Seeded (u ∷ us) done w w' un sd dup fresh le h =
      elim (Result-cases (seed node_json edge_json scopes s token request u w)) [
        | inl (x, e) ↦ absurd (ground (arith, e, h))
        | inr (next, e) ↦
            seeds-Seeded us (u ∷ done) next w' un
              (seed-Seeded u done w next un sd fresh.0 (omega (arith, le)) e) (ground (arith, dup))
              (still_fresh u done us (ground (arith, dup)) fresh.1) (omega (arith, le))
              (ground (arith, e, h))
      ]
