-- ===== src/Traversal/Edges.antt =====
-- About `append_edge` and `expand` of storage/traversal.py: what they keep of a walk.
use mathlib.Core.Path.{subst}
use justpen_knowledgebase_mc.Base.{
  ℕ, suc, ◌<◌, String, ◌≡◌, refl, sym, ◌∙◌, Bool, inl, inr, none, some, List, [], ◌∷◌, ◌++◌, ok,
  arith, ◌==◌, str_eq, eq_refl, any, length, if◌then◌else◌, Bool-cases, Option-cases, Result-cases,
  ok-injective,
}
use justpen_knowledgebase_mc.Graph.Tables.{nodes, Owner, Store, is_id, row_by_id}
use justpen_knowledgebase_mc.Graph.Rows.{first_row-any}
use justpen_knowledgebase_mc.Inventory.{ScopeRelations}
use justpen_knowledgebase_mc.Traversal.{
  NeighborsRequest, NodeItem, EdgeItem, number_of, node_item, Walk, lookup, Token, check_token,
  is_late, adjacent_edges,
}
use justpen_knowledgebase_mc.Traversal.Steps.{
  Stopped, edge_item, add_edge, add_node, append_new, append_from, append_edge, look, expand_edge,
  expand_edges, expand,
}
use justpen_knowledgebase_mc.Traversal.Bounds.{
  Names, Fits, Extends, same-Extends, trans-Extends, add_edge-Extends, add_node-Extends,
  edge_item-Joins, visited-Names, node_item-Names, any-append, Names-append,
}

module _ (node_json : NodeItem → ℕ) (edge_json : EdgeItem → ℕ) (scopes : ScopeRelations) (s : Store)
    (token : Token) (request : NeighborsRequest) where
  abbrev Grows : Walk → Walk → Type 0
  Grows = Extends node_json edge_json request

  abbrev Good : Walk → Type 0
  Good = Fits node_json edge_json request

  append_new-Extends :
      (r : Owner) (outgoing : Bool) (here : String) (other depth : ℕ) (w : Walk) (st : Stopped)
      → Good w
      → length w.seen < request.max_edges
      → Names w.nodes here
      → lookup other w.visited ≡ none
      → append_new node_json edge_json scopes s token request r outgoing here other depth w ≡ ok st
      → Grows w st.1
  unfolding append_new
  append_new-Extends r outgoing here other depth w st f lt known new h =
      elim (Bool-cases (length w.visited == request.max_nodes)) [
        | inl e ↦
            let same : (some "max_nodes", w) ≡ st = ground (arith, e, h) in
            subst (λ (x : Stopped). Grows w x.1) same (same-Extends node_json edge_json request w f)
        | inr e ↦ elim (Option-cases (row_by_id s nodes other)) [
          | inl missing ↦ absurd (ground (arith, e, missing, h))
          | inr (row, found) ↦ elim (Result-cases (node_item scopes s row)) [
            | inl (x, bad) ↦ absurd (ground (arith, e, found, bad, h))
            | inr (node, made) ↦
                let item = edge_item r outgoing here row.uuid in
                let same : add_node node_json edge_json r.id item depth row node w ≡ st =
                  ok-injective (sym (rw (e, found, made) refl) ∙ h) in
                let at_row : row.id ≡ other =
                  ground (arith, (first_row-any _ s.node_rows row found).0) in
                let own : Names (node ∷ []) row.uuid =
                  rw
                    (
                      node_item-Names node_json edge_json request scopes s row node made,
                      eq_refl row.uuid,
                    )
                    refl in
                let ns = w.nodes ++ node ∷ [] in
                let mine : Names ns row.uuid =
                  any-append (λ (m : NodeItem). str_eq m.id row.uuid) w.nodes node
                    (inr (ground (arith, own))) in
                subst (λ (x : Stopped). Grows w x.1) same
                  (add_node-Extends node_json edge_json request r.id item depth row node w f lt
                    (ground (arith, e, f.few_nodes)) (rw at_row new) own
                    (edge_item-Joins node_json edge_json request ns r outgoing here row.uuid
                      (Names-append w.nodes node here known) mine))
          ]
        ]
      ]

  append_from-Extends :
      (owner depth : ℕ) (r : Owner) (w : Walk) (here : String) (st : Stopped)
      → Good w
      → length w.seen < request.max_edges
      → Names w.nodes here
      → append_from node_json edge_json scopes s token request owner depth r w here ≡ ok st
      → Grows w st.1
  unfolding append_from
  append_from-Extends owner depth r w here st f lt known h =
      let outgoing = is_id owner r.source_id in
      let other = number_of (if outgoing then r.target_id else r.source_id) in
      elim (Option-cases (lookup other w.visited)) [
        | inr (uuid, e) ↦
            let item = edge_item r outgoing here uuid in
            let same : add_edge node_json edge_json r.id item w ≡ st =
              ok-injective (sym (rw (append_from, e) refl) ∙ h) in
            subst (λ (x : Stopped). Grows w x.1) same
              (add_edge-Extends node_json edge_json request r.id item w f lt (
                edge_item-Joins node_json edge_json request w.nodes r outgoing here uuid known
                  (visited-Names node_json edge_json request w other uuid f e)))
        | inl e ↦
            append_new-Extends r outgoing here other depth w st f lt known e
              (sym (rw (append_from, e) refl) ∙ h)
      ]

  append_edge-Extends :
      (owner depth : ℕ) (r : Owner) (w : Walk) (st : Stopped)
      → Good w
      → append_edge node_json edge_json scopes s token request owner depth r w ≡ ok st
      → Grows w st.1
  unfolding append_edge
  append_edge-Extends owner depth r w st f h =
      elim (Bool-cases (length w.seen == request.max_edges)) [
        | inl e ↦
            let same : (some "max_edges", w) ≡ st = ground (arith, e, h) in
            subst (λ (x : Stopped). Grows w x.1) same (same-Extends node_json edge_json request w f)
        | inr e ↦ elim (Option-cases (lookup owner w.visited)) [
          | inl missing ↦ absurd (ground (arith, e, missing, h))
          | inr (here, found) ↦
              append_from-Extends owner depth r w here st f (ground (arith, e, f.few_edges))
                (visited-Names node_json edge_json request w owner here f found)
                (ground (arith, e, found, h))
        ]
      ]

  look-Extends : (w : Walk) → Good w → Grows w (look w)
  look-Extends w f = record {
    fits = record {
      same_nodes = f.same_nodes;
      few_nodes = f.few_nodes;
      same_edges = f.same_edges;
      few_edges = f.few_edges;
      bytes = f.bytes;
      few_bytes = f.few_bytes;
      named = f.named;
      joined = f.joined;
    };
    balance = refl;
  }

  looks-Extends : (w : Walk) → Good w → Grows w (look (look w))
  looks-Extends w f =
      let one = look-Extends w f in
      trans-Extends node_json edge_json request w (look w) (look (look w)) one
        (look-Extends (look w) one.fits)

  expand_edge-Extends :
      (owner depth : ℕ) (r : Owner) (w : Walk) (st : Stopped)
      → Good w
      → expand_edge node_json edge_json scopes s token request owner depth r w ≡ ok st
      → Grows w st.1
  unfolding expand_edge
  expand_edge-Extends owner depth r w st f h =
      let w' = look (look w) in
      let on = looks-Extends w f in
      elim (Result-cases (check_token token w.looks)) [
        | inl (x, e) ↦ absurd (ground (arith, e, h))
        | inr (tt, e) ↦ elim (Bool-cases (is_late token (suc w.looks))) [
          | inl late ↦
              let same : (some "deadline", w') ≡ st = ok-injective (sym (rw (e, late) refl) ∙ h) in
              subst (λ (x : Stopped). Grows w x.1) same on
          | inr early ↦ elim (Bool-cases (any (λ i. i == r.id) w.seen)) [
            | inl old ↦
                let same : (none, w') ≡ st = ok-injective (sym (rw (e, early, old) refl) ∙ h) in
                subst (λ (x : Stopped). Grows w x.1) same on
            | inr new ↦ trans-Extends node_json edge_json request w w' st.1 on (
                append_edge-Extends owner depth r w' st on.fits (sym (rw (e, early, new) refl) ∙ h))
          ]
        ]
      ]

  expand_edges-Extends :
      (owner depth : ℕ) (rs : List Owner) (w : Walk) (st : Stopped)
      → Good w
      → expand_edges node_json edge_json scopes s token request owner depth rs w ≡ ok st
      → Grows w st.1
  unfolding expand_edges
  expand_edges-Extends owner depth [] w st f h =
      subst (λ (x : Stopped). Grows w x.1) (ok-injective h)
        (same-Extends node_json edge_json request w f)
  expand_edges-Extends owner depth (r ∷ rs) w st f h =
      elim (Result-cases (expand_edge node_json edge_json scopes s token request owner depth r w)) [
        | inl (x, e) ↦ absurd (ground (arith, e, h))
        | inr (st', e) ↦
            let on = expand_edge-Extends owner depth r w st' f e in
            elim (Option-cases st'.0) [
              | inr (reason, stop) ↦
                  let same : st' ≡ st = ground (arith, e, stop, h) in
                  subst (λ (x : Stopped). Grows w x.1) same on
              | inl more ↦ trans-Extends node_json edge_json request w st'.1 st.1 on (
                  expand_edges-Extends owner depth rs st'.1 st on.fits (ground (arith, e, more, h)))
            ]
      ]

  pub expand-Extends :
      (owner depth : ℕ) (w : Walk) (st : Stopped)
      → Good w
      → expand node_json edge_json scopes s token request owner depth w ≡ ok st
      → Grows w st.1
  unfolding expand
  expand-Extends owner depth w st f h = elim (Bool-cases (is_late token w.looks)) [
    | inl late ↦
        let same : (some "deadline", look w) ≡ st = ok-injective (sym (rw late refl) ∙ h) in
        subst (λ (x : Stopped). Grows w x.1) same (look-Extends w f)
    | inr early ↦
        let on = look-Extends w f in
        trans-Extends node_json edge_json request w (look w) st.1 on (
          expand_edges-Extends owner depth (adjacent_edges s owner request) (look w) st on.fits
            (sym (rw early refl) ∙ h))
  ]
