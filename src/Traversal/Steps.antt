-- ===== src/Traversal/Steps.antt =====
-- The methods of `_Traversal` of storage/traversal.py, and its loop.
use justpen_knowledgebase_mc.Base.{
  ℕ, zero, suc, ◌+◌, String, Bool, true, false, Option, none, some, List, [], ◌∷◌, ◌++◌, Result, ok,
  not_found, value_error, or_raise, ◌>>=◌, ◌>>◌, ltb, ◌==◌, any, length, if◌then◌else◌,
}
use justpen_knowledgebase_mc.Graph.Tables.{
  nodes, Owner, Store, is_id, row_by_id, row_by_uuid, require_ready,
}
use justpen_knowledgebase_mc.Inventory.{ScopeRelations}
use justpen_knowledgebase_mc.Traversal.{
  NeighborsRequest, NodeItem, EdgeItem, adjacent_edges, number_of, node_item, Walk, start_walk,
  lookup, visit, Token, check_token, is_late,
}

abbrev pub response_limit : ℕ
response_limit = 200000

-- The reason that ends a walk, if any, and the walk.
abbrev pub Stopped : Type 0
Stopped = Option String × Walk

-- `self.output`; `truncated` says that there is a reason.
pub record Output : Type 0 where
  pub nodes : List NodeItem
  pub edges : List EdgeItem
  pub reason : Option String
  pub frontier : List String

-- The edge of a relation between the node `here` and another.
abbrev pub edge_item : Owner → Bool → String → String → EdgeItem
edge_item r outgoing here other = record {
  id = r.uuid;
  type = r.type;
  source_id = if outgoing then here else other;
  target_id = if outgoing then other else here;
}

abbrev pub pop : List (ℕ × ℕ) → Walk → Walk
pop rest w = record w { queue = rest }

abbrev pub look : Walk → Walk
look w = record w { looks = suc w.looks }

module _ (node_json : NodeItem → ℕ) (edge_json : EdgeItem → ℕ) where
  -- `_member_bytes`
  abbrev pub node_bytes : NodeItem → ℕ
  node_bytes n = node_json n + 1

  abbrev pub edge_bytes : EdgeItem → ℕ
  edge_bytes e = edge_json e + 1

  abbrev pub add_seed : Owner → NodeItem → Walk → Walk
  add_seed row node w = record w {
    visited = visit row.id row.uuid w.visited;
    nodes = w.nodes ++ node ∷ [];
    response_bytes = w.response_bytes + node_bytes node;
    queue = w.queue ++ (row.id, 0) ∷ [];
    looks = suc w.looks;
  }

  -- The end of `append_edge`, for an edge between nodes that were visited.
  unfoldable pub add_edge : ℕ → EdgeItem → Walk → Stopped
  add_edge edge_id item w =
      if ltb response_limit (w.response_bytes + edge_bytes item)
      then (some "response_bytes", w)
      else (
        none,
        record w {
          response_bytes = w.response_bytes + edge_bytes item;
          edges = w.edges ++ item ∷ [];
          seen = edge_id ∷ w.seen;
        },
      )

  -- The end of `append_edge`, for an edge to a new node.
  unfoldable pub add_node : ℕ → EdgeItem → ℕ → Owner → NodeItem → Walk → Stopped
  add_node edge_id item depth row node w =
      if ltb response_limit (w.response_bytes + (edge_bytes item + node_bytes node))
      then (some "response_bytes", w)
      else (
        none,
        record w {
          response_bytes = w.response_bytes + (edge_bytes item + node_bytes node);
          edges = w.edges ++ item ∷ [];
          nodes = w.nodes ++ node ∷ [];
          seen = edge_id ∷ w.seen;
          visited = visit row.id row.uuid w.visited;
          queue = w.queue ++ (row.id, suc depth) ∷ [];
        },
      )

  module _ (scopes : ScopeRelations) (s : Store) (token : Token) (request : NeighborsRequest) where
    -- One round of the loop of `seeds`.
    unfoldable pub seed : String → Walk → Result Walk
    seed u w = do
      check_token token w.looks
      row ← or_raise (row_by_uuid s nodes u) (not_found "seed missing")
      require_ready s nodes row
      node ← node_item scopes s row
      ok (add_seed row node w)

    unfoldable pub seeds : List String → Walk → Result Walk
    seeds [] w = ok w
    seeds (u ∷ us) w = do next ← seed u w; seeds us next

    -- `append_edge` towards a node that was not visited.
    unfoldable pub append_new : Owner → Bool → String → ℕ → ℕ → Walk → Result Stopped
    append_new r outgoing here other depth w =
        if length w.visited == request.max_nodes then ok (some "max_nodes", w) else (do
          row ← or_raise (row_by_id s nodes other) (not_found "endpoint missing")
          node ← node_item scopes s row
          ok (add_node r.id (edge_item r outgoing here row.uuid) depth row node w))

    -- `append_edge` under the budget of edges, from the uuid of the owner.
    unfoldable pub append_from : ℕ → ℕ → Owner → Walk → String → Result Stopped
    append_from owner depth r w here =
        let outgoing = is_id owner r.source_id in
        let other = number_of (if outgoing then r.target_id else r.source_id) in
        elim (lookup other w.visited) [
          | some uuid ↦ ok (add_edge r.id (edge_item r outgoing here uuid) w)
          | none ↦ append_new r outgoing here other depth w
        ]

    unfoldable pub append_edge : ℕ → ℕ → Owner → Walk → Result Stopped
    append_edge owner depth r w =
        if length w.seen == request.max_edges then ok (some "max_edges", w) else (do
          here ← or_raise (lookup owner w.visited) (value_error "KeyError")
          append_from owner depth r w here)

    -- One round of the loop of `expand`.
    unfoldable pub expand_edge : ℕ → ℕ → Owner → Walk → Result Stopped
    expand_edge owner depth r w = do
      check_token token w.looks
      (if is_late token (suc w.looks)
          then ok (some "deadline", look (look w))
          else if any (λ i. i == r.id) w.seen
          then ok (none, look (look w))
          else append_edge owner depth r (look (look w)))

    unfoldable pub expand_edges : ℕ → ℕ → List Owner → Walk → Result Stopped
    expand_edges owner depth [] w = ok (none, w)
    expand_edges owner depth (r ∷ rs) w = do
      stopped ← expand_edge owner depth r w
      elim stopped.0 [ some reason ↦ ok stopped | none ↦ expand_edges owner depth rs stopped.1 ]

    unfoldable pub expand : ℕ → ℕ → Walk → Result Stopped
    expand owner depth w =
        if is_late token w.looks
        then ok (some "deadline", look w)
        else expand_edges owner depth (adjacent_edges s owner request) (look w)

    -- The uuids of the queue that are short of the depth.
    unfoldable pub waiting : List (ℕ × String) → List (ℕ × ℕ) → Result (List String)
    waiting visited [] = ok []
    waiting visited ((i, level) ∷ rest) = do
      uuids ← waiting visited rest
      (if ltb level request.depth
          then (do uuid ← or_raise (lookup i visited) (value_error "KeyError"); ok (uuid ∷ uuids))
          else ok uuids)

    abbrev pub whole : Walk → Output
    whole w = record { nodes = w.nodes; edges = w.edges; reason = none; frontier = [] }

    unfoldable pub truncate : ℕ → String → Walk → Result (Option Output)
    truncate owner reason w = do
      here ← or_raise (lookup owner w.visited) (value_error "KeyError")
      rest ← waiting w.visited w.queue
      ok (
          some (record {
            nodes = w.nodes;
            edges = w.edges;
            reason = some reason;
            frontier = here ∷ rest;
          }))

    -- The loop of `run`: none if its rounds are used up.
    unfoldable pub explore : ℕ → Walk → Result (Option Output)
    explore zero w = elim w.queue [ [] ↦ ok (some (whole w)) | _ ∷ _ ↦ ok none ]
    explore (suc fuel) w = elim w.queue [
      | [] ↦ ok (some (whole w))
      | (owner, depth) ∷ rest ↦ elim (depth == request.depth) [
        | true ↦ explore fuel (pop rest w)
        | false ↦ do
          stopped ← expand owner depth (pop rest w)
          elim stopped.0 [
            | some reason ↦ truncate owner reason stopped.1
            | none ↦ explore fuel stopped.1
          ]
      ]
    ]

    -- `run`, with as many rounds as there may be nodes.
    unfoldable pub run : Result (Option Output)
    run = do w ← seeds request.seed_ids start_walk; explore request.max_nodes w
