-- ===== src/Traversal.antt =====
-- storage/traversal.py: the bounded breadth-first walk over ready relations, on the tables of Graph.
-- `scopes` is `_SCOPE_RELATIONS` of inventory.py; `node_json` and `edge_json` give the byte length of
-- the canonical JSON of a member. A token gives the cancellation and the time at each look of a call,
-- in microseconds.
pub mod Steps
pub mod Bounds
pub mod Edges
pub mod Seeds
pub mod Rounds
mod Tests
use justpen_knowledgebase_mc.Base.{
  ℕ, zero, suc, ◌+◌, String, Bool, true, false, ◌||◌, ◌&&◌, not, Option, none, some, List, [], ◌∷◌,
  ◌++◌, map, Result, ok, err, not_found, runtime, value_error, raise_if, or_raise, ◌>>=◌, ◌>>◌, ltb,
  leb, cancelled_operation, limit_exceeded, ◌==◌, str_eq, any, select, length, if◌then◌else◌,
  is_some,
}
use justpen_knowledgebase_mc.Graph.Tables.{
  nodes, Owner, Store, is_id, row_by_id, row_by_uuid, require_ready,
}
use justpen_knowledgebase_mc.Graph.Blocking.{is_ready, is_one_of}
use justpen_knowledgebase_mc.Inventory.{
  Node, Relation, Graph, EffectiveState, ScopeRelations, effective_state,
}

pub data Direction : Type 0 where
  into out both : Direction

pub data End : Type 0 where
  source_end target_end : End

pub record NeighborsRequest : Type 0 where
  pub seed_ids : List String
  pub direction : Direction
  pub relation_types : Option (List String)
  pub depth : ℕ
  pub max_nodes : ℕ
  pub max_edges : ℕ

pub record NodeItem : Type 0 where
  pub id : String
  pub type : String
  pub state : Option EffectiveState

pub record EdgeItem : Type 0 where
  pub id : String
  pub type : String
  pub source_id : String
  pub target_id : String

abbrev pub directions : Direction → List End
directions both = source_end ∷ target_end ∷ []
directions out = source_end ∷ []
directions into = target_end ∷ []

-- `dict.fromkeys`
unfoldable pub from_keys : List String → List String
from_keys [] = []
from_keys (t ∷ ts) = t ∷ select (λ u. not (str_eq u t)) (from_keys ts)

unfoldable pub stream_types : Option (List String) → List (Option String)
stream_types none = none ∷ []
stream_types (some ts) = map some (from_keys ts)

abbrev pub end_of : End → Owner → Option ℕ
end_of source_end r = r.source_id
end_of target_end r = r.target_id

abbrev pub is_type : Option String → Owner → Bool
is_type none r = true
is_type (some t) r = str_eq r.type t

abbrev pub is_ready_end : Store → Option ℕ → Bool
is_ready_end s i = any (λ (n : Owner). is_id n.id i && is_ready n) s.node_rows

-- A row of `ADJACENCY`
abbrev pub is_adjacent : Store → ℕ → End → Option String → Owner → Bool
is_adjacent s owner column type r =
    is_id owner (end_of column r)
    && (is_type type r
        && (is_ready r && (is_ready_end s r.source_id && is_ready_end s r.target_id)))

-- A row goes before the rows of later streams that have its id.
unfoldable pub insert_row : Owner → List Owner → List Owner
insert_row r [] = r ∷ []
insert_row r (x ∷ xs) = if ltb x.id r.id then x ∷ insert_row r xs else r ∷ x ∷ xs

-- `heapq.merge` of two streams in ascending id
unfoldable pub merge_rows : List Owner → List Owner → List Owner
merge_rows [] ys = ys
merge_rows (x ∷ xs) ys = insert_row x (merge_rows xs ys)

unfoldable pub type_streams : Store → ℕ → End → List (Option String) → List Owner → List Owner
type_streams s owner column [] rest = rest
type_streams s owner column (t ∷ ts) rest =
    merge_rows (select (is_adjacent s owner column t) s.relation_rows)
      (type_streams s owner column ts rest)

unfoldable pub end_streams : Store → ℕ → NeighborsRequest → List End → List Owner
end_streams s owner request [] = []
end_streams s owner request (column ∷ columns) =
    type_streams s owner column (stream_types request.relation_types)
      (end_streams s owner request columns)

-- `_edges`
abbrev pub adjacent_edges : Store → ℕ → NeighborsRequest → List Owner
adjacent_edges s owner request = end_streams s owner request (directions request.direction)

abbrev pub number_of : Option ℕ → ℕ
number_of none = 0
number_of (some i) = i

-- The rows that `effective_state` reads.
abbrev pub inventory_node : Owner → Node
inventory_node o = record {
  id = o.id;
  uuid = o.uuid;
  type = o.type;
  ownership = o.ownership;
  authorization = o.authorization;
  allowlist_scoped = o.allowlist_scoped;
  authorization_override = o.authorization_override;
  state_root_uuid = o.state_root_uuid;
}

abbrev pub inventory_relation : Owner → Relation
inventory_relation r = record {
  source_id = number_of r.source_id;
  target_id = number_of r.target_id;
  type = r.type;
}

unfoldable pub inventory_graph : Store → Graph
inventory_graph s = record {
  nodes = map inventory_node s.node_rows;
  relations = map inventory_relation s.relation_rows;
}

-- `_node`
unfoldable pub node_item : ScopeRelations → Store → Owner → Result NodeItem
node_item scopes s row = do
  state ← effective_state scopes (inventory_graph s) (inventory_node row)
  ok (record { id = row.uuid; type = row.type; state = state })

-- `OperationToken`, at each look
pub record Token : Type 0 where
  pub cancelled : ℕ → Bool
  pub clock : ℕ → ℕ
  pub deadline : ℕ

-- `OperationToken.check`
unfoldable pub check_token : Token → ℕ → Result (Unit {0})
check_token token n = do
  raise_if (token.cancelled n) (cancelled_operation "operation cancelled before commit")
  raise_if (leb token.deadline (token.clock n)) (limit_exceeded "operation deadline exceeded")

-- `time.monotonic() >= self.token.deadline - 0.01`
abbrev pub is_late : Token → ℕ → Bool
is_late token n = leb token.deadline (token.clock n + 10000)

-- The fields of `_Traversal`; `looks` counts the looks at the clock and at the token.
pub record Walk : Type 0 where
  pub nodes : List NodeItem
  pub edges : List EdgeItem
  pub visited : List (ℕ × String)
  pub seen : List ℕ
  pub queue : List (ℕ × ℕ)
  pub response_bytes : ℕ
  pub looks : ℕ

-- The bytes of an empty output.
abbrev pub empty_bytes : ℕ
empty_bytes = 69

abbrev pub start_walk : Walk
start_walk = record {
  nodes = [];
  edges = [];
  visited = [];
  seen = [];
  queue = [];
  response_bytes = empty_bytes;
  looks = 0;
}

-- `self.visited.get(item)`
unfoldable pub lookup : ℕ → List (ℕ × String) → Option String
lookup i [] = none
lookup i ((j, u) ∷ rest) = if j == i then some u else lookup i rest

-- `self.visited[item] = uuid`
unfoldable pub visit : ℕ → String → List (ℕ × String) → List (ℕ × String)
visit i u [] = (i, u) ∷ []
visit i u ((j, v) ∷ rest) = if j == i then (j, u) ∷ rest else (j, v) ∷ visit i u rest
