-- ===== src/Traversal/Tests.antt =====
-- A walk from one node over one relation, and the theorems applied to it.
use justpen_knowledgebase_mc.Base.{ℕ, ◌≡◌, refl, arith, false, none, some, [], ◌∷◌, ok}
use justpen_knowledgebase_mc.Graph.Tables.{Owner, Store, first_row, pending_blocker, require_ready}
use justpen_knowledgebase_mc.Graph.Admitting.{has_duplicates}
use justpen_knowledgebase_mc.Graph.Rows.{UniqueIds}
use justpen_knowledgebase_mc.Inventory.{effective_state}
use justpen_knowledgebase_mc.Traversal.{
  NeighborsRequest, both, NodeItem, Token, stream_types, from_keys, insert_row, merge_rows,
  type_streams, end_streams, inventory_graph, node_item, lookup, visit, check_token,
}
use justpen_knowledgebase_mc.Traversal.Steps.{
  Output, add_edge, add_node, seed, seeds, append_new, append_from, append_edge, expand_edge,
  expand_edges, expand, waiting, truncate, explore, run,
}
use justpen_knowledgebase_mc.Traversal.Rounds.{Within, run-Within}

abbrev host : Owner
host = record {
  id = 1;
  uuid = "n1";
  type = "Host";
  deletion = none;
  sha256 = none;
  source_id = none;
  target_id = none;
  ownership = some "owned";
  authorization = some "in_scope";
  authorization_override = none;
  allowlist_scoped = false;
  state_root_uuid = none;
}

abbrev note : Owner
note = record host { id = 2; uuid = "n2"; type = "Note"; ownership = none }

abbrev cites : Owner
cites = record note { id = 1; uuid = "r1"; type = "CITES"; source_id = some 2; target_id = some 1 }

abbrev store : Store
store = record {
  node_rows = host ∷ note ∷ [];
  relation_rows = cites ∷ [];
  evidence_rows = [];
  children = [];
}

abbrev token : Token
token = record { cancelled = λ n. false; clock = λ n. n; deadline = 1000000 }

abbrev request : ℕ → NeighborsRequest
request max_nodes = record {
  seed_ids = "n1" ∷ [];
  direction = both;
  relation_types = none;
  depth = 1;
  max_nodes = max_nodes;
  max_edges = 5;
}

abbrev host_item : NodeItem
host_item = record {
  id = "n1";
  type = "Host";
  state =
      some (record { ownership = some "owned"; authorization = some "in_scope"; root_id = none });
}

abbrev note_item : NodeItem
note_item = record { id = "n2"; type = "Note"; state = none }

abbrev both_nodes : Output
both_nodes = record {
  nodes = host_item ∷ note_item ∷ [];
  edges = record { id = "r1"; type = "CITES"; source_id = "n2"; target_id = "n1" } ∷ [];
  reason = none;
  frontier = [];
}

abbrev one_node : Output
one_node = record {
  nodes = host_item ∷ [];
  edges = [];
  reason = some "max_nodes";
  frontier = "n1" ∷ [];
}

abbrev Returns : ℕ → Output → Type 0
Returns max_nodes o = run (λ n. 100) (λ e. 150) [] store token (request max_nodes) ≡ ok (some o)

walk_run : Returns 5 both_nodes × Returns 1 one_node
unfolding run seeds seed explore expand expand_edges expand_edge append_edge append_from append_new
    add_edge add_node truncate waiting check_token lookup visit node_item inventory_graph
    effective_state end_streams type_streams merge_rows insert_row stream_types from_keys first_row
    require_ready pending_blocker
walk_run = (refl, refl)

store-UniqueIds : UniqueIds store.node_rows
unfolding UniqueIds
store-UniqueIds = (refl, (refl, tt))

one_seed : has_duplicates ("n1" ∷ []) ≡ false
unfolding has_duplicates
one_seed = refl

run-Within_example :
    (o : Output) × (some both_nodes ≡ some o)
    × Within (λ n. 100) (λ e. 150) [] store token (request 5) o
run-Within_example =
    run-Within (λ n. 100) (λ e. 150) [] store token (request 5) (some both_nodes) store-UniqueIds
      one_seed (omega arith) walk_run.0
