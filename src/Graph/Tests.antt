-- ===== src/Graph/Tests.antt =====
-- A small graph, its deletions, and the theorems applied to them.
use justpen_knowledgebase_mc.Base.{
  ℕ, String, ◌≡◌, refl, arith, true, false, none, some, List, [], ◌∷◌, map, ok, err, conflict,
  missing_records, is_ok, All, ◌⊎◌,
}
use justpen_knowledgebase_mc.Graph.Tables.{
  row_by_id, nodes, evidence, Deletion, Owner, Child, Store, node_evidence, first_row,
  pending_blocker, require_ready,
}
use justpen_knowledgebase_mc.Graph.Rows.{UniqueIds}
use justpen_knowledgebase_mc.Graph.Deletions.{
  DeleteIntent, DeleteStep, start_sweep, step, step_owner, step_children, finish_step, finish_owner,
  delete_children, delete_tables, delete_some, has_children, delete_owner, delete_incident,
  incident, incident_round, delete_relation,
}
use justpen_knowledgebase_mc.Graph.Rejections.{RejectionStep, purge_rejection}
use justpen_knowledgebase_mc.Graph.Sweeps.{IsKeyed}
use justpen_knowledgebase_mc.Graph.Stepping.{Steps, step-Steps}
use justpen_knowledgebase_mc.Graph.Clearing.{Clears, step_done-Clears}
use justpen_knowledgebase_mc.Graph.Purging.{Purges, purge_rejection-Purges}
use justpen_knowledgebase_mc.Graph.Admitting.{
  DeleteRequest, prepare, validated_delete_rows, validate_rows, validate_row, found_rows,
  missing_ids, has_duplicates, set_pending, set_all_pending,
}
use justpen_knowledgebase_mc.Graph.Blocking.{is_scope_orphan, reject_bare_claim, bare_claim}
use justpen_knowledgebase_mc.Graph.Accepting.{Accepts, prepare-Accepts, prepare-unknown}
use justpen_knowledgebase_mc.Graph.Claims.{UniqueUuids, Backed}
use justpen_knowledgebase_mc.Graph.Backing.{prepare-Backed}

abbrev host : Owner
host = record {
  id = 1;
  uuid = "n1";
  type = "Host";
  deletion = none;
  sha256 = none;
  source_id = none;
  target_id = none;
  ownership = some "owned";
  authorization = none;
  authorization_override = none;
  allowlist_scoped = false;
  state_root_uuid = none;
}

abbrev asked : Deletion
asked = record { job_id = "j"; cascade = true; requested_at = 7 }

abbrev port : Owner
port = record host { id = 2; uuid = "n2"; type = "Port"; deletion = some asked; ownership = none }

abbrev edge : Owner
edge = record host {
  uuid = "r1";
  type = "HAS_PORT";
  source_id = some 1;
  target_id = some 2;
  ownership = none;
}

abbrev scan : Owner
scan = record host { uuid = "e1"; type = "scan"; ownership = none }

abbrev banner : Owner
banner = record scan { id = 2; uuid = "e2" }

abbrev link : ℕ → ℕ → Child
link n e = record {
  table = node_evidence;
  node_id = some n;
  relation_id = none;
  evidence_id = some e;
  owner_id = none;
}

abbrev graph : Store
graph = record {
  node_rows = host ∷ port ∷ [];
  relation_rows = edge ∷ [];
  evidence_rows = scan ∷ banner ∷ [];
  children = link 1 1 ∷ link 1 2 ∷ link 2 1 ∷ [];
}

graph-IsKeyed : IsKeyed graph
unfolding UniqueIds
graph-IsKeyed = record {
  keyed_nodes = (refl, (refl, tt));
  keyed_relations = (refl, tt);
  keyed_evidence = (refl, (refl, tt));
}

graph-UniqueUuids : UniqueUuids graph.evidence_rows
unfolding UniqueUuids
graph-UniqueUuids = (refl, (refl, tt))

graph-Backed : Backed graph
graph-Backed = ((λ ready held. refl), ((λ ready held. refl), tt))

abbrev intent : DeleteIntent
intent = record { kind = nodes; owner_id = 2; uuid = "n2"; deletion = asked }

abbrev cleared : Store × DeleteStep
cleared = (
  record graph { node_rows = host ∷ []; relation_rows = []; children = link 1 1 ∷ link 1 2 ∷ [] },
  record { rows_deleted = 3; done = true; files_pending = false; purged = "n2" ∷ [] },
)

-- The edge, the link and the node go in one step.
step_run : step graph intent 100 ≡ ok cleared
unfolding step step_owner step_children finish_step finish_owner delete_children delete_tables
    delete_some has_children delete_owner delete_incident incident incident_round delete_relation
    first_row
step_run = refl

port_found : row_by_id graph nodes 2 ≡ some port
unfolding first_row
port_found = refl

step_done-Clears_example : Clears nodes 2 cleared.0
step_done-Clears_example =
    step_done-Clears graph intent 100 port cleared graph-IsKeyed port_found step_run refl

step-Steps_example :
    (step graph intent 2 ≡ err (conflict "delete intent mismatch"))
    ⊎ ((r : Store × DeleteStep) × (step graph intent 2 ≡ ok r) × Steps nodes graph 2 r)
step-Steps_example = step-Steps graph 2 graph-IsKeyed intent (omega arith) (omega arith)

purge_rejection-Purges_example :
    (r : Store × RejectionStep) × (purge_rejection ("Port" ∷ []) graph "j" 5 ≡ ok r)
    × Purges "j" 5 (start_sweep graph) r
purge_rejection-Purges_example =
    purge_rejection-Purges ("Port" ∷ []) graph "j" 5 graph-IsKeyed (omega arith) (omega arith)

abbrev request : List String → DeleteRequest
request ids = record { kind = evidence; ids = ids; cascade = true }

abbrev marked : Store
marked = record graph {
  evidence_rows = record scan { deletion = some (record asked { job_id = "k" }) } ∷ banner ∷ [];
}

abbrev admitted : Store × List DeleteIntent
admitted = (
  marked,
  record { kind = evidence; owner_id = 1; uuid = "e1"; deletion = record asked { job_id = "k" } }
      ∷ [],
)

prepare_run : prepare [] graph (request ("e1" ∷ [])) "k" 7 ≡ ok admitted
unfolding prepare validated_delete_rows validate_rows validate_row found_rows missing_ids
    has_duplicates is_scope_orphan reject_bare_claim bare_claim set_pending set_all_pending
    first_row require_ready pending_blocker
prepare_run = refl

-- Without both, the claim of the host would be bare.
prepare_bare : is_ok (prepare [] graph (request ("e1" ∷ "e2" ∷ [])) "k" 7) ≡ false
unfolding prepare validated_delete_rows validate_rows validate_row found_rows missing_ids
    has_duplicates is_scope_orphan reject_bare_claim bare_claim set_pending set_all_pending
    first_row require_ready pending_blocker
prepare_bare = refl

prepare-Accepts_example :
    (map (λ (i : DeleteIntent). i.uuid) admitted.1 ≡ "e1" ∷ []) × All (Accepts marked) admitted.1
prepare-Accepts_example =
    prepare-Accepts [] graph (request ("e1" ∷ [])) "k" 7 admitted graph-IsKeyed prepare_run

fresh : has_duplicates ("x" ∷ "e1" ∷ "y" ∷ []) ≡ false
unfolding has_duplicates
fresh = refl

prepare-unknown_example :
    prepare [] graph (request ("x" ∷ "e1" ∷ "y" ∷ [])) "k" 7
    ≡ err (missing_records ("x" ∷ "y" ∷ []))
prepare-unknown_example =
    prepare-unknown [] graph (request ("x" ∷ "e1" ∷ "y" ∷ [])) "k" 7 fresh refl

prepare-Backed_example : Backed marked
prepare-Backed_example =
    prepare-Backed [] graph (request ("e1" ∷ [])) "k" 7 admitted graph-IsKeyed.keyed_evidence
      graph-UniqueUuids graph-Backed prepare_run
