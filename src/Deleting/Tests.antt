-- ===== src/Deleting/Tests.antt =====
-- One step of a rejection that is small enough for it, and the theorem applied to it.
use justpen_knowledgebase_mc.Base.{
  String, ◌≡◌, ◌+ℤ◌, refl, true, false, none, some, [], ◌∷◌, ℤ, pos, Option, ok,
}
use justpen_knowledgebase_mc.Json.{nil, cons, end, str, get}
use justpen_knowledgebase_mc.Graph.Tables.{Owner, first_row}
use justpen_knowledgebase_mc.Graph.Rows.{UniqueIds}
use justpen_knowledgebase_mc.Graph.Deletions.{
  step, step_owner, step_children, finish_step, finish_owner, delete_children, delete_tables,
  delete_some, has_children, delete_owner, delete_incident, incident, incident_round,
  delete_relation,
}
use justpen_knowledgebase_mc.Graph.Rejections.{
  purge_rejection, purge, node_probes, next_intent, probe, intent_of,
}
use justpen_knowledgebase_mc.Graph.Sweeps.{IsKeyed}
use justpen_knowledgebase_mc.Jobs.Table.{
  Job, completed, find, job_row, update, adjust_terminal_count,
}
use justpen_knowledgebase_mc.Jobs.Lease.{
  Claim, claim_of, claimed, fence, fence_row, finish, finished,
}
use justpen_knowledgebase_mc.Jobs.Admin.{new_job, rejection_payload}
use justpen_knowledgebase_mc.Jobs.Invariant.{IsConsistent}
use justpen_knowledgebase_mc.Json.{Fields}
use justpen_knowledgebase_mc.Graph.Tables.{nodes}
use justpen_knowledgebase_mc.Deleting.{
  Tables, marked_by, evidence_left, Clock, File, RejectionProgress, rejection_progress,
  rejection_result, take_items, extend, end_rejection, rejection_step, delete_step,
}
use justpen_knowledgebase_mc.Base.{any}
use justpen_knowledgebase_mc.Json.{Value, field, arr}
use justpen_knowledgebase_mc.Graph.Deletions.{is_intent_of}
use justpen_knowledgebase_mc.Jobs.Admin.{is_truthy}
use justpen_knowledgebase_mc.Deleting.{
  rows_field, request_payload, plain_step, step_first, step_intent, end_delete, intents_from,
  strings, payload_kind,
}
use justpen_knowledgebase_mc.Deleting.Ordinary.{delete_step-completes}
use justpen_knowledgebase_mc.Deleting.Rejecting.{HasState, Advances, delete_step-Advances}

abbrev show : ℤ → String
show n = "many"

abbrev queued_job : Job
queued_job = new_job 1 "j" "delete" "short" (rejection_payload "n1") 0

abbrev leased : Job
leased = claimed "token" 0 queued_job

abbrev held_claim : Claim
held_claim = claim_of queued_job "token" 0 (rejection_payload "n1", end, end)

abbrev port : Owner
port = record {
  id = 2;
  uuid = "n2";
  type = "Port";
  deletion = some (record { job_id = "j"; cascade = true; requested_at = 7 });
  sha256 = none;
  source_id = none;
  target_id = none;
  ownership = none;
  authorization = none;
  authorization_override = none;
  allowlist_scoped = false;
  state_root_uuid = some "n1";
}

abbrev before : Tables
before = record {
  db = record {
    jobs = leased ∷ [];
    next_id = 2;
    completed_count = pos 0;
    failed_cancelled_count = pos 0;
    query_epoch = 1;
    pruned_total = 0;
    pending = "j" ∷ [];
    evidence = [];
  };
  store = record { node_rows = port ∷ []; relation_rows = []; evidence_rows = []; children = [] };
}

abbrev progress : RejectionProgress
progress = record { rows_deleted = pos 1; deleted_ids = cons (str "n2") nil; deleted_count = pos 1 }

abbrev after : Tables
after = record {
  db = record before.db {
    jobs = finished completed (rejection_result show progress) 2 leased ∷ [];
    completed_count = pos 1;
    pending = [];
  };
  store = record before.store { node_rows = [] };
}

abbrev clock : Clock
clock n = n

delete_step_run : delete_step show ("Port" ∷ []) before held_claim clock ≡ ok (after, none)
unfolding marked_by evidence_left delete_step rejection_step end_rejection rejection_progress
    rejection_result take_items extend fence fence_row job_row finish find update
    adjust_terminal_count ◌+ℤ◌ get purge_rejection purge node_probes next_intent probe intent_of
    step step_owner step_children finish_step finish_owner delete_children delete_tables delete_some
    has_children delete_owner delete_incident incident incident_round delete_relation first_row
delete_step_run = refl

before-IsConsistent : IsConsistent before.db
unfolding find
before-IsConsistent = record {
  unique = (refl, tt);
  rows = (record { leased = refl; expiring = refl; ended = refl }, tt);
  completed_exact = refl;
  failed_exact = refl;
}

before-IsKeyed : IsKeyed before.store
unfolding UniqueIds
before-IsKeyed = record { keyed_nodes = (refl, tt); keyed_relations = tt; keyed_evidence = tt }

abbrev no_file : Option File
no_file = none

delete_step-Advances_example : (no_file ≡ none) × Advances "j" before after
unfolding get
delete_step-Advances_example =
    delete_step-Advances show ("Port" ∷ []) before held_claim clock (after, none)
      before-IsConsistent before-IsKeyed refl delete_step_run

-- An ordinary delete of the same node
abbrev node_payload : Fields
node_payload = request_payload (record { kind = nodes; ids = "n2" ∷ []; cascade = true })

abbrev node_job : Job
node_job = new_job 1 "j" "delete" "short" node_payload 0

abbrev node_claim : Claim
node_claim = claim_of node_job "token" 0 (node_payload, end, end)

abbrev node_result : Fields
node_result =
    field "deleted_ids" (arr (cons (str "n2") nil))
      (field "progress" (Value.obj (rows_field (pos 1))) end)

abbrev node_before : Tables
node_before = record before { db = record before.db { jobs = claimed "token" 0 node_job ∷ [] } }

abbrev node_after : Tables
node_after = record after {
  db = record after.db {
    jobs = finished completed node_result 2 (claimed "token" 0 node_job) ∷ [];
  };
}

node_step_run : delete_step show [] node_before node_claim clock ≡ ok (node_after, none)
unfolding marked_by evidence_left delete_step plain_step step_first step_intent end_delete
    intents_from strings fence fence_row job_row finish find update adjust_terminal_count ◌+ℤ◌ get
    step step_owner step_children finish_step finish_owner delete_children delete_tables delete_some
    has_children delete_owner delete_incident incident incident_round delete_relation first_row
node_step_run = refl

node_job_over : HasState completed "j" node_after.db
unfolding find
node_job_over = (finished completed node_result 2 (claimed "token" 0 node_job), refl, refl)

node_not_rejection : is_truthy (get "rejection" node_payload) ≡ false
unfolding get
node_not_rejection = refl

node_kind : payload_kind show node_payload ≡ ok nodes
unfolding get
node_kind = refl

delete_step-completes_example : any (is_intent_of "j") node_after.store.node_rows ≡ false
delete_step-completes_example =
    delete_step-completes show node_claim clock [] nodes node_before (node_after, none)
      before-IsKeyed node_not_rejection node_kind node_step_run node_job_over
