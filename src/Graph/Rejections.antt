-- ===== src/Graph/Rejections.antt =====
-- storage/deletions.py: `purge_rejection`, which spends a budget of rows over the intents of a job.
-- `types` is the tuple `_REJECTION_NODE_TYPES`, the deepest scoped type first.
use justpen_knowledgebase_mc.Base.{
  ℕ, zero, suc, ◌+◌, ◌-◌, String, Bool, true, false, ◌||◌, ◌&&◌, Option, none, some, List, [], ◌∷◌,
  ◌++◌, Result, ok, invalid_params, raise_if, ◌>>=◌, ◌>>◌, ltb, str_eq, if◌then◌else◌,
}
use justpen_knowledgebase_mc.Graph.Tables.{Kind, nodes, relations, Owner, Store, rows_of, first_row}
use justpen_knowledgebase_mc.Graph.Deletions.{
  DeleteIntent, DeleteStep, Sweep, is_intent_of, start_sweep, step,
}

-- The queries `_REJECTION_NODE_BY_TYPE` and `_REJECTION_INTENT`.
pub data Probe : Type 0 where
  node_of_type : String → Probe
  any_node any_relation : Probe

abbrev pub probe_kind : Probe → Kind
probe_kind any_relation = relations
probe_kind _ = nodes

abbrev pub is_probed : String → Probe → Owner → Bool
is_probed job (node_of_type t) o = str_eq o.type t && is_intent_of job o
is_probed job _ o = is_intent_of job o

unfoldable pub node_probes : List String → List Probe
node_probes [] = any_node ∷ any_relation ∷ []
node_probes (t ∷ ts) = node_of_type t ∷ node_probes ts

-- The intent of a row that a probe found.
unfoldable pub intent_of : Kind → Owner → Option DeleteIntent
intent_of kind o = elim o.deletion [
  | none ↦ none
  | some d ↦ some (record { kind = kind; owner_id = o.id; uuid = o.uuid; deletion = d })
]

unfoldable pub probe : Store → String → Probe → Option DeleteIntent
probe s job p = elim (first_row (is_probed job p) (rows_of (probe_kind p) s)) [
  | none ↦ none
  | some o ↦ intent_of (probe_kind p) o
]

-- `_next_rejection_intent`: the first intent, and the probes that are left.
unfoldable pub next_intent : Store → String → List Probe → Option DeleteIntent × List Probe
next_intent s job [] = (none, [])
next_intent s job (p ∷ ps) = elim (probe s job p) [
  | none ↦ next_intent s job ps
  | some intent ↦ (some intent, p ∷ ps)
]

pub record RejectionStep : Type 0 where
  pub rows_deleted : ℕ
  pub purged : List String
  pub done : Bool

abbrev pub swept : Sweep → Bool → Store × RejectionStep
swept w done = (w.store, record { rows_deleted = w.deleted; purged = w.purged; done = done })

-- `deleted += step.rows_deleted; purged.extend(step.purged)`
abbrev pub add_step : Sweep → Store × DeleteStep → Sweep
add_step w (s, st) = record {
  store = s;
  deleted = w.deleted + st.rows_deleted;
  purged = w.purged ++ st.purged;
}

-- The loop of `purge_rejection`. A round that does not end it deletes a row, so as many rounds as the
-- budget has rows are enough.
unfoldable pub purge : ℕ → ℕ → String → List Probe → Sweep → Result (Store × RejectionStep)
purge zero budget job probes w = ok (swept w false)
purge (suc fuel) budget job probes w =
    let (found, live) = next_intent w.store job probes in
    if ltb w.deleted budget
    then elim found [
      | none ↦ ok (swept w true)
      | some intent ↦ do
        st ← step w.store intent (budget - w.deleted)
        elim st.1.done [
          | true ↦ purge fuel budget job live (add_step w st)
          | false ↦ ok (swept (add_step w st) false)
        ]
    ]
    else ok (swept w false)

unfoldable pub purge_rejection : List String → Store → String → ℕ → Result (Store × RejectionStep)
purge_rejection types s job budget = do
  raise_if (ltb budget 1 || ltb 100 budget) (invalid_params "invalid deletion row budget")
  purge budget budget job (node_probes types) (start_sweep s)
