-- ===== src/Deleting/Failing.antt =====
-- `JobStore.finish_failure` of storage/jobs.py, which reads the evidence of both views of the tables.
use justpen_knowledgebase_mc.Base.{
  String, Bool, false, ◌&&◌, Option, none, some, List, [], ◌∷◌, pos, Result, ok, err, type_error,
  ◌>>=◌, str_eq, if◌then◌else◌,
}
use justpen_knowledgebase_mc.Json.{
  Value, Fields, str, int, obj, arr, boolean, nil, cons, end, field, get, put, present,
}
use justpen_knowledgebase_mc.Graph.Tables.{evidence, row_by_id}
use justpen_knowledgebase_mc.Jobs.Table.{State, Evidence, Db}
use justpen_knowledgebase_mc.Jobs.Lease.{Claim, fence, finish}
use justpen_knowledgebase_mc.Deleting.{Tables, Clock}

-- `{**old, **new}`
unfoldable pub put_all : Fields → Fields → Fields
put_all old end = old
put_all old (field k v fs) = put_all (put k v old) fs

unfoldable pub find_evidence : String → List Evidence → Option Evidence
find_evidence u [] = none
find_evidence u (e ∷ es) = if str_eq e.uuid u then some e else find_evidence u es

-- `row_by_id(connection, "evidence", …)`: by the key for an integer, by the uuid for any other value; an
-- object or a list cannot be bound.
unfoldable pub evidence_row : Tables → Value → Result (Option Evidence)
evidence_row t (str u) = ok (find_evidence u t.db.evidence)
evidence_row t (int (pos n)) = elim (row_by_id t.store evidence n) [
  | none ↦ ok none
  | some o ↦ ok (find_evidence o.uuid t.db.evidence)
]
evidence_row t (obj fs) = err type_error
evidence_row t (arr vs) = err type_error
evidence_row t _ = ok none

abbrev pub only_id : Option Value → Option Value
only_id (some (arr (cons v nil))) = some v
only_id _ = none

abbrev pub is_text_value : String → Option Value → Bool
is_text_value t (some (str s)) = str_eq s t
is_text_value t _ = false

-- The evidence of the failed job: that of its progress, or the only one that a reindex names.
unfoldable pub failure_evidence : Claim → Option Value
failure_evidence c =
    let own = present (get "evidence_id" c.progress) in
    if str_eq c.kind "reindex" && is_text_value "evidence" (get "kind" c.payload)
    then elim (only_id (get "ids" c.payload)) [ none ↦ own | some v ↦ present (some v) ]
    else own

unfoldable pub covered : Option Evidence → Fields → Fields
covered none merged = merged
covered (some e) merged =
    put "incomplete" (boolean e.incomplete)
      (put "index_state" (str e.index_state) (put "effective_media_type" (str e.media_type) merged))

unfoldable pub failure_result : Tables → Option Value → Fields → Result Fields
failure_result t none merged = ok merged
failure_result t (some v) merged = do
  row ← evidence_row t v
  ok (covered row (put "evidence_id" v merged))

unfoldable pub finish_failure : Tables → Claim → State → Fields → Clock → Result Db
finish_failure t c state result clock = do
  _ ← fence t.db c (clock 0)
  merged ← failure_result t (failure_evidence c) (put_all c.result result)
  finish t.db c state merged (clock 1) (clock 2)
