-- ===== src/Lib.antt =====
-- Models and theorems for the knowledge-base MCP server: a server that stores a typed graph of
-- records and evidence in SQLite and runs its slow work as durable jobs.
--
-- Parts, and the code each file models (paths from the repository's root):
--   * Jobs: durable jobs of src/justpen_knowledgebase_mcp/storage. Jobs/Table is the `jobs` table of
--     schema.py with the counters of `settings`. Jobs/Ownership is job_ownership.py. Jobs/Lease
--     (claim_batch, fence, heartbeat, checkpoint, finish, release) and Jobs/Admin (insert, cancel,
--     retry) are `JobStore` of jobs.py. Jobs/Retention, Page, Purge and Upkeep are
--     job_retention.py. A worker calls claim_batch and then, under the claim, checkpoint, heartbeat,
--     and finish or release; administrators call cancel and retry; retention prunes terminal jobs.
--   * Admission: src/justpen_knowledgebase_mcp/storage/admission.py, the two lock files that bar
--     transactions while the write-ahead log is reset, as a step relation over any number of owners.
--   * Properties: src/justpen_knowledgebase_mcp/mutations.py, with the paths that
--     src/justpen_knowledgebase_mcp/indexing.py builds. Properties/Pointer decodes and builds
--     pointers, Properties/Merge validates documents and merges patches.
--   * Inventory: src/justpen_knowledgebase_mcp/storage/inventory.py, the state that a node inherits.
--   * Graph: the record graph of src/justpen_knowledgebase_mcp/storage. Graph/Tables is the tables of
--     schema.py with the lookup and the blockers of graph.py. Of deletions.py, Graph/Blocking and
--     Admitting are `prepare`, Deletions is `step`, and Rejections is `purge_rejection`. A request is
--     admitted once; then a worker calls step, 100 rows at a time, until the owner is gone.
--   * Deleting: the delete jobs of src/justpen_knowledgebase_mcp/storage/jobs.py (admit_delete,
--     delete_step, finalize_evidence), which join the two: each step fences its claim in the job table,
--     deletes rows of the graph, and finishes or releases the job in one transaction. Deleting/Failing
--     is finish_failure, which reads the evidence of both.
--   * Traversal: src/justpen_knowledgebase_mcp/storage/traversal.py, the breadth-first walk over the
--     tables of Graph with the inherited state of Inventory. Traversal has the rows and the requests,
--     Traversal/Steps the methods of `_Traversal`.
--   * Psl: src/justpen_knowledgebase_mcp/psl.py, public suffixes and the class of a DNS name.
--   * Text: src/justpen_knowledgebase_mcp/text.py, encodings, source lines and the place of a match.
--   * Cursor: src/justpen_knowledgebase_mcp/cursors.py, with the record ids of identity.py beside it:
--     positions of a page as opaque texts.
--   * Json: the documents of Python's json module, on which the stored columns stand.
--   * Base: Booleans on the native numbers, lists, signed integers, and the result type that stands
--     for exceptions.
-- The other files hold proofs. About jobs: Jobs/Rows, Invariant, Fencing and Consistency (the table
-- and each call), Claiming, Scanning and Batch (a pass of claim_batch), Stale (claims whose lease is
-- gone), Locator (checkpoints), PurgeLaws, Ordering, Paging and Rotation (retention), Reach
-- (sequences of calls). Admission/Exclusion is about the barrier, Properties/Decoding about
-- pointers, Properties/Overlay about merges, Graph/Rows, Children, Sweeps, Incident, Stepping,
-- Removing and Clearing about a deletion step, Selecting and Purging about a rejection, Marking,
-- Accepting, Claims, Marks, Links and Backing about the admission of a deletion, Deleting/Rejecting,
-- Completing, Ordinary and Keeping about a delete job, Traversal/Bounds, Edges, Seeds and Rounds about the
-- walk, Text/Places about source ranges, Cursor/Pages about cursors, Inventory/Parents,
-- Authorizing and Chain about the scope walk, Psl/Suffixes about suffixes.
-- The Tests files hold concrete runs.
--
-- Representation. A time is a number of microseconds, a lease lasts 30 s. `time.time()` and
-- `uuid4()` are arguments, one for each call. A JSON column is what the strict decoder makes of it:
-- an object with unique keys and finite floats, or a malformed cell. Each call of the job store runs inside one
-- immediate transaction that is rolled back when it raises, so a call is a function from table to
-- result, and a failed call carries no table. Python's `str(UUID(value))` and the operating system's
-- `flock` are parameters; of `flock` the theorems assume only that a shared lock is not granted
-- beside another owner's exclusive one, and an exclusive one beside nothing. The byte length of a
-- document's JSON text is a parameter too, and so are base64 and the JSON text of a cursor, of which
-- the theorem assumes that each decodes what it encoded and that base64 has full groups. Every loop here is structural over rows, keys or characters; the scope walk has the
-- number of scope relations for its rounds, as the code has, and its theorem says what it reaches.
-- The loops of a deletion have as many rounds as the budget has rows, since a round that does not
-- end the loop deletes a row; the loop of the walk has as many as there may be nodes, since a node
-- is queued once. The tables are lists in ascending id, whose ids are unique as the primary keys
-- are.
--
-- Not modelled: SQL planning and I/O, threads and queues, the FTS5 index, telemetry and the tool layer,
-- which are SQLite's, the operating system's or glue; the writes of the record graph, its search and its
-- catalog.
pub mod Base
pub mod Json
pub mod Jobs
pub mod Admission
pub mod Properties
pub mod Inventory
pub mod Psl
pub mod Graph
pub mod Traversal
pub mod Deleting
pub mod Text
pub mod Cursor
