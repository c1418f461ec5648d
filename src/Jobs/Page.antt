-- ===== src/Jobs/Page.antt =====
-- `JobRetention.batch` of storage/job_retention.py: one page of terminal jobs, oldest first. A job
-- that owns nothing is pruned at once, one that owns files or a blob is marked for its purge.
use justpen_knowledgebase_mc.Base.{
  ℕ, ◌+◌, String, Bool, true, false, ◌||◌, ◌&&◌, not, Option, none, some, List, [], ◌∷◌, ◌++◌, pos,
  negsuc, ◌+ℤ◌, ltb_ℤ, Result, ok, err, storage_io, not_found, or_raise, ◌>>=◌, ltb, leb, ◌==◌,
  length, take, select, is_some, count, if◌then◌else◌,
}
use justpen_knowledgebase_mc.Jobs.Table.{
  State, completed, failed, cancelled, is_completed, Job, Db, find, update, pending_owners,
}
use justpen_knowledgebase_mc.Jobs.Retention.{
  Policy, Groups, at_group, add_group, retention_count, retention_time, is_unleased,
  is_invalid_code, holds_token, recorded_tokens, recorded_blob, prune,
}

-- `(finished_at, id)`
abbrev pub Position : Type 0
Position = ℕ × ℕ

abbrev pub before : Position → Position → Bool
before (f, i) (g, j) = ltb f g || (f == g && ltb i j)

abbrev pub finished_at_or : ℕ → Option ℕ → ℕ
finished_at_or d none = d
finished_at_or d (some f) = f

abbrev pub position : Job → Position
position r = (finished_at_or 0 r.finished_at, r.id)

abbrev pub same_state : State → State → Bool
same_state completed completed = true
same_state failed failed = true
same_state cancelled cancelled = true
same_state _ _ = false

-- `WHERE state=? AND (finished_at,id)>(?,?)`, which no row without an end time meets
abbrev pub is_after : State → Position → Job → Bool
is_after s cursor r = same_state r.state s && (is_some r.finished_at && before cursor (position r))

-- `ORDER BY finished_at,id`
unfoldable pub insert_by_end : Job → List Job → List Job
insert_by_end r [] = r ∷ []
insert_by_end r (x ∷ xs) =
    if before (position x) (position r) then x ∷ insert_by_end r xs else r ∷ x ∷ xs

unfoldable pub by_end : List Job → List Job
by_end [] = []
by_end (x ∷ xs) = insert_by_end x (by_end xs)

abbrev pub arm : Db → Position → State → List Job
arm db cursor s = take 100 (by_end (select (is_after s cursor) db.jobs))

-- `CANDIDATES_SQL`
unfoldable pub candidates : Db → Position → List Job
candidates db cursor =
    take 100 (by_end (arm db cursor completed ++ (arm db cursor failed ++ arm db cursor cancelled)))

-- The rows marked for a purge, by group.
unfoldable pub pending_counts : Db → Groups
pending_counts db = record {
  completed_jobs = pos (count (λ r. r.purge_pending && is_completed r.state) db.jobs);
  failed_cancelled_jobs = pos (count (λ r. r.purge_pending && not (is_completed r.state)) db.jobs);
}

-- What the loop carries.
pub record Page : Type 0 where
  pub db : Db
  pub counts : Groups
  pub pending : Groups
  pub pruned : ℕ
  pub marked : ℕ
  pub invalid : ℕ

abbrev pub start_page : Db → Page
start_page db = record {
  db = db;
  counts = record {
    completed_jobs = db.completed_count;
    failed_cancelled_jobs = db.failed_cancelled_count;
  };
  pending = pending_counts db;
  pruned = 0;
  marked = 0;
  invalid = 0;
}

-- `excess or expired`
abbrev pub is_due : Policy → Page → Job → ℕ → Bool
is_due policy page r now =
    ltb_ℤ (pos (retention_count r.state policy) +ℤ at_group r.state page.pending)
      (at_group r.state page.counts)
    || leb (finished_at_or 0 r.finished_at + retention_time r.state policy) now

abbrev pub marked_row : List String → ℕ → Job → Job
marked_row tokens now r = record r {
  purge_pending = true;
  purge_tokens = some tokens;
  updated_at = now;
}

abbrev pub invalid_row : Job → Job
invalid_row r = record r { error_code = some "JOB_METADATA_INVALID" }

abbrev pub is_owning : List String → Option String → Bool
is_owning [] none = false
is_owning _ _ = true

-- `examined` of the loop: the page without the rows that are known to be invalid.
abbrev pub uuids : List Job → List String
uuids [] = []
uuids (r ∷ rs) = if is_invalid_code r.error_code then uuids rs else r.uuid ∷ uuids rs

-- The continuation: the last position of a full page, or the start.
unfoldable pub next_cursor : List Job → Position
next_cursor [] = (0, 0)
next_cursor (r ∷ []) = position r
next_cursor (r ∷ s ∷ rs) = next_cursor (s ∷ rs)

module _ (uuid : String → Option String) where
  unfoldable pub tokens_and_blob : Job → Result (List String × Option String)
  tokens_and_blob row = do
    tokens ← recorded_tokens uuid row
    digest ← recorded_blob uuid row
    ok (tokens, digest)

  -- The end of one round, on what the job still owns.
  unfoldable pub dispose : Page → Job → ℕ → Result (List String × Option String) → Result Page
  dispose page row now (ok (tokens, digest)) = ok (
      if is_owning tokens digest
      then record page {
        db = record page.db { jobs = update row.uuid (marked_row tokens now) page.db.jobs };
        pending = add_group row.state (pos 1) page.pending;
        marked = page.marked + 1;
      }
      else record page {
        db = prune page.db row;
        counts = add_group row.state (negsuc 0) page.counts;
        pruned = page.pruned + 1;
      })
  dispose page row now (err (storage_io m)) = ok (record page {
    db = record page.db { jobs = update row.uuid invalid_row page.db.jobs };
    invalid = page.invalid + 1;
  })
  dispose page row now (err e) = err e

  -- One round of the loop; `durable` is the table that the page was read from.
  unfoldable pub consider : Policy → Db → List String → ℕ → Job → Page → Result Page
  consider policy durable owners now r page =
      if is_invalid_code r.error_code
      then ok (record page { invalid = page.invalid + 1 })
      else if not (is_due policy page r now)
      then ok page
      else (do
        row ← or_raise (find r.uuid durable.jobs) (not_found "job not found")
        if row.purge_pending || (not (is_unleased row now) || holds_token r.uuid owners)
            then ok page
            else dispose page row now (tokens_and_blob row))

  unfoldable pub consider_all : Policy → Db → List String → ℕ → List Job → Page → Result Page
  consider_all policy durable owners now [] page = ok page
  consider_all policy durable owners now (r ∷ rows) page = do
    page' ← consider policy durable owners now r page
    consider_all policy durable owners now rows page'

  -- The new table, with the page that was examined and its continuation.
  unfoldable pub batch : Policy → Db → Position → ℕ → Result (Page × Position × ℕ)
  batch policy db cursor now = do
    let rows = candidates db cursor
    page ← consider_all policy db (pending_owners db (uuids rows)) now rows (start_page db)
    ok (page, (if length rows == 100 then next_cursor rows else (0, 0)), length rows)
