-- ===== src/Jobs/Tests.antt =====
-- A small `jobs` table, and the theorems applied to it.
use justpen_knowledgebase_mc.Base.{
  List, ℕ, String, ◌≡◌, refl, true, false, some, none, [], ◌∷◌, pos, ◌+ℤ◌, ok, All, eq_iff, is_ok,
  arith,
}
use justpen_knowledgebase_mc.Json.{Fields, str, end, field, get, is_strict}
use justpen_knowledgebase_mc.Jobs.Table.{
  malformed, completed, failed, Job, Db, find, job_row, update, delete, adjust_terminal_count,
  pending_owners, protected,
}
use justpen_knowledgebase_mc.Jobs.Ownership.{
  is_digest, hex_run, ownership_object, is_locator, validate_progress, progress_object, bad_blob,
  row_progress, row_metadata, checkpoint_digest, carry, checkpoint_ownership,
}
use justpen_knowledgebase_mc.Jobs.Lease.{
  Claim, Scan, is_candidate, is_claimable, isolate_failed_metadata, claim_read, claim_selected,
  examine, wrap_around, claim_batch, claim, fence_row, fence, finish, claimed, claim_of,
  checkpointed, max_id,
}
use justpen_knowledgebase_mc.Jobs.Admin.{new_job}
use justpen_knowledgebase_mc.Jobs.Invariant.{IsConsistent}
use justpen_knowledgebase_mc.Jobs.Batch.{Claims, claim_batch-Claims, claim-none}
use justpen_knowledgebase_mc.Jobs.Stale.{IsLost, reclaimed-IsLost, finish-IsLost}
use justpen_knowledgebase_mc.Jobs.Reach.{finish_step, here, next, Reach-IsConsistent}
use justpen_knowledgebase_mc.Jobs.Locator.{checkpoint_ownership-agrees}
use justpen_knowledgebase_mc.Jobs.Retention.{
  Policy, canonical_text, ownership, input_tokens, stage_tokens, recorded_tokens, recorded_blob,
  prune,
}
use justpen_knowledgebase_mc.Jobs.Page.{
  Page, start_page, pending_counts, insert_by_end, by_end, candidates, tokens_and_blob, dispose,
  consider, consider_all, batch,
}
use justpen_knowledgebase_mc.Jobs.Paging.{batch-IsConsistent}
use justpen_knowledgebase_mc.Jobs.Upkeep.{next_job}
use justpen_knowledgebase_mc.Jobs.Rotation.{IsNext, next_job-least}
use justpen_knowledgebase_mc.Jobs.Purge.{next_file, finalize_row, finalize}
use justpen_knowledgebase_mc.Jobs.PurgeLaws.{IsDisowned, finalize_prunes}

-- A worker claimed the job at time 0 and its lease runs out at 30 s; the second row is damaged.
abbrev leased : Job
leased = claimed "old" 0 (new_job 1 "a" "ingest" "short" end 0)

abbrev damaged : Job
damaged = record (new_job 2 "b" "ingest" "short" end 0) { payload = malformed }

abbrev table : Db
table = record {
  jobs = leased ∷ damaged ∷ [];
  next_id = 3;
  completed_count = pos 0;
  failed_cancelled_count = pos 0;
  query_epoch = 1;
  pruned_total = 0;
  pending = [];
  evidence = [];
}

table-IsConsistent : IsConsistent table
unfolding find
table-IsConsistent = record {
  unique = (refl, (refl, tt));
  rows = (
    record { leased = refl; expiring = refl; ended = refl },
    (record { leased = refl; expiring = refl; ended = refl }, tt),
  );
  completed_exact = refl;
  failed_exact = refl;
}

abbrev later : ℕ
later = 40_000_000

abbrev old_claim : Claim
old_claim = claim_of (new_job 1 "a" "ingest" "short" end 0) "old" 0 (end, end, end)

abbrev new_claim : Claim
new_claim = claim_of leased "new" later (end, end, end)

abbrev reclaimed : Db
reclaimed = record table { jobs = claimed "new" later leased ∷ damaged ∷ [] }

batch_reclaims :
    claim_batch table "short" "ingest" 0 "new" later ≡ ok (reclaimed, some new_claim, 1)
unfolding is_strict claim_batch examine wrap_around claim_selected claim_read job_row find update
    row_metadata row_progress progress_object ownership_object validate_progress is_locator bad_blob
    get
batch_reclaims = refl

claim_batch-Claims_example :
    (s : Scan) × (claim_batch table "short" "ingest" 0 "new" later ≡ ok s)
    × Claims "short" "ingest" "new" later table s
claim_batch-Claims_example =
    claim_batch-Claims "short" "ingest" "new" later table 0 table-IsConsistent

reclaimed-IsLost_example : IsLost reclaimed old_claim
reclaimed-IsLost_example =
    reclaimed-IsLost "short" "ingest" "new" later 0 table (reclaimed, some new_claim, 1) new_claim
      old_claim table-IsConsistent batch_reclaims refl refl
      (λ e. let h : false ≡ true = (eq_iff "old" "new").1 e in cc)

-- The only free row is the damaged one, which is isolated.
abbrev isolating : Db
isolating = record table {
  jobs =
      leased
      ∷ record damaged {
        state = failed;
        error_code = some "JOB_METADATA_INVALID";
        finished_at = some 1;
        updated_at = 1;
      }
      ∷ [];
  failed_cancelled_count = pos 1;
}

claim_finds_nothing : claim table "short" "ingest" "new" 1 ≡ ok (isolating, none)
unfolding claim claim_batch examine wrap_around claim_selected claim_read job_row find update
    row_metadata ownership_object isolate_failed_metadata adjust_terminal_count ◌+ℤ◌
claim_finds_nothing = refl

claim-none_example :
    All
      (λ r.
        is_candidate "short" "ingest" 0 max_id r ≡ true
        → is_claimable 1 r ≡ true
        → is_ok (row_metadata r) ≡ false)
      table.jobs
claim-none_example =
    claim-none "short" "ingest" "new" 1 table isolating table-IsConsistent (omega arith)
      claim_finds_nothing

abbrev done : Db
done = record table {
  jobs =
      record leased {
        state = completed;
        finished_at = some 2;
        updated_at = 2;
        lease_token = none;
        lease_expires_at = none;
      }
      ∷ damaged
      ∷ [];
  completed_count = pos 1;
}

finish_ends : finish table old_claim completed end 1 2 ≡ ok done
unfolding is_strict finish fence fence_row job_row find update adjust_terminal_count ◌+ℤ◌ get
finish_ends = refl

finish-IsLost_example : IsLost done old_claim
finish-IsLost_example = finish-IsLost table done old_claim completed end 1 2 finish_ends

Reach-IsConsistent_example : IsConsistent done
Reach-IsConsistent_example =
    Reach-IsConsistent table done table-IsConsistent
      (next here (finish_step old_claim completed end 1 2 finish_ends))

-- A checkpoint that publishes a first blob.
abbrev digest : String
digest = "0123456789abcdef0123456789abcdef0123456789abcdef0123456789abcdef"

abbrev published : Fields
published = field "verified_sha256" (str digest) end

checkpoint_publishes : checkpoint_ownership leased published ≡ ok (published, some digest)
unfolding checkpoint_ownership checkpoint_digest carry row_progress progress_object ownership_object
    validate_progress is_locator bad_blob get is_digest hex_run
checkpoint_publishes = refl

checkpoint_ownership-agrees_example :
    (row_progress (checkpointed published (some digest) 5 leased) ≡ ok published)
    × ((d : String) → none ≡ some d → some digest ≡ some d)
unfolding is_strict
checkpoint_ownership-agrees_example =
    checkpoint_ownership-agrees leased published published (some digest) 5 checkpoint_publishes

-- The job is completed and marked, and owns nothing.
abbrev marked : Job
marked = record (new_job 1 "a" "ingest" "short" end 0) {
  state = completed;
  finished_at = some 2;
  purge_pending = true;
}

abbrev purging : Db
purging = record table { jobs = marked ∷ []; completed_count = pos 1 }

purging-IsConsistent : IsConsistent purging
unfolding find
purging-IsConsistent = record {
  unique = (refl, tt);
  rows = (record { leased = refl; expiring = refl; ended = refl }, tt);
  completed_exact = refl;
  failed_exact = refl;
}

abbrev pruned : Db
pruned = record table { jobs = []; pruned_total = 1 }

finalize_ends : finalize some purging "a" later ≡ ok (pruned, true)
unfolding is_strict finalize next_file finalize_row job_row find delete protected recorded_tokens
    recorded_blob ownership canonical_text input_tokens stage_tokens row_metadata row_progress
    progress_object ownership_object validate_progress is_locator bad_blob get prune
    adjust_terminal_count ◌+ℤ◌
finalize_ends = refl

finalize_prunes_example :
    (row : Job) × (find "a" purging.jobs ≡ some row)
    × IsDisowned purging later row
    × (find "a" pruned.jobs ≡ none)
    × IsConsistent pruned
finalize_prunes_example =
    finalize_prunes some purging "a" later pruned purging-IsConsistent finalize_ends

-- One completed job that owns nothing, under a policy that keeps none.
abbrev ended : Db
ended = record purging { jobs = record marked { purge_pending = false } ∷ [] }

ended-IsConsistent : IsConsistent ended
unfolding find
ended-IsConsistent = record {
  unique = (refl, tt);
  rows = (record { leased = refl; expiring = refl; ended = refl }, tt);
  completed_exact = refl;
  failed_exact = refl;
}

abbrev strict : Policy
strict = record {
  completed_retention_count = 0;
  completed_retention_seconds = 1;
  failed_cancelled_retention_count = 0;
  failed_cancelled_retention_seconds = 1;
}

abbrev emptied_page : Page
emptied_page = record (start_page ended) {
  db = pruned;
  counts = record { completed_jobs = pos 0; failed_cancelled_jobs = pos 0 };
  pruned = 1;
}

page_prunes : batch some strict ended (0, 0) later ≡ ok (emptied_page, (0, 0), 1)
unfolding is_strict batch candidates by_end insert_by_end pending_counts consider_all consider
    dispose tokens_and_blob pending_owners finalize next_file finalize_row job_row find delete
    protected recorded_tokens recorded_blob ownership canonical_text input_tokens stage_tokens
    row_metadata row_progress progress_object ownership_object validate_progress is_locator bad_blob
    get prune adjust_terminal_count ◌+ℤ◌
page_prunes = refl

batch-IsConsistent_example : IsConsistent pruned
batch-IsConsistent_example =
    batch-IsConsistent some strict ended (0, 0) (0, 0) later 1 emptied_page ended-IsConsistent
      page_prunes

-- Three jobs after the position, of which the second one is not being purged.
abbrev rotating : List Job
rotating =
    record marked { id = 9; uuid = "c" }
    ∷ record marked { id = 4; uuid = "b"; purge_pending = false }
    ∷ record marked { id = 7; uuid = "d" }
    ∷ []

next_job-least_example : IsNext 3 rotating (some (7, "d"))
unfolding next_job
next_job-least_example = next_job-least 3 rotating
