-- ===== src/Jobs/Claiming.antt =====
-- What one pass of `claim_batch` over the active jobs may take, isolate and leave.
use justpen_knowledgebase_mc.Base.{
  ℕ, String, ◌≡◌, true, false, ◌||◌, some, none, pos, arith, Error, ok, err, storage_io,
}
use justpen_knowledgebase_mc.Json.{Fields}
use justpen_knowledgebase_mc.Jobs.Table.{
  failed, is_terminal, is_queued, Job, Db, find, job_row, update, adjust_terminal_count,
}
use justpen_knowledgebase_mc.Jobs.Ownership.{
  ownership_object, row_metadata, row_progress, progress_object, validate_progress,
}
use justpen_knowledgebase_mc.Jobs.Lease.{
  has_expired, is_claimable, isolated, isolate_failed_metadata, claimed, claim_of, claim_read,
  claim_selected,
}
use justpen_knowledgebase_mc.Jobs.Invariant.{IsJobOk, with_jobs}

message : Error → String
message (storage_io m) = m
message _ = ""

-- Reading the metadata of a row raises no other class of error.
row_metadata-storage_io :
    (r : Job) (e : Error) → row_metadata r ≡ err e → e ≡ storage_io (message e)
unfolding row_metadata row_progress progress_object validate_progress ownership_object message
row_metadata-storage_io r e h = ground arith steps 40000000

abbrev pub after_isolation : Db → Job → ℕ → Db
after_isolation db r now =
    adjust_terminal_count failed (pos 1) (with_jobs db (update r.uuid (isolated now) db.jobs))

-- The row of a snapshot is still the row of the table, and is active.
pub record IsTracked (db : Db) (r : Job) : Type 0 where
  pub found : find r.uuid db.jobs ≡ some r
  pub active : is_terminal r.state ≡ false

module _ (token : String) (now : ℕ) where
  pub claim_selected-ok :
      (db : Db) (r : Job) (cells : Fields × Fields × Fields)
      → find r.uuid db.jobs ≡ some r
      → row_metadata r ≡ ok cells
      → claim_selected db r.uuid token now
        ≡ ok (
          with_jobs db (update r.uuid (claimed token now) db.jobs),
          some (claim_of r token now cells),
        )
  unfolding claim_selected claim_read job_row
  claim_selected-ok db r cells found h = rw (found, h)

  pub claim_selected-err :
      (db : Db) (r : Job) (e : Error)
      → find r.uuid db.jobs ≡ some r
      → is_claimable now r ≡ true
      → row_metadata r ≡ err e
      → claim_selected db r.uuid token now ≡ ok (after_isolation db r now, none)
  unfolding claim_selected claim_read job_row isolate_failed_metadata
  claim_selected-err db r e found free h = ground (arith, row_metadata-storage_io r e h)

  -- The test of the loop is the WHERE clause of the isolation, on an active row.
  pub test-is_claimable :
      (r : Job)
      → is_terminal r.state ≡ false
      → IsJobOk r
      → (is_queued r.state || has_expired r.lease_expires_at now) ≡ is_claimable now r
  test-is_claimable r a good = ground arith
