-- ===== src/Jobs.antt =====
-- storage/jobs.py, storage/job_ownership.py and storage/job_retention.py: durable jobs, the leases
-- under which workers run them, the ownership of the blobs they publish, and their retention.
pub mod Table
pub mod Ownership
pub mod Lease
pub mod Admin
pub mod Rows
pub mod Invariant
pub mod Fencing
pub mod Consistency
pub mod Claiming
pub mod Scanning
pub mod Batch
pub mod Stale
pub mod Reach
pub mod Locator
pub mod Retention
pub mod Page
pub mod Ordering
pub mod Paging
pub mod Purge
pub mod PurgeLaws
pub mod Upkeep
pub mod Rotation
mod Tests
