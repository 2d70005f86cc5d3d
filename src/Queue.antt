-- ===== src/Queue.antt =====
-- The durable job queue: packages/db/src/job-queue-insert.ts, packages/db/src/job-queue-repository.ts
-- and the table `job_queue` of packages/db/src/schema.ts.
pub mod Job
pub mod Sql
pub mod Payload
pub mod Insert
pub mod Claim
pub mod Lease
pub mod Reclaim
pub mod Distinct
pub mod Moves
pub mod Calls
pub mod Invariant
pub mod Exclusive
pub mod Selection
pub mod Progress
pub mod Duplicates
pub mod Dedupe
pub mod Repeats
mod Tests
