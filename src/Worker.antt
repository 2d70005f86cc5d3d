-- ===== src/Worker.antt =====
-- The worker of apps/worker/src/queue-worker.ts over the modelled job queue.
pub mod Options
pub mod Process
pub mod Retries
pub mod Held
pub mod Settles
pub mod Ends
mod Tests
