-- ===== src/Worker/Options.antt =====
-- The constructors of apps/worker/src/queue-worker.ts: a worker with its options, and the failure that a
-- handler reports.
use cash_count.Base.{ℕ, Bool, Option, none, some, List, ltb, every}
use cash_count.Base.Numbers.{JsNumber, require_between}
use cash_count.Base.Results.{Result, ok, guard, ◌>>=◌, ◌>>◌}
use cash_count.Base.Text.{Text}
use cash_count.Queue.Job.{is_queue_job_type, is_worker_id}
use cash_count.Queue.Lease.{is_error_code, is_summary}

pub data WorkerError : Type 0 where
  invalid_concurrency invalid_heartbeat_interval invalid_lease invalid_poll_interval : WorkerError
  heartbeat_too_long invalid_worker unsupported_handler : WorkerError
  invalid_failure_code invalid_failure_summary : WorkerError

-- The handlers by their keys.
pub record WorkerOptions : Type 0 where
  pub concurrency : Option JsNumber
  pub handlers : List Text
  pub heartbeat_interval_ms : Option JsNumber
  pub lease_duration_ms : Option JsNumber
  pub poll_interval_ms : Option JsNumber
  pub worker_id : Text

pub record Worker : Type 0 where
  pub concurrency : ℕ
  pub job_types : List Text
  pub heartbeat_interval_ms : ℕ
  pub lease_duration_ms : ℕ
  pub poll_interval_ms : ℕ
  pub worker_id : Text

-- `requireBoundedInteger` of a value or its default.
unfoldable pub bounded_integer : ℕ → ℕ → ℕ → Option JsNumber → WorkerError → Result WorkerError ℕ
unfolding require_between
bounded_integer default lo hi none e = ok default
bounded_integer default lo hi (some n) e = require_between lo hi n e

unfoldable pub create_worker : WorkerOptions → Result WorkerError Worker
unfolding bounded_integer is_worker_id is_queue_job_type
create_worker options = do
  concurrency ← bounded_integer 4 1 64 options.concurrency invalid_concurrency
  heartbeat ←
      bounded_integer 30000 1 300000 options.heartbeat_interval_ms invalid_heartbeat_interval
  lease ← bounded_integer 120000 1000 900000 options.lease_duration_ms invalid_lease
  poll ← bounded_integer 1000 1 60000 options.poll_interval_ms invalid_poll_interval
  guard (ltb heartbeat lease) heartbeat_too_long
  guard (is_worker_id options.worker_id) invalid_worker
  guard (every is_queue_job_type options.handlers) unsupported_handler
  ok (record {
    concurrency = concurrency;
    job_types = options.handlers;
    heartbeat_interval_ms = heartbeat;
    lease_duration_ms = lease;
    poll_interval_ms = poll;
    worker_id = options.worker_id;
  })

pub record JobFailure : Type 0 where
  pub error_code : Text
  pub redacted_summary : Text
  pub retryable : Bool

-- `new QueueJobFailure`
unfoldable pub job_failure : Text → Text → Bool → Result WorkerError JobFailure
unfolding is_error_code is_summary
job_failure code summary retryable = do
  guard (is_error_code code) invalid_failure_code
  guard (is_summary summary) invalid_failure_summary
  ok (record { error_code = code; redacted_summary = summary; retryable = retryable })
