-- ===== src/Queue/Lease.antt =====
-- `heartbeat`, `complete` and `fail` of packages/db/src/job-queue-repository.ts: what a worker may do
-- to a job while it holds an unexpired lease of it.
use Prim.Native.Nat.{max}
use cash_count.Base.{
  ℕ, Bool, false, not, ◌&&◌, ◌||◌, Option, none, some, List, [], ◌∷◌, ltb, leb, ◌==◌, if◌then◌else◌,
  length, every, exists,
}
use cash_count.Base.Text.{Text, text_eq, trim, is_control, is_digit, is_upper}
use cash_count.Base.Results.{Result, ok, err, guard, ◌>>=◌, ◌>>◌}
use cash_count.Base.Numbers.{JsNumber, Instant, require_instant}
use cash_count.Queue.Job.{
  JobStatus, succeeded, retry, dead, JobRow, JobTable, QueueError, invalid_instant,
  invalid_error_code, invalid_summary, retry_precedes_now, lease_lost, Capability,
  require_worker_capability, require_worker_id, is_running,
}
use cash_count.Queue.Sql.{update, returning}
use cash_count.Queue.Claim.{lease_expiry}

abbrev pub owned_by : Option Text → Text → Bool
owned_by none worker = false
owned_by (some w) worker = text_eq w worker

-- A comparison with NULL is not true.
abbrev pub at_or_before : Option ℕ → ℕ → Bool
at_or_before none t = false
at_or_before (some s) t = leb s t

abbrev pub after : Option ℕ → ℕ → Bool
after none t = false
after (some s) t = ltb t s

-- The `where` clause of the three statements.
unfoldable pub holds_lease : Text → Text → ℕ → JobRow → Bool
holds_lease job worker now r =
    text_eq r.id job
    && is_running r.status
    && owned_by r.locked_by worker
    && at_or_before r.heartbeat_at now
    && after r.lease_expires_at now

-- `greatest` of PostgreSQL passes over NULL.
abbrev pub greatest : Option ℕ → ℕ → ℕ
greatest none t = t
greatest (some s) t = max s t

unfoldable pub extend_lease : ℕ → ℕ → JobRow → JobRow
extend_lease now expires r = record r {
  heartbeat_at = some now;
  lease_expires_at = some (greatest r.lease_expires_at expires);
  updated_at = now;
}

-- The lease's new end, from the row that the statement returned.
unfoldable pub returned_expiry : Text → List JobRow → Result QueueError (Option ℕ)
returned_expiry job [] = err (lease_lost job)
returned_expiry job (r ∷ rs) = ok r.lease_expires_at

unfoldable pub heartbeat :
    Capability
    → Text
    → Text
    → Instant
    → Option JsNumber
    → JobTable
    → Result QueueError (Option ℕ × JobTable)
unfolding require_worker_capability require_worker_id lease_expiry returned_expiry
heartbeat capability job worker now duration jobs = do
  require_worker_capability capability
  require_worker_id worker
  lease ← lease_expiry now duration
  let hit = holds_lease job worker lease.0
  let change = extend_lease lease.0 lease.1
  expiry ← returned_expiry job (returning hit change jobs)
  ok (expiry, update hit change jobs)

unfoldable pub finish : ℕ → JobRow → JobRow
finish now r = record r {
  status = succeeded;
  finished_at = some now;
  locked_at = none;
  locked_by = none;
  heartbeat_at = none;
  lease_expires_at = none;
  updated_at = now;
}

-- `rowCount !== 1` is lease loss.
unfoldable pub returned_once : Text → List JobRow → Result QueueError (Unit {0})
returned_once job rows = guard (length rows == 1) (lease_lost job)

unfoldable pub complete : Capability → Text → Text → Instant → JobTable → Result QueueError JobTable
unfolding require_worker_capability require_worker_id require_instant returned_once
complete capability job worker now jobs = do
  require_worker_capability capability
  require_worker_id worker
  t ← require_instant invalid_instant now
  let hit = holds_lease job worker t
  returned_once job (returning hit (finish t) jobs)
  ok (update hit (finish t) jobs)

pub record FailInput : Type 0 where
  pub error_code : Text
  pub job_id : Text
  pub now : Instant
  pub redacted_summary : Text
  pub retry_at : Option Instant
  pub worker_id : Text

-- `/^[A-Z][A-Z0-9_]{0,99}$/`
unfoldable pub is_error_code : Text → Bool
is_error_code [] = false
is_error_code (c ∷ cs) =
    is_upper c && every (λ d. is_upper d || is_digit d || d == b'_') cs && leb (length cs) 99

unfoldable pub is_summary : Text → Bool
is_summary s =
    text_eq (trim s) s && not (text_eq s []) && leb (length s) 1000 && not (exists is_control s)

unfoldable pub validate_retry : ℕ → Option Instant → Result QueueError (Option ℕ)
unfolding require_instant
validate_retry now none = ok none
validate_retry now (some at) = do
  t ← require_instant invalid_instant at
  guard (leb now t) retry_precedes_now
  ok (some t)

-- The valid instants of the request.
unfoldable pub validate_failure : FailInput → Result QueueError (ℕ × Option ℕ)
unfolding require_worker_id require_instant validate_retry
validate_failure input = do
  require_worker_id input.worker_id
  now ← require_instant invalid_instant input.now
  guard (is_error_code input.error_code) invalid_error_code
  guard (is_summary input.redacted_summary) invalid_summary
  retry_at ← validate_retry now input.retry_at
  ok (now, retry_at)

-- The end of an attempt that failed: another one at `at`, or none.
abbrev pub fail_to : ℕ → Option ℕ → JobRow → JobRow
fail_to now (some at) r = record r { status = retry; available_at = at; finished_at = none }
fail_to now none r = record r { status = dead; finished_at = some now }

unfoldable pub end_attempt : ℕ → Option ℕ → Text → Text → JobRow → JobRow
end_attempt now retry_at code summary r =
    record (fail_to now (if ltb r.attempt_count r.max_attempts then retry_at else none) r) {
      locked_at = none;
      locked_by = none;
      heartbeat_at = none;
      lease_expires_at = none;
      last_error_code = some code;
      last_error_summary = some summary;
      updated_at = now;
    }

unfoldable pub returned_status : Text → List JobRow → Result QueueError JobStatus
returned_status job [] = err (lease_lost job)
returned_status job (r ∷ rs) = ok r.status

unfoldable pub fail : Capability → FailInput → JobTable → Result QueueError (JobStatus × JobTable)
unfolding require_worker_capability validate_failure returned_status
fail capability input jobs = do
  require_worker_capability capability
  valid ← validate_failure input
  let hit = holds_lease input.job_id input.worker_id valid.0
  let change = end_attempt valid.0 valid.1 input.error_code input.redacted_summary
  status ← returned_status input.job_id (returning hit change jobs)
  ok (status, update hit change jobs)
