-- ===== src/Queue/Reclaim.antt =====
-- `reclaimExpired` of packages/db/src/job-queue-repository.ts. It runs in one transaction, so an error
-- leaves the table as it was. `locked` tells which rows another transaction holds.
use Prim.Native.Nat.{min}
use cash_count.Base.{
  ℕ, ◌+◌, ◌-◌, ◌*◌, ◌^◌, Bool, true, false, not, ◌&&◌, ◌||◌, Option, none, some, List, [], ◌∷◌,
  ◌++◌, ltb, leb, ◌==◌, if◌then◌else◌, filter, take,
}
use cash_count.Base.Text.{Text, text, text_eq, text_leb}
use cash_count.Base.Results.{Result, ok, guard, ◌>>=◌, ◌>>◌}
use cash_count.Base.Sorting.{sort_by}
use cash_count.Base.Numbers.{JsNumber, require_between, Instant, require_instant}
use cash_count.Queue.Job.{
  JobStatus, retry, dead, JobRow, JobTable, QueueError, invalid_instant, retry_precedes_now,
  invalid_reclaim_limit, Capability, require_worker_capability, is_running,
}
use cash_count.Queue.Sql.{update, returning}

pub record ReclaimInput : Type 0 where
  pub limit : Option JsNumber
  pub now : Instant
  pub retry_at_for_attempt : Option (ℕ → Instant)

pub record ReclaimedJob : Type 0 where
  pub attempt_count : ℕ
  pub id : Text
  pub status : JobStatus

-- Powers of two are exact in a JavaScript number at the counts that the table admits.
unfoldable pub default_reclaim_retry_at : ℕ → ℕ → Instant
default_reclaim_retry_at now attempt = some (now + min 300000 (1000 * 2 ^ (attempt - 1)))

abbrev expired_at : Option ℕ → ℕ → Bool
expired_at none now = false
expired_at (some t) now = leb t now

unfoldable pub is_expired : ℕ → JobRow → Bool
is_expired now r = is_running r.status && expired_at r.lease_expires_at now

abbrev lease_leb : Option ℕ → Option ℕ → Text → Text → Bool
lease_leb (some s) (some t) i j = ltb s t || (s == t && text_leb i j)
lease_leb (some s) none i j = true
lease_leb none (some t) i j = false
lease_leb none none i j = text_leb i j

-- `order by lease_expires_at, id`
unfoldable pub expiry_order : JobRow → JobRow → Bool
expiry_order r s = lease_leb r.lease_expires_at s.lease_expires_at r.id s.id

unfoldable pub expired_rows : (JobRow → Bool) → ℕ → ℕ → JobTable → List JobRow
unfolding is_expired
expired_rows locked now limit jobs =
    take limit (sort_by expiry_order (filter (λ r. is_expired now r && not (locked r)) jobs))

abbrev pub is_exhausted : JobRow → Bool
is_exhausted r = leb r.max_attempts r.attempt_count

-- Both arms of the `case` expressions of the statement.
unfoldable pub reclaim_row : ℕ → Bool → ℕ → JobRow → JobRow
reclaim_row now is_dead retry_at r = record r {
  status = if is_dead then dead else retry;
  available_at = if is_dead then r.available_at else retry_at;
  finished_at = if is_dead then some now else none;
  locked_at = none;
  locked_by = none;
  heartbeat_at = none;
  lease_expires_at = none;
  last_error_code = some (text "LEASE_EXPIRED");
  last_error_summary = some (text "Worker lease expired before completion.");
  updated_at = now;
}

-- When the next attempt may start: the caller's choice, or exponential backoff.
unfoldable pub choose_retry : Option (ℕ → Instant) → ℕ → JobRow → Instant
unfolding default_reclaim_retry_at
choose_retry none now r = default_reclaim_retry_at now r.attempt_count
choose_retry (some policy) now r = policy r.attempt_count

unfoldable pub retry_time : Option (ℕ → Instant) → ℕ → JobRow → Result QueueError ℕ
unfolding choose_retry require_instant
retry_time policy now r = do
  t ←
      require_instant invalid_instant
        (if is_exhausted r then some now else choose_retry policy now r)
  guard (leb now t) retry_precedes_now
  ok t

abbrev pub reclaimed_of : List JobRow → List ReclaimedJob
reclaimed_of [] = []
reclaimed_of (r ∷ rs) =
    record { attempt_count = r.attempt_count; id = r.id; status = r.status } ∷ []

unfoldable pub is_running_job : Text → JobRow → Bool
is_running_job job r = text_eq r.id job && is_running r.status

-- The loop over the selected rows.
unfoldable pub reclaim_loop :
    Option (ℕ → Instant)
    → ℕ
    → List JobRow
    → JobTable
    → Result QueueError (List ReclaimedJob × JobTable)
unfolding retry_time
reclaim_loop policy now [] jobs = ok ([], jobs)
reclaim_loop policy now (row ∷ rows) jobs = do
  t ← retry_time policy now row
  let hit = is_running_job row.id
  let change = reclaim_row now (is_exhausted row) t
  rest ← reclaim_loop policy now rows (update hit change jobs)
  ok (reclaimed_of (returning hit change jobs) ++ rest.0, rest.1)

unfoldable pub reclaim_limit : Option JsNumber → Result QueueError ℕ
unfolding require_between
reclaim_limit none = ok 100
reclaim_limit (some n) = require_between 1 1000 n invalid_reclaim_limit

unfoldable pub reclaim_expired :
    (JobRow → Bool)
    → Capability
    → ReclaimInput
    → JobTable
    → Result QueueError (List ReclaimedJob × JobTable)
unfolding require_worker_capability require_instant reclaim_limit
reclaim_expired locked capability input jobs = do
  require_worker_capability capability
  now ← require_instant invalid_instant input.now
  limit ← reclaim_limit input.limit
  reclaim_loop input.retry_at_for_attempt now (expired_rows locked now limit jobs) jobs
