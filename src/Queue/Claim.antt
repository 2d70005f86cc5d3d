-- ===== src/Queue/Claim.antt =====
-- `claim` of packages/db/src/job-queue-repository.ts. `locked` tells which rows another transaction
-- holds, which `for update skip locked` passes over.
use cash_count.Base.{
  ℕ, ◌+◌, Bool, true, not, ◌&&◌, ◌||◌, Option, none, some, List, [], ◌∷◌, ltb, leb, ◌==◌, length,
  every, filter, head?,
}
use cash_count.Base.Text.{Text, text_eq, text_leb}
use cash_count.Base.Results.{Result, ok, guard, ◌>>=◌, ◌>>◌}
use cash_count.Base.Sorting.{sort_by}
use cash_count.Base.Int.{ltb_ℤ}
use cash_count.Base.Numbers.{JsNumber, require_between, Instant, require_instant}
use cash_count.Base.Int.{ℤ}
use cash_count.Queue.Job.{
  running, Payload, JobRow, JobTable, is_queue_job_type, QueueError, invalid_instant,
  invalid_job_types, invalid_lease_duration, Capability, require_worker_capability,
  require_worker_id, is_waiting,
}
use cash_count.Queue.Sql.{update, returning}

-- A duration left out is two minutes.
unfoldable pub lease_milliseconds : Option JsNumber → Result QueueError ℕ
unfolding require_between
lease_milliseconds none = ok 120000
lease_milliseconds (some d) = require_between 1000 900000 d invalid_lease_duration

-- The instant and the end of a lease that begins then.
unfoldable pub lease_expiry : Instant → Option JsNumber → Result QueueError (ℕ × ℕ)
unfolding lease_milliseconds require_instant
lease_expiry now duration = do
  t ← require_instant invalid_instant now
  ms ← lease_milliseconds duration
  ok (t, t + ms)

pub record ClaimInput : Type 0 where
  pub job_types : Option (List Text)
  pub lease_duration_ms : Option JsNumber
  pub now : Instant
  pub worker_id : Text

pub record ClaimedJob : Type 0 where
  pub attempt_count : ℕ
  pub available_at : ℕ
  pub dedupe_key : Option Text
  pub heartbeat_at : Option ℕ
  pub id : Text
  pub job_type : Text
  pub lease_expires_at : Option ℕ
  pub max_attempts : ℕ
  pub payload : Payload
  pub priority : ℤ
  pub started_at : Option ℕ
  pub workspace_id : Option Text

unfoldable pub claimed_job : JobRow → ClaimedJob
claimed_job r = record {
  attempt_count = r.attempt_count;
  available_at = r.available_at;
  dedupe_key = r.dedupe_key;
  heartbeat_at = r.heartbeat_at;
  id = r.id;
  job_type = r.job_type;
  lease_expires_at = r.lease_expires_at;
  max_attempts = r.max_attempts;
  payload = r.payload;
  priority = r.priority;
  started_at = r.started_at;
  workspace_id = r.workspace_id;
}

unfoldable pub validate_job_types : Option (List Text) → Result QueueError (Unit {0})
validate_job_types none = ok tt
validate_job_types (some types) =
    guard (leb 1 (length types) && every is_queue_job_type types) invalid_job_types

-- `$4 is null or job_type = any($4)`
abbrev pub serves : Option (List Text) → Text → Bool
serves none t = true
serves (some types) t = not (every (λ u. not (text_eq u t)) types)

unfoldable pub is_claimable : ℕ → Option (List Text) → JobRow → Bool
is_claimable now types r =
    is_waiting r.status
    && leb r.available_at now
    && ltb r.attempt_count r.max_attempts
    && serves types r.job_type

-- `order by priority desc, created_at, id`
unfoldable pub claim_order : JobRow → JobRow → Bool
claim_order r s =
    ltb_ℤ s.priority r.priority
    || (not (ltb_ℤ r.priority s.priority)
        && (ltb r.created_at s.created_at || (r.created_at == s.created_at && text_leb r.id s.id)))

abbrev pub coalesce : Option ℕ → ℕ → ℕ
coalesce none t = t
coalesce (some s) t = s

unfoldable pub start_attempt : ℕ → Text → ℕ → JobRow → JobRow
start_attempt now worker expires r = record r {
  status = running;
  locked_at = some now;
  locked_by = some worker;
  started_at = some (coalesce r.started_at now);
  heartbeat_at = some now;
  lease_expires_at = some expires;
  finished_at = none;
  attempt_count = r.attempt_count + 1;
  updated_at = now;
}

-- The rows that the statement may lock, in its order.
unfoldable pub claim_candidates : (JobRow → Bool) → ℕ → Option (List Text) → JobTable → List JobRow
claim_candidates locked now types jobs =
    sort_by claim_order (filter (λ r. is_claimable now types r && not (locked r)) jobs)

unfoldable pub first_claimed : List JobRow → Option ClaimedJob
first_claimed [] = none
first_claimed (r ∷ rs) = some (claimed_job r)

unfoldable pub claim_candidate :
    ℕ → Text → ℕ → Option JobRow → JobTable → Option ClaimedJob × JobTable
unfolding first_claimed
claim_candidate now worker expires none jobs = (none, jobs)
claim_candidate now worker expires (some candidate) jobs =
    let hit = λ (r : JobRow). text_eq r.id candidate.id in
    let change = start_attempt now worker expires in
    (first_claimed (returning hit change jobs), update hit change jobs)

unfoldable pub claim :
    (JobRow → Bool)
    → Capability
    → ClaimInput
    → JobTable
    → Result QueueError (Option ClaimedJob × JobTable)
unfolding require_worker_capability require_worker_id validate_job_types lease_expiry
    claim_candidate
claim locked capability input jobs = do
  require_worker_capability capability
  require_worker_id input.worker_id
  validate_job_types input.job_types
  lease ← lease_expiry input.now input.lease_duration_ms
  ok (
      claim_candidate lease.0 input.worker_id lease.1
        (head? (claim_candidates locked lease.0 input.job_types jobs)) jobs)
