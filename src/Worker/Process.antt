-- ===== src/Worker/Process.antt =====
-- `retryAt` and `#process` of apps/worker/src/queue-worker.ts. What happens to the table meanwhile, by
-- others, are the calls that stand before each statement of the worker.
use Prim.Native.Nat.{min, max}
use cash_count.Base.{
  ℕ, ◌+◌, ◌-◌, ◌*◌, ◌^◌, Bool, true, false, not, Option, none, some, List, [], ◌∷◌, ◌++◌,
  if◌then◌else◌, exists,
}
use cash_count.Base.Int.{pos}
use cash_count.Base.Numbers.{integer, Instant}
use cash_count.Base.Results.{Result, ok, err, map_err}
use cash_count.Base.Text.{Text, text, text_eq}
use cash_count.Queue.Job.{JobTable, QueueError, lease_lost, queue_worker}
use cash_count.Queue.Calls.{Call, run}
use cash_count.Queue.Claim.{ClaimedJob}
use cash_count.Queue.Lease.{heartbeat, complete, fail}
use cash_count.Worker.Options.{Worker, JobFailure}

-- `scaled e` stands for `Math.round(e * (0.75 + random * 0.5))` in floating point.
unfoldable pub retry_delay : ℕ → (ℕ → ℕ) → ℕ
retry_delay attempts scaled =
    min 300000 (max 1000 (scaled (min 300000 (1000 * 2 ^ (attempts - 1)))))

unfoldable pub retry_at : Instant → ℕ → (ℕ → ℕ) → Instant
unfolding retry_delay
retry_at none attempts scaled = none
retry_at (some now) attempts scaled = some (now + retry_delay attempts scaled)

-- The codes that `#process` reports, with the job.
pub data Event : Type 0 where
  queue_lease_lost queue_heartbeat_failed queue_complete_failed queue_failure_record_failed :
      Text → Event

-- A statement that never reaches the database throws an error of its own: `none`.
abbrev pub statement : {A : Type 0} → Bool → Result QueueError A → Result (Option QueueError) A
statement true reply = map_err some reply
statement false reply = err none

abbrev pub reply_table :
    {A : Type 0} → JobTable → Result (Option QueueError) (A × JobTable) → JobTable
reply_table jobs (ok (a, after)) = after
reply_table jobs (err e) = jobs

abbrev pub is_lease_lost : Option QueueError → Bool
is_lease_lost none = false
is_lease_lost (some (lease_lost job)) = true
is_lease_lost (some _) = false

pub record Beat : Type 0 where
  pub others : List Call
  pub reaches : Bool
  pub now : Instant

-- Whether the lease was lost, what was reported, and the table.
abbrev pub Heard : Type 0
Heard = Bool × List Event × JobTable

unfoldable pub after_beat :
    Text → JobTable → Result (Option QueueError) (Option ℕ × JobTable) → Heard → Heard
after_beat job jobs (ok reply) rest = rest
after_beat job jobs (err e) rest =
    if is_lease_lost e
    then (true, queue_lease_lost job ∷ [], jobs)
    else (rest.0, queue_heartbeat_failed job ∷ rest.1, rest.2)

-- The loop of heartbeats while the handler runs.
unfoldable pub heartbeat_loop : Worker → Text → List Beat → JobTable → Heard
unfolding after_beat run heartbeat
heartbeat_loop w job [] jobs = (false, [], jobs)
heartbeat_loop w job (b ∷ bs) jobs =
    let before = run b.others jobs in
    let reply = statement b.reaches (
      heartbeat queue_worker job w.worker_id b.now (some (integer (pos w.lease_duration_ms)))
        before) in
    let rest = heartbeat_loop w job bs (reply_table before reply) in
    after_beat job before reply rest

-- How the handler ends; a thrown `undefined` counts as a return.
pub data HandlerOutcome : Type 0 where
  returned : HandlerOutcome
  threw_failure : JobFailure → HandlerOutcome
  threw_other : HandlerOutcome

pub record Execution : Type 0 where
  pub beats : List Beat
  pub outcome : HandlerOutcome
  pub others : List Call
  pub reaches : Bool
  pub now : Instant
  pub scaled : ℕ → ℕ

abbrev pub unexpected_failure : JobFailure
unexpected_failure = record {
  error_code = text "UNEXPECTED_HANDLER_ERROR";
  redacted_summary = text "Job handler failed unexpectedly.";
  retryable = false;
}

abbrev pub settled :
    {A : Type 0}
    → Text
    → (Text → Event)
    → JobTable
    → Result (Option QueueError) (A × JobTable)
    → List Event × JobTable
settled job event jobs (ok (a, after)) = ([], after)
settled job event jobs (err e) =
    ((if is_lease_lost e then queue_lease_lost job else event job) ∷ [], jobs)

unfoldable pub record_failure :
    Worker → ClaimedJob → Execution → JobFailure → JobTable → List Event × JobTable
unfolding retry_at fail
record_failure w job x failure jobs = settled job.id queue_failure_record_failed jobs (
    statement x.reaches (
      fail queue_worker
        (record {
          error_code = failure.error_code;
          job_id = job.id;
          now = x.now;
          redacted_summary = failure.redacted_summary;
          retry_at =
              if failure.retryable then some (retry_at x.now job.attempt_count x.scaled) else none;
          worker_id = w.worker_id;
        })
        jobs))

abbrev pub without_answer : Result QueueError JobTable → Result QueueError (Unit {0} × JobTable)
without_answer (ok jobs) = ok (tt, jobs)
without_answer (err e) = err e

-- What follows the handler and the heartbeats.
unfoldable pub settle :
    Worker → ClaimedJob → Execution → HandlerOutcome → JobTable → List Event × JobTable
unfolding record_failure complete
settle w job x returned jobs =
    settled job.id queue_complete_failed jobs
      (statement x.reaches (without_answer (complete queue_worker job.id w.worker_id x.now jobs)))
settle w job x (threw_failure failure) jobs = record_failure w job x failure jobs
settle w job x threw_other jobs = record_failure w job x unexpected_failure jobs

unfoldable pub process : Worker → ClaimedJob → Execution → JobTable → List Event × JobTable
unfolding heartbeat_loop settle run text_eq
process w job x jobs =
    let heard = heartbeat_loop w job.id x.beats jobs in
    let last = settle w job x x.outcome (run x.others heard.2) in
    if not (exists (text_eq job.job_type) w.job_types)
    then ([], jobs)
    else if heard.0
    then (heard.1, heard.2)
    else (heard.1 ++ last.0, last.1)
