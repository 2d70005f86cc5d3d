-- ===== src/Worker/Ends.antt =====
-- How a job ends that its worker held to the end of the handler.
use mathlib.Core.List.{Memᴰ}
use cash_count.Base.{
  ℕ, ◌+◌, ◌≤◌, ◌<◌, ◌≡◌, refl, ◌∙◌, Bool, true, false, ◌&&◌, Option, none, some, [], ◌∷◌, arith,
  All, if◌then◌else◌, Bool-cases, inl, inr, ltb, leb, exists,
}
use cash_count.Base.Results.{ok}
use cash_count.Base.Text.{text_eq, trim, is_control}
use cash_count.Queue.Job.{succeeded, retry, dead, JobRow, JobTable}
use cash_count.Queue.Sql.{update, returning}
use cash_count.Queue.Claim.{ClaimedJob}
use cash_count.Queue.Lease.{
  holds_lease, fail_to, finish, end_attempt, complete, FailInput, validate_failure, is_error_code,
  is_summary,
}
use cash_count.Queue.Exclusive.{IsForeign}
use cash_count.Queue.Invariant.{TableInv}
use cash_count.Worker.Options.{Worker, JobFailure}
use cash_count.Worker.Process.{
  heartbeat_loop, Execution, HandlerOutcome, returned, threw_failure, threw_other, record_failure,
  settle, process, retry_delay, retry_at, unexpected_failure,
}
use cash_count.Worker.Retries.{IsWorker, retry_delay_bounds}
use cash_count.Worker.Held.{IsHeld, run-IsHeld}
use cash_count.Worker.Settles.{Timely, SameAttempt, heartbeat_loop-Kept, holds_now}

-- How the job stands after its attempt.
abbrev AfterFailure : ℕ → JobFailure → JobRow → JobRow → Type 0
AfterFailure now failure r s =
    if failure.retryable && ltb r.attempt_count r.max_attempts
    then (s.status ≡ retry) × (now + 1000 ≤ s.available_at) × (s.available_at ≤ now + 300000)
    else (s.status ≡ dead)

abbrev pub EndsAs : ℕ → HandlerOutcome → JobRow → JobRow → Type 0
EndsAs now returned r s = s.status ≡ succeeded
EndsAs now (threw_failure failure) r s = AfterFailure now failure r s
EndsAs now threw_other r s = s.status ≡ dead

-- A failure as its constructor admits it.
abbrev pub IsFailure : JobFailure → Type 0
IsFailure f = (is_error_code f.error_code ≡ true) × (is_summary f.redacted_summary ≡ true)

abbrev pub HasForm : HandlerOutcome → Type 0
HasForm returned = Unit
HasForm (threw_failure failure) = IsFailure failure
HasForm threw_other = Unit

unexpected_failure-IsFailure : IsFailure unexpected_failure
unfolding is_error_code is_summary trim text_eq is_control
unexpected_failure-IsFailure = (refl, refl)

abbrev fail_input : Worker → ClaimedJob → Execution → JobFailure → FailInput
unfolding retry_at
fail_input w job x failure = record {
  error_code = failure.error_code;
  job_id = job.id;
  now = x.now;
  redacted_summary = failure.redacted_summary;
  retry_at = if failure.retryable then some (retry_at x.now job.attempt_count x.scaled) else none;
  worker_id = w.worker_id;
}

-- What the request comes to: a time in the bounds if the failure may be retried.
abbrev Retries : ℕ → Bool → Option ℕ → Type 0
Retries now true none = ⊥
Retries now true (some t) = (now + 1000 ≤ t) × (t ≤ now + 300000)
Retries now false none = Unit
Retries now false (some t) = ⊥

never_before : (now delay : ℕ) → leb now (now + delay) ≡ true
never_before now delay = ground arith

fail_input_valid :
    (w : Worker) (job : ClaimedJob) (x : Execution) (failure : JobFailure) (now : ℕ)
    → IsWorker w
    → IsFailure failure
    → x.now ≡ some now
    → (at : Option ℕ) × (validate_failure (fail_input w job x failure) ≡ ok (now, at))
      × Retries now failure.retryable at
unfolding validate_failure fail_input
fail_input_valid w job x failure now valid form at = elim (Bool-cases failure.retryable) [
  | inl e ↦
      let delay = retry_delay job.attempt_count x.scaled in
      let (low, high) = retry_delay_bounds job.attempt_count x.scaled in
      (
        some (now + delay),
        rw (valid.name, at, form.0, form.1, e, never_before now delay) refl,
        rw e (omega (arith, low), omega (arith, high)),
      )
  | inr e ↦ (none, rw (valid.name, at, form.0, form.1, e) refl, rw e tt)
]

end_attempt-AfterFailure :
    (now : ℕ) (at : Option ℕ) (failure : JobFailure) (r : JobRow)
    → Retries now failure.retryable at
    → AfterFailure now failure r (end_attempt now at failure.error_code failure.redacted_summary r)
unfolding end_attempt
end_attempt-AfterFailure now at failure r h =
    by_case failure.retryable (ltb r.attempt_count r.max_attempts) at h
  where
    by_case :
        (b c : Bool) (at : Option ℕ)
        → Retries now b at
        → if b && c
          then ((fail_to now (if c then at else none) r).status ≡ retry)
            × (now + 1000 ≤ (fail_to now (if c then at else none) r).available_at)
            × ((fail_to now (if c then at else none) r).available_at ≤ now + 300000)
          else ((fail_to now (if c then at else none) r).status ≡ dead)
    by_case true true none k = absurd k
    by_case true true (some t) k = (refl, k.0, k.1)
    by_case true false at k = refl
    by_case false true none k = refl
    by_case false true (some t) k = absurd k
    by_case false false at k = refl

end_attempt-id :
    (now : ℕ) (at : Option ℕ) (failure : JobFailure) (r : JobRow)
    → (end_attempt now at failure.error_code failure.redacted_summary r).id ≡ r.id
unfolding end_attempt
end_attempt-id now at failure r =
    fail_to-id (if ltb r.attempt_count r.max_attempts then at else none)
  where
    fail_to-id : (next : Option ℕ) → (fail_to now next r).id ≡ r.id
    fail_to-id none = refl
    fail_to-id (some t) = refl

settled_by_failure :
    (w : Worker) (job : ClaimedJob) (x : Execution) (failure : JobFailure) (now last end : ℕ)
    (r : JobRow) (jobs : JobTable)
    → IsWorker w
    → IsFailure failure
    → TableInv jobs
    → IsHeld job.id w.worker_id last end r
    → Memᴰ r jobs
    → x.reaches ≡ true
    → x.now ≡ some now
    → last ≤ now
    → now < end
    → (s : JobRow) × (s.id ≡ job.id)
      × AfterFailure now failure r s
      × Memᴰ s (record_failure w job x failure jobs).1
unfolding record_failure fail_input
settled_by_failure w job x failure now last end r jobs valid form v h m reaches at le lt =
    let (next, request, bounds) = fail_input_valid w job x failure now valid form at in
    let change = end_attempt now next failure.error_code failure.redacted_summary in
    let (rows, moved) = holds_now w now change jobs v h le lt m in
    (
      change r,
      end_attempt-id now next failure r ∙ h.id,
      end_attempt-AfterFailure now next failure r bounds,
      answered next request rows moved,
    )
  where
    answered :
        (next : Option ℕ)
        → validate_failure (fail_input w job x failure) ≡ ok (now, next)
        → returning
            (holds_lease job.id w.worker_id now)
            (end_attempt now next failure.error_code failure.redacted_summary)
            jobs
          ≡ end_attempt now next failure.error_code failure.redacted_summary r ∷ []
        → Memᴰ (end_attempt now next failure.error_code failure.redacted_summary r) (
            update
              (holds_lease job.id w.worker_id now)
              (end_attempt now next failure.error_code failure.redacted_summary)
              jobs)
        → Memᴰ
            (end_attempt now next failure.error_code failure.redacted_summary r)
            (record_failure w job x failure jobs).1
    answered next request rows moved = rw (reaches, request, rows) moved

EndsAs-SameAttempt :
    (now : ℕ) (outcome : HandlerOutcome) (r s z : JobRow)
    → SameAttempt r s
    → EndsAs now outcome s z
    → EndsAs now outcome r z
EndsAs-SameAttempt now returned r s z same e = e
EndsAs-SameAttempt now (threw_failure failure) r s z same e = rw (← same.0, ← same.1) e
EndsAs-SameAttempt now threw_other r s z same e = e

settle-EndsAs :
    (w : Worker) (job : ClaimedJob) (x : Execution) (outcome : HandlerOutcome) (now last end : ℕ)
    (r : JobRow) (jobs : JobTable)
    → IsWorker w
    → HasForm outcome
    → TableInv jobs
    → IsHeld job.id w.worker_id last end r
    → Memᴰ r jobs
    → x.reaches ≡ true
    → x.now ≡ some now
    → last ≤ now
    → now < end
    → (s : JobRow) × (s.id ≡ job.id)
      × EndsAs now outcome r s
      × Memᴰ s (settle w job x outcome jobs).1
unfolding settle complete finish
settle-EndsAs w job x returned now last end r jobs valid form v h m reaches at le lt =
    let (rows, moved) = holds_now w now (finish now) jobs v h le lt m in
    (finish now r, h.id, refl, rw (reaches, at, valid.name, rows) moved)
settle-EndsAs w job x (threw_failure failure) now last end r jobs valid form v h m reaches at le
      lt =
    settled_by_failure w job x failure now last end r jobs valid form v h m reaches at le lt
settle-EndsAs w job x threw_other now last end r jobs valid form v h m reaches at le lt =
    settled_by_failure w job x unexpected_failure now last end r jobs valid
      unexpected_failure-IsFailure v h m reaches at le lt

-- A worker that holds a job and keeps its lease, whatever others do meanwhile, ends it as the handler
-- did: a return makes it succeed, a failure that may be retried starts the next attempt one second to
-- five minutes later while attempts are left, and any other failure is final.
pub process-EndsAs :
    (w : Worker) (job : ClaimedJob) (x : Execution) (now beat until last end : ℕ) (r : JobRow)
    (jobs : JobTable)
    → IsWorker w
    → exists (text_eq job.job_type) w.job_types ≡ true
    → HasForm x.outcome
    → TableInv jobs
    → IsHeld job.id w.worker_id beat until r
    → Memᴰ r jobs
    → Timely w beat until x.beats last end
    → All (IsForeign w.worker_id end) x.others
    → x.reaches ≡ true
    → x.now ≡ some now
    → last ≤ now
    → now < end
    → (s : JobRow) × (s.id ≡ job.id) × EndsAs now x.outcome r s × Memᴰ s (process w job x jobs).1
unfolding process
process-EndsAs w job x now beat until last end r jobs valid handled form v h m timely foreign
      reaches at le lt =
    let (kept, inv, (held, is_held, same, among)) = heartbeat_loop-Kept w jobs valid timely v h m in
    let (inv', still) =
      run-IsHeld x.others (heartbeat_loop w job.id x.beats jobs).2 inv foreign is_held among in
    let (s, id, ends, stands) =
      settle-EndsAs w job x x.outcome now last end held _ valid form inv' is_held still reaches at
        le lt in
    (s, id, EndsAs-SameAttempt now x.outcome r held s same ends, rw (handled, kept) stands)
