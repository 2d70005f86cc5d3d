-- ===== src/Queue/Calls/LeaseMoves.antt =====
-- Heartbeats, completions and failures move only the row whose lease the worker holds.
use cash_count.Base.{ℕ, ◌≡◌, refl, true, Option, some, [], ◌∷◌, arith, All}
use cash_count.Base.Text.{Text}
use cash_count.Base.Results.{Result, ok, err, guard, >>=-eq-ok}
use cash_count.Base.Numbers.{JsNumber, Instant, require_instant}
use cash_count.Queue.Job.{
  JobStatus, JobRow, JobTable, QueueError, Capability, require_worker_id, require_worker_capability,
  invalid_instant, invalid_summary, invalid_error_code,
}
use cash_count.Queue.Sql.{update, returning}
use cash_count.Queue.Claim.{lease_expiry}
use cash_count.Queue.Lease.{
  holds_lease, extend_lease, finish, end_attempt, heartbeat, complete, FailInput, fail,
  returned_expiry, returned_once, returned_status, validate_failure, validate_retry, is_summary,
  is_error_code,
}
use cash_count.Queue.Moves.{extends, finishes, ends, TableMove, stays_all, update-TableMove}
use cash_count.Queue.Calls.{table_after, table_or, instant_or_zero}
use cash_count.Queue.Calls.ClaimMoves.{guard-ok, require_instant_lem, lease_expiry_lem}

always {ℓ} : {P : JobRow → Type ℓ} → ((r : JobRow) → P r) → (jobs : JobTable) → All P jobs
always f [] = tt
always f (r ∷ rs) = (f r, always f rs)

pub heartbeat_ok :
    (capability : Capability) (job worker : Text) (now : Instant) (duration : Option JsNumber)
    (jobs : JobTable) (out : Option ℕ × JobTable)
    → heartbeat capability job worker now duration jobs ≡ ok out
    → (lease : ℕ × ℕ) × (now ≡ some lease.0)
      × (returned_expiry job
            (returning (holds_lease job worker lease.0) (extend_lease lease.0 lease.1) jobs)
          ≡ ok out.0)
      × (update (holds_lease job worker lease.0) (extend_lease lease.0 lease.1) jobs ≡ out.1)
unfolding heartbeat
heartbeat_ok capability job worker now duration jobs out h =
    let (_, _, h1) = >>=-eq-ok (require_worker_capability capability) _ h in
    let (_, _, h2) = >>=-eq-ok (require_worker_id worker) _ h1 in
    let (lease, e, h3) = >>=-eq-ok (lease_expiry now duration) _ h2 in
    let rows = returning (holds_lease job worker lease.0) (extend_lease lease.0 lease.1) jobs in
    let (expiry, k, h4) = >>=-eq-ok (returned_expiry job rows) _ h3 in
    (lease, (lease_expiry_lem now duration lease e).0, cc, cc)

pub heartbeat-TableMove :
    (capability : Capability) (job worker : Text) (now : Instant) (duration : Option JsNumber)
    (jobs : JobTable)
    → TableMove worker
        (instant_or_zero now)
        jobs
        (table_after jobs (heartbeat capability job worker now duration jobs))
heartbeat-TableMove capability job worker now duration jobs =
    go (heartbeat capability job worker now duration jobs) refl
  where
    go :
        (result : Result QueueError (Option ℕ × JobTable))
        → heartbeat capability job worker now duration jobs ≡ result
        → TableMove worker (instant_or_zero now) jobs (table_after jobs result)
    go (err e) h = stays_all worker (instant_or_zero now) jobs
    go (ok out) h =
        let (lease, e, _, k) = heartbeat_ok capability job worker now duration jobs out h in
        rw (e, ← k)
          (update-TableMove worker lease.0 _ _ jobs
            (always (λ r held. extends r job lease.1 held) jobs))

pub complete_ok :
    (capability : Capability) (job worker : Text) (now : Instant) (jobs after : JobTable)
    → complete capability job worker now jobs ≡ ok after
    → (t : ℕ) × (now ≡ some t)
      × (returned_once job (returning (holds_lease job worker t) (finish t) jobs) ≡ ok tt)
      × (update (holds_lease job worker t) (finish t) jobs ≡ after)
unfolding complete
complete_ok capability job worker now jobs after h =
    let (_, _, h1) = >>=-eq-ok (require_worker_capability capability) _ h in
    let (_, _, h2) = >>=-eq-ok (require_worker_id worker) _ h1 in
    let (t, e, h3) = >>=-eq-ok (require_instant invalid_instant now) _ h2 in
    let rows = returning (holds_lease job worker t) (finish t) jobs in
    let (_, k, h4) = >>=-eq-ok (returned_once job rows) _ h3 in
    (t, require_instant_lem invalid_instant now e, k, cc)

pub complete-TableMove :
    (capability : Capability) (job worker : Text) (now : Instant) (jobs : JobTable)
    → TableMove worker
        (instant_or_zero now)
        jobs
        (table_or jobs (complete capability job worker now jobs))
complete-TableMove capability job worker now jobs =
    go (complete capability job worker now jobs) refl
  where
    go :
        (result : Result QueueError JobTable)
        → complete capability job worker now jobs ≡ result
        → TableMove worker (instant_or_zero now) jobs (table_or jobs result)
    go (err e) h = stays_all worker (instant_or_zero now) jobs
    go (ok after) h =
        let (t, e, _, k) = complete_ok capability job worker now jobs after h in
        rw (e, ← k)
          (update-TableMove worker t _ _ jobs (always (λ r held. finishes r job held) jobs))

pub validate_failure_ok :
    (input : FailInput) (valid : ℕ × Option ℕ)
    → validate_failure input ≡ ok valid
    → (input.now ≡ some valid.0) × (is_summary input.redacted_summary ≡ true)
unfolding validate_failure
validate_failure_ok input valid h =
    let (_, _, h1) = >>=-eq-ok (require_worker_id input.worker_id) _ h in
    let (now, e, h2) = >>=-eq-ok (require_instant invalid_instant input.now) _ h1 in
    let (_, _, h3) = >>=-eq-ok (guard (is_error_code input.error_code) invalid_error_code) _ h2 in
    let (_, s, h4) = >>=-eq-ok (guard (is_summary input.redacted_summary) invalid_summary) _ h3 in
    let (at, _, h5) = >>=-eq-ok (validate_retry now input.retry_at) _ h4 in
    let now_t = require_instant_lem invalid_instant input.now e in
    (ground (arith, h5, now_t), guard-ok _ _ s)

pub fail_ok :
    (capability : Capability) (input : FailInput) (jobs : JobTable) (out : JobStatus × JobTable)
    → fail capability input jobs ≡ ok out
    → (valid : ℕ × Option ℕ) × (validate_failure input ≡ ok valid)
      × (returned_status input.job_id (
            returning
              (holds_lease input.job_id input.worker_id valid.0)
              (end_attempt valid.0 valid.1 input.error_code input.redacted_summary)
              jobs)
          ≡ ok out.0)
      × (update
            (holds_lease input.job_id input.worker_id valid.0)
            (end_attempt valid.0 valid.1 input.error_code input.redacted_summary)
            jobs
          ≡ out.1)
unfolding fail
fail_ok capability input jobs out h =
    let (_, _, h1) = >>=-eq-ok (require_worker_capability capability) _ h in
    let (valid, e, h2) = >>=-eq-ok (validate_failure input) _ h1 in
    let rows =
      returning (holds_lease input.job_id input.worker_id valid.0)
        (end_attempt valid.0 valid.1 input.error_code input.redacted_summary) jobs in
    let (status, k, h3) = >>=-eq-ok (returned_status input.job_id rows) _ h2 in (valid, e, cc, cc)

pub fail-TableMove :
    (capability : Capability) (input : FailInput) (jobs : JobTable)
    → TableMove input.worker_id
        (instant_or_zero input.now)
        jobs
        (table_after jobs (fail capability input jobs))
fail-TableMove capability input jobs = go (fail capability input jobs) refl
  where
    go :
        (result : Result QueueError (JobStatus × JobTable))
        → fail capability input jobs ≡ result
        → TableMove input.worker_id (instant_or_zero input.now) jobs (table_after jobs result)
    go (err e) h = stays_all input.worker_id (instant_or_zero input.now) jobs
    go (ok out) h =
        let (valid, v, _, k) = fail_ok capability input jobs out h in
        let (e, s) = validate_failure_ok input valid v in
        rw (e, ← k)
          (update-TableMove input.worker_id valid.0 _ _ jobs (
            always
              (λ r held. ends r input.job_id valid.1 input.error_code input.redacted_summary held s)
              jobs))
