-- ===== src/Queue/Invariant/Rows.antt =====
-- What holds of every row between two calls, whatever their order and times.
use cash_count.Base.{ℕ, ◌<◌, ◌≡◌, true, false, none, arith, done, also, leb, length, All}
use cash_count.Base.Text.{Text, is_blank, trim_not-blank}
use cash_count.Queue.Job.{JobRow, JobTable, is_running, is_terminal, is_worker_id, passes_checks}
use cash_count.Queue.Claim.{start_attempt}
use cash_count.Queue.Lease.{holds_lease, extend_lease, finish, end_attempt, is_summary}
use cash_count.Queue.Reclaim.{is_expired, reclaim_row}
use cash_count.Queue.Insert.{new_row}
use cash_count.Queue.Moves.{RowMove, stays, starts, extends, finishes, ends, reclaims, TableMove}
use cash_count.Queue.Calls.InsertMoves.{Insertion, finds, adds}

pub record RowInv (r : JobRow) : Type 0 where
  -- The CHECK constraints of the schema.
  pub checks : passes_checks r ≡ true
  -- Only a running job is locked or leased.
  pub locked_at_running : is_running r.status ≡ false → r.locked_at ≡ none
  pub locked_by_running : is_running r.status ≡ false → r.locked_by ≡ none
  pub heartbeat_running : is_running r.status ≡ false → r.heartbeat_at ≡ none
  pub lease_running : is_running r.status ≡ false → r.lease_expires_at ≡ none
  -- Only a job that succeeded or died is finished.
  pub finished_terminal : is_terminal r.status ≡ false → r.finished_at ≡ none
  -- A running job has used an attempt.
  pub running_attempted : is_running r.status ≡ true → 0 < r.attempt_count

worker_id-not-blank : (w : Text) → is_worker_id w ≡ true → is_blank w ≡ false
unfolding is_worker_id
worker_id-not-blank w h = ground (arith, trim_not-blank w)

summary_short : (s : Text) → is_summary s ≡ true → leb (length s) 1000 ≡ true
unfolding is_summary
summary_short s h = ground arith

pub RowMove-RowInv :
    {worker : Text} {now : ℕ} {r s : JobRow} → RowMove worker now r s → RowInv r → RowInv s
unfolding passes_checks start_attempt extend_lease finish end_attempt reclaim_row holds_lease
    is_expired
RowMove-RowInv (stays r) v = v
RowMove-RowInv {worker} (starts r expires w a b t ok) v = ground (arith, worker_id-not-blank worker)
RowMove-RowInv (extends r job expires h) v = ground arith
RowMove-RowInv (finishes r job h) v = ground arith
RowMove-RowInv (ends r job at code summary h s) v = ground (arith, summary_short summary)
RowMove-RowInv (reclaims r at h le) v = ground arith

pub Insertion-RowInv :
    {jobs after : JobTable} → Insertion jobs after → All RowInv jobs → All RowInv after
unfolding new_row passes_checks
Insertion-RowInv finds h = h
Insertion-RowInv (adds id workspace_id input v now valid free) h =
    (ground (arith, valid.attempts, valid.job_type, valid.key), h)

pub TableMove-RowInv :
    {worker : Text} {now : ℕ} {rs ss : JobTable}
    → TableMove worker now rs ss
    → All RowInv rs
    → All RowInv ss
TableMove-RowInv done h = tt
TableMove-RowInv (also m ms) h = (RowMove-RowInv m h.0, TableMove-RowInv ms h.1)
