-- ===== src/Queue/Calls.antt =====
-- The calls of the repository as one step function: a call that throws leaves the table as it was.
pub mod ClaimMoves
pub mod InsertMoves
pub mod LeaseMoves
pub mod ReclaimMoves
pub mod Moves
use cash_count.Base.{ℕ, Bool, Option, none, some, List, [], ◌∷◌}
use cash_count.Base.Text.{Text}
use cash_count.Base.Results.{Result, ok, err}
use cash_count.Base.Numbers.{JsNumber, Instant}
use cash_count.Queue.Job.{JobRow, JobTable, QueueError, Capability}
use cash_count.Queue.Insert.{InsertContext, EnqueueInput, enqueue_workspace, enqueue_system}
use cash_count.Queue.Claim.{ClaimInput, claim}
use cash_count.Queue.Lease.{heartbeat, complete, FailInput, fail}
use cash_count.Queue.Reclaim.{ReclaimInput, reclaim_expired}

pub data Call : Type 0 where
  enqueues_workspace : InsertContext → Text → EnqueueInput → Call
  enqueues_system : InsertContext → Capability → EnqueueInput → Call
  claims : (JobRow → Bool) → Capability → ClaimInput → Call
  heartbeats : Capability → Text → Text → Instant → Option JsNumber → Call
  completes : Capability → Text → Text → Instant → Call
  fails : Capability → FailInput → Call
  reclaims : (JobRow → Bool) → Capability → ReclaimInput → Call

abbrev pub table_after : {A : Type 0} → JobTable → Result QueueError (A × JobTable) → JobTable
table_after jobs (ok (a, after)) = after
table_after jobs (err e) = jobs

abbrev pub table_or : JobTable → Result QueueError JobTable → JobTable
table_or jobs (ok after) = after
table_or jobs (err e) = jobs

-- An enqueue is a step at its first statement. Its second one only reads the table, so what others do
-- between the two are calls that follow the step.
unfoldable pub step : Call → JobTable → JobTable
step (enqueues_workspace env workspace_id input) jobs =
    (enqueue_workspace env workspace_id input (λ t. t) jobs).1
step (enqueues_system env capability input) jobs =
    (enqueue_system env capability input (λ t. t) jobs).1
step (claims locked capability input) jobs = table_after jobs (claim locked capability input jobs)
step (heartbeats capability job worker now duration) jobs =
    table_after jobs (heartbeat capability job worker now duration jobs)
step (completes capability job worker now) jobs =
    table_or jobs (complete capability job worker now jobs)
step (fails capability input) jobs = table_after jobs (fail capability input jobs)
step (reclaims locked capability input) jobs =
    table_after jobs (reclaim_expired locked capability input jobs)

unfoldable pub run : List Call → JobTable → JobTable
unfolding step
run [] jobs = jobs
run (c ∷ cs) jobs = run cs (step c jobs)

abbrev pub instant_or_zero : Instant → ℕ
instant_or_zero none = 0
instant_or_zero (some t) = t

-- The worker that makes the call; the empty name where none does.
abbrev pub caller : Call → Text
caller (enqueues_workspace env workspace_id input) = []
caller (enqueues_system env capability input) = []
caller (claims locked capability input) = input.worker_id
caller (heartbeats capability job worker now duration) = worker
caller (completes capability job worker now) = worker
caller (fails capability input) = input.worker_id
caller (reclaims locked capability input) = []

-- The time that the call names.
abbrev pub call_time : Call → ℕ
call_time (enqueues_workspace env workspace_id input) = 0
call_time (enqueues_system env capability input) = 0
call_time (claims locked capability input) = instant_or_zero input.now
call_time (heartbeats capability job worker now duration) = instant_or_zero now
call_time (completes capability job worker now) = instant_or_zero now
call_time (fails capability input) = instant_or_zero input.now
call_time (reclaims locked capability input) = instant_or_zero input.now
