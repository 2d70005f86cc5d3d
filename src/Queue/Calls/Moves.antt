-- ===== src/Queue/Calls/Moves.antt =====
-- Every call of the repository moves the table row by row, or adds one fresh pending row.
use cash_count.Base.{some, []}
use cash_count.Queue.Job.{JobTable}
use cash_count.Queue.Insert.{insert_queue_job, enqueue_workspace}
use cash_count.Queue.Distinct.{HasDistinctIds}
use cash_count.Queue.Moves.{TableMove}
use cash_count.Queue.Calls.{
  Call, enqueues_workspace, enqueues_system, claims, heartbeats, completes, fails, reclaims, step,
  caller, call_time,
}
use cash_count.Queue.Calls.ClaimMoves.{claim-TableMove}
use cash_count.Queue.Calls.InsertMoves.{Insertion, insert-Insertion, enqueue_system-Insertion}
use cash_count.Queue.Calls.LeaseMoves.{heartbeat-TableMove, complete-TableMove, fail-TableMove}
use cash_count.Queue.Calls.ReclaimMoves.{reclaim-TableMove}

-- What a call does: an insertion, or moves of single rows under the caller's name and time.
pub data CallMove (call : Call) (jobs : JobTable) : JobTable → Type 0 where
  inserts : {after : JobTable} → Insertion jobs after → CallMove call jobs after
  moves :
      {after : JobTable}
      → TableMove (caller call) (call_time call) jobs after
      → CallMove call jobs after

pub step-CallMove :
    (call : Call) (jobs : JobTable) → HasDistinctIds jobs → CallMove call jobs (step call jobs)
unfolding step insert_queue_job enqueue_workspace
step-CallMove (enqueues_workspace env workspace_id input) jobs d =
    inserts (insert-Insertion env (some workspace_id) input jobs)
step-CallMove (enqueues_system env capability input) jobs d =
    inserts (enqueue_system-Insertion env capability input jobs)
step-CallMove (claims locked capability input) jobs d =
    moves (claim-TableMove locked capability input jobs d)
step-CallMove (heartbeats capability job worker now duration) jobs d =
    moves (heartbeat-TableMove capability job worker now duration jobs)
step-CallMove (completes capability job worker now) jobs d =
    moves (complete-TableMove capability job worker now jobs)
step-CallMove (fails capability input) jobs d = moves (fail-TableMove capability input jobs)
step-CallMove (reclaims locked capability input) jobs d =
    moves (reclaim-TableMove [] locked capability input jobs d)
