-- ===== src/Queue/Invariant.antt =====
-- What holds of the table between two calls, whatever their order and times.
pub mod Rows
pub mod Keys
use cash_count.Base.{List, [], ◌∷◌, All}
use cash_count.Queue.Job.{JobTable}
use cash_count.Queue.Distinct.{HasDistinctIds}
use cash_count.Queue.Calls.{Call, step, run}
use cash_count.Queue.Calls.Moves.{CallMove, inserts, moves, step-CallMove}
use Rows.{RowInv, TableMove-RowInv, Insertion-RowInv}
use Keys.{
  HasUniqueActiveKeys, TableMove-HasUniqueActiveKeys, TableMove-HasDistinctIds,
  Insertion-HasDistinctIds, Insertion-HasUniqueActiveKeys,
}

pub record TableInv (jobs : JobTable) : Type 0 where
  pub rows : All RowInv jobs
  pub distinct : HasDistinctIds jobs
  pub unique_keys : HasUniqueActiveKeys jobs

CallMove-TableInv :
    {call : Call} {jobs after : JobTable}
    → CallMove call jobs after
    → TableInv jobs
    → TableInv after
CallMove-TableInv (inserts m) v = record {
  rows = Insertion-RowInv m v.rows;
  distinct = Insertion-HasDistinctIds m v.distinct;
  unique_keys = Insertion-HasUniqueActiveKeys m v.unique_keys;
}
CallMove-TableInv (moves m) v = record {
  rows = TableMove-RowInv m v.rows;
  distinct = TableMove-HasDistinctIds m v.distinct;
  unique_keys = TableMove-HasUniqueActiveKeys m v.unique_keys;
}

-- Every call, whatever it is asked and whether it throws or not, keeps the table's invariant.
pub step-TableInv : (call : Call) (jobs : JobTable) → TableInv jobs → TableInv (step call jobs)
step-TableInv call jobs v = CallMove-TableInv (step-CallMove call jobs v.distinct) v

run-TableInv : (calls : List Call) (jobs : JobTable) → TableInv jobs → TableInv (run calls jobs)
unfolding run
run-TableInv [] jobs v = v
run-TableInv (c ∷ cs) jobs v = run-TableInv cs (step c jobs) (step-TableInv c jobs v)

-- After any calls on the empty table, at any times and by any workers: each row passes the CHECK
-- constraints of the schema, only a running job has a lock or a lease, only a terminal one is
-- finished, a running one has used an attempt, no two rows share an id, and no two active rows share
-- a key of the dedupe index.
pub run_empty-TableInv : (calls : List Call) → TableInv (run calls [])
run_empty-TableInv calls =
    run-TableInv calls [] (record { rows = tt; distinct = tt; unique_keys = tt })
