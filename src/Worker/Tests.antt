-- ===== src/Worker/Tests.antt =====
-- A worker that processes one job, with a heartbeat and an intruder meanwhile.
use mathlib.Core.List.{Memᴰ}
use cash_count.Base.{◌≡◌, ◌≤◌, ◌+◌, refl, true, false, none, some, [], ◌∷◌, arith}
use cash_count.Base.Int.{pos}
use cash_count.Base.Results.{ok}
use cash_count.Base.Text.{text, text_eq, trim, is_control}
use cash_count.Queue.Job.{running, JobRow, queue_worker, passes_checks}
use cash_count.Queue.Calls.{Call, claims}
use cash_count.Queue.Claim.{claimed_job}
use cash_count.Queue.Invariant.{TableInv}
use cash_count.Queue.Invariant.Rows.{RowInv}
use cash_count.Queue.Lease.{is_error_code, is_summary}
use cash_count.Worker.Options.{WorkerOptions, Worker, create_worker, JobFailure}
use cash_count.Worker.Process.{Execution, threw_failure, process, retry_delay}
use cash_count.Worker.Retries.{IsWorker, IsCreated, create_worker-IsCreated, retry_delay_bounds}
use cash_count.Worker.Settles.{silent, beats}
use cash_count.Worker.Ends.{EndsAs, process-EndsAs}

abbrev options : WorkerOptions
options = record {
  concurrency = none;
  handlers = text "SYNC_CONNECTION" ∷ [];
  heartbeat_interval_ms = none;
  lease_duration_ms = none;
  poll_interval_ms = none;
  worker_id = text "w1";
}

abbrev worker : Worker
worker = record {
  concurrency = 4;
  job_types = text "SYNC_CONNECTION" ∷ [];
  heartbeat_interval_ms = 30000;
  lease_duration_ms = 120000;
  poll_interval_ms = 1000;
  worker_id = text "w1";
}

worker_created : create_worker options ≡ ok worker
unfolding create_worker trim text_eq
worker_created = refl

create_worker-IsCreated_example : IsCreated options worker
create_worker-IsCreated_example = create_worker-IsCreated options worker worker_created

worker-IsWorker : IsWorker worker
worker-IsWorker = (create_worker-IsCreated options worker worker_created).worker

retry_delay_bounds_example :
    (1000 ≤ retry_delay 3 (λ e. e + 17)) × (retry_delay 3 (λ e. e + 17) ≤ 300000)
retry_delay_bounds_example = retry_delay_bounds 3 (λ e. e + 17)

abbrev held_job : JobRow
held_job = record {
  id = text "a";
  workspace_id = none;
  job_type = text "SYNC_CONNECTION";
  payload = [];
  dedupe_key = none;
  status = running;
  priority = pos 0;
  available_at = 5;
  locked_at = some 10;
  locked_by = some (text "w1");
  started_at = some 10;
  heartbeat_at = some 10;
  lease_expires_at = some 120010;
  finished_at = none;
  attempt_count = 1;
  max_attempts = 3;
  last_error_code = none;
  last_error_summary = none;
  created_at = 1;
  updated_at = 10;
}

held_job-RowInv : RowInv held_job
unfolding passes_checks
held_job-RowInv = ground arith

held_table-TableInv : TableInv (held_job ∷ [])
held_table-TableInv = record {
  rows = (held_job-RowInv, tt);
  distinct = (tt, tt);
  unique_keys = (tt, tt);
}

abbrev intruder : Call
intruder =
    claims (λ r. false) queue_worker
      (record { job_types = none; lease_duration_ms = none; now = some 50; worker_id = text "w2" })

abbrev failure : JobFailure
failure = record {
  error_code = text "TIMEOUT";
  redacted_summary = text "Timed out.";
  retryable = true;
}

abbrev execution : Execution
execution = record {
  beats = record { others = intruder ∷ []; reaches = true; now = some 30010 } ∷ [];
  outcome = threw_failure failure;
  others = [];
  reaches = true;
  now = some 40000;
  scaled = λ e. e;
}

process-EndsAs_example :
    (s : JobRow) × (s.id ≡ text "a")
    × EndsAs 40000 (threw_failure failure) held_job s
    × Memᴰ s (process worker (claimed_job held_job) execution (held_job ∷ [])).1
unfolding claimed_job text_eq is_error_code is_summary trim is_control
process-EndsAs_example =
    process-EndsAs worker (claimed_job held_job) execution 40000 10 120010 30010 150010 held_job
      (held_job ∷ []) worker-IsWorker refl (refl, refl) held_table-TableInv
      (record { id = refl; status = refl; owner = refl; beat_at = refl; expires = refl })
      (Memᴰ.head refl)
      (beats (intruder ∷ []) 30010 ((refl, omega arith), tt) (omega arith) (omega arith)
        (silent 30010 150010))
      tt refl refl (omega arith) (omega arith)
