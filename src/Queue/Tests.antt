-- ===== src/Queue/Tests.antt =====
-- Runs of the queue at small tables, and the theorems at inputs that meet their hypotheses.
use cash_count.Base.{◌≡◌, refl, Bool, true, false, Option, none, some, List, [], ◌∷◌, arith, exists}
use mathlib.Core.List.{Memᴰ}
use cash_count.Base.Text.{Text, text, text_eq, trim}
use cash_count.Base.Int.{pos}
use cash_count.Base.Results.{ok, err}
use cash_count.Base.Numbers.{integer}
use cash_count.Base.Sorting.{sort_by}
use cash_count.Queue.Job.{
  pending, running, succeeded, one, JobRow, JobTable, queue_worker, passes_checks, is_worker_id,
  is_queue_job_type, dedupe_conflict_unresolved,
}
use cash_count.Queue.Sql.{update, returning}
use cash_count.Queue.Payload.{is_canonical_uuid, validate_payload, json_bytes, is_internal_id_key}
use cash_count.Queue.Insert.{
  InsertContext, EnqueueInput, EnqueueValues, validate_enqueue, insert_queue_job, insert_statement,
  after_insert, resolve_conflict, existing_job, conflicts_with, same_index_key, is_existing,
  is_dedupe_key,
}
use cash_count.Queue.Claim.{
  ClaimInput, ClaimedJob, claim, claim_candidates, claim_order, is_claimable, lease_expiry,
  validate_job_types, start_attempt, claimed_job,
}
use cash_count.Queue.Lease.{heartbeat, complete, finish, holds_lease, extend_lease}
use cash_count.Queue.Calls.{Call, completes, claims, run, step}
use cash_count.Queue.Invariant.{TableInv, run_empty-TableInv}
use cash_count.Queue.Invariant.Rows.{RowInv}
use cash_count.Queue.Exclusive.{held_until, lease_excludes}
use cash_count.Queue.Selection.{Claimed, claim-Claimed}
use cash_count.Queue.Progress.{heartbeat_lengthens, terminal_absorbs}
use cash_count.Queue.Dedupe.{Enqueued, insert-Enqueued}
use cash_count.Queue.Repeats.{repeat_answers}

abbrev workspace : Text
workspace = text "11111111-1111-4111-8111-111111111111"

abbrev waiting_job : JobRow
waiting_job = record {
  id = text "a";
  workspace_id = some workspace;
  job_type = text "SYNC_CONNECTION";
  payload = [];
  dedupe_key = some (text "k");
  status = pending;
  priority = pos 0;
  available_at = 5;
  locked_at = none;
  locked_by = none;
  started_at = none;
  heartbeat_at = none;
  lease_expires_at = none;
  finished_at = none;
  attempt_count = 0;
  max_attempts = 3;
  last_error_code = none;
  last_error_summary = none;
  created_at = 1;
  updated_at = 1;
}

abbrev urgent_job : JobRow
urgent_job = record waiting_job {
  id = text "b";
  dedupe_key = none;
  priority = pos 7;
  created_at = 2;
}

abbrev running_job : JobRow
running_job = record waiting_job {
  status = running;
  locked_at = some 10;
  locked_by = some (text "w1");
  started_at = some 10;
  heartbeat_at = some 10;
  lease_expires_at = some 120010;
  attempt_count = 1;
}

abbrev finished_job : JobRow
finished_job = record waiting_job { status = succeeded; finished_at = some 20; attempt_count = 1 }

abbrev claim_input : ClaimInput
claim_input = record {
  job_types = none;
  lease_duration_ms = none;
  now = some 10;
  worker_id = text "w1";
}

abbrev other_claim : ClaimInput
other_claim = record claim_input { now = some 50; worker_id = text "w2" }

abbrev unlocked : JobRow → Bool
unlocked r = false

abbrev enqueue_input : EnqueueInput
enqueue_input = record {
  requested_at = none;
  dedupe_key = some (text "k");
  job_type = text "SYNC_CONNECTION";
  max_attempts = integer (pos 3);
  payload = some ((text "connectionId", one workspace) ∷ []);
  priority = none;
}

abbrev context : InsertContext
context = record {
  clock = 5;
  db_now = 6;
  new_id = text "c";
  known_workspace = λ w. true;
  storable = λ t. true;
}

abbrev later_context : InsertContext
later_context = record context { db_now = 9; new_id = text "d" }

abbrev values : EnqueueValues
values = record { max_attempts = 3; priority = pos 0; available_at = 5 }

valid_request : validate_enqueue 5 (some workspace) enqueue_input ≡ ok values
unfolding validate_enqueue validate_payload is_canonical_uuid is_queue_job_type is_dedupe_key trim
    text_eq json_bytes is_internal_id_key
valid_request = refl

urgent_first :
    claim unlocked queue_worker claim_input (waiting_job ∷ urgent_job ∷ [])
    ≡ ok (
      some (claimed_job (start_attempt 10 (text "w1") 120010 urgent_job)),
      waiting_job ∷ start_attempt 10 (text "w1") 120010 urgent_job ∷ [],
    )
unfolding claim is_worker_id trim text_eq claim_candidates claim_order is_claimable update returning
    sort_by
urgent_first = refl

running_job-RowInv : RowInv running_job
unfolding passes_checks
running_job-RowInv = ground arith

running_table-TableInv : TableInv (running_job ∷ [])
running_table-TableInv = record {
  rows = (running_job-RowInv, tt);
  distinct = (tt, tt);
  unique_keys = (tt, tt);
}

finished_table-TableInv : TableInv (finished_job ∷ [])
unfolding passes_checks
finished_table-TableInv = record {
  rows = (ground arith, tt);
  distinct = (tt, tt);
  unique_keys = (tt, tt);
}

run_empty-TableInv_example : TableInv (run (claims unlocked queue_worker claim_input ∷ []) [])
run_empty-TableInv_example = run_empty-TableInv (claims unlocked queue_worker claim_input ∷ [])

worker_valid : is_worker_id (text "w1") ≡ true
unfolding is_worker_id trim text_eq
worker_valid = refl

claim-Claimed_example :
    (out : Option ClaimedJob × JobTable) × (claim unlocked queue_worker claim_input
        (waiting_job ∷ urgent_job ∷ [])
      ≡ ok out)
    × Claimed unlocked 10 120010 (text "w1") none (waiting_job ∷ urgent_job ∷ []) out
unfolding lease_expiry validate_job_types text_eq
claim-Claimed_example =
    claim-Claimed unlocked claim_input (waiting_job ∷ urgent_job ∷ []) (10, 120010)
      ((refl, tt), (tt, tt)) worker_valid refl refl

abbrev intrusion : List Call
intrusion =
    claims unlocked queue_worker other_claim
    ∷ completes queue_worker (text "a") (text "w2") (some 60)
    ∷ []

lease_excludes_example :
    exists (held_until (text "a") (text "w1") 120010) (run intrusion (running_job ∷ [])) ≡ true
unfolding held_until text_eq
lease_excludes_example =
    lease_excludes intrusion (running_job ∷ []) (text "a") (text "w1") 120010 running_table-TableInv
      refl ((refl, omega arith), ((refl, omega arith), tt))

beat :
    heartbeat queue_worker (text "a") (text "w1") (some 30) none (running_job ∷ [])
    ≡ ok (some 120030, extend_lease 30 120030 running_job ∷ [])
unfolding heartbeat is_worker_id trim text_eq holds_lease extend_lease update returning
beat = refl

heartbeat_lengthens_example :
    exists (held_until (text "a") (text "w1") 120030) (extend_lease 30 120030 running_job ∷ [])
    ≡ true
heartbeat_lengthens_example =
    (heartbeat_lengthens queue_worker (text "a") (text "w1") (some 30) none (running_job ∷ [])
      (extend_lease 30 120030 running_job ∷ []) 120030 beat).0

terminal_absorbs_example :
    Memᴰ finished_job (run (claims unlocked queue_worker claim_input ∷ []) (finished_job ∷ []))
terminal_absorbs_example =
    terminal_absorbs (claims unlocked queue_worker claim_input ∷ []) (finished_job ∷ [])
      finished_job finished_table-TableInv (Memᴰ.head refl) refl

-- Between the two statements another worker completes the job that has the key.
abbrev completed : JobTable → JobTable
completed = run (completes queue_worker (text "a") (text "w1") (some 60) ∷ [])

insert-Enqueued_example :
    Enqueued
      (text "c")
      (some workspace)
      (text "SYNC_CONNECTION")
      (text "k")
      (running_job ∷ [])
      (completed (running_job ∷ []))
      (insert_queue_job context (some workspace) enqueue_input completed (running_job ∷ []))
unfolding is_canonical_uuid text_eq
insert-Enqueued_example =
    insert-Enqueued context (some workspace) enqueue_input completed (running_job ∷ []) values
      (text "k") valid_request refl refl refl ((refl, refl), tt)

-- The race is real: this request throws.
request_races :
    (insert_queue_job context (some workspace) enqueue_input completed (running_job ∷ [])).0
    ≡ err dedupe_conflict_unresolved
unfolding insert_queue_job insert_statement after_insert resolve_conflict existing_job
    conflicts_with same_index_key is_existing text_eq run step complete holds_lease finish update
    is_worker_id trim returning
request_races = rw valid_request

request_finds :
    insert_queue_job context (some workspace) enqueue_input (λ t. t) (running_job ∷ [])
    ≡ (ok (record { row = running_job; created = false }), running_job ∷ [])
unfolding insert_queue_job insert_statement after_insert resolve_conflict existing_job
    conflicts_with same_index_key is_existing text_eq
request_finds = rw valid_request

repeat_answers_example :
    insert_queue_job later_context (some workspace) enqueue_input (λ t. t) (running_job ∷ [])
    ≡ (ok (record { row = running_job; created = false }), running_job ∷ [])
repeat_answers_example =
    repeat_answers context later_context (some workspace) enqueue_input (λ t. t) (running_job ∷ [])
      (running_job ∷ []) values (text "k") (record { row = running_job; created = false }) refl
      request_finds (tt, tt) valid_request refl
