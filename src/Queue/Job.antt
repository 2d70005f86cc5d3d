-- ===== src/Queue/Job.antt =====
-- The rows of the table `job_queue`, the CHECK constraints of its schema, and what the queue's
-- operations share: job types, capabilities, errors, and the validation of worker names.
use cash_count.Base.{
  ℕ, Bool, true, false, not, ◌&&◌, ◌||◌, Option, none, some, List, [], ◌∷◌, ltb, leb, length,
  exists, is_some,
}
use cash_count.Base.Text.{Text, text, text_eq, trim, is_blank}
use cash_count.Base.Results.{Result, ok, err, guard}
use cash_count.Base.Int.{ℤ}

pub data JobStatus : Type 0 where
  pending running succeeded retry dead : JobStatus

-- A value of a payload: one reference or a list of them.
pub data Reference : Type 0 where
  one : Text → Reference
  many : List Text → Reference

-- The own properties of the payload object, in order.
abbrev pub Payload : Type 0
Payload = List (Text × Reference)

pub record JobRow : Type 0 where
  pub id : Text
  pub workspace_id : Option Text
  pub job_type : Text
  pub payload : Payload
  pub dedupe_key : Option Text
  pub status : JobStatus
  pub priority : ℤ
  pub available_at : ℕ
  pub locked_at : Option ℕ
  pub locked_by : Option Text
  pub started_at : Option ℕ
  pub heartbeat_at : Option ℕ
  pub lease_expires_at : Option ℕ
  pub finished_at : Option ℕ
  pub attempt_count : ℕ
  pub max_attempts : ℕ
  pub last_error_code : Option Text
  pub last_error_summary : Option Text
  pub created_at : ℕ
  pub updated_at : ℕ

abbrev pub JobTable : Type 0
JobTable = List JobRow

abbrev pub queue_job_types : List Text
queue_job_types =
    text "PROCESS_WEBHOOK"
    ∷ text "DISCOVER_CONNECTIONS"
    ∷ text "SYNC_CONNECTION"
    ∷ text "SYNC_ACCOUNT"
    ∷ text "SYNC_TRANSACTIONS_PAGE"
    ∷ text "SYNC_BILLS"
    ∷ text "NORMALIZE_TRANSACTION"
    ∷ text "RESOLVE_MERCHANT"
    ∷ text "CLASSIFY_TRANSACTION"
    ∷ text "REBUILD_RECURRING_SERIES"
    ∷ text "REBUILD_INSTALLMENT_SERIES"
    ∷ text "RECOMPUTE_ANALYTICS_CACHE"
    ∷ text "REPROCESS_RAW_OBJECT"
    ∷ []

unfoldable pub is_queue_job_type : Text → Bool
is_queue_job_type t = exists (λ u. text_eq u t) queue_job_types

-- The unforgeable objects of the module; `forged` is any other value.
pub data Capability : Type 0 where
  queue_worker system_queue forged : Capability

pub data QueueError : Type 0 where
  worker_capability_required system_capability_required : QueueError
  invalid_instant invalid_worker_id invalid_job_types invalid_lease_duration : QueueError
  invalid_error_code invalid_summary retry_precedes_now invalid_reclaim_limit : QueueError
  invalid_workspace_id unsupported_job_type invalid_max_attempts invalid_priority : QueueError
  invalid_dedupe_key unstorable_key payload_too_large payload_key payload_references payload_uuid :
      QueueError
  unknown_workspace conflict_without_dedupe_key dedupe_conflict_unresolved : QueueError
  lease_lost : Text → QueueError

unfoldable pub require_worker_capability : Capability → Result QueueError (Unit {0})
require_worker_capability queue_worker = ok tt
require_worker_capability system_queue = err worker_capability_required
require_worker_capability forged = err worker_capability_required

unfoldable pub require_system_capability : Capability → Result QueueError (Unit {0})
require_system_capability system_queue = ok tt
require_system_capability queue_worker = err system_capability_required
require_system_capability forged = err system_capability_required

unfoldable pub is_worker_id : Text → Bool
is_worker_id w = text_eq (trim w) w && not (text_eq w []) && leb (length w) 200

unfoldable pub require_worker_id : Text → Result QueueError (Unit {0})
require_worker_id w = guard (is_worker_id w) invalid_worker_id

abbrev pub is_running : JobStatus → Bool
is_running running = true
is_running pending = false
is_running succeeded = false
is_running retry = false
is_running dead = false

-- `status in ('PENDING', 'RETRY', 'RUNNING')`
abbrev pub is_active : JobStatus → Bool
is_active pending = true
is_active retry = true
is_active running = true
is_active succeeded = false
is_active dead = false

-- `status in ('PENDING', 'RETRY')`
abbrev pub is_waiting : JobStatus → Bool
is_waiting pending = true
is_waiting retry = true
is_waiting running = false
is_waiting succeeded = false
is_waiting dead = false

abbrev pub is_terminal : JobStatus → Bool
is_terminal succeeded = true
is_terminal dead = true
is_terminal pending = false
is_terminal retry = false
is_terminal running = false

abbrev pub at_most : Option Text → ℕ → Bool
at_most none n = true
at_most (some s) n = leb (length s) n

abbrev pub named : Option Text → Bool
named none = false
named (some s) = not (is_blank s)

abbrev pub not_blank : Option Text → Bool
not_blank none = true
not_blank (some s) = not (is_blank s)

-- The CHECK constraints of the table. Two of them hold of every value of the model's types: the status
-- is one of five, and the number of attempts is not negative.
unfoldable pub passes_checks : JobRow → Bool
passes_checks r =
    not (is_blank r.job_type)
    && not_blank r.dedupe_key
    && ltb 0 r.max_attempts
    && leb r.attempt_count r.max_attempts
    && (not (is_running r.status)
        || (is_some r.locked_at
            && named r.locked_by
            && is_some r.started_at
            && is_some r.heartbeat_at
            && is_some r.lease_expires_at))
    && (not (is_terminal r.status) || is_some r.finished_at)
    && at_most r.last_error_summary 1000
