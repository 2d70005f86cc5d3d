-- ===== src/Queue/Insert.antt =====
-- packages/db/src/job-queue-insert.ts: the validation of a new job and its insertion under the
-- active-dedupe index of the schema. The JavaScript clock, the new UUID, the database's clock and the
-- workspaces that exist are arguments.
use cash_count.Base.{
  ℕ, Bool, true, false, not, ◌&&◌, ◌||◌, Option, none, some, [], ◌∷◌, ltb, leb, if◌then◌else◌,
  length, exists, filter, head?,
}
use cash_count.Base.Text.{Text, text, text_eq, trim, option_text_eq}
use cash_count.Base.Results.{Result, ok, err, guard, ◌>>=◌, ◌>>◌}
use cash_count.Base.Int.{ℤ, pos, negsuc}
use cash_count.Base.Numbers.{JsNumber, integer, other, require_between, Instant, require_instant}
use cash_count.Queue.Job.{
  pending, Payload, JobRow, JobTable, is_queue_job_type, QueueError, invalid_instant,
  invalid_workspace_id, unsupported_job_type, invalid_max_attempts, invalid_priority,
  invalid_dedupe_key, unstorable_key, unknown_workspace, conflict_without_dedupe_key,
  dedupe_conflict_unresolved, Capability, require_system_capability, is_active,
}
use cash_count.Queue.Payload.{is_canonical_uuid, validate_payload}

pub record EnqueueInput : Type 0 where
  pub requested_at : Option Instant
  pub dedupe_key : Option Text
  pub job_type : Text
  pub max_attempts : JsNumber
  pub payload : Option Payload
  pub priority : Option JsNumber

-- A safe integer from -1000000 to 1000000.
unfoldable pub require_priority : JsNumber → Result QueueError ℤ
require_priority (integer (pos n)) = if leb n 1000000 then ok (pos n) else err invalid_priority
require_priority (integer (negsuc n)) =
    if ltb n 1000000 then ok (negsuc n) else err invalid_priority
require_priority other = err invalid_priority

unfoldable pub is_dedupe_key : Text → Bool
is_dedupe_key k = text_eq (trim k) k && not (text_eq k []) && leb (length k) 500

unfoldable pub validate_dedupe_key : Option Text → Result QueueError (Unit {0})
validate_dedupe_key none = ok tt
validate_dedupe_key (some k) = guard (is_dedupe_key k) invalid_dedupe_key

unfoldable pub validate_workspace : Option Text → Result QueueError (Unit {0})
validate_workspace none = ok tt
validate_workspace (some w) = guard (is_canonical_uuid w) invalid_workspace_id

-- `new Date()` where the caller names no time.
unfoldable pub validate_available_at : ℕ → Option Instant → Result QueueError ℕ
unfolding require_instant
validate_available_at clock none = ok clock
validate_available_at clock (some t) = require_instant invalid_instant t

abbrev pub or_else {ℓ} : {A : Type ℓ} → Option A → A → A
or_else none d = d
or_else (some a) d = a

-- The values that a valid request stores.
pub record EnqueueValues : Type 0 where
  pub max_attempts : ℕ
  pub priority : ℤ
  pub available_at : ℕ

unfoldable pub validate_enqueue : ℕ → Option Text → EnqueueInput → Result QueueError EnqueueValues
unfolding validate_workspace require_between require_priority validate_available_at
    validate_dedupe_key
validate_enqueue clock workspace_id input = do
  validate_workspace workspace_id
  guard (is_queue_job_type input.job_type) unsupported_job_type
  attempts ← require_between 1 100 input.max_attempts invalid_max_attempts
  priority ← require_priority (or_else input.priority (integer (pos 0)))
  available ← validate_available_at clock input.requested_at
  validate_dedupe_key input.dedupe_key
  validate_payload (or_else input.payload [])
  ok (record { max_attempts = attempts; priority = priority; available_at = available })

-- `coalesce(workspace_id, zero uuid)`, as the unique index compares workspaces.
abbrev pub zero_uuid : Text
zero_uuid = text "00000000-0000-0000-0000-000000000000"

unfoldable pub same_index_key : Option Text → Text → Text → JobRow → Bool
same_index_key workspace_id job_type key r =
    text_eq (or_else workspace_id zero_uuid) (or_else r.workspace_id zero_uuid)
    && text_eq job_type r.job_type
    && option_text_eq (some key) r.dedupe_key
    && is_active r.status

-- A row that the insertion would conflict with: the primary key, or the active-dedupe index.
unfoldable pub conflicts_with : Text → Option Text → Text → Option Text → JobRow → Bool
unfolding same_index_key
conflicts_with id workspace_id job_type none r = text_eq id r.id
conflicts_with id workspace_id job_type (some key) r =
    text_eq id r.id || same_index_key workspace_id job_type key r

-- `workspace_id is not distinct from $1 and job_type = $2 and dedupe_key = $3 and status in (…)`
unfoldable pub is_existing : Option Text → Text → Text → JobRow → Bool
is_existing workspace_id job_type key r =
    option_text_eq workspace_id r.workspace_id
    && text_eq job_type r.job_type
    && option_text_eq (some key) r.dedupe_key
    && is_active r.status

unfoldable pub new_row : Text → Option Text → EnqueueInput → EnqueueValues → ℕ → JobRow
new_row id workspace_id input v db_now = record {
  id = id;
  workspace_id = workspace_id;
  job_type = input.job_type;
  payload = or_else input.payload [];
  dedupe_key = input.dedupe_key;
  status = pending;
  priority = v.priority;
  available_at = v.available_at;
  locked_at = none;
  locked_by = none;
  started_at = none;
  heartbeat_at = none;
  lease_expires_at = none;
  finished_at = none;
  attempt_count = 0;
  max_attempts = v.max_attempts;
  last_error_code = none;
  last_error_summary = none;
  created_at = db_now;
  updated_at = db_now;
}

-- The row returned to the caller and whether it was created.
pub record EnqueuedJob : Type 0 where
  pub row : JobRow
  pub created : Bool

unfoldable pub existing_job : Option JobRow → Result QueueError EnqueuedJob
existing_job none = err dedupe_conflict_unresolved
existing_job (some r) = ok (record { row = r; created = false })

-- What the caller is answered when nothing was inserted, and the table at that time. The select is a
-- statement of its own: it sees the table after what others did between the two statements.
unfoldable pub resolve_conflict :
    Option Text
    → Text
    → Option Text
    → (JobTable → JobTable)
    → JobTable
    → Result QueueError EnqueuedJob × JobTable
unfolding is_existing existing_job
resolve_conflict workspace_id job_type none between jobs = (err conflict_without_dedupe_key, jobs)
resolve_conflict workspace_id job_type (some key) between jobs =
    let seen = between jobs in
    (existing_job (head? (filter (is_existing workspace_id job_type key) seen)), seen)

abbrev pub workspace_exists : (Text → Bool) → Option Text → Bool
workspace_exists known none = true
workspace_exists known (some w) = known w

abbrev pub can_store : (Text → Bool) → Option Text → Bool
can_store storable none = true
can_store storable (some key) = storable key

-- What the environment supplies to an insertion. PostgreSQL does not store every string (none with
-- U+0000), and the validation lets such a key through.
pub record InsertContext : Type 0 where
  pub clock : ℕ
  pub db_now : ℕ
  pub new_id : Text
  pub known_workspace : Text → Bool
  pub storable : Text → Bool

-- The validation and the statement `insert … on conflict do nothing returning …`: the row that was
-- inserted, none after a conflict, and the table.
unfoldable pub insert_statement :
    InsertContext
    → Option Text
    → EnqueueInput
    → JobTable
    → Result QueueError (Option JobRow × JobTable)
unfolding conflicts_with
insert_statement env workspace_id input jobs = do
  v ← validate_enqueue env.clock workspace_id input
  guard (can_store env.storable input.dedupe_key) unstorable_key
  let row = new_row env.new_id workspace_id input v env.db_now
  let inserted =
      guard (workspace_exists env.known_workspace workspace_id) unknown_workspace
      >> ok (some row, row ∷ jobs)
  if exists (conflicts_with env.new_id workspace_id input.job_type input.dedupe_key) jobs
      then ok (none, jobs)
      else inserted

-- How the call goes on after its first statement.
unfoldable pub after_insert :
    Option Text
    → EnqueueInput
    → (JobTable → JobTable)
    → JobTable
    → Result QueueError (Option JobRow × JobTable)
    → Result QueueError EnqueuedJob × JobTable
unfolding resolve_conflict
after_insert workspace_id input between jobs (err e) = (err e, jobs)
after_insert workspace_id input between jobs (ok (some r, after)) =
    (ok (record { row = r; created = true }), after)
after_insert workspace_id input between jobs (ok (none, after)) =
    resolve_conflict workspace_id input.job_type input.dedupe_key between after

unfoldable pub insert_queue_job :
    InsertContext
    → Option Text
    → EnqueueInput
    → (JobTable → JobTable)
    → JobTable
    → Result QueueError EnqueuedJob × JobTable
unfolding insert_statement after_insert
insert_queue_job env workspace_id input between jobs =
    after_insert workspace_id input between jobs (insert_statement env workspace_id input jobs)

unfoldable pub enqueue_workspace :
    InsertContext
    → Text
    → EnqueueInput
    → (JobTable → JobTable)
    → JobTable
    → Result QueueError EnqueuedJob × JobTable
unfolding insert_queue_job
enqueue_workspace env workspace_id input between jobs =
    insert_queue_job env (some workspace_id) input between jobs

-- A call that throws at once leaves the table as it is.
abbrev pub if_allowed :
    Result QueueError (Unit {0})
    → JobTable
    → Result QueueError EnqueuedJob × JobTable
    → Result QueueError EnqueuedJob × JobTable
if_allowed (err e) jobs answer = (err e, jobs)
if_allowed (ok u) jobs answer = answer

unfoldable pub enqueue_system :
    InsertContext
    → Capability
    → EnqueueInput
    → (JobTable → JobTable)
    → JobTable
    → Result QueueError EnqueuedJob × JobTable
unfolding insert_queue_job require_system_capability
enqueue_system env capability input between jobs =
    if_allowed (require_system_capability capability) jobs
      (insert_queue_job env none input between jobs)
