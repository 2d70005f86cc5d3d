-- ===== src/Queue/Calls/InsertMoves.antt =====
-- An insertion adds one fresh pending row that conflicts with no other, or leaves the table alone.
use cash_count.Base.{
  ℕ, ◌<◌, ◌≡◌, refl, sym, subst, inl, inr, ◌⊎◌, true, false, Option, none, some, [], ◌∷◌, arith,
  exists, Bool-cases, All, All-of-Memᴰ, exists_witness,
}
use cash_count.Base.Text.{Text, text_eq, text_eq→eq, is_blank, trim_not-blank}
use cash_count.Base.Results.{Result, ok, err, guard, >>=-eq-ok, guard-eq-ok, ok-injective}
use cash_count.Base.Numbers.{integer, require_between, require_between-bounds}
use cash_count.Base.Int.{pos}
use cash_count.Queue.Job.{
  JobRow, JobTable, QueueError, Capability, is_queue_job_type, queue_job_types, not_blank,
  unsupported_job_type, invalid_max_attempts, invalid_dedupe_key, unstorable_key,
  require_system_capability, unknown_workspace,
}
use cash_count.Queue.Payload.{validate_payload}
use cash_count.Queue.Insert.{
  InsertContext, EnqueueInput, EnqueueValues, validate_enqueue, validate_workspace,
  require_priority, validate_available_at, validate_dedupe_key, is_dedupe_key, conflicts_with,
  new_row, resolve_conflict, insert_statement, after_insert, if_allowed, insert_queue_job,
  enqueue_system, or_else, workspace_exists, can_store,
}

-- What the validation guarantees of the row that it lets in.
pub record IsValid (input : EnqueueInput) (v : EnqueueValues) : Type 0 where
  pub attempts : 0 < v.max_attempts
  pub job_type : is_blank input.job_type ≡ false
  pub key : not_blank input.dedupe_key ≡ true

job_type-not-blank : (t : Text) → is_queue_job_type t ≡ true → is_blank t ≡ false
unfolding is_queue_job_type
job_type-not-blank t h =
    let (u, m, e) = exists_witness (λ u. text_eq u t) queue_job_types h in
    let none_blank : All (λ u. is_blank u ≡ false) queue_job_types = (
      refl,
      (
        refl,
        (refl, (refl, (refl, (refl, (refl, (refl, (refl, (refl, (refl, (refl, (refl, tt))))))))))),
      ),
    ) in
    subst (λ x. is_blank x ≡ false) (text_eq→eq u t e)
      (All-of-Memᴰ (λ u. is_blank u ≡ false) queue_job_types none_blank m)

dedupe_key-not-blank :
    (key : Option Text) (u : Unit {0}) → validate_dedupe_key key ≡ ok u → not_blank key ≡ true
unfolding validate_dedupe_key is_dedupe_key
dedupe_key-not-blank none u h = refl
dedupe_key-not-blank (some k) u h =
    let valid = guard-eq-ok (is_dedupe_key k) invalid_dedupe_key h in
    ground (arith, trim_not-blank k, valid)

validate_enqueue-IsValid :
    (clock : ℕ) (workspace_id : Option Text) (input : EnqueueInput) (v : EnqueueValues)
    → validate_enqueue clock workspace_id input ≡ ok v
    → IsValid input v
unfolding validate_enqueue
validate_enqueue-IsValid clock workspace_id input v h =
    let (_, _, h1) = >>=-eq-ok (validate_workspace workspace_id) _ h in
    let (_, typed, h2) =
      >>=-eq-ok (guard (is_queue_job_type input.job_type) unsupported_job_type) _ h1 in
    let (n, e, h3) =
      >>=-eq-ok (require_between 1 100 input.max_attempts invalid_max_attempts) _ h2 in
    let (p, _, h4) = >>=-eq-ok (require_priority (or_else input.priority (integer (pos 0)))) _ h3 in
    let (a, _, h5) = >>=-eq-ok (validate_available_at clock input.requested_at) _ h4 in
    let (u, keyed, h6) = >>=-eq-ok (validate_dedupe_key input.dedupe_key) _ h5 in
    let (_, _, h7) = >>=-eq-ok (validate_payload (or_else input.payload [])) _ h6 in
    let bounds = require_between-bounds 1 100 input.max_attempts invalid_max_attempts n e in
    record {
      attempts = ground (arith, h7, bounds);
      job_type = job_type-not-blank input.job_type (guard-eq-ok _ _ typed);
      key = dedupe_key-not-blank input.dedupe_key u keyed;
    }

-- What an insertion does to the table.
pub data Insertion (jobs : JobTable) : JobTable → Type 0 where
  finds : Insertion jobs jobs
  adds :
      (id : Text) (workspace_id : Option Text) (input : EnqueueInput) (v : EnqueueValues) (now : ℕ)
      → IsValid input v
      → exists (conflicts_with id workspace_id input.job_type input.dedupe_key) jobs ≡ false
      → Insertion jobs (new_row id workspace_id input v now ∷ jobs)

-- The two ways in which the statement succeeds.
abbrev pub Inserted :
    InsertContext
    → Option Text
    → EnqueueInput
    → EnqueueValues
    → JobTable
    → Option JobRow × JobTable
    → Type 0
Inserted env workspace_id input v jobs out =
    ((exists (conflicts_with env.new_id workspace_id input.job_type input.dedupe_key) jobs ≡ true)
      × (out ≡ (none, jobs)))
    ⊎ ((exists (conflicts_with env.new_id workspace_id input.job_type input.dedupe_key) jobs
          ≡ false)
        × (out ≡ (
          some (new_row env.new_id workspace_id input v env.db_now),
          new_row env.new_id workspace_id input v env.db_now ∷ jobs,
        )))

pub insert_statement-Inserted :
    (env : InsertContext) (workspace_id : Option Text) (input : EnqueueInput) (jobs : JobTable)
    (out : Option JobRow × JobTable)
    → insert_statement env workspace_id input jobs ≡ ok out
    → (v : EnqueueValues) × (validate_enqueue env.clock workspace_id input ≡ ok v)
      × Inserted env workspace_id input v jobs out
unfolding insert_statement
insert_statement-Inserted env workspace_id input jobs out h =
    let (v, e, h1) = >>=-eq-ok (validate_enqueue env.clock workspace_id input) _ h in
    let (_, _, h2) =
      >>=-eq-ok (guard (can_store env.storable input.dedupe_key) unstorable_key) _ h1 in
    elim (Bool-cases
      (exists (conflicts_with env.new_id workspace_id input.job_type input.dedupe_key) jobs)) [
        | inl c ↦ (v, e, inl (c, sym (ok-injective (rw c at h2))))
        | inr c ↦
            let known = workspace_exists env.known_workspace workspace_id in
            let (_, _, h3) = >>=-eq-ok (guard known unknown_workspace) _ (rw c at h2) in
            (v, e, inr (c, sym (ok-injective h3)))
      ]

resolve_conflict_same :
    (workspace_id : Option Text) (job_type : Text) (key : Option Text) (jobs : JobTable)
    → (resolve_conflict workspace_id job_type key (λ t. t) jobs).1 ≡ jobs
unfolding resolve_conflict
resolve_conflict_same workspace_id job_type none jobs = refl
resolve_conflict_same workspace_id job_type (some key) jobs = refl

Inserted-Insertion :
    (env : InsertContext) (workspace_id : Option Text) (input : EnqueueInput) (v : EnqueueValues)
    (jobs : JobTable) (out : Option JobRow × JobTable)
    → validate_enqueue env.clock workspace_id input ≡ ok v
    → Inserted env workspace_id input v jobs out
    → Insertion jobs (after_insert workspace_id input (λ t. t) jobs (ok out)).1
unfolding after_insert
Inserted-Insertion env workspace_id input v jobs out e (inl (c, same)) =
    rw (same, resolve_conflict_same workspace_id input.job_type input.dedupe_key jobs) finds
Inserted-Insertion env workspace_id input v jobs out e (inr (c, same)) = rw same (
    adds env.new_id workspace_id input v env.db_now
      (validate_enqueue-IsValid env.clock workspace_id input v e) c)

-- The first statement makes the insertion.
pub insert-Insertion :
    (env : InsertContext) (workspace_id : Option Text) (input : EnqueueInput) (jobs : JobTable)
    → Insertion jobs (insert_queue_job env workspace_id input (λ t. t) jobs).1
unfolding insert_queue_job after_insert
insert-Insertion env workspace_id input jobs =
    go (insert_statement env workspace_id input jobs) refl
  where
    go :
        (result : Result QueueError (Option JobRow × JobTable))
        → insert_statement env workspace_id input jobs ≡ result
        → Insertion jobs (after_insert workspace_id input (λ t. t) jobs result).1
    go (err e) h = finds
    go (ok out) h =
        let (v, e, i) = insert_statement-Inserted env workspace_id input jobs out h in
        Inserted-Insertion env workspace_id input v jobs out e i

pub enqueue_system-Insertion :
    (env : InsertContext) (capability : Capability) (input : EnqueueInput) (jobs : JobTable)
    → Insertion jobs (enqueue_system env capability input (λ t. t) jobs).1
unfolding enqueue_system
enqueue_system-Insertion env capability input jobs =
    elim (require_system_capability capability)
      as (λ allowed.
        Insertion jobs
          (if_allowed allowed jobs (insert_queue_job env none input (λ t. t) jobs)).1) [
            | err e ↦ finds
            | ok u ↦ insert-Insertion env none input jobs
          ]
