-- ===== src/Queue/Dedupe.antt =====
-- Repeated requests: what a request is answered when an active job may have its key, whatever others do
-- between the two statements of an insertion.
use cash_count.Base.{
  ◌≡◌, refl, sym, subst, true, false, Option, none, some, ◌∷◌, exists, All, Bool-cases, inl, inr,
  exists_of_Memᴰ, head-filter, head-filter-none,
}
use mathlib.Core.List.{Memᴰ}
use cash_count.Base.Text.{Text, text_eq}
use cash_count.Base.Results.{Result, err, ok}
use cash_count.Queue.Job.{JobRow, JobTable, QueueError, pending, dedupe_conflict_unresolved}
use cash_count.Queue.Insert.{
  InsertContext, EnqueueInput, EnqueueValues, EnqueuedJob, validate_enqueue, conflicts_with,
  is_existing, resolve_conflict, existing_job, insert_statement, after_insert, insert_queue_job,
  new_row, workspace_exists, can_store,
}
use cash_count.Queue.Duplicates.{
  IsDuplicate, HasDuplicate, is_workspace, existing-IsDuplicate, IsDuplicate-existing,
  validate_enqueue-is_workspace, conflict-HasDuplicate, HasDuplicate-conflict,
}

-- The three ways in which a request with a key ends: the id for a new job, the table before it, the
-- table after what others did between its statements, the answer and the table after it.
pub data Enqueued (id : Text) (workspace_id : Option Text) (job_type key : Text)
    (jobs seen : JobTable) : Result QueueError EnqueuedJob × JobTable → Type 0 where
  -- The key was free.
  creates :
      (r : JobRow)
      → ¬ HasDuplicate workspace_id job_type key jobs
      → IsDuplicate workspace_id job_type key r
      → (r.id ≡ id) × (r.status ≡ pending) × (r.attempt_count ≡ 0) × (r.locked_by ≡ none)
      → Enqueued id workspace_id job_type key jobs seen
          (ok (record { row = r; created = true }), r ∷ jobs)
  -- The key was in use, and still is at the second statement.
  repeats :
      (r : JobRow)
      → HasDuplicate workspace_id job_type key jobs
      → Memᴰ r seen
      → IsDuplicate workspace_id job_type key r
      → Enqueued id workspace_id job_type key jobs seen
          (ok (record { row = r; created = false }), seen)
  -- The job with the key ended between the two statements.
  misses :
      HasDuplicate workspace_id job_type key jobs
      → ¬ HasDuplicate workspace_id job_type key seen
      → Enqueued id workspace_id job_type key jobs seen (err dedupe_conflict_unresolved, seen)

-- The select finds such a job if there is one.
resolve_conflict-Enqueued :
    (id : Text) (workspace_id : Option Text) (job_type key : Text) (between : JobTable → JobTable)
    (jobs : JobTable)
    → HasDuplicate workspace_id job_type key jobs
    → Enqueued id workspace_id job_type key jobs
        (between jobs)
        (resolve_conflict workspace_id job_type (some key) between jobs)
unfolding resolve_conflict existing_job
resolve_conflict-Enqueued id workspace_id job_type key between jobs d =
    elim (Bool-cases (exists (is_existing workspace_id job_type key) (between jobs))) [
      | inl e ↦
          let (r, found, m, t) =
            head-filter (is_existing workspace_id job_type key) (between jobs) e in
          rw found (repeats r d m (existing-IsDuplicate workspace_id job_type key r t))
      | inr e ↦ rw (head-filter-none (is_existing workspace_id job_type key) (between jobs) e) (
          misses d (λ other.
            let (r, m, same) = other in
            let k =
              exists_of_Memᴰ (is_existing workspace_id job_type key) (between jobs) m
                (IsDuplicate-existing workspace_id job_type key r same) in
            cc))
    ]

-- A valid request with a key that the database can store, for a workspace that exists and under a
-- fresh id, on a table whose workspaces are canonical, ends in one of three ways, whatever others do
-- to the table between its two statements: if no active job of the workspace and type has the key, it
-- adds the job that it returns, pending and under the id; otherwise it returns such a job of the table
-- that its second statement sees, or throws exactly when that table has none.
pub insert-Enqueued :
    (env : InsertContext) (workspace_id : Option Text) (input : EnqueueInput)
    (between : JobTable → JobTable) (jobs : JobTable) (v : EnqueueValues) (key : Text)
    → validate_enqueue env.clock workspace_id input ≡ ok v
    → input.dedupe_key ≡ some key
    → env.storable key ≡ true
    → workspace_exists env.known_workspace workspace_id ≡ true
    → All (λ r. (is_workspace r.workspace_id ≡ true) × (text_eq env.new_id r.id ≡ false)) jobs
    → Enqueued env.new_id workspace_id input.job_type key jobs
        (between jobs)
        (insert_queue_job env workspace_id input between jobs)
unfolding insert_queue_job insert_statement after_insert new_row
insert-Enqueued env workspace_id input between jobs v key valid keyed storable known fresh =
    let w = validate_enqueue-is_workspace env.clock workspace_id input v valid in
    elim (Bool-cases
      (exists (conflicts_with env.new_id workspace_id input.job_type (some key)) jobs)) [
        | inl c ↦
            rw (valid, keyed, storable, c)
              (resolve_conflict-Enqueued env.new_id workspace_id input.job_type key between jobs
                (conflict-HasDuplicate env.new_id workspace_id input.job_type key jobs w fresh c))
        | inr c ↦
            let free =
              subst
                (λ k. exists (conflicts_with env.new_id workspace_id input.job_type k) jobs ≡ false)
                (sym keyed) c in
            let stored = subst (λ k. can_store env.storable k ≡ true) (sym keyed) storable in
            rw (valid, stored, free, known)
              (creates (new_row env.new_id workspace_id input v env.db_now)
                (λ d.
                  let k = HasDuplicate-conflict env.new_id workspace_id input.job_type key jobs d in
                  cc)
                (record {
                  workspace = refl;
                  type_of_job = refl;
                  dedupe_key = keyed;
                  unfinished = inl refl;
                })
                (refl, refl, refl, refl))
      ]
