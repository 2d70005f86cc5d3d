-- ===== src/Queue/Repeats.antt =====
-- A request that is made again by `insertQueueJob` of packages/db/src/job-queue-insert.ts is answered
-- with the same job.
use cash_count.Base.{
  ◌≡◌, refl, ◌∙◌, sym, ap, subst, Bool, true, false, Option, none, some, [], ◌∷◌, arith, exists,
  Bool-cases, inl, inr, exists_of_Memᴰ, head-filter, head-filter-none, All-of-Memᴰ,
}
use mathlib.Core.List.{Memᴰ}
use cash_count.Base.Text.{Text}
use cash_count.Base.Results.{Result, err, ok, ok-injective}
use cash_count.Queue.Job.{JobRow, JobTable, QueueError}
use cash_count.Queue.Calls.InsertMoves.{Inserted, insert_statement-Inserted}
use cash_count.Queue.Invariant.Keys.{HasUniqueActiveKeys, same_active_key, same_active_key_of}
use cash_count.Queue.Insert.{
  InsertContext, EnqueueInput, EnqueueValues, EnqueuedJob, validate_enqueue, same_index_key,
  is_existing, resolve_conflict, existing_job, insert_statement, after_insert, insert_queue_job,
  new_row,
}
use cash_count.Queue.Duplicates.{
  IsDuplicate, existing-IsDuplicate, IsDuplicate-existing, same_or_else, HasDuplicate-conflict,
  active_of,
}

IsDuplicate-index :
    (workspace_id : Option Text) (job_type key : Text) (r : JobRow)
    → IsDuplicate workspace_id job_type key r
    → same_index_key workspace_id job_type key r ≡ true
unfolding same_index_key is_existing
IsDuplicate-index workspace_id job_type key r d =
    let h = IsDuplicate-existing workspace_id job_type key r d in
    ground (arith, same_or_else workspace_id r.workspace_id)

duplicates_clash :
    (workspace_id : Option Text) (job_type key : Text) (r s : JobRow)
    → IsDuplicate workspace_id job_type key r
    → IsDuplicate workspace_id job_type key s
    → same_active_key r s ≡ true
duplicates_clash workspace_id job_type key r s d d' =
    same_active_key_of r s key (active_of r.status d.unfinished) d.dedupe_key (
      IsDuplicate-index r.workspace_id r.job_type key s (record {
        workspace = sym d.workspace ∙ d'.workspace;
        type_of_job = sym d.type_of_job ∙ d'.type_of_job;
        dedupe_key = d'.dedupe_key;
        unfinished = d'.unfinished;
      }))

-- The active jobs of a table under one key are one job.
one_duplicate :
    (workspace_id : Option Text) (job_type key : Text) (jobs : JobTable) (r s : JobRow)
    → HasUniqueActiveKeys jobs
    → Memᴰ r jobs
    → Memᴰ s jobs
    → IsDuplicate workspace_id job_type key r
    → IsDuplicate workspace_id job_type key s
    → r ≡ s
one_duplicate workspace_id job_type key [] r s u m n d d' = elim m [ ]
one_duplicate workspace_id job_type key (x ∷ xs) r s u (Memᴰ.head e) (Memᴰ.head f) d d' = e ∙ sym f
one_duplicate workspace_id job_type key (x ∷ xs) r s u (Memᴰ.head e) (Memᴰ.tail n) d d' =
    let other = subst (λ y. same_active_key y s ≡ false) (sym e) (All-of-Memᴰ _ xs u.0 n) in
    absurd (cc (duplicates_clash workspace_id job_type key r s d d'))
one_duplicate workspace_id job_type key (x ∷ xs) r s u (Memᴰ.tail m) (Memᴰ.head f) d d' =
    let other = subst (λ y. same_active_key y r ≡ false) (sym f) (All-of-Memᴰ _ xs u.0 m) in
    absurd (cc (duplicates_clash workspace_id job_type key s r d' d))
one_duplicate workspace_id job_type key (x ∷ xs) r s u (Memᴰ.tail m) (Memᴰ.tail n) d d' =
    one_duplicate workspace_id job_type key xs r s u.1 m n d d'

-- A table that has a job with the key once answers every further request for the key with it.
repeat_found :
    (env : InsertContext) (workspace_id : Option Text) (input : EnqueueInput) (jobs : JobTable)
    (v : EnqueueValues) (key : Text) (r : JobRow)
    → validate_enqueue env.clock workspace_id input ≡ ok v
    → input.dedupe_key ≡ some key
    → env.storable key ≡ true
    → HasUniqueActiveKeys jobs
    → Memᴰ r jobs
    → IsDuplicate workspace_id input.job_type key r
    → insert_queue_job env workspace_id input (λ t. t) jobs
      ≡ (ok (record { row = r; created = false }), jobs)
unfolding insert_queue_job insert_statement after_insert resolve_conflict existing_job
repeat_found env workspace_id input jobs v key r valid keyed storable unique m d =
    let conflict =
      HasDuplicate-conflict env.new_id workspace_id input.job_type key jobs (r, m, d) in
    let (s, found, n, t) = head-filter (is_existing workspace_id input.job_type key) jobs (
      exists_of_Memᴰ (is_existing workspace_id input.job_type key) jobs m
        (IsDuplicate-existing workspace_id input.job_type key r d)) in
    let same : s ≡ r =
      one_duplicate workspace_id input.job_type key jobs s r unique n m
        (existing-IsDuplicate workspace_id input.job_type key s t) d in
    rw (valid, keyed, storable, conflict, found, same)

-- An answer that is given is the answer that was made.
answered_row :
    (r : JobRow) (created : Bool) (table after : JobTable) (a : EnqueuedJob) (P : JobRow → Type 0)
    → ◌≡◌ {A = Result QueueError EnqueuedJob × JobTable}
        (ok (record { row = r; created = created }), table)
        (ok a, after)
    → Memᴰ r table
    → P r
    → Memᴰ a.row after × P a.row
answered_row r created table after a P h m p =
    let same = ok-injective (ap (λ out. out.0) h) in
    let row_same : r ≡ a.row = ap (λ (x : EnqueuedJob). x.row) same in
    let table_same : table ≡ after = ap (λ out. out.1) h in
    (subst (λ x. Memᴰ x after) row_same (subst (Memᴰ r) table_same m), subst P row_same p)

resolve_conflict-IsDuplicate :
    (workspace_id : Option Text) (job_type key : Text) (between : JobTable → JobTable)
    (jobs after : JobTable) (a : EnqueuedJob)
    → resolve_conflict workspace_id job_type (some key) between jobs ≡ (ok a, after)
    → Memᴰ a.row after × IsDuplicate workspace_id job_type key a.row
unfolding resolve_conflict existing_job
resolve_conflict-IsDuplicate workspace_id job_type key between jobs after a h =
    elim (Bool-cases (exists (is_existing workspace_id job_type key) (between jobs))) [
      | inl e ↦
          let (r, found, m, t) =
            head-filter (is_existing workspace_id job_type key) (between jobs) e in
          answered_row r false (between jobs) after a (IsDuplicate workspace_id job_type key)
            (rw found at h) m (existing-IsDuplicate workspace_id job_type key r t)
      | inr e ↦
          let none_found =
            head-filter-none (is_existing workspace_id job_type key) (between jobs) e in
          absurd (cc (ap (λ out. out.0) (rw none_found at h)))
    ]

new_row-IsDuplicate :
    (env : InsertContext) (workspace_id : Option Text) (input : EnqueueInput) (v : EnqueueValues)
    (jobs table : JobTable) (key : Text) (r : JobRow)
    → input.dedupe_key ≡ some key
    → Inserted env workspace_id input v jobs (some r, table)
    → Memᴰ r table × IsDuplicate workspace_id input.job_type key r
unfolding new_row
new_row-IsDuplicate env workspace_id input v jobs table key r keyed (inl (c, same)) =
    absurd (cc (ap (λ out. out.0) same))
new_row-IsDuplicate env workspace_id input v jobs table key r keyed (inr (c, same)) =
    let made = new_row env.new_id workspace_id input v env.db_now in
    let row_same : made ≡ r = cc (ap (λ out. out.0) same) in
    let table_same : made ∷ jobs ≡ table = sym (ap (λ out. out.1) same) in
    (
      subst (λ x. Memᴰ x table) row_same (subst (Memᴰ made) table_same (Memᴰ.head refl)),
      subst (IsDuplicate workspace_id input.job_type key) row_same (record {
        workspace = refl;
        type_of_job = refl;
        dedupe_key = keyed;
        unfinished = inl refl;
      }),
    )

-- A request that returned has returned an active job of the table after it.
insert-IsDuplicate :
    (env : InsertContext) (workspace_id : Option Text) (input : EnqueueInput)
    (between : JobTable → JobTable) (jobs after : JobTable) (key : Text) (a : EnqueuedJob)
    → input.dedupe_key ≡ some key
    → insert_queue_job env workspace_id input between jobs ≡ (ok a, after)
    → Memᴰ a.row after × IsDuplicate workspace_id input.job_type key a.row
unfolding insert_queue_job after_insert
insert-IsDuplicate env workspace_id input between jobs after key a keyed =
    go (insert_statement env workspace_id input jobs) refl
  where
    go :
        (result : Result QueueError (Option JobRow × JobTable))
        → insert_statement env workspace_id input jobs ≡ result
        → after_insert workspace_id input between jobs result ≡ (ok a, after)
        → Memᴰ a.row after × IsDuplicate workspace_id input.job_type key a.row
    go (err e) h k = absurd (cc)
    go (ok (some r, table)) h k =
        let (v, e, i) = insert_statement-Inserted env workspace_id input jobs (some r, table) h in
        let (m, d) = new_row-IsDuplicate env workspace_id input v jobs table key r keyed i in
        answered_row r true table after a (IsDuplicate workspace_id input.job_type key) k m d
    go (ok (none, table)) h k =
        resolve_conflict-IsDuplicate workspace_id input.job_type key between table after a
          (rw keyed at k)

-- A request with a key that was answered with a job, created or not, whatever others did between its
-- statements, is answered with the very same row, as not created and with the table unchanged, when it
-- is made again right afterwards under any id and time, if it is still valid, the database can store
-- its key and no two active jobs of the table share a key: a key stands for one active job.
pub repeat_answers :
    (env again : InsertContext) (workspace_id : Option Text) (input : EnqueueInput)
    (between : JobTable → JobTable) (jobs after : JobTable) (w : EnqueueValues) (key : Text)
    (a : EnqueuedJob)
    → input.dedupe_key ≡ some key
    → insert_queue_job env workspace_id input between jobs ≡ (ok a, after)
    → HasUniqueActiveKeys after
    → validate_enqueue again.clock workspace_id input ≡ ok w
    → again.storable key ≡ true
    → insert_queue_job again workspace_id input (λ t. t) after
      ≡ (ok (record { row = a.row; created = false }), after)
repeat_answers env again workspace_id input between jobs after w key a keyed h unique valid
      storable =
    let (m, d) = insert-IsDuplicate env workspace_id input between jobs after key a keyed h in
    repeat_found again workspace_id input after w key a.row valid keyed storable unique m d
