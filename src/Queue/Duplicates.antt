-- ===== src/Queue/Duplicates.antt =====
-- The active jobs under one dedupe key, as packages/db/src/job-queue-insert.ts selects them, and the
-- conflicts of an insertion.
use cash_count.Base.{
  ℕ, ◌≡◌, refl, sym, ap, subst, Bool, true, false, Option, none, some, arith, exists, All,
  exists_witness, exists_of_Memᴰ, All-of-Memᴰ, ◌⊎◌,
}
use mathlib.Core.List.{Memᴰ}
use cash_count.Base.Text.{Text, text_eq, text_eq→eq, text_eq_refl, option_text_eq}
use cash_count.Base.Results.{ok, >>=-eq-ok, guard-eq-ok}
use cash_count.Queue.Job.{
  JobStatus, pending, retry, running, JobRow, JobTable, invalid_workspace_id, is_active,
}
use cash_count.Queue.Payload.{is_canonical_uuid}
use cash_count.Queue.Insert.{
  EnqueueInput, EnqueueValues, validate_enqueue, conflicts_with, same_index_key, is_existing,
  or_else, zero_uuid, validate_workspace,
}

-- An active job of the workspace and type under the key.
pub record IsDuplicate (workspace_id : Option Text) (job_type key : Text) (r : JobRow)
    : Type 0 where
  pub workspace : workspace_id ≡ r.workspace_id
  pub type_of_job : job_type ≡ r.job_type
  pub dedupe_key : r.dedupe_key ≡ some key
  pub unfinished : (r.status ≡ pending) ⊎ (r.status ≡ retry) ⊎ (r.status ≡ running)

option_text_eq→eq : (s t : Option Text) → option_text_eq s t ≡ true → s ≡ t
option_text_eq→eq none none h = refl
option_text_eq→eq none (some t) h = absurd (cc)
option_text_eq→eq (some s) none h = absurd (cc)
option_text_eq→eq (some s) (some t) h = ap some (text_eq→eq s t h)

option_text_eq_refl : (t : Option Text) → option_text_eq t t ≡ true
option_text_eq_refl none = refl
option_text_eq_refl (some t) = text_eq_refl t

unfinished_of : (s : JobStatus) → is_active s ≡ true → (s ≡ pending) ⊎ (s ≡ retry) ⊎ (s ≡ running)
unfinished_of s h = ground arith

pub active_of : (s : JobStatus) → (s ≡ pending) ⊎ (s ≡ retry) ⊎ (s ≡ running) → is_active s ≡ true
active_of s h = ground arith

pub existing-IsDuplicate :
    (workspace_id : Option Text) (job_type key : Text) (r : JobRow)
    → is_existing workspace_id job_type key r ≡ true
    → IsDuplicate workspace_id job_type key r
unfolding is_existing
existing-IsDuplicate workspace_id job_type key r h = record {
  workspace = option_text_eq→eq workspace_id r.workspace_id (ground arith);
  type_of_job = text_eq→eq job_type r.job_type (ground arith);
  dedupe_key = sym (option_text_eq→eq (some key) r.dedupe_key (ground arith));
  unfinished = unfinished_of r.status (ground arith);
}

pub IsDuplicate-existing :
    (workspace_id : Option Text) (job_type key : Text) (r : JobRow)
    → IsDuplicate workspace_id job_type key r
    → is_existing workspace_id job_type key r ≡ true
unfolding is_existing
IsDuplicate-existing workspace_id job_type key r d =
    let w =
      subst (λ x. option_text_eq workspace_id x ≡ true) d.workspace
        (option_text_eq_refl workspace_id) in
    let t = subst (λ x. text_eq job_type x ≡ true) d.type_of_job (text_eq_refl job_type) in
    let k = subst (λ x. option_text_eq (some key) x ≡ true) (sym d.dedupe_key) (text_eq_refl key) in
    rw (w, t, k) (active_of r.status d.unfinished)

-- A row's workspace is missing or a canonical UUID, as `validate_enqueue` requires.
abbrev pub is_workspace : Option Text → Bool
is_workspace none = true
is_workspace (some w) = is_canonical_uuid w

zero_uuid_not_canonical : is_canonical_uuid zero_uuid ≡ false
unfolding is_canonical_uuid
zero_uuid_not_canonical = refl

-- No workspace is spelled like the index's stand-in for a missing one.
same_workspace :
    (v w : Option Text)
    → is_workspace v ≡ true
    → is_workspace w ≡ true
    → text_eq (or_else v zero_uuid) (or_else w zero_uuid) ≡ true
    → option_text_eq v w ≡ true
same_workspace none none h k e = refl
same_workspace none (some w) h k e =
    let z : zero_uuid ≡ w = text_eq→eq zero_uuid w e in cc zero_uuid_not_canonical
same_workspace (some v) none h k e =
    let z : v ≡ zero_uuid = text_eq→eq v zero_uuid e in cc zero_uuid_not_canonical
same_workspace (some v) (some w) h k e = e

pub same_or_else :
    (v w : Option Text)
    → option_text_eq v w ≡ true
    → text_eq (or_else v zero_uuid) (or_else w zero_uuid) ≡ true
same_or_else none none h = text_eq_refl zero_uuid
same_or_else none (some w) h = absurd (cc)
same_or_else (some v) none h = absurd (cc)
same_or_else (some v) (some w) h = h

existing-conflicts :
    (id : Text) (workspace_id : Option Text) (job_type key : Text) (r : JobRow)
    → is_existing workspace_id job_type key r ≡ true
    → conflicts_with id workspace_id job_type (some key) r ≡ true
unfolding is_existing conflicts_with same_index_key
existing-conflicts id workspace_id job_type key r h =
    ground (arith, same_or_else workspace_id r.workspace_id)

conflict-existing :
    (id : Text) (workspace_id : Option Text) (job_type key : Text) (r : JobRow)
    → is_workspace workspace_id ≡ true
    → is_workspace r.workspace_id ≡ true
    → text_eq id r.id ≡ false
    → conflicts_with id workspace_id job_type (some key) r ≡ true
    → is_existing workspace_id job_type key r ≡ true
unfolding is_existing conflicts_with same_index_key
conflict-existing id workspace_id job_type key r v w fresh h =
    ground (arith, same_workspace workspace_id r.workspace_id)

pub validate_enqueue-is_workspace :
    (clock : ℕ) (workspace_id : Option Text) (input : EnqueueInput) (v : EnqueueValues)
    → validate_enqueue clock workspace_id input ≡ ok v
    → is_workspace workspace_id ≡ true
unfolding validate_enqueue validate_workspace
validate_enqueue-is_workspace clock none input v h = refl
validate_enqueue-is_workspace clock (some w) input v h =
    let (_, e, _) = >>=-eq-ok (validate_workspace (some w)) _ h in
    guard-eq-ok (is_canonical_uuid w) invalid_workspace_id e

-- Whether a table has such a job.
abbrev pub HasDuplicate : Option Text → Text → Text → JobTable → Type 0
HasDuplicate workspace_id job_type key jobs =
    (r : JobRow) × Memᴰ r jobs × IsDuplicate workspace_id job_type key r

-- Under a fresh id, a conflict is a job with the key.
pub conflict-HasDuplicate :
    (id : Text) (workspace_id : Option Text) (job_type key : Text) (jobs : JobTable)
    → is_workspace workspace_id ≡ true
    → All (λ r. (is_workspace r.workspace_id ≡ true) × (text_eq id r.id ≡ false)) jobs
    → exists (conflicts_with id workspace_id job_type (some key)) jobs ≡ true
    → HasDuplicate workspace_id job_type key jobs
conflict-HasDuplicate id workspace_id job_type key jobs w h c =
    let (s, n, t) = exists_witness (conflicts_with id workspace_id job_type (some key)) jobs c in
    let fresh = All-of-Memᴰ _ jobs h n in
    (
      s,
      n,
      existing-IsDuplicate workspace_id job_type key s
          (conflict-existing id workspace_id job_type key s w fresh.0 fresh.1 t),
    )

pub HasDuplicate-conflict :
    (id : Text) (workspace_id : Option Text) (job_type key : Text) (jobs : JobTable)
    → HasDuplicate workspace_id job_type key jobs
    → exists (conflicts_with id workspace_id job_type (some key)) jobs ≡ true
HasDuplicate-conflict id workspace_id job_type key jobs (r, m, d) =
    exists_of_Memᴰ (conflicts_with id workspace_id job_type (some key)) jobs m (
      existing-conflicts id workspace_id job_type key r
        (IsDuplicate-existing workspace_id job_type key r d))
