-- ===== src/Queue/Invariant/Keys.antt =====
-- The primary key and the active-dedupe index of the table hold after every call.
use cash_count.Base.{
  ℕ, ◌≡◌, refl, Bool, true, false, ◌&&◌, Option, none, some, [], ◌∷◌, arith, done, also, All,
  exists,
}
use cash_count.Base.Text.{Text, text_eq}
use cash_count.Queue.Job.{JobRow, JobTable, is_active}
use cash_count.Queue.Insert.{new_row, conflicts_with, same_index_key}
use cash_count.Queue.Claim.{start_attempt}
use cash_count.Queue.Lease.{holds_lease, extend_lease, finish, end_attempt}
use cash_count.Queue.Reclaim.{is_expired, reclaim_row}
use cash_count.Queue.Distinct.{HasDistinctIds}
use cash_count.Queue.Moves.{RowMove, stays, starts, extends, finishes, ends, reclaims, TableMove}
use cash_count.Queue.Calls.InsertMoves.{Insertion, finds, adds}

key_clash : Option Text → Text → Option Text → JobRow → Bool
unfolding same_index_key
key_clash workspace_id job_type none s = false
key_clash workspace_id job_type (some key) s = same_index_key workspace_id job_type key s

-- Both rows are active under one key of the dedupe index.
pub same_active_key : JobRow → JobRow → Bool
unfolding key_clash
same_active_key r s = is_active r.status && key_clash r.workspace_id r.job_type r.dedupe_key s

pub same_active_key_of :
    (r s : JobRow) (key : Text)
    → is_active r.status ≡ true
    → r.dedupe_key ≡ some key
    → same_index_key r.workspace_id r.job_type key s ≡ true
    → same_active_key r s ≡ true
unfolding same_active_key key_clash
same_active_key_of r s key a k h = rw (a, k) h

abbrev pub HasUniqueActiveKeys : JobTable → Type 0
HasUniqueActiveKeys [] = Unit
HasUniqueActiveKeys (r ∷ rs) = All (λ s. same_active_key r s ≡ false) rs × HasUniqueActiveKeys rs

-- A move keeps the identity and the key of a job, and makes no inactive job active.
pub record Keeps (r s : JobRow) : Type 0 where
  pub same_id : s.id ≡ r.id
  pub same_workspace : s.workspace_id ≡ r.workspace_id
  pub same_type : s.job_type ≡ r.job_type
  pub same_key : s.dedupe_key ≡ r.dedupe_key
  pub active_before : is_active s.status ≡ true → is_active r.status ≡ true

pub RowMove-Keeps : {worker : Text} {now : ℕ} {r s : JobRow} → RowMove worker now r s → Keeps r s
unfolding start_attempt extend_lease finish end_attempt reclaim_row holds_lease is_expired
RowMove-Keeps (stays r) = ground arith
RowMove-Keeps (starts r expires w a b t ok) = ground arith
RowMove-Keeps (extends r job expires h) = ground arith
RowMove-Keeps (finishes r job h) = ground arith
RowMove-Keeps (ends r job at code summary h s) = ground arith
RowMove-Keeps (reclaims r at h le) = ground arith

same_active_key-Keeps :
    (r r' s s' : JobRow)
    → Keeps r r'
    → Keeps s s'
    → same_active_key r s ≡ false
    → same_active_key r' s' ≡ false
unfolding same_active_key
same_active_key-Keeps r r' s s' k l h = ground arith

other_keys :
    {worker : Text} {now : ℕ} {rs ss : JobTable} (r r' : JobRow)
    → Keeps r r'
    → TableMove worker now rs ss
    → All (λ s. same_active_key r s ≡ false) rs
    → All (λ s. same_active_key r' s ≡ false) ss
other_keys r r' k done h = tt
other_keys r r' k (also m ms) h =
    (same_active_key-Keeps r r' _ _ k (RowMove-Keeps m) h.0, other_keys r r' k ms h.1)

pub TableMove-HasUniqueActiveKeys :
    {worker : Text} {now : ℕ} {rs ss : JobTable}
    → TableMove worker now rs ss
    → HasUniqueActiveKeys rs
    → HasUniqueActiveKeys ss
TableMove-HasUniqueActiveKeys done h = tt
TableMove-HasUniqueActiveKeys (also m ms) h =
    (other_keys _ _ (RowMove-Keeps m) ms h.0, TableMove-HasUniqueActiveKeys ms h.1)

other_ids :
    {worker : Text} {now : ℕ} {rs ss : JobTable} (i j : Text)
    → j ≡ i
    → TableMove worker now rs ss
    → All (λ s. text_eq i s.id ≡ false) rs
    → All (λ s. text_eq j s.id ≡ false) ss
other_ids i j e done h = tt
other_ids i j e (also m ms) h =
    (ground (arith, h.0, (RowMove-Keeps m).same_id), other_ids i j e ms h.1)

pub TableMove-HasDistinctIds :
    {worker : Text} {now : ℕ} {rs ss : JobTable}
    → TableMove worker now rs ss
    → HasDistinctIds rs
    → HasDistinctIds ss
TableMove-HasDistinctIds done h = tt
TableMove-HasDistinctIds (also m ms) h =
    (other_ids _ _ (RowMove-Keeps m).same_id ms h.0, TableMove-HasDistinctIds ms h.1)

-- A new row differs from each old one in its id, and clashes with none.
new_ids :
    (id : Text) (workspace_id : Option Text) (job_type : Text) (key : Option Text) (jobs : JobTable)
    → exists (conflicts_with id workspace_id job_type key) jobs ≡ false
    → All (λ s. text_eq id s.id ≡ false) jobs
unfolding conflicts_with
new_ids id workspace_id job_type key [] h = tt
new_ids id workspace_id job_type none (r ∷ rs) h =
    (ground arith, new_ids id workspace_id job_type none rs (ground arith))
new_ids id workspace_id job_type (some key) (r ∷ rs) h =
    (ground arith, new_ids id workspace_id job_type (some key) rs (ground arith))

new_keys :
    (id : Text) (workspace_id : Option Text) (job_type : Text) (key : Option Text) (jobs : JobTable)
    → exists (conflicts_with id workspace_id job_type key) jobs ≡ false
    → All (λ s. key_clash workspace_id job_type key s ≡ false) jobs
unfolding conflicts_with key_clash
new_keys id workspace_id job_type key [] h = tt
new_keys id workspace_id job_type none (r ∷ rs) h =
    (refl, new_keys id workspace_id job_type none rs (ground arith))
new_keys id workspace_id job_type (some key) (r ∷ rs) h =
    (ground arith, new_keys id workspace_id job_type (some key) rs (ground arith))

pub Insertion-HasDistinctIds :
    {jobs after : JobTable} → Insertion jobs after → HasDistinctIds jobs → HasDistinctIds after
unfolding new_row
Insertion-HasDistinctIds finds h = h
Insertion-HasDistinctIds {jobs} (adds id workspace_id input v now pos free) h =
    (new_ids id workspace_id input.job_type input.dedupe_key jobs free, h)

pub Insertion-HasUniqueActiveKeys :
    {jobs after : JobTable}
    → Insertion jobs after
    → HasUniqueActiveKeys jobs
    → HasUniqueActiveKeys after
unfolding new_row same_active_key
Insertion-HasUniqueActiveKeys finds h = h
Insertion-HasUniqueActiveKeys {jobs} (adds id workspace_id input v now pos free) h =
    (new_keys id workspace_id input.job_type input.dedupe_key jobs free, h)
