-- ===== src/Queue/Exclusive.antt =====
-- A lease excludes every other worker: what the repository's claim, heartbeat, complete and fail rely
-- on to have a job handled by one worker at a time.
use cash_count.Base.{
  ℕ, ◌<◌, ◌≡◌, Bool, true, false, ◌&&◌, Option, none, some, List, [], ◌∷◌, arith, leb, exists, All,
  done, also,
}
use cash_count.Base.Text.{Text, text_eq, text_eq→eq, text_eq_refl}
use cash_count.Queue.Job.{JobRow, JobTable, is_running}
use cash_count.Queue.Claim.{start_attempt}
use cash_count.Queue.Lease.{holds_lease, extend_lease, finish, end_attempt, owned_by}
use cash_count.Queue.Reclaim.{is_expired, reclaim_row}
use cash_count.Queue.Moves.{RowMove, stays, starts, extends, finishes, ends, reclaims, TableMove}
use cash_count.Queue.Calls.{Call, step, run, caller, call_time}
use cash_count.Queue.Calls.InsertMoves.{Insertion, finds, adds}
use cash_count.Queue.Calls.Moves.{CallMove, inserts, moves, step-CallMove}
use cash_count.Queue.Invariant.{TableInv, step-TableInv}

abbrev lasts : Option ℕ → ℕ → Bool
lasts none until = false
lasts (some t) until = leb until t

-- The job runs under a lease of the worker that lasts until the given time at least.
unfoldable pub held_until : Text → Text → ℕ → JobRow → Bool
held_until job worker until r =
    text_eq r.id job
    && is_running r.status
    && owned_by r.locked_by worker
    && lasts r.lease_expires_at until

owners_agree :
    (o : Option Text) (v w : Text) → owned_by o v ≡ true → owned_by o w ≡ true → text_eq v w ≡ true
owners_agree none v w h k = cc
owners_agree (some u) v w h k = cc (text_eq→eq u v h, text_eq→eq u w k, text_eq_refl u)

-- What anybody but the lease's owner may do before the lease ends.
RowMove-held_until :
    {other : Text} {now : ℕ} {r s : JobRow} (job worker : Text) (until : ℕ)
    → text_eq other worker ≡ false
    → now < until
    → RowMove other now r s
    → held_until job worker until r ≡ true
    → held_until job worker until s ≡ true
unfolding held_until holds_lease start_attempt extend_lease finish end_attempt reclaim_row
    is_expired
RowMove-held_until job worker until n lt (stays r) h = h
RowMove-held_until job worker until n lt (starts r expires w a b t _) h = ground arith
RowMove-held_until {other} job worker until n lt (extends r j expires k) h =
    ground (arith, owners_agree r.locked_by other worker)
RowMove-held_until {other} job worker until n lt (finishes r j k) h =
    ground (arith, owners_agree r.locked_by other worker)
RowMove-held_until {other} job worker until n lt (ends r j at code summary k s) h =
    ground (arith, owners_agree r.locked_by other worker)
RowMove-held_until job worker until n lt (reclaims r at k le) h = ground arith

TableMove-held_until :
    {other : Text} {now : ℕ} {rs ss : JobTable} (job worker : Text) (until : ℕ)
    → text_eq other worker ≡ false
    → now < until
    → TableMove other now rs ss
    → exists (held_until job worker until) rs ≡ true
    → exists (held_until job worker until) ss ≡ true
TableMove-held_until job worker until n lt done h = h
TableMove-held_until job worker until n lt (also {x = r} m ms) h = ground (
  arith,
  RowMove-held_until job worker until n lt m,
  TableMove-held_until job worker until n lt ms,
)

Insertion-held_until :
    {jobs after : JobTable} (held : JobRow → Bool)
    → Insertion jobs after
    → exists held jobs ≡ true
    → exists held after ≡ true
Insertion-held_until held finds h = h
Insertion-held_until held (adds id workspace_id input v now pos free) h = ground arith

CallMove-held_until :
    {call : Call} {jobs after : JobTable} (job worker : Text) (until : ℕ)
    → CallMove call jobs after
    → text_eq (caller call) worker ≡ false
    → call_time call < until
    → exists (held_until job worker until) jobs ≡ true
    → exists (held_until job worker until) after ≡ true
CallMove-held_until job worker until (inserts m) n lt h = Insertion-held_until _ m h
CallMove-held_until job worker until (moves m) n lt h =
    TableMove-held_until job worker until n lt m h

-- A call that its worker did not make, at a time before the lease ends.
abbrev pub IsForeign : Text → ℕ → Call → Type 0
IsForeign worker until call = (text_eq (caller call) worker ≡ false) × (call_time call < until)

-- While a job runs under a worker's lease, no calls of other workers, of the reclaimer or of those
-- who enqueue, in any number and order, take the job from the worker, end its attempt or shorten its
-- lease below the given time, as long as they all happen before that time.
pub lease_excludes :
    (calls : List Call) (jobs : JobTable) (job worker : Text) (until : ℕ)
    → TableInv jobs
    → exists (held_until job worker until) jobs ≡ true
    → All (IsForeign worker until) calls
    → exists (held_until job worker until) (run calls jobs) ≡ true
unfolding run
lease_excludes [] jobs job worker until v h f = h
lease_excludes (c ∷ cs) jobs job worker until v h f =
    lease_excludes cs (step c jobs) job worker until (step-TableInv c jobs v)
      (CallMove-held_until job worker until (step-CallMove c jobs v.distinct) f.0.0 f.0.1 h) f.1
