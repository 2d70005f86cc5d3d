-- ===== src/Queue/Progress.antt =====
-- What heartbeats, terminal states and repeated requests guarantee.
use cash_count.Base.{
  ℕ, ◌≤◌, ◌≡◌, ◌∙◌, refl, subst, true, Option, some, List, [], ◌∷◌, arith, exists, done, also,
}
use mathlib.Core.List.{Memᴰ}
use cash_count.Base.Text.{Text}
use cash_count.Base.Results.{ok}
use cash_count.Base.Numbers.{JsNumber, Instant}
use cash_count.Queue.Job.{JobRow, JobTable, Capability, is_terminal}
use cash_count.Queue.Sql.{update, returning}
use cash_count.Queue.Lease.{holds_lease, extend_lease, heartbeat, returned_expiry}
use cash_count.Queue.Reclaim.{is_expired}
use cash_count.Queue.Moves.{RowMove, stays, starts, extends, finishes, ends, reclaims, TableMove}
use cash_count.Queue.Calls.{Call, step, run}
use cash_count.Queue.Calls.InsertMoves.{finds, adds}
use cash_count.Queue.Calls.LeaseMoves.{heartbeat_ok}
use cash_count.Queue.Calls.Moves.{CallMove, inserts, moves, step-CallMove}
use cash_count.Queue.Exclusive.{held_until}
use cash_count.Queue.Invariant.{TableInv, step-TableInv}

extend_lease-held_until :
    (job worker job' worker' : Text) (now expires until : ℕ) (jobs : JobTable)
    → exists (held_until job worker until) jobs ≡ true
    → exists
        (held_until job worker until)
        (update (holds_lease job' worker' now) (extend_lease now expires) jobs)
      ≡ true
unfolding update held_until holds_lease extend_lease
extend_lease-held_until job worker job' worker' now expires until [] h = h
extend_lease-held_until job worker job' worker' now expires until (r ∷ rs) h =
    ground (arith, extend_lease-held_until job worker job' worker' now expires until rs)

returned-held_until :
    (job worker : Text) (now expires until : ℕ) (jobs : JobTable)
    → returned_expiry job (returning (holds_lease job worker now) (extend_lease now expires) jobs)
      ≡ ok (some until)
    → (expires ≤ until)
      × (exists
            (held_until job worker until)
            (update (holds_lease job worker now) (extend_lease now expires) jobs)
          ≡ true)
unfolding update returning returned_expiry held_until holds_lease extend_lease
returned-held_until job worker now expires until [] h = absurd (cc)
returned-held_until job worker now expires until (r ∷ rs) h =
    ground (arith, returned-held_until job worker now expires until rs)

-- A heartbeat that succeeds answers with a time up to which the worker holds the job's lease, and no
-- lease of any worker that lasted until some time ends before it afterwards.
pub heartbeat_lengthens :
    (capability : Capability) (job worker : Text) (now : Instant) (duration : Option JsNumber)
    (jobs after : JobTable) (expiry : ℕ)
    → heartbeat capability job worker now duration jobs ≡ ok (some expiry, after)
    → (exists (held_until job worker expiry) after ≡ true)
      × ((any_job any_worker : Text) (until : ℕ)
          → exists (held_until any_job any_worker until) jobs ≡ true
          → exists (held_until any_job any_worker until) after ≡ true)
heartbeat_lengthens capability job worker now duration jobs after expiry h =
    let (lease, e, answer, table) =
      heartbeat_ok capability job worker now duration jobs (some expiry, after) h in
    rw (← table) (
      (returned-held_until job worker lease.0 lease.1 expiry jobs answer).1,
      λ any_job any_worker until k.
          extend_lease-held_until any_job any_worker job worker lease.0 lease.1 until jobs k,
    )

RowMove-terminal :
    {worker : Text} {now : ℕ} {r s : JobRow}
    → RowMove worker now r s
    → is_terminal r.status ≡ true
    → r ≡ s
unfolding holds_lease is_expired
RowMove-terminal (stays r) h = refl
RowMove-terminal (starts r expires w a b t _) h = absurd (ground arith)
RowMove-terminal (extends r j expires k) h = absurd (ground arith)
RowMove-terminal (finishes r j k) h = absurd (ground arith)
RowMove-terminal (ends r j at code summary k s) h = absurd (ground arith)
RowMove-terminal (reclaims r at k le) h = absurd (ground arith)

TableMove-terminal :
    {worker : Text} {now : ℕ} {rs ss : JobTable} {r : JobRow}
    → TableMove worker now rs ss
    → is_terminal r.status ≡ true
    → Memᴰ r rs
    → Memᴰ r ss
TableMove-terminal done t m = m
TableMove-terminal (also p ps) t (Memᴰ.head e) =
    Memᴰ.head (e ∙ RowMove-terminal p (subst (λ (x : JobRow). is_terminal x.status ≡ true) e t))
TableMove-terminal (also p ps) t (Memᴰ.tail m) = Memᴰ.tail (TableMove-terminal ps t m)

CallMove-terminal :
    {call : Call} {jobs after : JobTable} {r : JobRow}
    → CallMove call jobs after
    → is_terminal r.status ≡ true
    → Memᴰ r jobs
    → Memᴰ r after
CallMove-terminal (inserts finds) t m = m
CallMove-terminal (inserts (adds id workspace_id input v now pos free)) t m = Memᴰ.tail m
CallMove-terminal (moves p) t m = TableMove-terminal p t m

-- A job that succeeded or died stays in the table exactly as it is, through any calls.
pub terminal_absorbs :
    (calls : List Call) (jobs : JobTable) (r : JobRow)
    → TableInv jobs
    → Memᴰ r jobs
    → is_terminal r.status ≡ true
    → Memᴰ r (run calls jobs)
unfolding run
terminal_absorbs [] jobs r v m t = m
terminal_absorbs (c ∷ cs) jobs r v m t =
    terminal_absorbs cs (step c jobs) r (step-TableInv c jobs v)
      (CallMove-terminal (step-CallMove c jobs v.distinct) t m) t
