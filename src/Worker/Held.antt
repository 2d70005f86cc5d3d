-- ===== src/Worker/Held.antt =====
-- A row that a worker holds, through the calls of others and its own statements.
use cash_count.Base.{
  ℕ, ◌≤◌, ◌<◌, ◌≡◌, refl, sym, subst, ap, ◌∙◌, Bool, true, false, some, List, [], ◌∷◌, arith, All,
  done, also, if◌then◌else◌, Bool-cases, inl, inr, All-map, All-of-Memᴰ,
}
use mathlib.Core.List.{Memᴰ}
use cash_count.Base.Text.{Text, text_eq, text_eq_refl, text_eq_comm}
use cash_count.Queue.Job.{running, JobRow, JobTable, is_waiting}
use cash_count.Queue.Distinct.{HasDistinctIds}
use cash_count.Queue.Sql.{update, returning}
use cash_count.Queue.Lease.{owned_by, holds_lease}
use cash_count.Queue.Reclaim.{is_expired}
use cash_count.Queue.Moves.{RowMove, stays, starts, extends, finishes, ends, reclaims, TableMove}
use cash_count.Queue.Calls.{Call, step, run}
use cash_count.Queue.Calls.InsertMoves.{finds, adds}
use cash_count.Queue.Calls.Moves.{CallMove, inserts, moves, step-CallMove}
use cash_count.Queue.Exclusive.{IsForeign}
use cash_count.Queue.Invariant.{TableInv, step-TableInv}

-- The row runs under the worker's lease: its last heartbeat and the lease's end.
pub record IsHeld (job worker : Text) (beat until : ℕ) (r : JobRow) : Type 0 where
  pub id : r.id ≡ job
  pub status : r.status ≡ running
  pub owner : r.locked_by ≡ some worker
  pub beat_at : r.heartbeat_at ≡ some beat
  pub expires : r.lease_expires_at ≡ some until

holds_lease-owner :
    (j other : Text) (now : ℕ) (r : JobRow)
    → holds_lease j other now r ≡ true
    → owned_by r.locked_by other ≡ true
unfolding holds_lease
holds_lease-owner j other now r h = ground arith

-- Nobody else has a lease of it.
never_foreign :
    {job worker : Text} {beat until : ℕ} {r : JobRow} (other j : Text) (now : ℕ)
    → text_eq other worker ≡ false
    → IsHeld job worker beat until r
    → holds_lease j other now r ≡ true
    → ⊥
never_foreign {worker} {r} other j now n h k =
    let owns : owned_by (some worker) other ≡ true =
      rw h.owner at (holds_lease-owner j other now r k) in
    cc (text_eq_comm worker other)

never_expired :
    {job worker : Text} {beat until now : ℕ} {r : JobRow}
    → now < until
    → IsHeld job worker beat until r
    → is_expired now r ≡ true
    → ⊥
unfolding is_expired
never_expired lt h k = ground (arith, h.expires, k)

-- Nobody else moves it before the lease ends.
RowMove-IsHeld :
    {job worker other : Text} {beat until now : ℕ} {r s : JobRow}
    → text_eq other worker ≡ false
    → now < until
    → RowMove other now r s
    → IsHeld job worker beat until r
    → r ≡ s
RowMove-IsHeld n lt (stays r) h = refl
RowMove-IsHeld n lt (starts r expires w a b t _) h =
    let waits : is_waiting running ≡ true = rw h.status at w in absurd (cc)
RowMove-IsHeld n lt (extends r j expires k) h = absurd (never_foreign _ j _ n h k)
RowMove-IsHeld n lt (finishes r j k) h = absurd (never_foreign _ j _ n h k)
RowMove-IsHeld n lt (ends r j at code summary k s) h = absurd (never_foreign _ j _ n h k)
RowMove-IsHeld n lt (reclaims r at k le) h = absurd (never_expired lt h k)

TableMove-IsHeld :
    {job worker other : Text} {beat until now : ℕ} {rs ss : JobTable} {r : JobRow}
    → text_eq other worker ≡ false
    → now < until
    → TableMove other now rs ss
    → IsHeld job worker beat until r
    → Memᴰ r rs
    → Memᴰ r ss
TableMove-IsHeld n lt done h m = m
TableMove-IsHeld {job} {worker} {beat} {until} n lt (also p ps) h (Memᴰ.head e) =
    Memᴰ.head (e ∙ RowMove-IsHeld n lt p (subst (IsHeld job worker beat until) e h))
TableMove-IsHeld n lt (also p ps) h (Memᴰ.tail m) = Memᴰ.tail (TableMove-IsHeld n lt ps h m)

CallMove-IsHeld :
    {job worker : Text} {beat until : ℕ} {call : Call} {jobs after : JobTable} {r : JobRow}
    → IsForeign worker until call
    → CallMove call jobs after
    → IsHeld job worker beat until r
    → Memᴰ r jobs
    → Memᴰ r after
CallMove-IsHeld f (inserts finds) h m = m
CallMove-IsHeld f (inserts (adds id workspace_id input v now pos free)) h m = Memᴰ.tail m
CallMove-IsHeld f (moves p) h m = TableMove-IsHeld f.0 f.1 p h m

-- The row stays as it is through any calls of others before the lease ends.
pub run-IsHeld :
    {job worker : Text} {beat until : ℕ} {r : JobRow} (calls : List Call) (jobs : JobTable)
    → TableInv jobs
    → All (IsForeign worker until) calls
    → IsHeld job worker beat until r
    → Memᴰ r jobs
    → TableInv (run calls jobs) × Memᴰ r (run calls jobs)
unfolding run
run-IsHeld [] jobs v f h m = (v, m)
run-IsHeld (c ∷ cs) jobs v f h m =
    run-IsHeld cs (step c jobs) (step-TableInv c jobs v) f.1 h
      (CallMove-IsHeld f.0 (step-CallMove c jobs v.distinct) h m)

pub IsHeld-holds_lease :
    {job worker : Text} {beat until : ℕ} {r : JobRow} (now : ℕ)
    → IsHeld job worker beat until r
    → beat ≤ now
    → now < until
    → holds_lease job worker now r ≡ true
unfolding holds_lease
IsHeld-holds_lease {job} {worker} {r} now h le lt =
    rw (h.id, h.status, h.owner, h.beat_at, h.expires)
      (ground (arith, text_eq_refl job, text_eq_refl worker))

module _ (hit : JobRow → Bool) (change : JobRow → JobRow) where
  pub update-Memᴰ :
      {r : JobRow} (jobs : JobTable)
      → Memᴰ r jobs
      → hit r ≡ true
      → Memᴰ (change r) (update hit change jobs)
  unfolding update
  update-Memᴰ [] m e = elim m [ ]
  update-Memᴰ {r} (s ∷ ss) (Memᴰ.head same) e =
      Memᴰ.head (subst (λ x. change r ≡ (if hit x then change x else x)) same (rw e refl))
  update-Memᴰ (s ∷ ss) (Memᴰ.tail m) e = Memᴰ.tail (update-Memᴰ ss m e)

  returning-none :
      (jobs : JobTable) → All (λ s. hit s ≡ false) jobs → returning hit change jobs ≡ []
  unfolding returning
  returning-none [] h = refl
  returning-none (s ∷ ss) h = rw h.0 (returning-none ss h.1)

  -- Only the row itself, where the test asks for its id.
  pub returning-sole :
      {r : JobRow} (job : Text) (jobs : JobTable)
      → ((s : JobRow) → hit s ≡ true → s.id ≡ job)
      → HasDistinctIds jobs
      → Memᴰ r jobs
      → hit r ≡ true
      → returning hit change jobs ≡ change r ∷ []
  unfolding returning
  returning-sole job [] asks d m e = elim m [ ]
  returning-sole {r} job (s ∷ ss) asks d (Memᴰ.head same) e =
      let here : hit s ≡ true = subst (λ x. hit x ≡ true) same e in
      rw (here, returning-none ss (All-map (λ x apart. differ s x here apart) ss d.0))
        (ap (λ x. change x ∷ []) (sym same))
    where
      differ : (s x : JobRow) → hit s ≡ true → text_eq s.id x.id ≡ false → hit x ≡ false
      differ s x here apart = elim (Bool-cases (hit x)) [
        | inl k ↦ absurd (cc (asks s here, asks x k, text_eq_refl job, apart))
        | inr k ↦ k
      ]
  returning-sole {r} job (s ∷ ss) asks d (Memᴰ.tail m) e = elim (Bool-cases (hit s)) [
    | inl k ↦ absurd (
        cc (
          asks s k,
          asks r e,
          text_eq_refl job,
          All-of-Memᴰ (λ x. text_eq s.id x.id ≡ false) ss d.0 m,
        ))
    | inr k ↦ rw k (returning-sole job ss asks d.1 m e)
  ]
