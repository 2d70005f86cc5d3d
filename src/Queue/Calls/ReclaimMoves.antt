-- ===== src/Queue/Calls/ReclaimMoves.antt =====
-- The reclaim loop moves the table row by row: each row at most once, and only expired ones.
use cash_count.Base.{
  ℕ, ◌≤◌, ◌≡◌, refl, sym, subst, inl, inr, Bool, true, not, ◌&&◌, Option, some, List, [], ◌∷◌,
  arith, if◌then◌else◌, filter, All, All-map, All-filter, All-filter_test, All-both, All-take,
  Pointwise, done, also, Bool-cases, &&_left, leb, leb→le,
}
use cash_count.Base.Text.{Text}
use cash_count.Base.Results.{Result, ok, err, guard, >>=-eq-ok}
use cash_count.Base.Numbers.{Instant, require_instant}
use cash_count.Base.Sorting.{All-sort_by}
use cash_count.Queue.Job.{
  JobRow, JobTable, QueueError, Capability, require_worker_capability, invalid_instant,
  retry_precedes_now,
}
use cash_count.Queue.Sql.{update}
use cash_count.Queue.Distinct.{HasDistinctIds, IsSole, HasDistinctIds-IsSole}
use cash_count.Queue.Reclaim.{
  ReclaimInput, ReclaimedJob, reclaim_expired, reclaim_loop, reclaim_row, reclaim_limit, retry_time,
  expired_rows, expiry_order, is_expired, is_exhausted, is_running_job, choose_retry,
}
use cash_count.Queue.Moves.{RowMove, stays, reclaims, TableMove}
use cash_count.Queue.Calls.{table_after, instant_or_zero}
use cash_count.Queue.Calls.ClaimMoves.{guard-ok, require_instant_lem}

-- What the loop may do to one row.
pub data ReclaimMove (now : ℕ) : JobRow → JobRow → Type 0 where
  keeps : (r : JobRow) → ReclaimMove now r r
  takes :
      (r : JobRow) (retry_at : ℕ)
      → is_expired now r ≡ true
      → now ≤ retry_at
      → ReclaimMove now r (reclaim_row now (is_exhausted r) retry_at r)

abbrev pub ReclaimMoves : ℕ → JobTable → JobTable → Type 0
ReclaimMoves now = Pointwise (ReclaimMove now)

keeps_all : (now : ℕ) (jobs : JobTable) → ReclaimMoves now jobs jobs
keeps_all now [] = done
keeps_all now (r ∷ rs) = also (keeps r) (keeps_all now rs)

reclaimed_not_expired :
    (now t : ℕ) (b : Bool) (r : JobRow) → is_expired now (reclaim_row now b t r) ≡ true → ⊥
unfolding is_expired reclaim_row
reclaimed_not_expired now t b r h = ground arith

-- A reclaimed row is not running, so a second move leaves it alone.
ReclaimMove-trans :
    {now : ℕ} {r s t : JobRow} → ReclaimMove now r s → ReclaimMove now s t → ReclaimMove now r t
ReclaimMove-trans (keeps r) q = q
ReclaimMove-trans (takes r t h k) (keeps _) = takes r t h k
ReclaimMove-trans (takes r t h k) (takes _ u e f) =
    absurd (reclaimed_not_expired _ t (is_exhausted r) r e)

ReclaimMoves-trans :
    {now : ℕ} {rs ss ts : JobTable}
    → ReclaimMoves now rs ss
    → ReclaimMoves now ss ts
    → ReclaimMoves now rs ts
ReclaimMoves-trans done done = done
ReclaimMoves-trans (also p ps) (also q qs) = also (ReclaimMove-trans p q) (ReclaimMoves-trans ps qs)

update-ReclaimMoves :
    (now : ℕ) (hit : JobRow → Bool) (change : JobRow → JobRow) (jobs : JobTable)
    → All (λ r. hit r ≡ true → ReclaimMove now r (change r)) jobs
    → ReclaimMoves now jobs (update hit change jobs)
unfolding update
update-ReclaimMoves now hit change [] h = done
update-ReclaimMoves now hit change (r ∷ rs) h = elim (Bool-cases (hit r)) [
  | inl e ↦ rw e (also (h.0 e) (update-ReclaimMoves now hit change rs h.1))
  | inr e ↦ rw e (also (keeps r) (update-ReclaimMoves now hit change rs h.1))
]

-- The running row of the selected row's id is the selected row itself.
abbrev IsCurrent : JobTable → JobRow → Type 0
IsCurrent jobs row = All (λ r. is_running_job row.id r ≡ true → r ≡ row) jobs

-- A row that is selected, and is still as it was if it is still running.
abbrev IsSelected : ℕ → JobTable → JobRow → Type 0
IsSelected now jobs row = IsCurrent jobs row × (is_expired now row ≡ true)

reclaimed_not_running :
    (job : Text) (now t : ℕ) (b : Bool) (r : JobRow)
    → is_running_job job (reclaim_row now b t r) ≡ true
    → ⊥
unfolding is_running_job reclaim_row
reclaimed_not_running job now t b r h = ground arith

IsCurrent-update :
    (hit : JobRow → Bool) (now t : ℕ) (b : Bool) (row : JobRow) (jobs : JobTable)
    → IsCurrent jobs row
    → IsCurrent (update hit (reclaim_row now b t) jobs) row
unfolding update
IsCurrent-update hit now t b row [] h = tt
IsCurrent-update hit now t b row (r ∷ rs) h = elim (Bool-cases (hit r)) [
  | inl e ↦ rw e (
    (λ k. absurd (reclaimed_not_running row.id now t b r k)),
    IsCurrent-update hit now t b row rs h.1,
  )
  | inr e ↦ rw e (h.0, IsCurrent-update hit now t b row rs h.1)
]

pub retry_time-le :
    (policy : Option (ℕ → Instant)) (now : ℕ) (row : JobRow) (t : ℕ)
    → retry_time policy now row ≡ ok t
    → now ≤ t
unfolding retry_time
retry_time-le policy now row t h =
    let chosen : Instant = if is_exhausted row then some now else choose_retry policy now row in
    let (at, _, h1) = >>=-eq-ok (require_instant invalid_instant chosen) _ h in
    let (_, g, h2) = >>=-eq-ok (guard (leb now at) retry_precedes_now) _ h1 in
    let le = leb→le now at (guard-ok _ _ g) in ground (arith, le, h2)

reclaim_loop-ReclaimMoves :
    (policy : Option (ℕ → Instant)) (now : ℕ) (rows : List JobRow) (jobs : JobTable)
    (out : List ReclaimedJob × JobTable)
    → All (IsSelected now jobs) rows
    → reclaim_loop policy now rows jobs ≡ ok out
    → ReclaimMoves now jobs out.1
unfolding reclaim_loop
reclaim_loop-ReclaimMoves policy now [] jobs out s h =
    subst (ReclaimMoves now jobs) (cc) (keeps_all now jobs)
reclaim_loop-ReclaimMoves policy now (row ∷ rows) jobs out s h =
    let (t, e, h1) = >>=-eq-ok (retry_time policy now row) _ h in
    let (rest, k, h2) = >>=-eq-ok (reclaim_loop policy now rows _) _ h1 in
    let later = retry_time-le policy now row t e in
    let first =
      update-ReclaimMoves now (is_running_job row.id) (reclaim_row now (is_exhausted row) t) jobs (
        All-map
          (λ r only hit.
            subst (λ u. ReclaimMove now u (reclaim_row now (is_exhausted row) t u)) (sym (only hit))
              (takes row t s.0.1 later))
          jobs s.0.0) in
    let others =
      reclaim_loop-ReclaimMoves policy now rows _ rest
        (All-map (λ u sel. (IsCurrent-update _ now t (is_exhausted row) u jobs sel.0, sel.1)) rows
          s.1)
        k in
    subst (ReclaimMoves now jobs) (ground (arith, h2)) (ReclaimMoves-trans first others)

IsSole-IsCurrent : (jobs : JobTable) (row : JobRow) → IsSole jobs row → IsCurrent jobs row
unfolding is_running_job
IsSole-IsCurrent jobs row = All-map (λ r only k. only (&&_left _ _ k)) jobs

expired_rows-IsSelected :
    (locked : JobRow → Bool) (now limit : ℕ) (jobs : JobTable)
    → HasDistinctIds jobs
    → All (IsSelected now jobs) (expired_rows locked now limit jobs)
unfolding expired_rows
expired_rows-IsSelected locked now limit jobs d = All-take _ limit _ (
    All-sort_by expiry_order _ _ (
      All-map (λ r h. (IsSole-IsCurrent jobs r h.0, &&_left _ _ h.1)) (filter test jobs)
        (All-both (IsSole jobs) (λ r. test r ≡ true) (filter test jobs)
          (All-filter (IsSole jobs) test jobs (HasDistinctIds-IsSole jobs d))
          (All-filter_test test jobs))))
  where
    test : JobRow → Bool
    test r = is_expired now r && not (locked r)

ReclaimMove-RowMove :
    {worker : Text} {now : ℕ} {r s : JobRow} → ReclaimMove now r s → RowMove worker now r s
ReclaimMove-RowMove (keeps r) = stays r
ReclaimMove-RowMove (takes r t h k) = reclaims r t h k

ReclaimMoves-TableMove :
    {worker : Text} {now : ℕ} {rs ss : JobTable}
    → ReclaimMoves now rs ss
    → TableMove worker now rs ss
ReclaimMoves-TableMove done = done
ReclaimMoves-TableMove (also p ps) = also (ReclaimMove-RowMove p) (ReclaimMoves-TableMove ps)

pub reclaim_ok :
    (locked : JobRow → Bool) (capability : Capability) (input : ReclaimInput) (jobs : JobTable)
    (out : List ReclaimedJob × JobTable)
    → reclaim_expired locked capability input jobs ≡ ok out
    → (now limit : ℕ) × (input.now ≡ some now)
      × (reclaim_limit input.limit ≡ ok limit)
      × (reclaim_loop input.retry_at_for_attempt now (expired_rows locked now limit jobs) jobs
          ≡ ok out)
unfolding reclaim_expired
reclaim_ok locked capability input jobs out h =
    let (_, _, h1) = >>=-eq-ok (require_worker_capability capability) _ h in
    let (now, e, h2) = >>=-eq-ok (require_instant invalid_instant input.now) _ h1 in
    let (limit, k, h3) = >>=-eq-ok (reclaim_limit input.limit) _ h2 in
    (now, limit, require_instant_lem invalid_instant input.now e, k, h3)

pub reclaim-ReclaimMoves :
    (locked : JobRow → Bool) (capability : Capability) (input : ReclaimInput) (jobs : JobTable)
    → HasDistinctIds jobs
    → ReclaimMoves
        (instant_or_zero input.now)
        jobs
        (table_after jobs (reclaim_expired locked capability input jobs))
reclaim-ReclaimMoves locked capability input jobs d =
    go (reclaim_expired locked capability input jobs) refl
  where
    go :
        (result : Result QueueError (List ReclaimedJob × JobTable))
        → reclaim_expired locked capability input jobs ≡ result
        → ReclaimMoves (instant_or_zero input.now) jobs (table_after jobs result)
    go (err e) h = keeps_all (instant_or_zero input.now) jobs
    go (ok out) h =
        let (now, limit, e, _, k) = reclaim_ok locked capability input jobs out h in
        rw e (
          reclaim_loop-ReclaimMoves input.retry_at_for_attempt now _ jobs out
            (expired_rows-IsSelected locked now limit jobs d) k)

pub reclaim-TableMove :
    (worker : Text) (locked : JobRow → Bool) (capability : Capability) (input : ReclaimInput)
    (jobs : JobTable)
    → HasDistinctIds jobs
    → TableMove worker
        (instant_or_zero input.now)
        jobs
        (table_after jobs (reclaim_expired locked capability input jobs))
reclaim-TableMove worker locked capability input jobs d =
    ReclaimMoves-TableMove (reclaim-ReclaimMoves locked capability input jobs d)
