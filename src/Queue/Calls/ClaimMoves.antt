-- ===== src/Queue/Calls/ClaimMoves.antt =====
-- A claim moves the table row by row: it starts an attempt of one waiting job, or changes nothing.
use cash_count.Base.{
  ℕ, ◌<◌, ◌≡◌, refl, sym, subst, Bool, true, false, not, ◌&&◌, Option, none, some, List, arith,
  filter, head?, All, All-map, All-filter, All-filter_test, All-both, All-head, &&_left,
}
use cash_count.Base.Text.{Text}
use cash_count.Base.Results.{Result, ok, err, guard, >>=-eq-ok}
use cash_count.Base.Numbers.{JsNumber, Instant, require_between-bounds, require_instant}
use cash_count.Base.Sorting.{All-sort_by}
use cash_count.Queue.Job.{
  JobRow, JobTable, QueueError, Capability, is_worker_id, require_worker_id,
  require_worker_capability, invalid_instant, invalid_worker_id, invalid_lease_duration,
}
use cash_count.Queue.Distinct.{HasDistinctIds, IsSole, HasDistinctIds-IsSole}
use cash_count.Queue.Claim.{
  lease_milliseconds, lease_expiry, ClaimInput, ClaimedJob, claim, claim_candidate,
  claim_candidates, claim_order, is_claimable, validate_job_types, start_attempt,
}
use cash_count.Queue.Moves.{RowMove, starts, TableMove, stays_all, update-TableMove}
use cash_count.Queue.Calls.{table_after, instant_or_zero}

pub guard-ok : {E : Type 0} (b : Bool) (e : E) {u : Unit {0}} → guard b e ≡ ok u → b ≡ true
guard-ok true e h = refl
guard-ok false e h = cc

pub require_instant_lem :
    {E : Type 0} (e : E) (now : Instant) {t : ℕ} → require_instant e now ≡ ok t → now ≡ some t
unfolding require_instant
require_instant_lem e none h = cc
require_instant_lem e (some s) h = cc

lease_milliseconds_pos :
    (duration : Option JsNumber) (ms : ℕ) → lease_milliseconds duration ≡ ok ms → 0 < ms
unfolding lease_milliseconds
lease_milliseconds_pos none ms h = ground arith
lease_milliseconds_pos (some d) ms h =
    omega (arith, require_between-bounds 1000 900000 d invalid_lease_duration ms h)

pub lease_expiry_lem :
    (now : Instant) (duration : Option JsNumber) (lease : ℕ × ℕ)
    → lease_expiry now duration ≡ ok lease
    → (now ≡ some lease.0) × (lease.0 < lease.1)
unfolding lease_expiry
lease_expiry_lem now duration lease h =
    let (t, e, h1) = >>=-eq-ok (require_instant invalid_instant now) _ h in
    let (ms, k, h2) = >>=-eq-ok (lease_milliseconds duration) _ h1 in
    let now_t = require_instant_lem invalid_instant now e in
    let longer = lease_milliseconds_pos duration ms k in ground (arith, now_t, longer, h2)

-- What a claim that does not throw has checked, and what it does.
pub claim_ok :
    (locked : JobRow → Bool) (capability : Capability) (input : ClaimInput) (jobs : JobTable)
    (out : Option ClaimedJob × JobTable)
    → claim locked capability input jobs ≡ ok out
    → (lease : ℕ × ℕ) × (input.now ≡ some lease.0)
      × (lease.0 < lease.1)
      × (is_worker_id input.worker_id ≡ true)
      × (claim_candidate lease.0 input.worker_id lease.1
            (head? (claim_candidates locked lease.0 input.job_types jobs))
            jobs
          ≡ out)
unfolding claim
claim_ok locked capability input jobs out h =
    let (_, _, h1) = >>=-eq-ok (require_worker_capability capability) _ h in
    let (_, e, h2) = >>=-eq-ok (require_worker_id input.worker_id) _ h1 in
    let (_, _, h3) = >>=-eq-ok (validate_job_types input.job_types) _ h2 in
    let (lease, k, h4) = >>=-eq-ok (lease_expiry input.now input.lease_duration_ms) _ h3 in
    let bounds = lease_expiry_lem input.now input.lease_duration_ms lease k in
    (lease, bounds.0, bounds.1, guard-ok (is_worker_id input.worker_id) invalid_worker_id e, cc)

-- A candidate is a claimable row, and the only one of its id.
pub candidates_claimable :
    (locked : JobRow → Bool) (now : ℕ) (types : Option (List Text)) (jobs : JobTable)
    → HasDistinctIds jobs
    → All
        (λ c. IsSole jobs c × ((is_claimable now types c && not (locked c)) ≡ true))
        (claim_candidates locked now types jobs)
unfolding claim_candidates
candidates_claimable locked now types jobs d = All-sort_by claim_order _ _ (
    All-both (IsSole jobs) (λ c. test c ≡ true) (filter test jobs)
      (All-filter (IsSole jobs) test jobs (HasDistinctIds-IsSole jobs d))
      (All-filter_test test jobs))
  where
    test : JobRow → Bool
    test r = is_claimable now types r && not (locked r)

claimable-starts :
    (now expires : ℕ) (worker : Text) (types : Option (List Text)) (r : JobRow)
    → now < expires
    → is_worker_id worker ≡ true
    → is_claimable now types r ≡ true
    → RowMove worker now r (start_attempt now worker expires r)
unfolding is_claimable
claimable-starts now expires worker types r h w c =
    starts r expires (ground arith) (ground arith) (ground arith) h w

pub claim_candidate-TableMove :
    (locked : JobRow → Bool) (now expires : ℕ) (worker : Text) (types : Option (List Text))
    (jobs : JobTable) (candidate : Option JobRow)
    → HasDistinctIds jobs
    → now < expires
    → is_worker_id worker ≡ true
    → head? (claim_candidates locked now types jobs) ≡ candidate
    → TableMove worker now jobs (claim_candidate now worker expires candidate jobs).1
unfolding claim_candidate
claim_candidate-TableMove locked now expires worker types jobs none d h w e =
    stays_all worker now jobs
claim_candidate-TableMove locked now expires worker types jobs (some c) d h w e =
    let (sole, test) = All-head _ _ (candidates_claimable locked now types jobs d) e in
    let move = claimable-starts now expires worker types c h w (&&_left _ _ test) in
    update-TableMove worker now _ _ jobs (
      All-map
        (λ r only hit.
          subst (λ s. RowMove worker now s (start_attempt now worker expires s)) (sym (only hit))
            move)
        jobs sole)

pub claim-TableMove :
    (locked : JobRow → Bool) (capability : Capability) (input : ClaimInput) (jobs : JobTable)
    → HasDistinctIds jobs
    → TableMove input.worker_id
        (instant_or_zero input.now)
        jobs
        (table_after jobs (claim locked capability input jobs))
claim-TableMove locked capability input jobs d = go (claim locked capability input jobs) refl
  where
    go :
        (result : Result QueueError (Option ClaimedJob × JobTable))
        → claim locked capability input jobs ≡ result
        → TableMove input.worker_id (instant_or_zero input.now) jobs (table_after jobs result)
    go (err e) h = stays_all input.worker_id (instant_or_zero input.now) jobs
    go (ok out) h =
        let (lease, e, later, w, k) = claim_ok locked capability input jobs out h in
        rw (e, ← k)
          (claim_candidate-TableMove locked lease.0 lease.1 input.worker_id input.job_types jobs _ d
            later w refl)
