-- ===== src/Queue/Selection.antt =====
-- Which job a claim hands out: what `order by priority desc, created_at, id … limit 1` promises.
use cash_count.Base.Int.{ltb_ℤ, ltb_ℤ_tie}
use cash_count.Base.{
  ◌⊎◌, ◌<◌, ℕ, ◌≡◌, refl, ap, Bool, true, false, not, ◌&&◌, Option, none, some, List, [], ◌∷◌,
  arith, All, All-map, All-head, All-of-filter, All-Memᴰ, All-filter, Bool-cases, inl, inr, head?,
}
use mathlib.Core.List.{Memᴰ}
use cash_count.Base.Text.{
  Text, text_eq, text_eq_refl, text_leb, text_leb_refl, text_leb_total, text_leb_trans,
}
use cash_count.Base.Results.{ok}
use cash_count.Base.Sorting.{sort_by-first, sort_by-none, All-sort_by}
use cash_count.Queue.Job.{JobRow, JobTable, is_worker_id, queue_worker}
use cash_count.Queue.Sql.{update, returning}
use cash_count.Queue.Claim.{
  start_attempt, ClaimInput, ClaimedJob, claimed_job, claim, claim_candidate, claim_candidates,
  claim_order, first_claimed, is_claimable, lease_expiry, validate_job_types,
}
use cash_count.Queue.Distinct.{HasDistinctIds, IsSole}
use cash_count.Queue.Calls.ClaimMoves.{candidates_claimable}

claim_order_refl : (r : JobRow) → claim_order r r ≡ true
unfolding claim_order
claim_order_refl r = ground (arith, text_leb_refl r.id)

claim_order_total : (r s : JobRow) → claim_order r s ≡ false → claim_order s r ≡ true
unfolding claim_order
claim_order_total r s h = ground (arith, text_leb_total r.id s.id)

claim_order_trans :
    (r s t : JobRow) → claim_order r s ≡ true → claim_order s t ≡ true → claim_order r t ≡ true
unfolding claim_order
claim_order_trans r s t h k = ground (arith, text_leb_trans r.id s.id t.id)

-- `r` comes before `s` or is `s`: by falling priority, then creation, then id.
abbrev pub Precedes : JobRow → JobRow → Type 0
Precedes r s =
    (ltb_ℤ s.priority r.priority ≡ true)
    ⊎ ((r.priority ≡ s.priority)
        × ((r.created_at < s.created_at)
            ⊎ ((r.created_at ≡ s.created_at) × (text_leb r.id s.id ≡ true))))

claim_order-Precedes : (r s : JobRow) → claim_order r s ≡ true → Precedes r s
unfolding claim_order
claim_order-Precedes r s h = elim (Bool-cases (ltb_ℤ s.priority r.priority)) [
  | inl e ↦ inl e
  | inr e ↦
      let not_less : ltb_ℤ r.priority s.priority ≡ false = ground arith in
      let same = ltb_ℤ_tie r.priority s.priority not_less e in inr (same, ground arith)
]

-- The rows that the claim may take.
abbrev pub is_open : (JobRow → Bool) → ℕ → Option (List Text) → JobRow → Bool
is_open locked now types r = is_claimable now types r && not (locked r)

-- The answer and the table of a claim: nothing, if no row is open, or the first of the open rows.
pub data Claimed (locked : JobRow → Bool) (now expires : ℕ) (worker : Text)
    (types : Option (List Text)) (jobs : JobTable) : Option ClaimedJob × JobTable → Type 0 where
  nothing :
      All (λ r. is_open locked now types r ≡ false) jobs
      → Claimed locked now expires worker types jobs (none, jobs)
  picks :
      (r : JobRow)
      → Memᴰ r jobs
      → is_open locked now types r ≡ true
      → All (λ s. is_open locked now types s ≡ true → Precedes r s) jobs
      → Claimed locked now expires worker types jobs (
        some (claimed_job (start_attempt now worker expires r)),
        update (λ s. text_eq s.id r.id) (start_attempt now worker expires) jobs,
      )

-- The statement returns the one row that has the candidate's id.
first_returned :
    (c : JobRow) (now : ℕ) (worker : Text) (expires : ℕ) (jobs : JobTable)
    → IsSole jobs c
    → Memᴰ c jobs
    → first_claimed (returning (λ r. text_eq r.id c.id) (start_attempt now worker expires) jobs)
      ≡ some (claimed_job (start_attempt now worker expires c))
unfolding first_claimed returning
first_returned c now worker expires [] only m = elim m [ ]
first_returned c now worker expires (r ∷ rs) only m = elim (Bool-cases (text_eq r.id c.id)) [
  | inl e ↦ rw e (ap (λ s. some (claimed_job (start_attempt now worker expires s))) (only.0 e))
  | inr e ↦ rw e (first_returned c now worker expires rs only.1 (later m e))
]
  where
    later : Memᴰ c (r ∷ rs) → text_eq r.id c.id ≡ false → Memᴰ c rs
    later (Memᴰ.head k) e = absurd (cc (text_eq_refl r.id, ap (λ (s : JobRow). s.id) k))
    later (Memᴰ.tail k) e = k

candidate_of :
    (locked : JobRow → Bool) (now : ℕ) (types : Option (List Text)) (jobs : JobTable) {c : JobRow}
    → head? (claim_candidates locked now types jobs) ≡ some c
    → Memᴰ c jobs × All (λ s. is_open locked now types s ≡ true → Precedes c s) jobs
unfolding claim_candidates
candidate_of locked now types jobs {c} h = (
  All-head (λ r. Memᴰ r jobs) _
      (All-sort_by claim_order (λ r. Memᴰ r jobs) _
        (All-filter (λ r. Memᴰ r jobs) (is_open locked now types) jobs (All-Memᴰ jobs)))
      h,
  All-map (λ s first is_one. claim_order-Precedes c s (first is_one)) jobs
      (All-of-filter (λ s. claim_order c s ≡ true) (is_open locked now types) jobs
        (sort_by-first claim_order claim_order_total claim_order_trans claim_order_refl _ h)),
)

none_open :
    (locked : JobRow → Bool) (now : ℕ) (types : Option (List Text)) (jobs : JobTable)
    → head? (claim_candidates locked now types jobs) ≡ none
    → All (λ r. is_open locked now types r ≡ false) jobs
unfolding claim_candidates
none_open locked now types jobs h =
    All-map (λ r k. closed r k) jobs
      (All-of-filter (λ r. ⊥) (is_open locked now types) jobs
        (sort_by-none claim_order (λ r. ⊥) _ h))
  where
    closed :
        (r : JobRow) → (is_open locked now types r ≡ true → ⊥) → is_open locked now types r ≡ false
    closed r k = elim (Bool-cases (is_open locked now types r)) [ inl e ↦ absurd (k e) | inr e ↦ e ]

claim_candidate-Claimed :
    (locked : JobRow → Bool) (now expires : ℕ) (worker : Text) (types : Option (List Text))
    (jobs : JobTable) (candidate : Option JobRow)
    → HasDistinctIds jobs
    → head? (claim_candidates locked now types jobs) ≡ candidate
    → Claimed locked now expires worker types jobs
        (claim_candidate now worker expires candidate jobs)
unfolding claim_candidate
claim_candidate-Claimed locked now expires worker types jobs none d e =
    nothing (none_open locked now types jobs e)
claim_candidate-Claimed locked now expires worker types jobs (some c) d e =
    let (sole, test) = All-head _ _ (candidates_claimable locked now types jobs d) e in
    let (member, first) = candidate_of locked now types jobs e in
    rw (first_returned c now worker expires jobs sole member) (picks c member test first)

-- A claim under a valid worker name, with valid job types, time and lease duration, succeeds. It
-- answers with an open row that no other open row comes before, in the order by falling priority,
-- creation and id, and starts an attempt of that row alone; it answers with nothing, and changes
-- nothing, if no row is open.
pub claim-Claimed :
    (locked : JobRow → Bool) (input : ClaimInput) (jobs : JobTable) (lease : ℕ × ℕ)
    → HasDistinctIds jobs
    → is_worker_id input.worker_id ≡ true
    → validate_job_types input.job_types ≡ ok tt
    → lease_expiry input.now input.lease_duration_ms ≡ ok lease
    → (out : Option ClaimedJob × JobTable) × (claim locked queue_worker input jobs ≡ ok out)
      × Claimed locked lease.0 lease.1 input.worker_id input.job_types jobs out
unfolding claim
claim-Claimed locked input jobs lease d w types e = (
  claim_candidate lease.0 input.worker_id lease.1
      (head? (claim_candidates locked lease.0 input.job_types jobs)) jobs,
  rw (w, types, e),
  claim_candidate-Claimed locked lease.0 lease.1 input.worker_id input.job_types jobs _ d refl,
)
