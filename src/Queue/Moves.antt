-- ===== src/Queue/Moves.antt =====
-- What one call may do to one job, and to the table row by row. `worker` and `now` are the name and
-- the time of the call.
use cash_count.Base.{
  ℕ, ◌≤◌, ◌<◌, ◌≡◌, inl, inr, Bool, true, Option, [], ◌∷◌, All, Bool-cases, Pointwise, done, also,
}
use cash_count.Base.Text.{Text}
use cash_count.Queue.Job.{JobRow, JobTable, is_waiting, is_worker_id}
use cash_count.Queue.Sql.{update}
use cash_count.Queue.Claim.{start_attempt}
use cash_count.Queue.Lease.{holds_lease, extend_lease, finish, end_attempt, is_summary}
use cash_count.Queue.Reclaim.{is_expired, is_exhausted, reclaim_row}

pub data RowMove (worker : Text) (now : ℕ) : JobRow → JobRow → Type 0 where
  stays : (r : JobRow) → RowMove worker now r r
  starts :
      (r : JobRow) (expires : ℕ)
      → is_waiting r.status ≡ true
      → r.attempt_count < r.max_attempts
      → r.available_at ≤ now
      → now < expires
      → is_worker_id worker ≡ true
      → RowMove worker now r (start_attempt now worker expires r)
  extends :
      (r : JobRow) (job : Text) (expires : ℕ)
      → holds_lease job worker now r ≡ true
      → RowMove worker now r (extend_lease now expires r)
  finishes :
      (r : JobRow) (job : Text)
      → holds_lease job worker now r ≡ true
      → RowMove worker now r (finish now r)
  ends :
      (r : JobRow) (job : Text) (retry_at : Option ℕ) (code summary : Text)
      → holds_lease job worker now r ≡ true
      → is_summary summary ≡ true
      → RowMove worker now r (end_attempt now retry_at code summary r)
  reclaims :
      (r : JobRow) (retry_at : ℕ)
      → is_expired now r ≡ true
      → now ≤ retry_at
      → RowMove worker now r (reclaim_row now (is_exhausted r) retry_at r)

-- Row by row.
abbrev pub TableMove : Text → ℕ → JobTable → JobTable → Type 0
TableMove worker now = Pointwise (RowMove worker now)

pub stays_all : (worker : Text) (now : ℕ) (jobs : JobTable) → TableMove worker now jobs jobs
stays_all worker now [] = done
stays_all worker now (r ∷ rs) = also (stays r) (stays_all worker now rs)

-- An update moves the table if it moves each row that it hits.
pub update-TableMove :
    (worker : Text) (now : ℕ) (hit : JobRow → Bool) (change : JobRow → JobRow) (jobs : JobTable)
    → All (λ r. hit r ≡ true → RowMove worker now r (change r)) jobs
    → TableMove worker now jobs (update hit change jobs)
unfolding update
update-TableMove worker now hit change [] h = done
update-TableMove worker now hit change (r ∷ rs) h = elim (Bool-cases (hit r)) [
  | inl e ↦ rw e (also (h.0 e) (update-TableMove worker now hit change rs h.1))
  | inr e ↦ rw e (also (stays r) (update-TableMove worker now hit change rs h.1))
]
