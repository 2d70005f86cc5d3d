-- ===== src/Worker/Settles.antt =====
-- A job whose worker keeps its lease ends as its handler does.
use Prim.Native.Nat.{max}
use mathlib.Core.List.{Memᴰ}
use cash_count.Base.{
  ℕ, ◌+◌, ◌≤◌, ◌<◌, ◌≡◌, refl, subst, ap, true, false, Option, some, List, [], ◌∷◌, arith, All,
}
use cash_count.Base.Int.{pos}
use cash_count.Base.Numbers.{JsNumber, integer, Instant}
use cash_count.Base.Results.{ok}
use cash_count.Base.Text.{Text, text_eq→eq}
use cash_count.Queue.Job.{JobRow, JobTable, queue_worker}
use cash_count.Queue.Sql.{update, returning}
use cash_count.Queue.Lease.{holds_lease, extend_lease, heartbeat, greatest}
use cash_count.Queue.Calls.{Call, heartbeats, step, run, table_after}
use cash_count.Queue.Exclusive.{IsForeign}
use cash_count.Queue.Invariant.{TableInv, step-TableInv}
use cash_count.Worker.Options.{Worker}
use cash_count.Worker.Process.{Beat, Heard, heartbeat_loop}
use cash_count.Worker.Retries.{IsWorker, worker_lease}
use cash_count.Worker.Held.{IsHeld, run-IsHeld, IsHeld-holds_lease, update-Memᴰ, returning-sole}

-- The heartbeats come in time: before each, others call before the lease ends; each one that reaches
-- the database comes after the last and before the end of the lease, and moves both.
pub data Timely (w : Worker) : ℕ → ℕ → List Beat → ℕ → ℕ → Type 0 where
  silent : (beat until : ℕ) → Timely w beat until [] beat until
  beats :
      {beat until last end : ℕ} {bs : List Beat} (others : List Call) (t : ℕ)
      → All (IsForeign w.worker_id until) others
      → beat ≤ t
      → t < until
      → Timely w t (max until (t + w.lease_duration_ms)) bs last end
      → Timely w beat until (record { others = others; reaches = true; now = some t } ∷ bs) last end
  misses :
      {beat until last end : ℕ} {bs : List Beat} (others : List Call) (now : Instant)
      → All (IsForeign w.worker_id until) others
      → Timely w beat until bs last end
      → Timely w beat until (record { others = others; reaches = false; now = now } ∷ bs) last end

holds_lease-id :
    (job worker : Text) (now : ℕ) (r : JobRow) → holds_lease job worker now r ≡ true → r.id ≡ job
unfolding holds_lease
holds_lease-id job worker now r h = text_eq→eq r.id job (ground arith)

-- A heartbeat in time is answered, and extends the lease.
heartbeat_in_time :
    {job : Text} {beat until : ℕ} {r : JobRow} (w : Worker) (t : ℕ) (jobs : JobTable)
    → IsWorker w
    → TableInv jobs
    → IsHeld job w.worker_id beat until r
    → beat ≤ t
    → t < until
    → Memᴰ r jobs
    → (expiry : Option ℕ) × (after : JobTable) × (heartbeat queue_worker job w.worker_id
          (some t)
          (some (integer (pos w.lease_duration_ms)))
          jobs
        ≡ ok (expiry, after))
      × Memᴰ (extend_lease t (t + w.lease_duration_ms) r) after
unfolding heartbeat
heartbeat_in_time {job} {r} w t jobs valid v h le lt m =
    let hit = holds_lease job w.worker_id t in
    let change = extend_lease t (t + w.lease_duration_ms) in
    let holds = IsHeld-holds_lease t h le lt in
    let rows =
      returning-sole hit change job jobs (holds_lease-id job w.worker_id t) v.distinct m holds in
    (
      (change r).lease_expires_at,
      update hit change jobs,
      rw (valid.name, worker_lease w t valid, rows) refl,
      update-Memᴰ hit change jobs m holds,
    )

extend_lease-IsHeld :
    {job worker : Text} {beat until : ℕ} {r : JobRow} (t expires : ℕ)
    → IsHeld job worker beat until r
    → IsHeld job worker t (max until expires) (extend_lease t expires r)
unfolding extend_lease
extend_lease-IsHeld t expires h = record {
  id = h.id;
  status = h.status;
  owner = h.owner;
  beat_at = refl;
  expires = ap (λ e. some (greatest e expires)) h.expires;
}

heartbeat-TableInv :
    {out : Option ℕ × JobTable} (job worker : Text) (now : Instant) (duration : Option JsNumber)
    (jobs : JobTable)
    → heartbeat queue_worker job worker now duration jobs ≡ ok out
    → TableInv jobs
    → TableInv out.1
unfolding step
heartbeat-TableInv job worker now duration jobs e v =
    subst TableInv (ap (λ r. table_after jobs r) e)
      (step-TableInv (heartbeats queue_worker job worker now duration) jobs v)

-- The same attempt of the same job.
abbrev pub SameAttempt : JobRow → JobRow → Type 0
SameAttempt r s = (s.attempt_count ≡ r.attempt_count) × (s.max_attempts ≡ r.max_attempts)

-- What the heartbeats leave behind: the lease is not lost, and the worker holds the row.
abbrev pub Kept : Text → Text → ℕ → ℕ → JobRow → Heard → Type 0
Kept job worker last end r heard =
    (heard.0 ≡ false)
    × TableInv heard.2
    × ((s : JobRow) × IsHeld job worker last end s × SameAttempt r s × Memᴰ s heard.2)

pub heartbeat_loop-Kept :
    (w : Worker) {job : Text} {beat until last end : ℕ} {r : JobRow} {bs : List Beat}
    (jobs : JobTable)
    → IsWorker w
    → Timely w beat until bs last end
    → TableInv jobs
    → IsHeld job w.worker_id beat until r
    → Memᴰ r jobs
    → Kept job w.worker_id last end r (heartbeat_loop w job bs jobs)
unfolding heartbeat_loop extend_lease
heartbeat_loop-Kept w jobs valid (silent beat until) v h m = (refl, v, (_, h, (refl, refl), m))
heartbeat_loop-Kept w {job} {r} jobs valid (misses others now f rest) v h m =
    let (inv, still) = run-IsHeld others jobs v f h m in
    heartbeat_loop-Kept w (run others jobs) valid rest inv h still
heartbeat_loop-Kept w {job} {r} jobs valid (beats others t f le lt rest) v h m =
    let (inv, still) = run-IsHeld others jobs v f h m in
    let (expiry, after, answer, moved) =
      heartbeat_in_time w t (run others jobs) valid inv h le lt still in
    let kept =
      heartbeat_loop-Kept w after valid rest
        (heartbeat-TableInv job w.worker_id (some t) (some (integer (pos w.lease_duration_ms)))
          (run others jobs) answer inv)
        (extend_lease-IsHeld t (t + w.lease_duration_ms) h) moved in
    rw answer kept

-- A statement that asks for the lease in time changes that row and no other.
pub holds_now :
    {job : Text} {last end : ℕ} {s : JobRow} (w : Worker) (now : ℕ) (change : JobRow → JobRow)
    (jobs : JobTable)
    → TableInv jobs
    → IsHeld job w.worker_id last end s
    → last ≤ now
    → now < end
    → Memᴰ s jobs
    → (returning (holds_lease job w.worker_id now) change jobs ≡ change s ∷ [])
      × Memᴰ (change s) (update (holds_lease job w.worker_id now) change jobs)
holds_now {job} w now change jobs v h le lt m =
    let hit = holds_lease job w.worker_id now in
    let holds = IsHeld-holds_lease now h le lt in
    (
      returning-sole hit change job jobs (holds_lease-id job w.worker_id now) v.distinct m holds,
      update-Memᴰ hit change jobs m holds,
    )
