-- ===== src/Worker/Retries.antt =====
-- The bounds of a worker's options and of the time of the next attempt.
use Prim.Native.Nat.{min, max}
use cash_count.Base.{
  ℕ, ◌+◌, ◌-◌, ◌*◌, ◌^◌, subst, ◌≤◌, ◌<◌, ◌≡◌, refl, true, Option, none, some, arith, ltb, every,
}
use cash_count.Base.Int.{pos}
use cash_count.Base.Numbers.{JsNumber, integer, require_between-bounds, require_between_same}
use cash_count.Base.Results.{ok, guard, >>=-eq-ok, guard-eq-ok, ok-injective}
use cash_count.Queue.Claim.{lease_expiry}
use cash_count.Queue.Job.{is_queue_job_type, is_worker_id}
use cash_count.Worker.Options.{
  WorkerError, WorkerOptions, Worker, bounded_integer, create_worker, invalid_concurrency,
  invalid_heartbeat_interval, invalid_lease, invalid_poll_interval, heartbeat_too_long,
  invalid_worker, unsupported_handler,
}
use cash_count.Worker.Process.{retry_delay}

-- The value of an option, which must be an integer, or its default.
abbrev pub IsOption : Option JsNumber → ℕ → ℕ → Type 0
IsOption none default n = n ≡ default
IsOption (some v) default n = v ≡ integer (pos n)

-- What the queue needs of a worker.
pub record IsWorker (w : Worker) : Type 0 where
  pub slots : (1 ≤ w.concurrency) × (w.concurrency ≤ 64)
  pub beat : (1 ≤ w.heartbeat_interval_ms) × (w.heartbeat_interval_ms < w.lease_duration_ms)
  pub lease : (1000 ≤ w.lease_duration_ms) × (w.lease_duration_ms ≤ 900000)
  pub name : is_worker_id w.worker_id ≡ true
  pub types : every is_queue_job_type w.job_types ≡ true

-- What the constructor guarantees: every bound, and where each value comes from.
pub record IsCreated (options : WorkerOptions) (w : Worker) : Type 0 where
  pub worker : IsWorker w
  pub beat_limit : w.heartbeat_interval_ms ≤ 300000
  pub poll : (1 ≤ w.poll_interval_ms) × (w.poll_interval_ms ≤ 60000)
  pub name_asked : w.worker_id ≡ options.worker_id
  pub types_asked : w.job_types ≡ options.handlers
  pub slots_asked : IsOption options.concurrency 4 w.concurrency
  pub beat_asked : IsOption options.heartbeat_interval_ms 30000 w.heartbeat_interval_ms
  pub lease_asked : IsOption options.lease_duration_ms 120000 w.lease_duration_ms
  pub poll_asked : IsOption options.poll_interval_ms 1000 w.poll_interval_ms

-- A delay lies between one second and five minutes, whatever the random number.
pub retry_delay_bounds :
    (attempts : ℕ) (scaled : ℕ → ℕ)
    → (1000 ≤ retry_delay attempts scaled) × (retry_delay attempts scaled ≤ 300000)
unfolding retry_delay
retry_delay_bounds attempts scaled = clamped (scaled (min 300000 (1000 * 2 ^ (attempts - 1))))
  where
    clamped : (n : ℕ) → (1000 ≤ min 300000 (max 1000 n)) × (min 300000 (max 1000 n) ≤ 300000)
    clamped n = omega arith

bounded_integer-bounds :
    (default lo hi : ℕ) (value : Option JsNumber) (e : WorkerError) (n : ℕ)
    → lo ≤ default
    → default ≤ hi
    → bounded_integer default lo hi value e ≡ ok n
    → (lo ≤ n) × (n ≤ hi)
unfolding bounded_integer
bounded_integer-bounds default lo hi none e n h k r =
    let same : default ≡ n = cc in omega (arith, h, k, same)
bounded_integer-bounds default lo hi (some v) e n h k r = require_between-bounds lo hi v e n r

bounded_integer-IsOption :
    (default lo hi : ℕ) (value : Option JsNumber) (e : WorkerError) (n : ℕ)
    → bounded_integer default lo hi value e ≡ ok n
    → IsOption value default n
unfolding bounded_integer
bounded_integer-IsOption default lo hi none e n r = cc
bounded_integer-IsOption default lo hi (some v) e n r = require_between_same lo hi v e n r

-- A worker that was created has the options that were given, or their defaults, within their bounds:
-- 1 to 64 slots, a heartbeat of 1 to 300000 milliseconds that is shorter than the lease, a lease of
-- 1000 to 900000 milliseconds, a poll interval of 1 to 60000 milliseconds, a valid name and handlers
-- for known types only.
pub create_worker-IsCreated :
    (options : WorkerOptions) (w : Worker) → create_worker options ≡ ok w → IsCreated options w
unfolding create_worker
create_worker-IsCreated options w h =
    let (concurrency, e1, h1) =
      >>=-eq-ok (bounded_integer 4 1 64 options.concurrency invalid_concurrency) _ h in
    let (beat, e2, h2) =
      >>=-eq-ok
        (bounded_integer 30000 1 300000 options.heartbeat_interval_ms invalid_heartbeat_interval) _
        h1 in
    let (lease, e3, h3) =
      >>=-eq-ok (bounded_integer 120000 1000 900000 options.lease_duration_ms invalid_lease) _ h2 in
    let (poll, e4, h4) =
      >>=-eq-ok (bounded_integer 1000 1 60000 options.poll_interval_ms invalid_poll_interval) _
        h3 in
    let (_, e5, h5) = >>=-eq-ok (guard (ltb beat lease) heartbeat_too_long) _ h4 in
    let (_, e6, h6) = >>=-eq-ok (guard (is_worker_id options.worker_id) invalid_worker) _ h5 in
    let (_, e7, h7) =
      >>=-eq-ok (guard (every is_queue_job_type options.handlers) unsupported_handler) _ h6 in
    let shorter = guard-eq-ok (ltb beat lease) heartbeat_too_long e5 in
    let beats =
      bounded_integer-bounds 30000 1 300000 options.heartbeat_interval_ms _ beat (omega arith)
        (omega arith) e2 in
    subst (IsCreated options) (ok-injective h7) (record {
      worker = record {
        slots =
            bounded_integer-bounds 4 1 64 options.concurrency _ concurrency (omega arith)
              (omega arith) e1;
        beat = (beats.0, ground (arith, shorter));
        lease =
            bounded_integer-bounds 120000 1000 900000 options.lease_duration_ms _ lease
              (omega arith) (omega arith) e3;
        name = guard-eq-ok _ _ e6;
        types = guard-eq-ok _ _ e7;
      };
      beat_limit = beats.1;
      poll =
          bounded_integer-bounds 1000 1 60000 options.poll_interval_ms _ poll (omega arith)
            (omega arith) e4;
      name_asked = refl;
      types_asked = refl;
      slots_asked = bounded_integer-IsOption 4 1 64 options.concurrency _ concurrency e1;
      beat_asked = bounded_integer-IsOption 30000 1 300000 options.heartbeat_interval_ms _ beat e2;
      lease_asked =
          bounded_integer-IsOption 120000 1000 900000 options.lease_duration_ms _ lease e3;
      poll_asked = bounded_integer-IsOption 1000 1 60000 options.poll_interval_ms _ poll e4;
    })

-- Then the queue accepts its leases.
pub worker_lease :
    (w : Worker) (now : ℕ)
    → IsWorker w
    → lease_expiry (some now) (some (integer (pos w.lease_duration_ms)))
      ≡ ok (now, now + w.lease_duration_ms)
unfolding lease_expiry
worker_lease w now h = ground (arith, h.lease)
