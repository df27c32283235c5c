-- ===== src/Gateway/Admission.antt =====
-- crates/nexus-scout/src/http.rs: admission to `/v1/query`, and the token bucket. An `Instant` is in
-- nanoseconds.
pub mod InFlight
pub mod Counters
use nexus_scout.Base.{
  ℕ, ◌+◌, ◌-◌, ◌≡◌, ◌&&◌, Bool, true, false, List, [], ◌∷◌, ◌++◌, leb, ltb, min, max, if◌then◌else◌,
}
use nexus_scout.Gateway.Float.{F64, one, to_f64, add, subtract, multiply, as_secs_f64}
use nexus_scout.Gateway.Limits.{HttpLimits}

pub record TokenBucket : Type 0 where
  pub capacity : F64
  pub tokens : F64
  pub refill_per_sec : F64
  pub last : ℕ

-- `TokenBucket::new`.
unfoldable pub new_bucket : ℕ → ℕ → TokenBucket
unfolding to_f64
new_bucket rps now =
    let capacity = to_f64 (max rps 1) in
    record { capacity = capacity; tokens = capacity; refill_per_sec = capacity; last = now }

-- The tokens after the refill. `duration_since` is 0 where the clock stands before `last`.
unfoldable pub refilled : TokenBucket → ℕ → F64
unfolding add multiply as_secs_f64
refilled b now =
    min (add b.tokens (multiply (as_secs_f64 (now - b.last)) b.refill_per_sec)) b.capacity

-- `TokenBucket::try_acquire`, at the time `now`.
unfoldable pub try_acquire : TokenBucket → ℕ → TokenBucket × Bool
unfolding refilled subtract
try_acquire b now =
    if leb one (refilled b now)
    then (record b { tokens = subtract (refilled b now) one; last = now }, true)
    else (record b { tokens = refilled b now; last = now }, false)

-- `Shared`. The counters are below 2^63, so that they do not wrap around.
pub record Shared : Type 0 where
  pub in_flight : ℕ
  pub total : ℕ
  pub rejected : ℕ
  pub failed : ℕ
  pub shed_count : ℕ
  pub bucket : TokenBucket

-- `Shared::new`.
abbrev pub new_shared : ℕ → ℕ → Shared
new_shared rps now = record {
  in_flight = 0;
  total = 0;
  rejected = 0;
  failed = 0;
  shed_count = 0;
  bucket = new_bucket rps now;
}

-- Where a request stands in `admit`: before it is counted; counted, before it is on the gauge; holding
-- its guard, before the load of the gauge; before the bucket; running; about to be counted as shed; so
-- counted, and about to be counted among the 4xx; about to drop its guard; answered.
pub data Phase : Type 0 where
  arriving numbered entered acquiring running shedding rejecting leaving answered : Phase

-- What the surroundings decide: the time at the bucket and the status of the response, or that the
-- request's future is dropped, which takes effect only while it runs: `admit` awaits nowhere else.
pub data Event : Type 0 where
  proceed : ℕ → ℕ → Event
  cancel : Event

-- `record_status`.
unfoldable pub record_status : Shared → ℕ → Shared
record_status s status =
    if leb 500 status && ltb status 600
    then record s { failed = s.failed + 1 }
    else if leb 400 status && ltb status 500
    then record s { rejected = s.rejected + 1 }
    else s

-- `shed`: each of its two counters in a step of its own.
unfoldable pub shed : Shared → Phase → Shared × Phase
shed s shedding = (record s { shed_count = s.shed_count + 1 }, rejecting)
shed s rejecting = (record s { rejected = s.rejected + 1 }, leaving)
shed s p = (s, p)

-- `InFlight::drop`.
unfoldable pub drop_guard : Shared → Shared
drop_guard s = record s { in_flight = s.in_flight - 1 }

-- The next step of a request in `admit`: one access to a counter, to the gauge or to the bucket.
unfoldable pub admit : HttpLimits → Event → Shared → Phase → Shared × Phase
unfolding shed record_status drop_guard
admit limits (proceed now status) s arriving = (record s { total = s.total + 1 }, numbered)
admit limits (proceed now status) s numbered = (record s { in_flight = s.in_flight + 1 }, entered)
admit limits (proceed now status) s entered =
    if ltb limits.max_concurrency s.in_flight then (s, shedding) else (s, acquiring)
admit limits (proceed now status) s acquiring =
    let (b, allowed) = try_acquire s.bucket now in
    (record s { bucket = b }, if allowed then running else shedding)
admit limits (proceed now status) s running = (record_status s status, leaving)
admit limits (proceed now status) s shedding = shed s shedding
admit limits (proceed now status) s rejecting = shed s rejecting
admit limits (proceed now status) s leaving = (drop_guard s, answered)
admit limits (proceed now status) s answered = (s, answered)
admit limits cancel s running = (drop_guard s, answered)
admit limits cancel s p = (s, p)

-- The gateway with its requests.
pub record Server : Type 0 where
  pub shared : Shared
  pub requests : List Phase

-- A request comes in, or some request makes its next step.
pub data Step (limits : HttpLimits) : Server → Server → Type 0 where
  arrive : (s : Server) → Step limits s (record s { requests = arriving ∷ s.requests })
  serve :
      (s : Shared) (before : List Phase) (p : Phase) (behind : List Phase) (event : Event)
      → Step limits
          (record { shared = s; requests = before ++ (p ∷ behind) })
          (record {
            shared = (admit limits event s p).0;
            requests = before ++ ((admit limits event s p).1 ∷ behind);
          })

-- What the gateway can come to from its start at the time `now`.
pub data Reach (limits : HttpLimits) (now : ℕ) : Server → Type 0 where
  start : Reach limits now (record { shared = new_shared limits.max_rps now; requests = [] })
  later : {s t : Server} → Reach limits now s → Step limits s t → Reach limits now t
