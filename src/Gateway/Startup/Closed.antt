-- ===== src/Gateway/Startup/Closed.antt =====
-- In production the gateway fails closed.
use nexus_scout.Base.{
  if◌then◌else◌, ℕ, ◌≤◌, ◌≡◌, ◌↔◌, ◌⊎◌, inl, inr, refl, arith, Bool, true, false, ◌&&◌, ◌||◌, List,
  [], ◌∷◌, All, Option, some, none, Bytes, codes, bytes_eq, any, Bool-cases,
}
use nexus_scout.Gateway.Admission.InFlight.{admitted, count, Reach-IsCapped}
use nexus_scout.Gateway.Admission.{Server, Reach}
use nexus_scout.Gateway.Errors.{new_error, internal, DriverError, Error}
use nexus_scout.Gateway.Execution.{Timed, in_time, elapsed}
use nexus_scout.Gateway.Limits.{HttpLimits, production}
use nexus_scout.Gateway.Shaper.{Outcome, ok, err, Next, row, failed}
use nexus_scout.Gateway.Startup.Schemes.{has_scheme, scheme_of-has_scheme}
use nexus_scout.Gateway.Startup.{
  is_all_set, missing_outcome, BoundsOutcome, is_loopback, host_of, insecure_remote_reason,
  transport_policy, check_policy, check_transport, is_bounded, required_bounds, Setting, member_of,
  collect_bounded, missing_of, verify_server_bounds, cost_bounds_outcome, production_aborts,
  ensure_cost_bounds, check_http_pool_capacity,
}

-- That a connection to the database does not leave the machine, or is encrypted and validated.
abbrev pub is_secure : (Bytes → Option Bool) → Bytes → Bool
is_secure parse_loopback uri =
    is_loopback parse_loopback (host_of uri)
    || (has_scheme (codes "bolt+s") uri || has_scheme (codes "neo4j+s") uri)

-- In production, and without the override, exactly those URIs pass whose host, as `host_of` finds it,
-- is a loopback one, or which begin with `bolt+s://` or `neo4j+s://`, in any case of the letters.
pub check_transport-is_secure :
    (parse_loopback : Bytes → Option Bool) (uri : Bytes)
    → (check_transport parse_loopback production false uri ≡ ok tt)
      ↔ (is_secure parse_loopback uri ≡ true)
unfolding check_transport insecure_remote_reason transport_policy check_policy
check_transport-is_secure parse_loopback uri = ground (
  arith,
  scheme_of-has_scheme b'b' (codes "olt+s") uri refl,
  scheme_of-has_scheme b'n' (codes "eo4j+s") uri refl,
)

-- A row that sets the bound.
abbrev sets : Bytes → Next Setting DriverError → Bool
sets b (row (some (name, value))) = bytes_eq b name && is_bounded value
sets b _ = false

-- The bound has a row with a value that bounds something.
abbrev pub is_set : List (Next Setting DriverError) → Bytes → Bool
is_set rows b = any (sets b) rows

collect_bounded-is_set :
    (bounded names : List Bytes) (rows : List (Next Setting DriverError)) (b : Bytes)
    → collect_bounded bounded rows ≡ ok names
    → member_of b names ≡ true
    → (member_of b bounded ≡ true) ⊎ (is_set rows b ≡ true)
unfolding collect_bounded
collect_bounded-is_set bounded names [] b e m = ground arith
collect_bounded-is_set bounded names (failed x ∷ rows) b e m = absurd (ground arith)
collect_bounded-is_set bounded names (row none ∷ rows) b e m = absurd (ground arith)
collect_bounded-is_set bounded names (row (some (name, value)) ∷ rows) b e m =
    elim (Bool-cases (member_of name required_bounds && is_bounded value)) [
      | inl kept ↦
          let later = collect_bounded-is_set (name ∷ bounded) names rows b (ground arith) m in
          ground arith
      | inr passed ↦
          let later = collect_bounded-is_set bounded names rows b (ground arith) m in ground arith
    ]

missing_of-All :
    (rows : List (Next Setting DriverError)) (names bs : List Bytes)
    → collect_bounded [] rows ≡ ok names
    → missing_of names bs ≡ []
    → All (λ b. is_set rows b ≡ true) bs
missing_of-All rows names [] e m = tt
missing_of-All rows names (b ∷ bs) e m = elim (Bool-cases (member_of b names)) [
  | inl known ↦
      let here = collect_bounded-is_set [] names rows b e known in
      (ground arith, missing_of-All rows names bs e (ground arith))
  | inr unknown ↦ absurd (ground arith)
]

all_set-nil :
    (missing : List Bytes) → is_all_set (cost_bounds_outcome (ok missing)) ≡ true → missing ≡ []
all_set-nil [] h = refl
all_set-nil (b ∷ bs) h = absurd (ground arith)

all_set-missing_of :
    (o : Outcome (List Bytes) Error)
    → is_all_set (cost_bounds_outcome (missing_outcome o)) ≡ true
    → (names : List Bytes) × (o ≡ ok names) × (missing_of names required_bounds ≡ [])
all_set-missing_of (ok names) h = (names, refl, all_set-nil (missing_of names required_bounds) h)
all_set-missing_of (err e) h = absurd (ground arith)

production_aborts-all_set :
    (o : BoundsOutcome)
    → (if production_aborts production o then err (new_error internal) else ok tt) ≡ ok tt
    → is_all_set o ≡ true
unfolding production_aborts
production_aborts-all_set o h = ground arith

-- In production the gateway starts only if the database has answered in time, and each of the bounds
-- on a query's cost is among the settings with a value that bounds something.
pub ensure_cost_bounds-is_set :
    (answer : Timed (Outcome (List (Next Setting DriverError)) DriverError))
    → ensure_cost_bounds production answer ≡ ok tt
    → (rows : List (Next Setting DriverError)) × (answer ≡ in_time (ok rows))
      × All (λ b. is_set rows b ≡ true) required_bounds
unfolding ensure_cost_bounds verify_server_bounds
ensure_cost_bounds-is_set elapsed h =
    absurd (ground (arith, production_aborts-all_set BoundsOutcome.unverifiable h))
ensure_cost_bounds-is_set (in_time (err e)) h =
    absurd (ground (arith, production_aborts-all_set BoundsOutcome.unverifiable h))
ensure_cost_bounds-is_set (in_time (ok rows)) h =
    let settled = all_set-missing_of (collect_bounded [] rows) (production_aborts-all_set _ h) in
    (rows, refl, missing_of-All rows settled.0 required_bounds settled.1 settled.2)

-- If the check of the pool's capacity passes in production, the requests that run at one time, however
-- they interleave, are never more than the connections of the pool.
pub check_http_pool_capacity-IsCapped :
    (limits : HttpLimits) (max_connections now : ℕ) (s : Server)
    → check_http_pool_capacity limits max_connections production ≡ ok tt
    → Reach limits now s
    → count admitted s.requests ≤ max_connections
unfolding check_http_pool_capacity
check_http_pool_capacity-IsCapped limits max_connections now s h r =
    let capped = Reach-IsCapped limits now s r in ground (arith, capped.cap)
