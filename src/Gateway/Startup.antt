-- ===== src/Gateway/Startup.antt =====
-- What the gateway refuses at its start: crates/nexus-scout/src/executor/mod.rs (the transport and the
-- server's cost bounds), src/lib.rs (`ensure_cost_bounds`) and src/config.rs (the pool's capacity).
-- `IpAddr`'s parser is a parameter, which says of an address whether it is a loopback one.
pub mod Schemes
pub mod Hosts
pub mod Written
pub mod Closed
mod Tests
use mathlib.Core.Option
use nexus_scout.Base.{
  ℕ, ◌==◌, Bool, true, false, not, ◌&&◌, ◌||◌, List, [], ◌∷◌, ◌++◌, Option, none, some, Bytes,
  codes, any, length, digits_value, ◌*◌, ◌^◌, if◌then◌else◌, ltb, leb, is_ascii_digit, bytes_eq,
}
use nexus_scout.Gateway.Errors.{Error, new_error, bad_config, internal, DriverError, from_neo4rs}
use nexus_scout.Gateway.Execution.{Timed, in_time, elapsed}
use nexus_scout.Gateway.Limits.{HttpLimits, Profile, development, production}
use nexus_scout.Gateway.Shaper.{Outcome, ok, err, Next, row, failed}
use nexus_scout.Gateway.Text.{
  split_once, rsplit_once, starts_with, to_ascii_lowercase, trim, take_while,
}

-- The scheme and the rest of a URI.
unfoldable pub scheme_and_rest : Bytes → Bytes × Bytes
unfolding split_once
scheme_and_rest uri = Option.get_or (split_once (codes "://") uri) ([], uri)

-- `rest.split(['/', '?', '#']).next()`.
unfoldable pub authority_of : Bytes → Bytes
unfolding take_while
authority_of rest = take_while (λ c. not (c == b'/' || (c == b'?' || c == b'#'))) rest

abbrev pub second_or : Bytes → Option (Bytes × Bytes) → Bytes
second_or s none = s
second_or s (some (l, r)) = r

abbrev pub first_or : Bytes → Option (Bytes × Bytes) → Bytes
first_or s none = s
first_or s (some (l, r)) = l

-- The host of `host_port`, which may be an IPv6 address in brackets.
unfoldable pub host_of_port : Bytes → Bytes
unfolding rsplit_once split_once
host_of_port [] = first_or [] (rsplit_once b':' [])
host_of_port (c ∷ s) =
    if c == b'['
    then first_or (c ∷ s) (split_once (codes "]") s)
    else first_or (c ∷ s) (rsplit_once b':' (c ∷ s))

unfoldable pub host_of : Bytes → Bytes
unfolding scheme_and_rest authority_of host_of_port rsplit_once
host_of uri =
    let authority = authority_of (scheme_and_rest uri).1 in
    host_of_port (second_or authority (rsplit_once b'@' authority))

unfoldable pub scheme_of : Bytes → Bytes
unfolding scheme_and_rest to_ascii_lowercase
scheme_of uri = to_ascii_lowercase (scheme_and_rest uri).0

-- `str::ends_with`, with the suffix first.
unfoldable pub ends_with : Bytes → Bytes → Bool
ends_with p [] = bytes_eq p []
ends_with p (b ∷ s) = bytes_eq p (b ∷ s) || ends_with p s

module _ (parse_loopback : Bytes → Option Bool) where
  unfoldable pub is_loopback : Bytes → Bool
  is_loopback host = Option.get_or (parse_loopback host) (bytes_eq host (codes "localhost"))

  unfoldable pub insecure_remote_reason : Bytes → Option Bytes
  unfolding is_loopback host_of scheme_of ends_with
  insecure_remote_reason uri =
      let scheme = scheme_of uri in
      if is_loopback (host_of uri)
      then none
      else if bytes_eq scheme (codes "bolt+s") || bytes_eq scheme (codes "neo4j+s")
      then none
      else if bytes_eq scheme (codes "bolt") || bytes_eq scheme (codes "neo4j")
      then some (codes "is unencrypted (plaintext)")
      else if ends_with (codes "+ssc") scheme
      then some (codes "skips TLS certificate validation (+ssc)")
      else some (codes "uses an unrecognized or missing scheme")

pub data TransportPolicy : Type 0 where
  warn_development warn_override refuse : TransportPolicy

unfoldable pub transport_policy : Profile → Bool → TransportPolicy
transport_policy production false = refuse
transport_policy production true = warn_override
transport_policy development allow_insecure = warn_development

unfoldable pub check_policy : TransportPolicy → Outcome Unit Error
check_policy refuse = err (new_error (bad_config (codes "NEO4J_URI")))
check_policy warn_override = ok tt
check_policy warn_development = ok tt

-- The first part of `Executor::connect`, up to the driver's configuration.
unfoldable pub check_transport : (Bytes → Option Bool) → Profile → Bool → Bytes → Outcome Unit Error
unfolding insecure_remote_reason transport_policy check_policy
check_transport parse_loopback profile allow_insecure uri =
    elim (insecure_remote_reason parse_loopback uri) [
      | some detail ↦ check_policy (transport_policy profile allow_insecure)
      | none ↦ ok tt
    ]

-- The characters of a number in `is_bounded`.
unfoldable pub is_number_char : ℕ → Bool
unfolding is_ascii_digit
is_number_char c = is_ascii_digit c || c == b'.'

-- `num.parse::<f64>()` of digits and dots succeeds with at least one digit and at most one dot.
unfoldable pub dots : Bytes → ℕ
dots [] = 0
dots (c ∷ s) = let rest = dots s in if c == b'.' then ℕ.suc rest else rest

-- The number of these digits, behind as many of which as `decimals` stands no dot, is read as a positive
-- `f64`: it is above 2^-1075, half of the smallest. One that is not is rounded to 0.
unfoldable pub is_positive : Bytes → ℕ → Bool
unfolding digits_value
is_positive digits decimals = ltb (10 ^ decimals) (digits_value 0 digits * 2 ^ 1075)

unfoldable pub is_bounded : Bytes → Bool
unfolding is_number_char take_while trim dots split_once is_positive
is_bounded value =
    let num = take_while is_number_char (trim value) in
    let (whole, decimals) = Option.get_or (split_once (codes ".") num) (num, []) in
    leb (dots num) 1 && is_positive (whole ++ decimals) (length decimals)

-- `REQUIRED_BOUNDS`.
abbrev pub required_bounds : List Bytes
required_bounds =
    codes "db.transaction.timeout"
    ∷ codes "db.memory.transaction.max"
    ∷ codes "dbms.memory.transaction.total.max"
    ∷ []

-- A row of `SHOW SETTINGS`: its name and its value, if both are text.
abbrev pub Setting : Type 0
Setting = Option (Bytes × Bytes)

abbrev pub member_of : Bytes → List Bytes → Bool
member_of name names = any (bytes_eq name) names

-- The loop over the rows, from the names that are bounded so far.
unfoldable pub collect_bounded :
    List Bytes → List (Next Setting DriverError) → Outcome (List Bytes) Error
unfolding is_bounded bytes_eq
collect_bounded bounded [] = ok bounded
collect_bounded bounded (failed e ∷ rows) = err (from_neo4rs e)
collect_bounded bounded (row none ∷ rows) = err (new_error internal)
collect_bounded bounded (row (some (name, value)) ∷ rows) =
    let found = collect_bounded (name ∷ bounded) rows in
    let rest = collect_bounded bounded rows in
    if member_of name required_bounds && is_bounded value then found else rest

abbrev pub missing_of : List Bytes → List Bytes → List Bytes
missing_of bounded [] = []
missing_of bounded (b ∷ bs) =
    let rest = missing_of bounded bs in if member_of b bounded then rest else b ∷ rest

abbrev pub missing_outcome : Outcome (List Bytes) Error → Outcome (List Bytes) Error
missing_outcome (err e) = err e
missing_outcome (ok bounded) = ok (missing_of bounded required_bounds)

-- `verify_server_bounds`, on what the database answers.
unfoldable pub verify_server_bounds :
    Timed (Outcome (List (Next Setting DriverError)) DriverError) → Outcome (List Bytes) Error
unfolding collect_bounded
verify_server_bounds elapsed = err (new_error internal)
verify_server_bounds (in_time (err e)) = err (from_neo4rs e)
verify_server_bounds (in_time (ok rows)) = missing_outcome (collect_bounded [] rows)

pub data BoundsOutcome : Type 0 where
  all_set some_unset unverifiable : BoundsOutcome

-- `cost_bounds_outcome`, without the detail for the log.
abbrev pub cost_bounds_outcome : Outcome (List Bytes) Error → BoundsOutcome
cost_bounds_outcome (ok []) = all_set
cost_bounds_outcome (ok (b ∷ bs)) = some_unset
cost_bounds_outcome (err e) = unverifiable

abbrev pub is_production : Profile → Bool
is_production production = true
is_production development = false

abbrev pub is_all_set : BoundsOutcome → Bool
is_all_set all_set = true
is_all_set _ = false

unfoldable pub production_aborts : Profile → BoundsOutcome → Bool
production_aborts profile outcome = is_production profile && not (is_all_set outcome)

unfoldable pub ensure_cost_bounds :
    Profile → Timed (Outcome (List (Next Setting DriverError)) DriverError) → Outcome Unit Error
unfolding verify_server_bounds production_aborts
ensure_cost_bounds profile answer =
    if production_aborts profile (cost_bounds_outcome (verify_server_bounds answer))
    then err (new_error internal)
    else ok tt

-- `check_http_pool_capacity`, on the fields that it reads.
unfoldable pub check_http_pool_capacity : HttpLimits → ℕ → Profile → Outcome Unit Error
check_http_pool_capacity http_limits max_connections profile =
    if ltb max_connections http_limits.max_concurrency && is_production profile
    then err (new_error (bad_config (codes "HTTP_MAX_CONCURRENCY")))
    else ok tt
