-- ===== src/Gateway/Startup/Tests.antt =====
-- Runs of the checks at the start, and their theorems at concrete inputs.
use nexus_scout.Base.{
  if◌then◌else◌, ◌≤◌, ◌≡◌, ◌↔◌, ◌||◌, refl, Bytes, codes, bytes_eq, is_ascii_digit, List, [], ◌∷◌,
  All, Option, none, some, Bool, true, false,
}
use nexus_scout.Gateway.Admission.InFlight.{admitted, count}
use nexus_scout.Gateway.Admission.{Reach, start, later, arrive, new_shared, arriving}
use nexus_scout.Gateway.Config.Layered.{IsLayered, apply_env-IsLayered}
use nexus_scout.Gateway.Config.Named.{IsNamed, apply_env-IsNamed}
use nexus_scout.Gateway.Config.{Config, Environment, standard_config, apply_env}
use nexus_scout.Gateway.Errors.{DriverError}
use nexus_scout.Gateway.Execution.{Timed, in_time}
use nexus_scout.Gateway.Limits.{production, standard_http_limits}
use nexus_scout.Gateway.Shaper.{Outcome, ok, Next, row}
use nexus_scout.Gateway.Startup.Hosts.{named, Parts, IsUri}
use nexus_scout.Gateway.Startup.Written.{is_encrypted, check_transport-written}
use nexus_scout.Gateway.Startup.Closed.{
  is_secure, is_set, check_transport-is_secure, ensure_cost_bounds-is_set,
  check_http_pool_capacity-IsCapped,
}
use nexus_scout.Gateway.Startup.{
  is_loopback, Setting, check_transport, ensure_cost_bounds, check_http_pool_capacity,
  required_bounds, insecure_remote_reason, host_of,
}

-- A parser that knows one address.
abbrev one_address : Bytes → Option Bool
one_address h = if bytes_eq h (codes "127.0.0.1") then some true else none

-- Hosts, as the code's own tests have them.
suffixed_host : host_of (codes "bolt://user@127.evil.com:7687/db") ≡ codes "127.evil.com"
unfolding host_of
suffixed_host = refl

bracketed_host : host_of (codes "neo4j://[::1]:7687") ≡ codes "::1"
unfolding host_of
bracketed_host = refl

loopback_address : insecure_remote_reason one_address (codes "bolt://127.0.0.1:7687") ≡ none
unfolding insecure_remote_reason bytes_eq
loopback_address = refl

check_transport-is_secure_example :
    (check_transport one_address production false (codes "Bolt+S://db.example:7687") ≡ ok tt)
    ↔ (is_secure one_address (codes "Bolt+S://db.example:7687") ≡ true)
check_transport-is_secure_example =
    check_transport-is_secure one_address (codes "Bolt+S://db.example:7687")

abbrev settings : List (Next Setting DriverError)
settings =
    row (some (codes "db.transaction.timeout", codes "10s"))
    ∷ row (some (codes "db.memory.transaction.max", codes "512MiB"))
    ∷ row (some (codes "dbms.memory.transaction.total.max", codes " 1.5GiB"))
    ∷ []

abbrev answered : Timed (Outcome (List (Next Setting DriverError)) DriverError)
answered = in_time (ok settings)

ensure_cost_bounds-is_set_example :
    (rows : List (Next Setting DriverError)) × (answered ≡ in_time (ok rows))
    × All (λ b. is_set rows b ≡ true) required_bounds
ensure_cost_bounds-is_set_example =
    ensure_cost_bounds-is_set answered (unfold ensure_cost_bounds bytes_eq is_ascii_digit in refl)

reached :
    Reach standard_http_limits 7 (record { shared = new_shared 50 7; requests = arriving ∷ [] })
reached = later start (arrive _)

check_http_pool_capacity-IsCapped_example : count admitted (arriving ∷ []) ≤ 64
check_http_pool_capacity-IsCapped_example =
    check_http_pool_capacity-IsCapped standard_http_limits 64 7
      (record { shared = new_shared 50 7; requests = arriving ∷ [] })
      (unfold check_http_pool_capacity in refl) reached

-- An environment with a variable that is no number.
abbrev environment : Environment
environment key = if bytes_eq key (codes "HTTP_MAX_RPS") then some (codes "many") else none

apply_env-IsNamed_example :
    IsNamed environment (apply_env environment (λ (s : Bytes). some s) (standard_config [] []))
apply_env-IsNamed_example =
    apply_env-IsNamed environment (λ (s : Bytes). some s) (standard_config [] [])

-- An environment with one variable, and a blank one.
abbrev fast : Environment
fast key =
    if bytes_eq key (codes "HTTP_MAX_RPS")
    then some (codes "12")
    else if bytes_eq key (codes "QUERY_TIMEOUT_MS")
    then some (codes " ")
    else none

abbrev fast_config : Config Bytes
fast_config = record (standard_config [] []) {
  http_limits = record standard_http_limits { max_rps = 12 };
}

fast_applied : apply_env fast (λ (s : Bytes). some s) (standard_config [] []) ≡ ok fast_config
unfolding apply_env bytes_eq is_ascii_digit
fast_applied = refl

apply_env-IsLayered_example :
    IsLayered fast (λ (s : Bytes). some s) (standard_config [] []) fast_config
apply_env-IsLayered_example =
    apply_env-IsLayered fast (λ (s : Bytes). some s) (standard_config [] []) fast_config
      fast_applied

-- A host that only looks like a loopback one, behind a user that looks like one.
abbrev remote : Parts
remote = record {
  scheme = codes "BOLT";
  user = some (codes "127.0.0.1");
  host = named (codes "127.evil.com");
  port = some (codes "7687");
  tail = codes "/db";
}

remote-IsUri : IsUri remote
remote-IsUri = record {
  scheme_plain = refl;
  user_plain = refl;
  host_plain = refl;
  port_plain = refl;
  tail_begins = refl;
}

check_transport-written_example :
    (check_transport one_address production false (codes "BOLT://127.0.0.1@127.evil.com:7687/db")
      ≡ ok tt)
    ↔ ((is_loopback one_address (codes "127.evil.com") || is_encrypted (codes "BOLT")) ≡ true)
check_transport-written_example = check_transport-written one_address remote remote-IsUri
