-- ===== src/Gateway/Serve/Tests.antt =====
-- The start of the gateway at concrete inputs.
use nexus_scout.Base.{
  ◌≡◌, refl, Bytes, codes, bytes_eq, is_ascii_digit, to_ascii_lower, [], ◌∷◌, All, Option, none,
  some, Bool, true, if◌then◌else◌,
}
use nexus_scout.Gateway.Config.{Config, Environment, standard_config, apply_env}
use nexus_scout.Gateway.Execution.{in_time}
use nexus_scout.Gateway.Limits.{production}
use nexus_scout.Gateway.Serve.Gated.{Permitted, run-Permitted}
use nexus_scout.Gateway.Serve.{
  check_http_pool_capacity, ensure_cost_bounds, check_transport, Cli, http, World, maybe_neo4j_uri,
  run, open_pool, show_settings, bind, serve_requests,
}
use nexus_scout.Gateway.Shaper.{ok, row}
use nexus_scout.Gateway.Startup.{check_transport, ensure_cost_bounds, check_http_pool_capacity}

-- A parser that knows one address.
abbrev one_address : Bytes → Option Bool
one_address h = if bytes_eq h (codes "127.0.0.1") then some true else none

abbrev world : World Bytes
world = record {
  driver_config = ok tt;
  connected = in_time (ok tt);
  settings = in_time (
      ok (
        row (some (codes "db.transaction.timeout", codes "10s"))
        ∷ row (some (codes "db.memory.transaction.max", codes "512MiB"))
        ∷ row (some (codes "dbms.memory.transaction.total.max", codes "2GiB"))
        ∷ []));
  bound = λ a. ok tt;
  served = ok tt;
}

abbrev environment : Environment
environment key =
    if bytes_eq key (codes "NEXUS_SCOUT_PROFILE") then some (codes "production") else none

abbrev defaults : Config Bytes
defaults = standard_config (codes "127.0.0.1:8080") (codes "127.0.0.1:9090")

abbrev found : Config Bytes
found = record defaults { profile = production }

abbrev cli : Cli
cli = record { neo4j_uri = some (codes "bolt+s://db.example:7687"); transport = http }

abbrev any_address : Bytes → Option Bytes
any_address s = some s

found_in_environment : apply_env environment any_address defaults ≡ ok found
unfolding apply_env bytes_eq to_ascii_lower
found_in_environment = refl

-- All five actions, in order.
started :
    (run one_address world true true environment any_address defaults cli).1
    ≡ open_pool (codes "bolt+s://db.example:7687") 101 64
      ∷ show_settings
      ∷ bind (codes "127.0.0.1:8080")
      ∷ bind (codes "127.0.0.1:9090")
      ∷ serve_requests
      ∷ []
unfolding run bytes_eq to_ascii_lower is_ascii_digit check_transport ensure_cost_bounds
    check_http_pool_capacity
started = refl

run-Permitted_example :
    All
      (Permitted one_address world (maybe_neo4j_uri cli.neo4j_uri found))
      (run one_address world true true environment any_address defaults cli).1
run-Permitted_example =
    run-Permitted Bytes one_address world true true environment any_address defaults found cli
      found_in_environment refl refl
