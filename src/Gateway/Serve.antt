-- ===== src/Gateway/Serve.antt =====
-- The start of the gateway: crates/nexus-scout/src/main.rs, `serve_http` of http.rs, `serve_stdio` of
-- server.rs, `Scout::connect` of lib.rs and `Executor::connect` of executor/mod.rs. What the driver,
-- the database and the operating system answer is a `World`; what is asked of them is a list of
-- actions. Logging and the shutdown signals are left out.
pub mod Gated
mod Tests
use nexus_scout.Base.{
  ℕ, ◌+◌, Bool, true, false, List, [], ◌∷◌, ◌++◌, Option, none, some, Bytes, codes,
}
use nexus_scout.Gateway.Config.{Config, Environment, apply_env}
use nexus_scout.Gateway.Errors.{Error, new_error, internal, bad_request, DriverError}
use nexus_scout.Gateway.Execution.{Timed, in_time, elapsed}
use nexus_scout.Gateway.Limits.{Profile}
use nexus_scout.Gateway.Shaper.{Outcome, ok, err, Next}
use nexus_scout.Gateway.Startup.{
  Setting, check_transport, ensure_cost_bounds, check_http_pool_capacity,
}

pub data Transport : Type 0 where
  http stdio sse : Transport

-- `Cli`, which has one subcommand.
pub record Cli : Type 0 where
  pub neo4j_uri : Option Bytes
  pub transport : Transport

-- `maybe_neo4j_uri`.
unfoldable pub maybe_neo4j_uri : {Address : Type 0} → Option Bytes → Config Address → Config Address
maybe_neo4j_uri none c = c
maybe_neo4j_uri (some uri) c = record c { neo4j_uri = uri }

-- What is asked of the surroundings: a pool of connections to a URI, with the size of a batch and the
-- number of connections, the settings of the database, a socket at an address, and to serve HTTP or
-- MCP.
pub data Action (Address : Type 0) : Type 0 where
  open_pool : Bytes → ℕ → ℕ → Action Address
  show_settings : Action Address
  bind : Address → Action Address
  serve_requests serve_tools : Action Address

-- What they answer, with the texts of their errors.
pub record World (Address : Type 0) : Type 0 where
  pub driver_config : Outcome Unit Bytes
  pub connected : Timed (Outcome Unit Bytes)
  pub settings : Timed (Outcome (List (Next Setting DriverError)) DriverError)
  pub bound : Address → Outcome Unit Bytes
  pub served : Outcome Unit Bytes

-- What comes of a part of the start, and what it has asked for.
abbrev pub Run : Type 0 → Type 0
Run Address = Outcome Unit Error × List (Action Address)

-- The `?` operator between two parts.
abbrev pub then_run : {Address : Type 0} → Run Address → Run Address → Run Address
then_run (err e, actions) next = (err e, actions)
then_run (ok u, actions) next = (next.0, actions ++ next.1)

-- A part that asks for nothing, and one that asks for one thing.
abbrev pub check : {Address : Type 0} → Outcome Unit Error → Run Address
check o = (o, [])

abbrev pub ask : {Address : Type 0} → Action Address → Outcome Unit Error → Run Address
ask a o = (o, a ∷ [])

-- `map_err(Error::internal)`.
abbrev pub or_internal : Outcome Unit Bytes → Outcome Unit Error
or_internal (ok u) = ok u
or_internal (err e) = err (new_error internal)

abbrev pub connected_in_time : Timed (Outcome Unit Bytes) → Outcome Unit Error
connected_in_time (in_time o) = or_internal o
connected_in_time elapsed = err (new_error internal)

module _ {Address : Type 0} (parse_loopback : Bytes → Option Bool) (world : World Address) where
  -- `Executor::connect`, and `Scout::connect` with it.
  unfoldable pub connect : Config Address → Run Address
  connect c =
      then_run
        (check (check_transport parse_loopback c.profile c.allow_insecure_transport c.neo4j_uri))
        (then_run (check (or_internal world.driver_config)) (
          ask (open_pool c.neo4j_uri (c.limits.max_result_rows + 1) c.neo4j_max_connections)
            (connected_in_time world.connected)))

  -- `connect` and `ensure_cost_bounds`, with which both servers begin.
  unfoldable pub open_scout : Config Address → Run Address
  unfolding connect
  open_scout c =
      then_run (connect c) (ask show_settings (ensure_cost_bounds c.profile world.settings))

  unfoldable pub serve_http : Config Address → Run Address
  unfolding open_scout
  serve_http c =
      then_run (check (check_http_pool_capacity c.http_limits c.neo4j_max_connections c.profile)) (
        then_run (open_scout c) (
          then_run (ask (bind c.http_bind) (or_internal (world.bound c.http_bind))) (
            then_run (ask (bind c.metrics_bind) (or_internal (world.bound c.metrics_bind)))
              (ask serve_requests (or_internal world.served)))))

  unfoldable pub serve_stdio : Config Address → Run Address
  unfolding open_scout
  serve_stdio c = then_run (open_scout c) (ask serve_tools (or_internal world.served))

  abbrev pub without_feature : Bytes → Run Address
  without_feature message = check (err (new_error (bad_request message)))

  -- `serve_http_dispatch` and `serve_stdio_dispatch`, with the features of the build.
  unfoldable pub serve_http_dispatch : Bool → Config Address → Run Address
  unfolding serve_http
  serve_http_dispatch true c = serve_http c
  serve_http_dispatch false c =
      without_feature (codes "this build was compiled without the `http` feature")

  unfoldable pub serve_stdio_dispatch : Bool → Config Address → Run Address
  unfolding serve_stdio
  serve_stdio_dispatch true c = serve_stdio c
  serve_stdio_dispatch false c =
      without_feature (codes "this build was compiled without the `mcp` feature")

  module _ (http_feature mcp_feature : Bool) where
    unfoldable pub serve : Config Address → Transport → Run Address
    unfolding serve_http_dispatch serve_stdio_dispatch
    serve c http = serve_http_dispatch http_feature c
    serve c stdio = serve_stdio_dispatch mcp_feature c
    serve c sse =
        without_feature
          (codes "the SSE transport is not yet supported; use --transport http or stdio")

    abbrev pub serve_configured : Cli → Outcome (Config Address) Error → Run Address
    serve_configured cli (err e) = check (err e)
    serve_configured cli (ok c) = serve (maybe_neo4j_uri cli.neo4j_uri c) cli.transport

    -- `run` of the binary, over the defaults.
    unfoldable pub run : Environment → (Bytes → Option Address) → Config Address → Cli → Run Address
    unfolding serve maybe_neo4j_uri apply_env
    run env parse_address defaults cli = serve_configured cli (apply_env env parse_address defaults)

-- The exit code of `main`.
unfoldable pub exit_status : {Address : Type 0} → Run Address → ℕ
exit_status (ok u, actions) = 0
exit_status (err e, actions) = 1
