-- ===== src/Gateway/Serve/Gated.antt =====
-- In production nothing is asked of the surroundings before the gates in front of it are passed.
use nexus_scout.Base.{
  ◌+◌, ◌≤◌, ◌≡◌, refl, ◌∙◌, arith, Bool, true, false, List, [], ◌∷◌, ◌++◌, All, Option, none, some,
  Bytes,
}
use nexus_scout.Gateway.Config.{Config, Environment, apply_env}
use nexus_scout.Gateway.Errors.{DriverError}
use nexus_scout.Gateway.Execution.{in_time}
use nexus_scout.Gateway.Limits.{production}
use nexus_scout.Gateway.Serve.{
  Transport, http, stdio, sse, Cli, maybe_neo4j_uri, Action, open_pool, show_settings, bind,
  serve_requests, serve_tools, World, Run, then_run, check, ask, or_internal, connected_in_time,
  connect, open_scout, serve_http, serve_stdio, serve_http_dispatch, serve_stdio_dispatch, serve,
  run,
}
use nexus_scout.Gateway.Shaper.{ok, err, Next}
use nexus_scout.Gateway.Startup.Closed.{
  is_secure, is_set, check_transport-is_secure, ensure_cost_bounds-is_set,
}
use nexus_scout.Gateway.Startup.{
  Setting, check_transport, ensure_cost_bounds, check_http_pool_capacity, required_bounds,
}

module _ {Address : Type 0} (P : Action Address → Type 0) where
  All-append : (xs ys : List (Action Address)) → All P xs → All P ys → All P (xs ++ ys)
  All-append [] ys h k = k
  All-append (x ∷ xs) ys (p, h) k = (p, All-append xs ys h k)

  then_run-All :
      (r next : Run Address) → All P r.1 → (r.0 ≡ ok tt → All P next.1) → All P (then_run r next).1
  then_run-All (err e, actions) next h k = h
  then_run-All (ok tt, actions) next h k = All-append actions next.1 h (k refl)

then_run-ok :
    (Address : Type 0) (r next : Run Address)
    → (then_run r next).0 ≡ ok tt
    → (r.0 ≡ ok tt) × (next.0 ≡ ok tt)
then_run-ok Address (err e, actions) next h = absurd (ground arith)
then_run-ok Address (ok tt, actions) next h = (refl, h)

-- What is asked for only behind gates, and what has held at them: that the connection to the database
-- is secure, that the database has the bounds on the cost of a query, and that there is a connection
-- for every request.
module _ {Address : Type 0} (parse_loopback : Bytes → Option Bool) (world : World Address)
    (c : Config Address) where
  abbrev pub IsTrusted : Type 0
  IsTrusted = is_secure parse_loopback c.neo4j_uri ≡ true

  abbrev pub IsBounded : Type 0
  IsBounded =
      (rows : List (Next Setting DriverError)) × (world.settings ≡ in_time (ok rows))
      × All (λ b. is_set rows b ≡ true) required_bounds

  abbrev pub HasCapacity : Type 0
  HasCapacity = c.http_limits.max_concurrency ≤ c.neo4j_max_connections

  abbrev pub Permitted : Action Address → Type 0
  Permitted (open_pool uri batch connections) =
      (uri ≡ c.neo4j_uri) × (connections ≡ c.neo4j_max_connections) × IsTrusted
  Permitted show_settings = IsTrusted
  Permitted (bind a) = IsTrusted × IsBounded × HasCapacity
  Permitted serve_requests = IsTrusted × IsBounded × HasCapacity
  Permitted serve_tools = IsTrusted × IsBounded

  module _ (in_production : c.profile ≡ production)
      (no_override : c.allow_insecure_transport ≡ false) where
    transport-IsTrusted :
        check_transport parse_loopback c.profile c.allow_insecure_transport c.neo4j_uri ≡ ok tt
        → IsTrusted
    transport-IsTrusted h =
        let same : check_transport parse_loopback production false c.neo4j_uri
            ≡ check_transport parse_loopback c.profile c.allow_insecure_transport c.neo4j_uri =
          rw (in_production, no_override) refl in
        (check_transport-is_secure parse_loopback c.neo4j_uri).0 (same ∙ h)

    cost_bounds-IsBounded : ensure_cost_bounds c.profile world.settings ≡ ok tt → IsBounded
    cost_bounds-IsBounded h =
        let same : ensure_cost_bounds production world.settings
            ≡ ensure_cost_bounds c.profile world.settings =
          rw in_production refl in
        ensure_cost_bounds-is_set world.settings (same ∙ h)

    pool-HasCapacity :
        check_http_pool_capacity c.http_limits c.neo4j_max_connections c.profile ≡ ok tt
        → HasCapacity
    unfolding check_http_pool_capacity
    pool-HasCapacity h = ground (arith, in_production)

    connect-All : All Permitted (connect parse_loopback world c).1
    unfolding connect
    connect-All =
        let pool =
          ask (open_pool c.neo4j_uri (c.limits.max_result_rows + 1) c.neo4j_max_connections)
            (connected_in_time world.connected) in
        let driver = check (or_internal world.driver_config) in
        let gate =
          check_transport parse_loopback c.profile c.allow_insecure_transport c.neo4j_uri in
        then_run-All Permitted (check gate) (then_run driver pool) tt λ transport.
          then_run-All Permitted driver pool tt
            λ _. ((refl, refl, transport-IsTrusted transport), tt)

    connect-IsTrusted : (connect parse_loopback world c).0 ≡ ok tt → IsTrusted
    unfolding connect
    connect-IsTrusted h = transport-IsTrusted (then_run-ok Address (check _) _ h).0

    open_scout-All : All Permitted (open_scout parse_loopback world c).1
    unfolding open_scout
    open_scout-All =
        then_run-All Permitted (connect parse_loopback world c) _ connect-All
          λ done. (connect-IsTrusted done, tt)

    open_scout-Passed : (open_scout parse_loopback world c).0 ≡ ok tt → IsTrusted × IsBounded
    unfolding open_scout
    open_scout-Passed h =
        let (done, bounded) = then_run-ok Address (connect parse_loopback world c) _ h in
        (connect-IsTrusted done, cost_bounds-IsBounded bounded)

    serve_http-All : All Permitted (serve_http parse_loopback world c).1
    unfolding serve_http
    serve_http-All =
        let capacity = check_http_pool_capacity c.http_limits c.neo4j_max_connections c.profile in
        let scout = open_scout parse_loopback world c in
        let public = ask (bind c.http_bind) (or_internal (world.bound c.http_bind)) in
        let metrics = ask (bind c.metrics_bind) (or_internal (world.bound c.metrics_bind)) in
        let serving = ask serve_requests (or_internal world.served) in
        let sockets = then_run public (then_run metrics serving) in
        then_run-All Permitted (check capacity) (then_run scout sockets) tt λ enough.
          then_run-All Permitted scout sockets open_scout-All λ opened.
            let passed = open_scout-Passed opened in
            let gates : IsTrusted × IsBounded × HasCapacity =
              (passed.0, passed.1, pool-HasCapacity enough) in
            then_run-All Permitted public (then_run metrics serving) (gates, tt)
              λ _. then_run-All Permitted metrics serving (gates, tt) λ _. (gates, tt)

    serve_stdio-All : All Permitted (serve_stdio parse_loopback world c).1
    unfolding serve_stdio
    serve_stdio-All =
        then_run-All Permitted (open_scout parse_loopback world c) _ open_scout-All
          λ opened. (open_scout-Passed opened, tt)

    serve-All :
        (http_feature mcp_feature : Bool) (t : Transport)
        → All Permitted (serve parse_loopback world http_feature mcp_feature c t).1
    unfolding serve serve_http_dispatch serve_stdio_dispatch
    serve-All true mcp_feature http = serve_http-All
    serve-All false mcp_feature http = tt
    serve-All http_feature true stdio = serve_stdio-All
    serve-All http_feature false stdio = tt
    serve-All http_feature mcp_feature sse = tt

maybe_neo4j_uri-profile :
    {Address : Type 0} (uri : Option Bytes) (c : Config Address)
    → (maybe_neo4j_uri uri c).profile ≡ c.profile
unfolding maybe_neo4j_uri
maybe_neo4j_uri-profile none c = refl
maybe_neo4j_uri-profile (some uri) c = refl

maybe_neo4j_uri-override :
    {Address : Type 0} (uri : Option Bytes) (c : Config Address)
    → (maybe_neo4j_uri uri c).allow_insecure_transport ≡ c.allow_insecure_transport
unfolding maybe_neo4j_uri
maybe_neo4j_uri-override none c = refl
maybe_neo4j_uri-override (some uri) c = refl

-- The configuration that the binary starts with has the production profile and no override. Then it
-- asks for a pool of as many connections as configured only to a URI that is secure, and for the
-- settings only behind that; it binds a socket and serves, HTTP or MCP, only if the database has also
-- shown that it bounds the cost of a query, and HTTP only if there is a connection for every request
-- that it admits.
pub run-Permitted :
    (Address : Type 0) (parse_loopback : Bytes → Option Bool) (world : World Address)
    (http_feature mcp_feature : Bool) (env : Environment) (parse_address : Bytes → Option Address)
    (defaults found : Config Address) (cli : Cli)
    → apply_env env parse_address defaults ≡ ok found
    → found.profile ≡ production
    → found.allow_insecure_transport ≡ false
    → All
        (Permitted parse_loopback world (maybe_neo4j_uri cli.neo4j_uri found))
        (run parse_loopback world http_feature mcp_feature env parse_address defaults cli).1
unfolding run
run-Permitted Address parse_loopback world http_feature mcp_feature env parse_address defaults found
      cli e p o =
    rw e (
      serve-All parse_loopback world (maybe_neo4j_uri cli.neo4j_uri found)
        (maybe_neo4j_uri-profile cli.neo4j_uri found ∙ p)
        (maybe_neo4j_uri-override cli.neo4j_uri found ∙ o) http_feature mcp_feature cli.transport)
