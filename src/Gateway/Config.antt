-- ===== src/Gateway/Config.antt =====
-- crates/nexus-scout/src/config.rs: the configuration, and how the environment is layered over it. The
-- parser of socket addresses is a parameter; durations are in milliseconds.
pub mod Named
pub mod Layered
use mathlib.Core.Option
use nexus_scout.Base.{
  ℕ, Bool, true, false, ◌&&◌, ◌||◌, List, [], ◌∷◌, Option, none, some, Bytes, codes, bytes_eq, all,
  leb, if◌then◌else◌, is_ascii_digit, digits_value, u32_max,
}
use nexus_scout.Gateway.Errors.{Error, new_error, bad_config}
use nexus_scout.Gateway.Limits.{
  Limits, HttpLimits, Profile, development, production, standard_limits, standard_http_limits,
}
use nexus_scout.Gateway.Shaper.{Outcome, ok, err}
use nexus_scout.Gateway.Text.{trim, to_ascii_lowercase}
use nexus_scout.Guard.Sanitizer.{usize_max}
use nexus_scout.Guard.Sanitizer

pub record Config (Address : Type 0) : Type 0 where
  pub neo4j_uri : Bytes
  pub neo4j_user : Bytes
  pub neo4j_password : Bytes
  pub neo4j_max_connections : ℕ
  pub query_timeout : ℕ
  pub limits : Limits
  pub http_bind : Address
  pub metrics_bind : Address
  pub http_limits : HttpLimits
  pub profile : Profile
  pub allow_insecure_transport : Bool

-- `ConfigBuilder::default()`, with the two addresses of the loopback host.
abbrev pub standard_config : {Address : Type 0} → Address → Address → Config Address
standard_config gateway metrics = record {
  neo4j_uri = codes "bolt://localhost:7687";
  neo4j_user = codes "neo4j";
  neo4j_password = [];
  neo4j_max_connections = standard_http_limits.max_concurrency;
  query_timeout = 10000;
  limits = standard_limits;
  http_bind = gateway;
  metrics_bind = metrics;
  http_limits = standard_http_limits;
  profile = development;
  allow_insecure_transport = false;
}

-- `str::parse` for an unsigned integer up to `most`.
unfoldable pub parse_digits : ℕ → Bytes → Option ℕ
unfolding digits_value
parse_digits most [] = none
parse_digits most (c ∷ s) =
    if all is_ascii_digit (c ∷ s) && leb (digits_value 0 (c ∷ s)) most
    then some (digits_value 0 (c ∷ s))
    else none

unfoldable pub parse_unsigned : ℕ → Bytes → Option ℕ
unfolding parse_digits
parse_unsigned most [] = none
parse_unsigned most (c ∷ s) =
    if bytes_eq (c ∷ []) (codes "+") then parse_digits most s else parse_digits most (c ∷ s)

-- `Profile::from_str`.
unfoldable pub parse_profile : Bytes → Option Profile
unfolding trim to_ascii_lowercase
parse_profile s =
    let name = to_ascii_lowercase (trim s) in
    if bytes_eq name (codes "development") || bytes_eq name (codes "dev")
    then some development
    else if bytes_eq name (codes "production") || bytes_eq name (codes "prod")
    then some production
    else none

-- `bool::from_str`.
unfoldable pub parse_bool : Bytes → Option Bool
parse_bool s =
    if bytes_eq s (codes "true")
    then some true
    else if bytes_eq s (codes "false")
    then some false
    else none

-- The environment: what `std::env::var` finds.
abbrev pub Environment : Type 0
Environment = Bytes → Option Bytes

abbrev pub is_blank : Bytes → Bool
is_blank v = bytes_eq (trim v) []

abbrev pub or_bad_config : {A : Type 0} → Bytes → Option A → Outcome (Option A) Error
or_bad_config key none = err (new_error (bad_config key))
or_bad_config key (some a) = ok (some a)

abbrev pub parse_value :
    {A : Type 0} → (Bytes → Option A) → Bytes → Option Bytes → Outcome (Option A) Error
parse_value parse key none = ok none
parse_value parse key (some v) = if is_blank v then ok none else or_bad_config key (parse v)

unfoldable pub parse_env :
    {A : Type 0} → (Bytes → Option A) → Environment → Bytes → Outcome (Option A) Error
unfolding trim
parse_env parse env key = parse_value parse key (env key)

abbrev pub or_slot : {A : Type 0} → A → Outcome (Option A) Error → Outcome A Error
or_slot slot (err e) = err e
or_slot slot (ok none) = ok slot
or_slot slot (ok (some a)) = ok a

-- `parse_env_into`, with the slot's value before and after.
unfoldable pub parse_env_into :
    {A : Type 0} → (Bytes → Option A) → Environment → Bytes → A → Outcome A Error
unfolding parse_env
parse_env_into parse env key slot = or_slot slot (parse_env parse env key)

-- The `?` operator.
infixl 4 ◌>>=◌
abbrev pub ◌>>=◌ :
    {A : Type 0} {B : Type 0} → Outcome A Error → (A → Outcome B Error) → Outcome B Error
err e >>= rest = err e
ok a >>= rest = rest a

module _ (env : Environment) where
  abbrev pub size_var : Bytes → ℕ → Outcome ℕ Error
  size_var = parse_env_into (parse_unsigned usize_max) env

  abbrev pub u32_var : Bytes → ℕ → Outcome ℕ Error
  u32_var = parse_env_into (parse_unsigned u32_max) env

  -- The variables of the limits on one request.
  unfoldable pub limits_env : Limits → Outcome Limits Error
  unfolding parse_env_into parse_unsigned
  limits_env l = do
    default_limit ← u32_var (codes "DEFAULT_LIMIT") l.default_limit
    max_result_rows ← u32_var (codes "MAX_RESULT_ROWS") l.max_result_rows
    max_result_bytes ← size_var (codes "MAX_RESULT_BYTES") l.max_result_bytes
    max_param_count ← size_var (codes "MAX_PARAM_COUNT") l.max_param_count
    max_param_bytes ← size_var (codes "MAX_PARAM_BYTES") l.max_param_bytes
    max_param_depth ← size_var (codes "MAX_PARAM_DEPTH") l.max_param_depth
    max_query_length ← size_var (codes "MAX_QUERY_LENGTH") l.guard.max_query_length
    max_path_depth ← u32_var (codes "MAX_PATH_DEPTH") l.guard.max_path_depth
    ok (record {
      default_limit = default_limit;
      max_result_rows = max_result_rows;
      max_result_bytes = max_result_bytes;
      max_param_count = max_param_count;
      max_param_bytes = max_param_bytes;
      max_param_depth = max_param_depth;
      guard = record { max_query_length = max_query_length; max_path_depth = max_path_depth };
    })

  -- The variables of the limits on the HTTP transport.
  unfoldable pub http_limits_env : HttpLimits → Outcome HttpLimits Error
  unfolding parse_env_into parse_unsigned
  http_limits_env h = do
    max_body_bytes ← size_var (codes "HTTP_MAX_BODY_BYTES") h.max_body_bytes
    max_concurrency ← size_var (codes "HTTP_MAX_CONCURRENCY") h.max_concurrency
    max_rps ← u32_var (codes "HTTP_MAX_RPS") h.max_rps
    request_timeout ← size_var (codes "HTTP_REQUEST_TIMEOUT_MS") h.request_timeout
    ok (record {
      max_body_bytes = max_body_bytes;
      max_concurrency = max_concurrency;
      max_rps = max_rps;
      request_timeout = request_timeout;
    })

  -- `apply_env`; a `u64` has the bounds of a `usize`.
  unfoldable pub apply_env :
      {Address : Type 0}
      → (Bytes → Option Address)
      → Config Address
      → Outcome (Config Address) Error
  unfolding limits_env http_limits_env parse_env_into parse_unsigned parse_profile parse_bool
  apply_env parse_address c = do
    max_connections ← size_var (codes "NEO4J_MAX_CONNECTIONS") c.neo4j_max_connections
    limits ← limits_env c.limits
    query_timeout ← size_var (codes "QUERY_TIMEOUT_MS") c.query_timeout
    http_limits ← http_limits_env c.http_limits
    http_bind ← parse_env_into parse_address env (codes "HTTP_ADDR") c.http_bind
    metrics_bind ← parse_env_into parse_address env (codes "METRICS_ADDR") c.metrics_bind
    profile ← parse_env_into parse_profile env (codes "NEXUS_SCOUT_PROFILE") c.profile
    allowed ←
        parse_env_into parse_bool env (codes "NEO4J_ALLOW_INSECURE_TRANSPORT")
          c.allow_insecure_transport
    ok (record {
      neo4j_uri = Option.get_or (env (codes "NEO4J_URI")) c.neo4j_uri;
      neo4j_user = Option.get_or (env (codes "NEO4J_USER")) c.neo4j_user;
      neo4j_password = Option.get_or (env (codes "NEO4J_PASSWORD")) c.neo4j_password;
      neo4j_max_connections = max_connections;
      query_timeout = query_timeout;
      limits = limits;
      http_bind = http_bind;
      metrics_bind = metrics_bind;
      http_limits = http_limits;
      profile = profile;
      allow_insecure_transport = allowed;
    })
