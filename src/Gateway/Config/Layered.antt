-- ===== src/Gateway/Config/Layered.antt =====
-- crates/nexus-scout/src/config.rs, `apply_env`: the environment as a layer over the values before.
use mathlib.Core.Option
use nexus_scout.Base.{
  subst, ℕ, ◌≡◌, refl, arith, Bool, true, false, Option, none, some, Bytes, codes, if◌then◌else◌,
  u32_max,
}
use nexus_scout.Gateway.Config.{
  Config, Environment, is_blank, or_bad_config, parse_value, parse_env, or_slot, parse_env_into,
  ◌>>=◌, limits_env, http_limits_env, apply_env, parse_unsigned, parse_profile, parse_bool,
}
use nexus_scout.Gateway.Errors.{Error}
use nexus_scout.Gateway.Limits.{Limits, HttpLimits}
use nexus_scout.Gateway.Shaper.{Outcome, ok, err}
use nexus_scout.Guard.Sanitizer.{usize_max}

-- What an outcome yields, if it is one.
data Yields {A : Type 0} (P : A → Type 0) : Outcome A Error → Type 0 where
  failed : {e : Error} → Yields P (err e)
  yields : {a : A} → P a → Yields P (ok a)

bind-Yields :
    {A B : Type 0} (P : B → Type 0) (o : Outcome A Error) (rest : A → Outcome B Error)
    → ((a : A) → o ≡ ok a → Yields P (rest a))
    → Yields P (o >>= rest)
bind-Yields P (ok a) rest f = f a refl
bind-Yields P (err e) rest f = failed

yielded : {A : Type 0} (P : A → Type 0) (o : Outcome A Error) (a : A) → Yields P o → o ≡ ok a → P a
yielded P o a failed e = absurd (ground arith)
yielded P o a (yields {a = b} h) e = subst P (ground arith) h

-- A value that is blank, or that has been parsed.
said_value :
    {A : Type 0} (key : Bytes) (blank : Bool) (before after : A) (o : Option A)
    → or_slot before (if blank then ok none else or_bad_config key o) ≡ ok after
    → if blank then after ≡ before else o ≡ some after
said_value key true before after o h = ground arith
said_value key false before after none h = absurd (ground arith)
said_value key false before after (some a) h = ground arith

module _ (env : Environment) where
  -- A setting after the environment: what the variable says, read by `parse`, or what it was before if
  -- the variable is absent or blank.
  abbrev pub Said : {A : Type 0} → (Bytes → Option A) → Option Bytes → A → A → Type 0
  Said parse none before after = after ≡ before
  Said parse (some v) before after = if is_blank v then after ≡ before else parse v ≡ some after

  abbrev pub Layered : {A : Type 0} → (Bytes → Option A) → Bytes → A → A → Type 0
  Layered parse key = Said parse (env key)

  said :
      {A : Type 0} (parse : Bytes → Option A) (key : Bytes) (before after : A)
      (found : Option Bytes)
      → or_slot before (parse_value parse key found) ≡ ok after
      → Said parse found before after
  said parse key before after none h = ground arith
  said parse key before after (some v) h = said_value key (is_blank v) before after (parse v) h

  layered :
      {A : Type 0} (parse : Bytes → Option A) (key : Bytes) (before after : A)
      → parse_env_into parse env key before ≡ ok after
      → Layered parse key before after
  unfolding parse_env_into parse_env
  layered parse key before after h = said parse key before after (env key) h

  abbrev SizeLayered : Bytes → ℕ → ℕ → Type 0
  SizeLayered = Layered (parse_unsigned usize_max)

  abbrev U32Layered : Bytes → ℕ → ℕ → Type 0
  U32Layered = Layered (parse_unsigned u32_max)

  pub record LimitsLayered (l m : Limits) : Type 0 where
    pub default_limit : U32Layered (codes "DEFAULT_LIMIT") l.default_limit m.default_limit
    pub max_result_rows : U32Layered (codes "MAX_RESULT_ROWS") l.max_result_rows m.max_result_rows
    pub max_result_bytes :
        SizeLayered (codes "MAX_RESULT_BYTES") l.max_result_bytes m.max_result_bytes
    pub max_param_count : SizeLayered (codes "MAX_PARAM_COUNT") l.max_param_count m.max_param_count
    pub max_param_bytes : SizeLayered (codes "MAX_PARAM_BYTES") l.max_param_bytes m.max_param_bytes
    pub max_param_depth : SizeLayered (codes "MAX_PARAM_DEPTH") l.max_param_depth m.max_param_depth
    pub max_query_length :
        SizeLayered (codes "MAX_QUERY_LENGTH") l.guard.max_query_length m.guard.max_query_length
    pub max_path_depth :
        U32Layered (codes "MAX_PATH_DEPTH") l.guard.max_path_depth m.guard.max_path_depth

  pub record HttpLimitsLayered (h k : HttpLimits) : Type 0 where
    pub max_body_bytes : SizeLayered (codes "HTTP_MAX_BODY_BYTES") h.max_body_bytes k.max_body_bytes
    pub max_concurrency :
        SizeLayered (codes "HTTP_MAX_CONCURRENCY") h.max_concurrency k.max_concurrency
    pub max_rps : U32Layered (codes "HTTP_MAX_RPS") h.max_rps k.max_rps
    pub request_timeout :
        SizeLayered (codes "HTTP_REQUEST_TIMEOUT_MS") h.request_timeout k.request_timeout

  limits_env-Yields : (l : Limits) → Yields (LimitsLayered l) (limits_env env l)
  unfolding limits_env
  limits_env-Yields l =
      let P = LimitsLayered l in
      bind-Yields P _ _ λ _ a. bind-Yields P _ _ λ _ b. bind-Yields P _ _ λ _ c.
        bind-Yields P _ _ λ _ d. bind-Yields P _ _ λ _ e. bind-Yields P _ _ λ _ f.
          bind-Yields P _ _ λ _ g. bind-Yields P _ _ λ _ h. yields (record {
            default_limit = layered _ _ _ _ a;
            max_result_rows = layered _ _ _ _ b;
            max_result_bytes = layered _ _ _ _ c;
            max_param_count = layered _ _ _ _ d;
            max_param_bytes = layered _ _ _ _ e;
            max_param_depth = layered _ _ _ _ f;
            max_query_length = layered _ _ _ _ g;
            max_path_depth = layered _ _ _ _ h;
          })

  http_limits_env-Yields : (h : HttpLimits) → Yields (HttpLimitsLayered h) (http_limits_env env h)
  unfolding http_limits_env
  http_limits_env-Yields h =
      let P = HttpLimitsLayered h in
      bind-Yields P _ _ λ _ a. bind-Yields P _ _ λ _ b. bind-Yields P _ _ λ _ c.
        bind-Yields P _ _ λ _ d. yields (record {
          max_body_bytes = layered _ _ _ _ a;
          max_concurrency = layered _ _ _ _ b;
          max_rps = layered _ _ _ _ c;
          request_timeout = layered _ _ _ _ d;
        })

  -- Every setting is what its variable says, or what it was.
  pub record IsLayered {Address : Type 0} (parse_address : Bytes → Option Address)
      (c k : Config Address) : Type 0 where
    pub neo4j_uri : k.neo4j_uri ≡ Option.get_or (env (codes "NEO4J_URI")) c.neo4j_uri
    pub neo4j_user : k.neo4j_user ≡ Option.get_or (env (codes "NEO4J_USER")) c.neo4j_user
    pub neo4j_password :
        k.neo4j_password ≡ Option.get_or (env (codes "NEO4J_PASSWORD")) c.neo4j_password
    pub max_connections :
        SizeLayered (codes "NEO4J_MAX_CONNECTIONS") c.neo4j_max_connections k.neo4j_max_connections
    pub limits : LimitsLayered c.limits k.limits
    pub query_timeout : SizeLayered (codes "QUERY_TIMEOUT_MS") c.query_timeout k.query_timeout
    pub http_limits : HttpLimitsLayered c.http_limits k.http_limits
    pub http_bind : Layered parse_address (codes "HTTP_ADDR") c.http_bind k.http_bind
    pub metrics_bind : Layered parse_address (codes "METRICS_ADDR") c.metrics_bind k.metrics_bind
    pub profile : Layered parse_profile (codes "NEXUS_SCOUT_PROFILE") c.profile k.profile
    pub allow_insecure_transport :
        Layered parse_bool
          (codes "NEO4J_ALLOW_INSECURE_TRANSPORT")
          c.allow_insecure_transport
          k.allow_insecure_transport

  apply_env-Yields :
      {Address : Type 0} (parse_address : Bytes → Option Address) (c : Config Address)
      → Yields (IsLayered parse_address c) (apply_env env parse_address c)
  unfolding apply_env
  apply_env-Yields parse_address c =
      let P = IsLayered parse_address c in
      bind-Yields P _ _ λ _ e₁. bind-Yields P _ _ λ limits e₂. bind-Yields P _ _ λ _ e₃.
        bind-Yields P _ _ λ http e₄. bind-Yields P _ _ λ _ e₅. bind-Yields P _ _ λ _ e₆.
          bind-Yields P _ _ λ _ e₇. bind-Yields P _ _ λ _ e₈. yields (record {
            neo4j_uri = refl;
            neo4j_user = refl;
            neo4j_password = refl;
            max_connections = layered _ _ _ _ e₁;
            limits = yielded _ _ limits (limits_env-Yields c.limits) e₂;
            query_timeout = layered _ _ _ _ e₃;
            http_limits = yielded _ _ http (http_limits_env-Yields c.http_limits) e₄;
            http_bind = layered _ _ _ _ e₅;
            metrics_bind = layered _ _ _ _ e₆;
            profile = layered _ _ _ _ e₇;
            allow_insecure_transport = layered _ _ _ _ e₈;
          })

  -- If the environment is accepted, every setting is what its own variable says, as its parser reads
  -- it, or what it was before where the variable is absent or blank; the three texts take the variable
  -- as it is, blank or not.
  pub apply_env-IsLayered :
      {Address : Type 0} (parse_address : Bytes → Option Address) (c k : Config Address)
      → apply_env env parse_address c ≡ ok k
      → IsLayered parse_address c k
  apply_env-IsLayered parse_address c k h = yielded _ _ k (apply_env-Yields parse_address c) h
