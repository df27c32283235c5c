-- ===== src/Gateway/Limits.antt =====
-- crates/nexus-scout/src/config.rs: the limits and the profile.
use nexus_scout.Base.{ℕ, ◌*◌}
use nexus_scout.Guard.Sanitizer.{default_limits}
use nexus_scout.Guard.Sanitizer

pub record Limits : Type 0 where
  pub default_limit : ℕ
  pub max_result_rows : ℕ
  pub max_result_bytes : ℕ
  pub max_param_count : ℕ
  pub max_param_bytes : ℕ
  pub max_param_depth : ℕ
  pub guard : Sanitizer.Limits

-- `Limits::default()`.
abbrev pub standard_limits : Limits
standard_limits = record {
  default_limit = 25;
  max_result_rows = 100;
  max_result_bytes = 1024 * 1024;
  max_param_count = 32;
  max_param_bytes = 8 * 1024;
  max_param_depth = 8;
  guard = default_limits;
}

pub record HttpLimits : Type 0 where
  pub max_body_bytes : ℕ
  pub max_concurrency : ℕ
  pub max_rps : ℕ
  -- in milliseconds
  pub request_timeout : ℕ

-- `HttpLimits::default()`.
abbrev pub standard_http_limits : HttpLimits
standard_http_limits = record {
  max_body_bytes = 64 * 1024;
  max_concurrency = 64;
  max_rps = 50;
  request_timeout = 30000;
}

pub data Profile : Type 0 where
  development production : Profile
