-- ===== src/Guard/Sanitized.antt =====
-- crates/cypher-guard/src/sanitized.rs: what the sanitizer hands on.
use nexus_scout.Base.{ℕ, List, Bytes}

pub data ResultLimit : Type 0 where
  none dynamic : ResultLimit
  fixed : ℕ → ResultLimit

pub record SanitizedQuery : Type 0 where
  pub cypher : Bytes
  pub result_limit : ResultLimit
  pub notes : List Bytes
