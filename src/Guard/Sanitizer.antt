-- ===== src/Guard/Sanitizer.antt =====
-- crates/cypher-guard/src/lib.rs, `Sanitizer`: the whole pipeline. NFC normalization is the crate
-- unicode_normalization's, a function on texts that is a parameter here.
pub mod Sound
pub mod Spans
use nexus_scout.Base.{ℕ, ◌*◌, List, none, ltb, min, if◌then◌else◌, length, utf8}
use nexus_scout.Guard.Lexer.{lex}
use nexus_scout.Guard.Limit.{extract_result_limit}
use nexus_scout.Guard.Reason.{RejectReason, Result, ok, reject, ◌>>=◌, ◌>>◌}
use nexus_scout.Guard.Rules.{classify}
use nexus_scout.Guard.Sanitized.{SanitizedQuery}
use nexus_scout.Guard.Transforms.{bound_paths}
use nexus_scout.Guard.Unicode.{validate}

pub record Limits : Type 0 where
  pub max_query_length : ℕ
  pub max_path_depth : ℕ

-- `Limits::default()`.
abbrev pub default_limits : Limits
default_limits = record { max_query_length = 2000; max_path_depth = 5 }

-- `usize::MAX`, of 64 bits.
abbrev pub usize_max : ℕ
usize_max = 18446744073709551615

-- `if … { return Err(TooLong) }`.
unfoldable pub check_length : ℕ → ℕ → Result (Unit {0})
check_length actual most = if ltb most actual then reject RejectReason.too_long none else ok tt

module _ (nfc : List ℕ → List ℕ) where
  unfoldable pub normalize_and_validate : List ℕ → Result (List ℕ)
  normalize_and_validate input = validate (nfc input) >> ok (nfc input)

  unfoldable pub sanitize : Limits → List ℕ → Result SanitizedQuery
  unfolding check_length normalize_and_validate
  sanitize limits cypher = do
    check_length (length (utf8 cypher)) (min (limits.max_query_length * 4) usize_max)
    normalized ← normalize_and_validate cypher
    check_length (length normalized) limits.max_query_length
    tokens ← lex (utf8 normalized)
    classify tokens (utf8 normalized)
    let bounded = bound_paths (utf8 normalized) tokens limits.max_path_depth
    ok (record {
      cypher = bounded.0;
      result_limit = extract_result_limit tokens (utf8 normalized);
      notes = bounded.1;
    })
