-- ===== src/Guard/Reason.antt =====
-- crates/cypher-guard/src/error.rs: why a query is rejected, and where.
pub mod Texts
use nexus_scout.Base.{ℕ, Option}

pub data RejectReason : Type 0 where
  mutation admin_clause call_clause namespaced_call quantified_path semicolon : RejectReason
  comment_injection non_read_entry non_ascii_keyword unterminated too_long empty : RejectReason

-- `Range<usize>`: a half-open span of byte offsets.
pub record Range : Type 0 where
  pub start : ℕ
  pub end : ℕ

pub record SanitizeError : Type 0 where
  pub reason : RejectReason
  pub span : Option Range

-- `Result<A, SanitizeError>`.
pub data Result {ℓ} (A : Type ℓ) : Type ℓ where
  ok : A → Result A
  err : SanitizeError → Result A

-- `Err(SanitizeError::new(reason, span))`.
abbrev pub reject {ℓ} : {A : Type ℓ} → RejectReason → Option Range → Result A
reject r s = err (record { reason = r; span = s })

-- The `?` operator, with the value that it yields and without it.
module _ {ℓ κ} {A : Type ℓ} {B : Type κ} where
  infixl 4 ◌>>=◌ ◌>>◌
  abbrev pub ◌>>=◌ : Result A → (A → Result B) → Result B
  err e >>= rest = err e
  ok value >>= rest = rest value

  abbrev pub ◌>>◌ : Result A → Result B → Result B
  err e >> rest = err e
  ok value >> rest = rest
