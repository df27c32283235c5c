-- ===== src/Gateway/Errors.antt =====
-- crates/nexus-scout/src/error.rs: the gateway's error, its code on the wire, and what becomes of an
-- error of the database driver. An error's `source` is only logged and is left out.
pub mod Driver
pub mod Replies
pub mod Opaque
use nexus_scout.Gateway.Text.{starts_with, contains}
use nexus_scout.Base.{
  ℕ, Bool, true, false, ◌&&◌, ◌||◌, ◌==◌, List, [], ◌∷◌, Bytes, codes, if◌then◌else◌,
}
use nexus_scout.Guard.Reason.{SanitizeError}
use nexus_scout.Wire.{ErrorCode}

pub data Kind : Type 0 where
  rejected : SanitizeError → Kind
  rejected_params : Bytes → Kind
  bad_request : Bytes → Kind
  bad_config : Bytes → Kind
  timeout : ℕ → Kind
  rate_limited : Kind
  syntax : Bytes → Kind
  resource_exhausted : Kind
  internal : Kind

pub record Error : Type 0 where
  pub kind : Kind

-- `Error::new`.
abbrev pub new_error : Kind → Error
new_error k = record { kind = k }

unfoldable pub code_of : Kind → ErrorCode
code_of (rejected e) = ErrorCode.query_rejected
code_of (rejected_params reason) = ErrorCode.query_rejected
code_of (bad_request message) = ErrorCode.query_rejected
code_of (timeout ms) = ErrorCode.query_timeout
code_of rate_limited = ErrorCode.rate_limited
code_of (syntax detail) = ErrorCode.query_syntax_error
code_of (bad_config key) = ErrorCode.internal_error
code_of resource_exhausted = ErrorCode.internal_error
code_of internal = ErrorCode.internal_error

-- `Error::code`.
unfoldable pub code : Error → ErrorCode
unfolding code_of
code e = code_of e.kind

-- `neo4rs::Error`, as far as the gateway tells its variants apart.
pub data DriverError : Type 0 where
  -- the status code and the message
  neo4j : Bytes → Bytes → DriverError
  unexpected_message : Bytes → DriverError
  other : DriverError

-- `STATEMENT_ERROR_PREFIX`.
abbrev pub statement_error_prefix : Bytes
statement_error_prefix = codes "Neo.ClientError.Statement."

unfoldable pub is_query_statement_error : Bytes → Bool
is_query_statement_error status = starts_with statement_error_prefix status

unfoldable pub is_resource_exhaustion : Bytes → Bool
is_resource_exhaustion text =
    contains (codes "OutOfMemory") text || contains (codes "MemoryLimit") text

unfoldable pub statement_error_detail : DriverError → Bytes
statement_error_detail (neo4j status []) = codes "the query could not be executed"
statement_error_detail (neo4j status (b ∷ message)) = b ∷ message
statement_error_detail (unexpected_message m) = codes "the query could not be executed"
statement_error_detail other = codes "the query could not be executed"

-- The first `match` of `Error::from_neo4rs`.
unfoldable pub is_statement_error : DriverError → Bool
unfolding is_query_statement_error
is_statement_error (neo4j status message) = is_query_statement_error status
is_statement_error (unexpected_message m) = contains statement_error_prefix m
is_statement_error other = false

-- The second one.
unfoldable pub is_resource_limit : DriverError → Bool
is_resource_limit (neo4j status message) = is_resource_exhaustion status
is_resource_limit (unexpected_message m) = is_resource_exhaustion m
is_resource_limit other = false

-- `Error::from_neo4rs`.
unfoldable pub from_neo4rs : DriverError → Error
unfolding is_statement_error is_resource_limit
from_neo4rs e =
    if is_statement_error e
    then new_error (syntax (statement_error_detail e))
    else if is_resource_limit e
    then new_error resource_exhausted
    else new_error internal
