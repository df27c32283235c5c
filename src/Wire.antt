-- ===== src/Wire.antt =====
-- crates/nexus-scout-types/src/lib.rs: the wire contract that the server and the client share.
pub mod Codes
use nexus_scout.Base.{
  ℕ, Bool, true, false, ◌||◌, List, [], Option, none, some, if◌then◌else◌, length, Bytes, codes,
  bytes_eq,
}

pub data ErrorCode : Type 0 where
  query_rejected query_timeout query_syntax_error rate_limited internal_error : ErrorCode

unfoldable pub as_str : ErrorCode → Bytes
as_str ErrorCode.query_rejected = codes "QUERY_REJECTED"
as_str ErrorCode.query_timeout = codes "QUERY_TIMEOUT"
as_str ErrorCode.query_syntax_error = codes "QUERY_SYNTAX_ERROR"
as_str ErrorCode.rate_limited = codes "RATE_LIMITED"
as_str ErrorCode.internal_error = codes "INTERNAL_ERROR"

unfoldable pub from_wire : Bytes → Option ErrorCode
from_wire s =
    if bytes_eq s (codes "QUERY_REJECTED")
    then some ErrorCode.query_rejected
    else if bytes_eq s (codes "QUERY_TIMEOUT")
    then some ErrorCode.query_timeout
    else if bytes_eq s (codes "QUERY_SYNTAX_ERROR")
    then some ErrorCode.query_syntax_error
    else if bytes_eq s (codes "RATE_LIMITED")
    then some ErrorCode.rate_limited
    else if bytes_eq s (codes "INTERNAL_ERROR")
    then some ErrorCode.internal_error
    else none

unfoldable pub http_status : ErrorCode → ℕ
http_status ErrorCode.query_rejected = 400
http_status ErrorCode.query_syntax_error = 400
http_status ErrorCode.query_timeout = 504
http_status ErrorCode.rate_limited = 429
http_status ErrorCode.internal_error = 500

unfoldable pub exit_code : ErrorCode → ℕ
exit_code ErrorCode.query_rejected = 2
exit_code ErrorCode.query_syntax_error = 2
exit_code ErrorCode.query_timeout = 3
exit_code ErrorCode.rate_limited = 1
exit_code ErrorCode.internal_error = 1

pub record QueryResponse (Row : Type 0) : Type 0 where
  pub results : List Row
  pub count : ℕ
  pub truncated : Bool
  pub notes : List Bytes

-- `QueryResponse::new`.
unfoldable pub new_response : {Row : Type 0} → List Row → Bool → QueryResponse Row
new_response rows truncated = record {
  results = rows;
  count = length rows;
  truncated = truncated;
  notes = [];
}

-- The body of `POST /v1/query`, with the parameters of a type of their own.
pub record QueryRequest (Params : Type 0) : Type 0 where
  pub cypher : Bytes
  pub params : Params
  pub limit : Option ℕ

-- `QueryRequest::new`.
abbrev pub new_request : {Params : Type 0} → Bytes → Params → Option ℕ → QueryRequest Params
new_request cypher params limit = record { cypher = cypher; params = params; limit = limit }

pub record ErrorResponse : Type 0 where
  pub error : ErrorCode
  pub message : Bytes
  pub hint : Bytes

-- `ErrorResponse::new`.
abbrev pub new_error_response : ErrorCode → Bytes → Bytes → ErrorResponse
new_error_response error message hint = record { error = error; message = message; hint = hint }
