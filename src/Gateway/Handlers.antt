-- ===== src/Gateway/Handlers.antt =====
-- crates/nexus-scout/src/http.rs and server.rs: the handlers of the routes and of the MCP tool. What
-- the database does is a `Session`; the parser of JSON, `serde_json::to_value` and the texts of their
-- errors are parameters, and so is the text of the error of `parse::<u32>`.
pub mod QueryString
pub mod Answers
mod Tests
use nexus_scout.Base.{
  ℕ, ◌+◌, ◌%◌, ◌^◌, Bool, true, false, ◌&&◌, List, [], ◌∷◌, ◌++◌, Option, none, some, Bytes, codes,
  decimal, leb, ltb, if◌then◌else◌, u32_max,
}
use nexus_scout.Gateway.Admission.{Shared}
use nexus_scout.Gateway.Config.{parse_unsigned}
use nexus_scout.Gateway.Convert.{Numbers}
use nexus_scout.Gateway.Errors.Replies.{to_response, display}
use nexus_scout.Gateway.Errors.{Error, new_error, bad_request, code, DriverError}
use nexus_scout.Gateway.Execution.{Session, run_scout, Timed}
use nexus_scout.Gateway.Json.{Members, end_members}
use nexus_scout.Gateway.Limits.{Limits}
use nexus_scout.Gateway.Shaper.{Outcome, ok, err, Next}
use nexus_scout.Gateway.Startup.{
  Setting, verify_server_bounds, cost_bounds_outcome, BoundsOutcome, all_set, some_unset,
  unverifiable,
}
use nexus_scout.Wire.{
  ErrorCode, QueryRequest, QueryResponse, ErrorResponse, new_error_response, http_status,
}

-- The body of a response: JSON of one or the other, or none.
pub data Body (Row : Type 0) : Type 0 where
  success : QueryResponse Row → Body Row
  failure : ErrorResponse → Body Row
  empty : Body Row

-- A response, and whether it has the header `Cache-Control: no-store`.
pub record HttpResponse (Row : Type 0) : Type 0 where
  pub status : ℕ
  pub no_store : Bool
  pub body : Body Row

-- `StatusCode::from_u16(…).unwrap_or(…)`.
unfoldable pub status_code : ℕ → ℕ
status_code n = if leb 100 n && ltb n 1000 then n else 500

-- `ApiError::into_response`.
unfoldable pub into_response : {Row : Type 0} → Error → HttpResponse Row
unfolding status_code
into_response e = record {
  status = status_code (http_status (code e));
  no_store = false;
  body = failure (to_response e);
}

-- `JsonRejection`, with the text of the body that axum has for it.
pub data JsonRejection : Type 0 where
  missing_json_content_type : JsonRejection
  rejection : Bytes → JsonRejection

unfoldable pub json_rejection_message : JsonRejection → Bytes
json_rejection_message missing_json_content_type = codes "request body must be application/json"
json_rejection_message (rejection body_text) = body_text

-- `ValidatedJson::from_request`, on what axum's extractor returns.
unfoldable pub from_request : {A : Type 0} → Outcome A JsonRejection → Outcome A Error
unfolding json_rejection_message
from_request (ok a) = ok a
from_request (err r) = err (new_error (bad_request (json_rejection_message r)))

-- `QueryStringRequest`.
pub record QueryStringRequest : Type 0 where
  pub cypher : Option Bytes
  pub params : Option Bytes
  pub limit : Option Bytes

abbrev pub refuses : {A : Type 0} → Bytes → Outcome A Error
refuses message = err (new_error (bad_request message))

-- `map_err` with a message in front of the parser's.
abbrev pub or_refuse : {A : Type 0} → Bytes → Outcome A Bytes → Outcome A Error
or_refuse message (err e) = refuses (message ++ e)
or_refuse message (ok a) = ok a

-- The result of `parse::<u32>`, with the text of its error.
abbrev pub parsed : Bytes → Option ℕ → Outcome (Option ℕ) Bytes
parsed problem none = err problem
parsed problem (some n) = ok (some n)

module _ {Number : Type 0} (from_json : Bytes → Outcome (Members Number) Bytes)
    (int_error : Bytes → Bytes) where
  unfoldable pub params_of : Option Bytes → Outcome (Members Number) Error
  params_of none = ok end_members
  params_of (some []) = ok end_members
  params_of (some (c ∷ s)) =
      or_refuse (codes "`params` must be a JSON object: ") (from_json (c ∷ s))

  unfoldable pub limit_of : Option Bytes → Outcome (Option ℕ) Error
  unfolding parse_unsigned
  limit_of none = ok none
  limit_of (some []) = ok none
  limit_of (some (c ∷ s)) =
      or_refuse (codes "`limit` must be a whole number: ")
        (parsed (int_error (c ∷ s)) (parse_unsigned u32_max (c ∷ s)))

  abbrev pub both :
      Bytes
      → Outcome (Members Number) Error
      → Outcome (Option ℕ) Error
      → Outcome (QueryRequest (Members Number)) Error
  both cypher (err e) limit = err e
  both cypher (ok params) (err e) = err e
  both cypher (ok params) (ok limit) =
      ok (record { cypher = cypher; params = params; limit = limit })

  -- The first half of `query_get_handler`, up to the query.
  unfoldable pub query_of : QueryStringRequest → Outcome (QueryRequest (Members Number)) Error
  unfolding params_of limit_of
  query_of req = elim req.cypher [
    | none ↦ refuses (
        codes
          "missing the `cypher` query parameter, e.g. /v1/query?cypher=MATCH%20(u:User)%20RETURN%20u.name%20LIMIT%205")
    | some cypher ↦ both cypher (params_of req.params) (limit_of req.limit)
  ]

-- The rendering of `Result<Json<QueryResponse>, ApiError>`, and of the same with the header.
unfoldable pub render : {Row : Type 0} → Bool → Outcome (QueryResponse Row) Error → HttpResponse Row
unfolding into_response
render no_store (ok r) = record { status = 200; no_store = no_store; body = success r }
render no_store (err e) = into_response e

-- `CallToolResult`, structured, or an error of the protocol.
pub data ToolOutcome (V : Type 0) : Type 0 where
  structured structured_error : V → ToolOutcome V
  protocol_error : Bytes → ToolOutcome V

module _ {Number Integer Float Row : Type 0} (numbers : Numbers Number Integer Float)
    (row_len : Row → ℕ) (params_len : Members Number → ℕ) (normalize : List ℕ → List ℕ)
    (limits : Limits) (ms : ℕ) (session : Session Row) where
  -- `Scout::query`, without the log.
  unfoldable pub query : QueryRequest (Members Number) → Outcome (QueryResponse Row) Error
  unfolding run_scout
  query req =
      (run_scout numbers row_len params_len normalize limits ms session req.cypher req.params
        req.limit).0

  -- A request that has been read, or the reason that it has not.
  abbrev pub run_request :
      Outcome (QueryRequest (Members Number)) Error → Outcome (QueryResponse Row) Error
  run_request (err e) = err e
  run_request (ok req) = query req

  -- `query_handler`, behind its extractor.
  unfoldable pub query_handler :
      Outcome (QueryRequest (Members Number)) JsonRejection → HttpResponse Row
  unfolding query render from_request
  query_handler extracted = render false (run_request (from_request extracted))

  unfoldable pub query_get_handler :
      (Bytes → Outcome (Members Number) Bytes)
      → (Bytes → Bytes)
      → QueryStringRequest
      → HttpResponse Row
  unfolding query render query_of
  query_get_handler from_json int_error req =
      render true (run_request (query_of from_json int_error req))

  module _ {V : Type 0} (response_value : QueryResponse Row → Outcome V Bytes)
      (error_value : ErrorResponse → Outcome V Bytes) (string_value : Bytes → V) where
    abbrev pub structured_or : Outcome V Bytes → ToolOutcome V
    structured_or (ok v) = structured v
    structured_or (err e) = protocol_error e

    abbrev pub error_or_text : Error → Outcome V Bytes → ToolOutcome V
    error_or_text e (ok v) = structured_error v
    error_or_text e (err x) = structured_error (string_value (display e))

    abbrev pub tool_outcome : Outcome (QueryResponse Row) Error → ToolOutcome V
    tool_outcome (ok r) = structured_or (response_value r)
    tool_outcome (err e) = error_or_text e (error_value (to_response e))

    -- `query_cypher` of the MCP server.
    unfoldable pub query_cypher : QueryRequest (Members Number) → ToolOutcome V
    unfolding query
    query_cypher req = tool_outcome (query req)
