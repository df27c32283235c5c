-- ===== src/Gateway/Errors/Replies.antt =====
-- crates/nexus-scout/src/error.rs: what an error says to the caller.
use nexus_scout.Base.{Bytes, codes, ◌++◌, decimal}
use nexus_scout.Gateway.Errors.{
  Kind, rejected, rejected_params, bad_request, bad_config, timeout, rate_limited, syntax,
  resource_exhausted, internal, Error, code,
}
use nexus_scout.Guard.Reason.Texts.{hint_of, display_error}
use nexus_scout.Wire.{ErrorResponse, new_error_response}

unfoldable pub hint_of_kind : Kind → Bytes
hint_of_kind (rejected e) = hint_of e
hint_of_kind (rejected_params reason) =
    codes "Reduce the number, size, or nesting depth of your query parameters."
hint_of_kind (bad_request message) =
    codes "Check the request format: parameters must be key=value or valid JSON."
hint_of_kind (timeout ms) =
    codes
      "Query exceeded the time budget. Add a LIMIT, narrow the MATCH pattern, or reduce path depth."
hint_of_kind rate_limited = codes "Too many requests; slow down and retry after a short delay."
hint_of_kind (syntax detail) =
    codes
      "The query could not be executed (invalid syntax, semantics, types, or arguments). Check it against the schema from get_schema; retrying it unchanged will not help."
hint_of_kind (bad_config key) =
    codes
      "An environment variable has an invalid value (see the message and .env.example); correct it and restart."
hint_of_kind resource_exhausted =
    codes
      "The query needs more memory than the database allows. Reduce its scope: add a LIMIT, narrow the MATCH, or avoid large collect()/cartesian products; retrying it unchanged will not help."
hint_of_kind internal =
    codes
      "An internal or transient error. Retry; if it persists, the query may be too expensive or malformed; revise it or report it."

-- `Error::hint`.
unfoldable pub hint : Error → Bytes
unfolding hint_of_kind
hint e = hint_of_kind e.kind

unfoldable pub display_kind : Kind → Bytes
display_kind (rejected e) = display_error e
display_kind (rejected_params reason) = codes "parameters rejected: " ++ reason
display_kind (bad_request message) = message
display_kind (bad_config key) = codes "invalid value for environment variable " ++ key
display_kind (timeout ms) = codes "query exceeded " ++ (decimal ms ++ codes "ms timeout")
display_kind rate_limited = codes "rate limit exceeded"
display_kind (syntax detail) = detail
display_kind resource_exhausted = codes "the query exceeded a database resource limit (e.g. memory)"
display_kind internal = codes "internal error"

-- `Display`.
unfoldable pub display : Error → Bytes
unfolding display_kind
display e = display_kind e.kind

-- `Error::to_response`.
unfoldable pub to_response : Error → ErrorResponse
to_response e = new_error_response (code e) (display e) (hint e)
