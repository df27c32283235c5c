-- ===== src/Gateway/Handlers/Answers.antt =====
-- What the handlers of a query answer, compared with one another and with the client.
use nexus_scout.Base.{
  ◌≢◌, ℕ, ◌==◌, ◌≡◌, refl, sym, ◌∙◌, ap, Bool, true, false, not, List, [], Option, none, some,
  Bytes, ◌≢◌,
}
use nexus_scout.Client.Exit.{error_body, exit_for-error_body}
use nexus_scout.Client.{exit_for}
use nexus_scout.Gateway.Convert.{Numbers}
use nexus_scout.Gateway.Errors.{Error, code}
use nexus_scout.Gateway.Errors.Replies.{to_response, display, hint}
use nexus_scout.Gateway.Execution.{Session}
use nexus_scout.Gateway.Handlers.{
  Body, success, failure, empty, HttpResponse, JsonRejection, render, into_response, status_code,
  run_request, from_request, query, query_handler, query_get_handler, query_cypher, ToolOutcome,
  structured, structured_error, protocol_error, tool_outcome, error_or_text,
}
use nexus_scout.Gateway.Json.{Members, Value, null}
use nexus_scout.Gateway.Limits.{Limits}
use nexus_scout.Gateway.Shaper.{Outcome, ok, err}
use nexus_scout.Wire.{ErrorCode, ErrorResponse, QueryRequest, QueryResponse, http_status, exit_code}
use nexus_scout.Gateway.Handlers.QueryString.{is_u32, query_string, query_of-query_string}

-- The same response, but for the header.
abbrev pub SameAnswer : {Row : Type 0} → HttpResponse Row → HttpResponse Row → Type 0
SameAnswer a b = (a.status ≡ b.status) × (a.body ≡ b.body)

render-SameAnswer :
    (Row : Type 0) (o : Outcome (QueryResponse Row) Error)
    → SameAnswer (render {Row = Row} true o) (render false o)
unfolding render
render-SameAnswer Row (ok r) = (refl, refl)
render-SameAnswer Row (err e) = (refl, refl)

-- What the client is to exit with: 0, or the contract's code for the error.
abbrev pub exit_of : {Row : Type 0} → Outcome (QueryResponse Row) Error → ℕ
exit_of (ok r) = 0
exit_of (err e) = exit_code (code e)

-- Whether a tool's outcome is flagged as an error, if it is one that the tool reports.
abbrev pub flagged : {V : Type 0} → ToolOutcome V → Option Bool
flagged (structured v) = some false
flagged (structured_error v) = some true
flagged (protocol_error e) = none

-- The JSON value of a body, on the JSON value of a response.
abbrev pub body_value :
    {Number Row : Type 0} → (QueryResponse Row → Value Number) → Body Row → Value Number
body_value response_json (success r) = response_json r
body_value response_json (failure e) = error_body e.error e.message e.hint
body_value response_json empty = null

status_code-http_status : (c : ErrorCode) → status_code (http_status c) ≡ http_status c
unfolding status_code http_status
status_code-http_status ErrorCode.query_rejected = refl
status_code-http_status _ = refl

exit_for-render :
    (Number Row : Type 0) (response_json : QueryResponse Row → Value Number) (no_store : Bool)
    (o : Outcome (QueryResponse Row) Error)
    → exit_for (render no_store o).status (body_value response_json (render no_store o).body)
      ≡ exit_of o
unfolding render into_response to_response
exit_for-render Number Row response_json no_store (ok r) = unfold exit_for in refl
exit_for-render Number Row response_json no_store (err e) =
    rw (status_code-http_status (code e))
      ((exit_for-error_body Number (code e) (display e) (hint e)).0)

exit_code_pos : (c : ErrorCode) → (exit_code c == 0) ≡ false
unfolding exit_code
exit_code_pos ErrorCode.query_rejected = refl
exit_code_pos _ = refl

module _ {Number Integer Float Row : Type 0} (numbers : Numbers Number Integer Float)
    (row_len : Row → ℕ) (params_len : Members Number → ℕ) (normalize : List ℕ → List ℕ)
    (limits : Limits) (ms : ℕ) (session : Session Row) where
  -- A query that is sent in a query string is answered as the same query in a body is, but for the
  -- header on caching: the parameters are given by JSON text that reads as them, and the limit by the
  -- digits of a `u32` or not at all.
  pub query_get_handler-query_handler :
      (from_json : Bytes → Outcome (Members Number) Bytes) (int_error : Bytes → Bytes)
      (cypher raw : Bytes) (params : Members Number) (limit : Option ℕ)
      → raw ≢ []
      → from_json raw ≡ ok params
      → is_u32 limit ≡ true
      → SameAnswer
          (query_get_handler numbers row_len params_len normalize limits ms session from_json
            int_error
            (query_string from_json int_error cypher raw limit))
          (query_handler numbers row_len params_len normalize limits ms session
            (ok (record { cypher = cypher; params = params; limit = limit })))
  unfolding query_get_handler query_handler from_request
  query_get_handler-query_handler from_json int_error cypher raw params limit k h l =
      rw (query_of-query_string from_json int_error cypher raw params limit k h l)
        (render-SameAnswer Row _)

  -- A client that reads the answer to a request exits with 0 if the query has run, and otherwise with
  -- the contract's code for the error, be it the sanitizer's, the database's, or that the body could
  -- not be read.
  pub exit_for-query_handler :
      (response_json : QueryResponse Row → Value Number)
      (extracted : Outcome (QueryRequest (Members Number)) JsonRejection)
      → exit_for
          (query_handler numbers row_len params_len normalize limits ms session extracted).status
          (body_value response_json
            (query_handler numbers row_len params_len normalize limits ms session extracted).body)
        ≡ exit_of (
            run_request numbers row_len params_len normalize limits ms session
              (from_request extracted))
  unfolding query_handler
  exit_for-query_handler response_json extracted = exit_for-render Number Row response_json false _

  flagged-error_or_text :
      (V : Type 0) (response_value : QueryResponse Row → Outcome V Bytes)
      (error_value : ErrorResponse → Outcome V Bytes) (string_value : Bytes → V) (e : Error)
      (o : Outcome V Bytes)
      → flagged (
          error_or_text numbers row_len params_len normalize limits ms session response_value
            error_value string_value e o)
        ≡ some true
  flagged-error_or_text V response_value error_value string_value e (ok v) = refl
  flagged-error_or_text V response_value error_value string_value e (err x) = refl

  flagged-tool_outcome :
      (V : Type 0) (response_value : QueryResponse Row → Outcome V Bytes)
      (error_value : ErrorResponse → Outcome V Bytes) (string_value : Bytes → V)
      → ((r : QueryResponse Row) → (v : V) × (response_value r ≡ ok v))
      → (o : Outcome (QueryResponse Row) Error)
      → flagged (
          tool_outcome numbers row_len params_len normalize limits ms session response_value
            error_value string_value o)
        ≡ some (not (exit_of o == 0))
  flagged-tool_outcome V response_value error_value string_value total (ok r) =
      let (v, e) = total r in rw e refl
  flagged-tool_outcome V response_value error_value string_value total (err e) =
      flagged-error_or_text V response_value error_value string_value e
        (error_value (to_response e))
      ∙ ap (λ t. some (not t)) (sym (exit_code_pos (code e)))

  -- The MCP tool flags its result as an error exactly if the client that sends the same query over HTTP
  -- exits with another code than 0. That a response has a JSON value is assumed.
  pub query_cypher-query_handler :
      (V : Type 0) (response_value : QueryResponse Row → Outcome V Bytes)
      (error_value : ErrorResponse → Outcome V Bytes) (string_value : Bytes → V)
      (response_json : QueryResponse Row → Value Number) (req : QueryRequest (Members Number))
      → ((r : QueryResponse Row) → (v : V) × (response_value r ≡ ok v))
      → flagged (
          query_cypher numbers row_len params_len normalize limits ms session response_value
            error_value string_value req)
        ≡ some (
            not (
              exit_for
                (query_handler numbers row_len params_len normalize limits ms session
                  (ok req)).status
                (body_value response_json
                  (query_handler numbers row_len params_len normalize limits ms session
                    (ok req)).body)
              == 0))
  unfolding query_cypher from_request
  query_cypher-query_handler V response_value error_value string_value response_json req total =
      flagged-tool_outcome V response_value error_value string_value total
        (query numbers row_len params_len normalize limits ms session req)
      ∙ ap (λ n. some (not (n == 0))) (sym (exit_for-query_handler response_json (ok req)))
