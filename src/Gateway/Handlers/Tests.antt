-- ===== src/Gateway/Handlers/Tests.antt =====
-- The handlers at concrete inputs.
use nexus_scout.Base.{
  ℕ, ◌≡◌, ◌↔◌, refl, arith, not, ◌==◌, codes, bytes_eq, Bytes, List, [], ◌∷◌, some, true,
  if◌then◌else◌,
}
use nexus_scout.Client.{exit_for}
use nexus_scout.Gateway.Convert.{Numbers}
use nexus_scout.Gateway.Errors.{
  is_resource_exhaustion, is_resource_limit, is_statement_error, is_query_statement_error,
  DriverError, unexpected_message, neo4j, from_neo4rs,
}
use nexus_scout.Gateway.Errors.Opaque.{to_response-from_neo4rs}
use nexus_scout.Gateway.Text.{starts_with, contains}
use nexus_scout.Gateway.Errors.Replies.{to_response}
use nexus_scout.Gateway.Execution.{Session, in_time}
use nexus_scout.Gateway.Handlers.Answers.{
  SameAnswer, exit_of, flagged, body_value, query_get_handler-query_handler, exit_for-query_handler,
  query_cypher-query_handler,
}
use nexus_scout.Gateway.Probes.Ready.{ready_handler-ensure_cost_bounds}
use nexus_scout.Gateway.Probes.{ready_handler}
use nexus_scout.Gateway.Handlers.{
  query_get_handler, query_handler, query_cypher, run_request, from_request,
  missing_json_content_type,
}
use nexus_scout.Gateway.Handlers.QueryString.{query_string}
use nexus_scout.Gateway.Json.{Members, member, end_members, number, Value}
use nexus_scout.Gateway.Limits.{standard_limits, production}
use nexus_scout.Gateway.Shaper.{Outcome, ok, err, row}
use nexus_scout.Gateway.Startup.{ensure_cost_bounds}
use nexus_scout.Wire.{QueryRequest, QueryResponse, ErrorResponse}

-- Natural numbers as the numbers of both sides.
abbrev naturals : Numbers ℕ ℕ ℕ
naturals = record {
  as_i64 = λ n. some n;
  is_u64 = λ n. true;
  as_f64 = λ n. some n;
  from_i64 = λ n. n;
  from_f64 = λ n. some n;
  base64 = λ b. b;
}

abbrev same_text : List ℕ → List ℕ
same_text s = s

-- A row is its own size.
abbrev size : ℕ → ℕ
size n = n

abbrev params_size : Members ℕ → ℕ
params_size ms = 10

abbrev params : Members ℕ
params = member (codes "n") (number 7) end_members

-- A parser that knows one text.
abbrev one_text : Bytes
one_text = codes "{'n':7}"

abbrev one_object : Bytes → Outcome (Members ℕ) Bytes
one_object s = if bytes_eq s one_text then ok params else err (codes "expected value")

abbrev no_number : Bytes → Bytes
no_number s = codes "invalid digit found in string"

abbrev session : Session ℕ
session = record {
  started = in_time (ok tt);
  executed = in_time (ok tt);
  rows = in_time (row 10 ∷ row 20 ∷ []);
}

abbrev cypher : Bytes
cypher = codes "MATCH (a) WHERE a.n = $n RETURN a.n"

abbrev request : QueryRequest (Members ℕ)
request = record { cypher = cypher; params = params; limit = some 5 }

abbrev response_json : QueryResponse ℕ → Value ℕ
response_json r = number r.count

query_get_handler-query_handler_example :
    SameAnswer
      (query_get_handler naturals size params_size same_text standard_limits 10000 session
        one_object no_number
        (query_string one_object no_number cypher one_text (some 5)))
      (query_handler naturals size params_size same_text standard_limits 10000 session (ok request))
query_get_handler-query_handler_example =
    query_get_handler-query_handler naturals size params_size same_text standard_limits 10000
      session one_object no_number cypher one_text params (some 5) (ground arith)
      (unfold bytes_eq in refl) refl

exit_for-query_handler_example :
    exit_for
      (query_handler naturals size params_size same_text standard_limits 10000 session
        (err missing_json_content_type)).status
      (body_value response_json
        (query_handler naturals size params_size same_text standard_limits 10000 session
          (err missing_json_content_type)).body)
    ≡ exit_of (
        run_request naturals size params_size same_text standard_limits 10000 session
          (from_request (err missing_json_content_type)))
exit_for-query_handler_example =
    exit_for-query_handler naturals size params_size same_text standard_limits 10000 session
      response_json (err missing_json_content_type)

abbrev count_value : QueryResponse ℕ → Outcome ℕ Bytes
count_value r = ok r.count

abbrev error_size : ErrorResponse → Outcome ℕ Bytes
error_size e = ok 1

abbrev text_size : Bytes → ℕ
text_size s = 0

query_cypher-query_handler_example :
    flagged (
      query_cypher naturals size params_size same_text standard_limits 10000 session count_value
        error_size text_size request)
    ≡ some (
        not (
          exit_for
            (query_handler naturals size params_size same_text standard_limits 10000 session
              (ok request)).status
            (body_value response_json
              (query_handler naturals size params_size same_text standard_limits 10000 session
                (ok request)).body)
          == 0))
query_cypher-query_handler_example =
    query_cypher-query_handler naturals size params_size same_text standard_limits 10000 session ℕ
      count_value error_size text_size response_json request (λ r. (r.count, refl))

-- The database shows no settings.
ready_handler-ensure_cost_bounds_example :
    ((ready_handler {Row = ℕ} (in_time (ok []))).status ≡ 200)
    ↔ (ensure_cost_bounds production (in_time (ok [])) ≡ ok tt)
ready_handler-ensure_cost_bounds_example = ready_handler-ensure_cost_bounds ℕ (in_time (ok []))

-- Two failures of the server with texts of their own.
abbrev down : DriverError
down =
    neo4j (codes "Neo.TransientError.General.DatabaseUnavailable") (codes "db0 at 10.0.0.7 is down")

abbrev garbled : DriverError
garbled = unexpected_message (codes "unexpected response for PULL")

to_response-from_neo4rs_example : to_response (from_neo4rs down) ≡ to_response (from_neo4rs garbled)
to_response-from_neo4rs_example =
    to_response-from_neo4rs down garbled (unfold is_query_statement_error starts_with in refl) refl
      (unfold is_statement_error contains starts_with in refl)
      (unfold is_resource_limit is_resource_exhaustion contains starts_with in refl)
