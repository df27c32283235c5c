-- ===== src/Gateway/Index.antt =====
-- crates/nexus-scout/src/http.rs: the descriptor that the gateway answers at `/`. How a number of the
-- configuration is a number of JSON is a parameter.
pub mod Example
use nexus_scout.Base.{ℕ, ◌++◌, Option, Bytes, codes, decimal}
use nexus_scout.Gateway.Json.{
  Value, number, string, array, object, Items, end_items, item, Members, end_members, member,
}
use nexus_scout.Gateway.Limits.{Limits, HttpLimits}
use nexus_scout.Gateway.Pages.{base_url, urlencode}

-- The query of the two examples.
abbrev pub example : Bytes
example =
    codes
      "MATCH (u:User)<-[f:FOLLOWS]-() RETURN u.name AS name, count(f) AS followers ORDER BY followers DESC LIMIT 10"

-- The first of the notes.
unfoldable pub limit_note : Limits → Bytes
limit_note limits =
    codes "A query with no LIMIT returns up to "
    ++ (decimal limits.default_limit
        ++ (codes " rows; the ceiling is "
            ++ (decimal limits.max_result_rows
                ++ codes
                    ". Page past the ceiling with SKIP/LIMIT. `truncated` only fires when the gateway cut rows, so a query whose own LIMIT returns exactly that many rows is not flagged as truncated; `notes` says so instead, and a count() is the way to the true total.")))

module _ {Number : Type 0} (from_ℕ : ℕ → Number) where
  abbrev pub text_member : Bytes → Bytes → Members Number → Members Number
  text_member key text ms = member key (string text) ms

  abbrev pub number_member : Bytes → ℕ → Members Number → Members Number
  number_member key n ms = member key (number (from_ℕ n)) ms

  unfoldable pub links : Bytes → Value Number
  links base = object (
      text_member (codes "guide") (base ++ codes "/llms.txt")
        (text_member (codes "schema") (base ++ codes "/v1/schema") end_members))

  unfoldable pub endpoints : Value Number
  endpoints = object (
      text_member (codes "GET /v1/query")
        (codes
          "Run read-only Cypher via the query string. Same operation as the POST, for callers that cannot send a body.")
        (text_member (codes "POST /v1/query") (codes "Run read-only Cypher.") (
          text_member (codes "GET /v1/schema")
            (codes "Node labels, relationship types, and example queries.")
            (text_member (codes "GET /llms.txt")
              (codes "Usage guide: recipes, limits, and error recovery.") end_members))))

  unfoldable pub example_request : Value Number
  example_request = object (
      text_member (codes "method") (codes "POST") (
        text_member (codes "path") (codes "/v1/query") (
          member (codes "headers")
            (object (text_member (codes "content-type") (codes "application/json") end_members))
            (member (codes "body")
              (object (
                text_member (codes "cypher") example
                  (member (codes "params") (object end_members) end_members)))
              end_members))))

  unfoldable pub limits_value : Limits → HttpLimits → Value Number
  limits_value limits http_limits = object (
      number_member (codes "default_limit") limits.default_limit (
        number_member (codes "max_result_rows") limits.max_result_rows (
          number_member (codes "max_result_bytes") limits.max_result_bytes (
            number_member (codes "max_path_depth") limits.guard.max_path_depth (
              number_member (codes "max_query_length") limits.guard.max_query_length (
                number_member (codes "max_param_count") limits.max_param_count (
                  number_member (codes "max_param_bytes") limits.max_param_bytes (
                    number_member (codes "max_body_bytes") http_limits.max_body_bytes
                      end_members))))))))

  unfoldable pub notes : Limits → Value Number
  unfolding limit_note
  notes limits = array (
      item (string (limit_note limits)) (
        item
          (string (
            codes
              "Read-only: writes, CALL, and admin clauses are rejected. Errors carry a machine-readable code plus a hint describing the fix."))
          (item
            (string (
              codes
                "The JSON error envelope covers /v1/query application errors. An oversized body (413) and a request timeout (504) are answered by the outer layers as plain text."))
            end_items)))

  -- The JSON text of the descriptor, for a base URL.
  unfoldable pub descriptor : Limits → HttpLimits → Bytes → Value Number
  unfolding links endpoints example_request limits_value notes urlencode
  descriptor limits http_limits base = object (
      text_member (codes "service") (codes "nexus-scout") (
        text_member (codes "description")
          (codes "Read-only Cypher gateway to the Pubky social graph.")
          (text_member (codes "start_here") (base ++ codes "/llms.txt") (
            member (codes "links") (links base) (
              member (codes "endpoints") endpoints (
                member (codes "example_request") example_request (
                  text_member (codes "example_request_get")
                    (base ++ (codes "/v1/query?cypher=" ++ urlencode example))
                    (member (codes "limits") (limits_value limits http_limits)
                      (member (codes "notes") (notes limits) end_members)))))))))

  -- `index_handler`, from the headers `Host` and `x-forwarded-proto`.
  unfoldable pub index_handler : Limits → HttpLimits → Option Bytes → Option Bytes → Value Number
  unfolding descriptor base_url
  index_handler limits http_limits host proto = descriptor limits http_limits (base_url host proto)
