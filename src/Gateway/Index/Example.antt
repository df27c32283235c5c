-- ===== src/Gateway/Index/Example.antt =====
-- The example that the descriptor gives.
use nexus_scout.Base.{
  bytes_eq, ℕ, ◌*◌, ◌≤◌, ◌<◌, ◌≡◌, refl, ◌∙◌, arith, true, List, [], ◌∷◌, ◌++◌, All, all, ltb,
  ltb→lt, length, min, Option, some, Bytes, codes, utf8, bytes_eq, eq_ignore_ascii_case, parse_u32,
  i32_increment, i32_saturating_decrement,
}
use nexus_scout.Client.{get, get_member}
use nexus_scout.Gateway.Index.{example, index_handler, descriptor}
use nexus_scout.Gateway.Json.{string}
use nexus_scout.Gateway.Limits.{Limits, HttpLimits}
use nexus_scout.Gateway.Pages.Encoding.{IsRead, urldecode-urlencode}
use nexus_scout.Gateway.Pages.{base_url, urlencode}
use nexus_scout.Guard.Lexer.{Token, lex, text}
use nexus_scout.Guard.Limit.{extract_result_limit}
use nexus_scout.Guard.Rules.{
  classify, significant, check_empty, check_structure, check_words, check_none, check_entry,
  first_word, find_namespaced_call, find_quantified_path, quantified, is_quantifier,
  is_relationship_at, mark_top, count_dots, last_end, prev_punct_is, next_punct_is, punct_is,
  is_name_segment, in_table, is_word,
}
use nexus_scout.Guard.Transforms.{bound_paths, collect, replacement_of, apply_edits}
use nexus_scout.Guard.Unicode.{validate}
use nexus_scout.Guard.Reason
use nexus_scout.Guard.Reason.{Result}
use nexus_scout.Guard.Sanitized.{SanitizedQuery, fixed}
use nexus_scout.Guard.Sanitizer
use nexus_scout.Guard.Sanitizer.{sanitize, check_length, usize_max, normalize_and_validate}

all_bytes : (s : Bytes) → all (λ b. ltb b 256) s ≡ true → All (λ b. b < 256) s
all_bytes [] h = tt
all_bytes (b ∷ s) h = (ltb→lt b 256 (ground arith), all_bytes s (ground arith))

example_bytes : All (λ b. b < 256) example
example_bytes = all_bytes example refl

-- What the sanitizer makes of the example.
abbrev example_answer : SanitizedQuery
example_answer = record { cypher = example; result_limit = fixed 10; notes = [] }

check_length-ok : (n m : ℕ) → n ≤ m → check_length n m ≡ Reason.ok tt
unfolding check_length
check_length-ok n m h = ground arith

-- A text that passes each stage passes the sanitizer.
passes_stages :
    (nfc : List ℕ → List ℕ) (limits : Sanitizer.Limits) (cypher : List ℕ) (ts : List Token)
    → check_length (length (utf8 cypher)) (min (limits.max_query_length * 4) usize_max)
      ≡ Reason.ok tt
    → nfc cypher ≡ cypher
    → validate cypher ≡ Reason.ok tt
    → check_length (length cypher) limits.max_query_length ≡ Reason.ok tt
    → lex (utf8 cypher) ≡ Reason.ok ts
    → classify ts (utf8 cypher) ≡ Reason.ok tt
    → sanitize nfc limits cypher
      ≡ Reason.ok (record {
        cypher = (bound_paths (utf8 cypher) ts limits.max_path_depth).0;
        result_limit = extract_result_limit ts (utf8 cypher);
        notes = (bound_paths (utf8 cypher) ts limits.max_path_depth).1;
      })
unfolding sanitize normalize_and_validate
passes_stages nfc limits cypher ts first e valid second lexed classified =
    rw (first, e, valid, second, lexed, classified) refl

abbrev tokens_of : Result (List Token) → List Token
tokens_of (Reason.ok ts) = ts
tokens_of (Reason.err e) = []

-- The tokens of the example.
example_tokens : List Token
example_tokens = tokens_of (lex (utf8 example))

same_length : length (utf8 example) ≡ length example
unfolding utf8
same_length = refl

example_valid : validate example ≡ Reason.ok tt
unfolding validate
example_valid = refl

example_lexed : lex (utf8 example) ≡ Reason.ok example_tokens
unfolding example_tokens lex utf8
example_lexed = refl

example_classified : classify example_tokens (utf8 example) ≡ Reason.ok tt
unfolding example_tokens lex utf8 classify significant check_empty check_structure check_words
    check_none check_entry first_word find_namespaced_call find_quantified_path quantified
    is_quantifier is_relationship_at mark_top count_dots last_end prev_punct_is next_punct_is
    punct_is is_name_segment in_table eq_ignore_ascii_case bytes_eq text is_word
example_classified = refl

example_unbounded : (d : ℕ) → bound_paths (utf8 example) example_tokens d ≡ (example, [])
unfolding example_tokens lex utf8 bound_paths collect replacement_of apply_edits
example_unbounded d = refl

example_limited : extract_result_limit example_tokens (utf8 example) ≡ fixed 10
unfolding example_tokens lex utf8 extract_result_limit i32_increment i32_saturating_decrement text
    punct_is eq_ignore_ascii_case bytes_eq is_word parse_u32
example_limited = refl

example_sanitized :
    (nfc : List ℕ → List ℕ) (limits : Sanitizer.Limits)
    → nfc example ≡ example
    → length example ≤ limits.max_query_length
    → sanitize nfc limits example ≡ Reason.ok example_answer
example_sanitized nfc limits e h =
    let first =
      check_length-ok (length (utf8 example)) (min (limits.max_query_length * 4) usize_max)
        (omega (arith, same_length)) in
    let second = check_length-ok (length example) limits.max_query_length h in
    let passed =
      passes_stages nfc limits example example_tokens first e example_valid second example_lexed
        example_classified in
    passed ∙ rw (example_unbounded limits.max_path_depth, example_limited) refl

-- The link that the descriptor gives as an example is, at whatever base URL and with whatever limits,
-- one to the query route with a query that is percent-encoded, and this query passes the sanitizer
-- unchanged, if the limit on the length of queries admits it and NFC leaves it alone.
index_handler-example :
    (Number : Type 0) (from_ℕ : ℕ → Number) (limits : Limits) (http_limits : HttpLimits)
    (host proto : Option Bytes) (nfc : List ℕ → List ℕ)
    → nfc example ≡ example
    → length example ≤ limits.guard.max_query_length
    → (get_member (codes "example_request_get") (index_handler from_ℕ limits http_limits host proto)
        ≡ some (string (base_url host proto ++ (codes "/v1/query?cypher=" ++ urlencode example))))
      × IsRead example (urlencode example)
      × (sanitize nfc limits.guard example ≡ Reason.ok example_answer)
unfolding index_handler
index_handler-example Number from_ℕ limits http_limits host proto nfc e h = (
  unfold descriptor get bytes_eq in refl,
  urldecode-urlencode example example_bytes,
  example_sanitized nfc limits.guard e h,
)
