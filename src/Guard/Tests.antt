-- ===== src/Guard/Tests.antt =====
-- Runs of the sanitizer, and its theorems at concrete queries.
use nexus_scout.Guard.Again.Whole.{sanitize-again}
use nexus_scout.Guard.Plain.Tokens.{is_plain_token}
use nexus_scout.Guard.Plain.Output.{sanitize-is_plain_token}
use nexus_scout.Guard.Oracle.{code_position_violation}
use nexus_scout.Guard.Oracle.Passed.{sanitize-code_position_violation}
use nexus_scout.Guard.Limit.Last.{last_or, said, top_limits, extract_result_limit-last}
use nexus_scout.Guard.Transforms.Bounded.{rewritten-IsBounded, IsBounded, rewritten}
use nexus_scout.Guard.Transforms.Splice.{bound_paths-Tiles, rewritten_texts}
use nexus_scout.Guard.Transforms.{
  bound_paths, collect, replacement_of, rebound, parse_range, split_dots, parse_sides, parse_side,
  parse_single, print_range, print_note, apply_edits, replace_range,
}
use nexus_scout.Guard.Limit.{extract_result_limit}
use nexus_scout.Guard.Unicode.{validate}
use nexus_scout.Base.{
  ◌&&◌, ◌==◌, if◌then◌else◌, drop, ◌++◌, take, true, all, Option, eq_ignore_ascii_case, bytes_eq,
  i32_increment, i32_saturating_decrement, decimal, parse_u32, ℕ, zero, List, [], ◌∷◌, none, some,
  ◌≡◌, refl, arith, length, Bytes, codes, utf8,
}
use nexus_scout.Guard.Lexer.Rounds.{lex_while, lex_while-lex}
use nexus_scout.Guard.Lexer.Tiles.{Tiles, texts, lex-Tiles}
use nexus_scout.Guard.Lexer.{initial, text, Token, lex}
use nexus_scout.Guard.Reason.{Range, RejectReason, Result, ok, err}
use nexus_scout.Guard.Rules.Calls.{has_call, is_some, find_namespaced_call-has_call}
use nexus_scout.Guard.Rules.{
  denied_keywords, significant, check_empty, check_structure, check_words, check_none, check_entry,
  first_word, find_quantified_path, quantified, is_quantifier, is_relationship_at, mark_top,
  count_dots, last_end, prev_punct_is, next_punct_is, punct_is, is_name_segment, in_table, is_word,
  find_namespaced_call, classify,
}
use nexus_scout.Guard.Sanitized.{ResultLimit, SanitizedQuery, fixed}
use nexus_scout.Guard.Sanitizer.Sound.{IsSanitized, sanitize-IsSanitized}
use nexus_scout.Guard.Rules.Spans.{Spans}
use nexus_scout.Guard.Sanitizer.Spans.{sanitize-Spans}
use nexus_scout.Guard.Sanitizer.{default_limits, sanitize}

-- A text that is normalized already.
abbrev same : List ℕ → List ℕ
same s = s

abbrev query : Bytes
query = codes "MATCH (a)-[:F*]->(b) RETURN a LIMIT 3"

abbrev answer : SanitizedQuery
answer = record {
  cypher = codes "MATCH (a)-[:F*1..5]->(b) RETURN a LIMIT 3";
  result_limit = fixed 3;
  notes = codes "variable-length path '*' bounded to '*1..5'" ∷ [];
}

-- The sanitizer, with all that it calls open.
run : List ℕ → Result SanitizedQuery
unfolding sanitize validate utf8 lex classify significant check_empty check_structure check_words
    check_none check_entry first_word find_namespaced_call find_quantified_path quantified
    is_quantifier is_relationship_at mark_top count_dots last_end prev_punct_is next_punct_is
    punct_is is_name_segment in_table eq_ignore_ascii_case bytes_eq text is_word
    extract_result_limit i32_increment i32_saturating_decrement bound_paths collect replacement_of
    rebound parse_range split_dots parse_sides parse_side parse_single print_range decimal parse_u32
    print_note apply_edits replace_range
run = sanitize same default_limits

query_sanitized : sanitize same default_limits query ≡ ok answer
unfolding run
query_sanitized = refl

-- Which reason a query is rejected for.
reason : Bytes → Option RejectReason
unfolding run
reason q = elim (run q) [ ok r ↦ none | err e ↦ some e.reason ]

-- A number and a parenthesis may stand before the first word.
number_first : reason (codes "1 MATCH (n) RETURN n") ≡ none
unfolding reason
number_first = refl

parenthesis_first : reason (codes "(OPTIONAL) + 1") ≡ none
unfolding reason
parenthesis_first = refl

fused_number : reason (codes "MATCH (a) RETURN 0CREATE") ≡ some RejectReason.mutation
unfolding reason
fused_number = refl

quoted_namespace : reason (codes "RETURN apoc.`cypher`.doIt(1)") ≡ some RejectReason.namespaced_call
unfolding reason
quoted_namespace = refl

quantified_group :
    reason (codes "MATCH ((a)-->(b)){1,9} RETURN a") ≡ some RejectReason.quantified_path
unfolding reason
quantified_group = refl

arithmetic : reason (codes "RETURN (1 + 2) * 3") ≡ none
unfolding reason
arithmetic = refl

quoted_keyword : reason (codes "MATCH (a) RETURN 'CREATE // ;'") ≡ none
unfolding reason
quoted_keyword = refl

abbrev tokens_of : Result (List Token) → List Token
tokens_of (ok ts) = ts
tokens_of (err e) = []

query_tokens : List Token
unfolding run
query_tokens = tokens_of (lex query)

query_lexed : lex query ≡ ok query_tokens
unfolding query_tokens
query_lexed = refl

query_classified : classify query_tokens query ≡ ok tt
unfolding query_tokens
query_classified = refl

sanitize-IsSanitized_example : IsSanitized same default_limits query answer
sanitize-IsSanitized_example = sanitize-IsSanitized same default_limits query answer query_sanitized

lex-Tiles_example : Tiles 0 query_tokens (length query) × (texts query query_tokens ≡ query)
lex-Tiles_example = lex-Tiles query query_tokens query_lexed

find_namespaced_call-has_call_example :
    is_some (find_namespaced_call query zero query_tokens) ≡ has_call query query_tokens
find_namespaced_call-has_call_example = find_namespaced_call-has_call query query_tokens

bound_paths-Tiles_example :
    (bound_paths query query_tokens 5).0 ≡ rewritten_texts query 5 query_tokens
bound_paths-Tiles_example = bound_paths-Tiles query query_tokens 5 lex-Tiles_example.0

rewritten-IsBounded_example : IsBounded 5 (rewritten 5 (codes "*7"))
rewritten-IsBounded_example =
    rewritten-IsBounded 5 (codes "*7") (some 7, some 7) (omega arith) (unfold run in refl)

abbrev union : Bytes
union = codes "RETURN 1 LIMIT 5 UNION RETURN 2 LIMIT 10"

union_tokens : List Token
unfolding run
union_tokens = tokens_of (lex union)

union_limits : top_limits union 0 0 union_tokens ≡ fixed 5 ∷ fixed 10 ∷ []
unfolding union_tokens top_limits said run
union_limits = refl

extract_result_limit-last_example :
    extract_result_limit union_tokens union
    ≡ last_or ResultLimit.none (top_limits union 0 0 union_tokens)
extract_result_limit-last_example =
    extract_result_limit-last union union_tokens (unfold union_tokens in omega arith)

sanitize-code_position_violation_example :
    code_position_violation answer.cypher denied_keywords ≡ none
sanitize-code_position_violation_example =
    sanitize-code_position_violation same default_limits query answer query_sanitized

lex_while-lex_example : lex_while 100 initial 0 query ≡ some (lex query)
lex_while-lex_example = lex_while-lex query 100 (omega arith)

answer_valid : validate answer.cypher ≡ ok tt
unfolding run
answer_valid = refl

answer_utf8 : utf8 answer.cypher ≡ answer.cypher
unfolding utf8
answer_utf8 = refl

sanitize-again_example :
    sanitize same default_limits answer.cypher
    ≡ ok (record { cypher = answer.cypher; result_limit = answer.result_limit; notes = [] })
sanitize-again_example =
    sanitize-again same default_limits query answer answer.cypher (omega arith) query_sanitized
      answer_utf8 refl answer_valid (omega arith) (omega arith)

sanitize-is_plain_token_example :
    (ts : List Token) × (lex answer.cypher ≡ ok ts) × (all (is_plain_token answer.cypher) ts ≡ true)
sanitize-is_plain_token_example =
    sanitize-is_plain_token same default_limits query answer query_sanitized

writing : Bytes
writing = codes "MATCH (a) CREATE (b)"

writing_span : Option Range
unfolding run
writing_span = elim (run writing) [ ok r ↦ none | err e ↦ e.span ]

writing_span_is_create : writing_span ≡ some (record { start = 10; end = 16 })
unfolding writing_span writing
writing_span_is_create = refl

sanitize-Spans_example : Spans (length (utf8 (same writing))) (sanitize same default_limits writing)
sanitize-Spans_example = sanitize-Spans same default_limits writing

-- An `e` before a combining acute accent is made one character.
put_before : ℕ → List ℕ → List ℕ
put_before c [] = c ∷ []
put_before c (d ∷ cs) = if c == 101 && d == 769 then 233 ∷ cs else c ∷ d ∷ cs

composed : List ℕ → List ℕ
unfolding put_before
composed [] = []
composed (c ∷ cs) = put_before c (composed cs)

-- `RETURN 'é' CREATE`, with the accent as a character of its own.
accented : List ℕ
accented = codes "RETURN 'e" ++ (769 ∷ codes "' CREATE")

accented_span : Option Range
unfolding run accented composed
accented_span = elim (sanitize composed default_limits accented) [ ok r ↦ none | err e ↦ e.span ]

-- `CREATE` stands at the bytes 13 to 19 of the original text.
span_of_normalized : accented_span ≡ some (record { start = 12; end = 18 })
unfolding accented_span
span_of_normalized = refl

create_in_original : take 6 (drop 13 (utf8 accented)) ≡ codes "CREATE"
unfolding accented utf8
create_in_original = refl
