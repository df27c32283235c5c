-- ===== src/Guard/Limit.antt =====
-- crates/cypher-guard/src/lib.rs, `extract_result_limit`: the query's top-level `LIMIT`.
pub mod Last
use mathlib.Core.Option.{get_or}
use nexus_scout.Base.{
  Bool, ◌&&◌, ◌||◌, List, [], ◌∷◌, Option, none, some, if◌then◌else◌, all, Bytes, codes, bytes_eq,
  eq_ignore_ascii_case, is_ascii_digit, parse_u32, ℤ, pos, i32_increment, i32_saturating_decrement,
  is_zero,
}
use nexus_scout.Guard.Lexer.{TokenKind, Token, text}
use nexus_scout.Guard.Rules.{is_punct, is_word}
use nexus_scout.Guard.Sanitized.{ResultLimit, fixed, dynamic}

-- The text of a punctuation token is one of these.
text_is : Bytes → Bytes → Bytes → Bytes → Bool
text_is t a b c = bytes_eq t a || bytes_eq t b || bytes_eq t c

-- The arm `TokenKind::Punct`.
unfoldable pub track_depth : ℤ → Bytes → ℤ
unfolding text_is
track_depth depth t =
    if text_is t (codes "(") (codes "[") (codes "{")
    then i32_increment depth
    else if text_is t (codes ")") (codes "]") (codes "}")
    then i32_saturating_decrement depth
    else depth

-- The first token that is neither white space nor a comment.
unfoldable pub next_significant : List Token → Option Token
next_significant [] = none
next_significant (t ∷ ts) = elim t.kind [
  | TokenKind.whitespace ↦ next_significant ts
  | TokenKind.comment ↦ next_significant ts
  | _ ↦ some t
]

-- What the token behind `LIMIT` says; `none` keeps the previous finding.
unfoldable pub limit_value : Bytes → Option Token → Option ResultLimit
limit_value src none = none
limit_value src (some n) = elim n.kind [
  | TokenKind.number ↦
      some (if all is_ascii_digit (text src n) then fixed (parse_u32 (text src n)) else dynamic)
  | TokenKind.parameter ↦ some dynamic
  | _ ↦ none
]

-- The guard of the arm for `LIMIT`.
unfoldable pub is_top_limit : Bytes → ℤ → Token → Bool
unfolding is_word
is_top_limit src depth t =
    is_word t.kind && (is_zero depth && eq_ignore_ascii_case (text src t) (codes "LIMIT"))

-- The depth after a token.
unfoldable pub depth_after : Bytes → ℤ → Token → ℤ
unfolding is_punct track_depth
depth_after src depth t = if is_punct t.kind then track_depth depth (text src t) else depth

-- What a token finds, with those behind it.
unfoldable pub value_at : Bytes → ℤ → Token → List Token → Option ResultLimit
unfolding is_top_limit limit_value next_significant
value_at src depth t ts =
    if is_top_limit src depth t then limit_value src (next_significant ts) else none

-- The loop over the tokens.
unfoldable pub extract_from : Bytes → ℤ → ResultLimit → List Token → ResultLimit
extract_from src depth found [] = found
extract_from src depth found (t ∷ ts) =
    let found' = get_or (value_at src depth t ts) found in
    extract_from src (depth_after src depth t) found' ts

unfoldable pub extract_result_limit : List Token → Bytes → ResultLimit
unfolding extract_from depth_after value_at
extract_result_limit tokens src = extract_from src (pos 0) ResultLimit.none tokens
