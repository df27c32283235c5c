-- ===== src/Guard/Rules.antt =====
-- crates/cypher-guard/src/rules.rs: the policy tables and the classifier.
pub mod Calls
pub mod Policy
pub mod Spans
pub mod Flags
pub mod Paths
use nexus_scout.Base.{
  ℕ, zero, suc, ◌*◌, Bool, true, false, not, ◌&&◌, ◌||◌, List, [], ◌∷◌, ◌++◌, Option, none, some,
  ltb, if◌then◌else◌, any, take, drop, Bytes, codes, bytes_eq, eq_ignore_ascii_case,
}
use nexus_scout.Guard.Lexer.{TokenKind, Token, text}
use nexus_scout.Guard.Reason.{RejectReason, Range, Result, ok, reject, ◌>>◌}

abbrev pub deny_mutation : List Bytes
deny_mutation =
    codes "CREATE"
    ∷ codes "MERGE"
    ∷ codes "SET"
    ∷ codes "DELETE"
    ∷ codes "DETACH"
    ∷ codes "NODETACH"
    ∷ codes "REMOVE"
    ∷ codes "DROP"
    ∷ codes "INSERT"
    ∷ codes "FOREACH"
    ∷ codes "LOAD"
    ∷ codes "USING"
    ∷ []

abbrev pub deny_call : List Bytes
deny_call = codes "CALL" ∷ []

abbrev pub deny_admin : List Bytes
deny_admin =
    codes "USE"
    ∷ codes "SHOW"
    ∷ codes "TERMINATE"
    ∷ codes "START"
    ∷ codes "GRANT"
    ∷ codes "DENY"
    ∷ codes "REVOKE"
    ∷ codes "ALTER"
    ∷ codes "RENAME"
    ∷ codes "ENABLE"
    ∷ codes "DISABLE"
    ∷ codes "PROFILE"
    ∷ codes "EXPLAIN"
    ∷ []

abbrev pub read_entry : List Bytes
read_entry = codes "MATCH" ∷ codes "OPTIONAL" ∷ codes "WITH" ∷ codes "UNWIND" ∷ codes "RETURN" ∷ []

unfoldable pub denied_keywords : List Bytes
denied_keywords = deny_mutation ++ (deny_call ++ deny_admin)

unfoldable pub in_table : Bytes → List Bytes → Bool
in_table w table = any (eq_ignore_ascii_case w) table

-- `t.kind == …` for the kinds that the rules ask for.
unfoldable pub is_whitespace : TokenKind → Bool
is_whitespace TokenKind.whitespace = true
is_whitespace _ = false

unfoldable pub is_word : TokenKind → Bool
is_word TokenKind.word = true
is_word _ = false

unfoldable pub is_punct : TokenKind → Bool
is_punct TokenKind.punct = true
is_punct _ = false

-- `punct_is`.
unfoldable pub punct_is : Bytes → Token → ℕ → Bool
unfolding is_punct
punct_is src t c = is_punct t.kind && bytes_eq (text src t) (c ∷ [])

-- `is_name_segment`.
unfoldable pub is_name_segment : TokenKind → Bool
is_name_segment TokenKind.word = true
is_name_segment TokenKind.backtick_ident = true
is_name_segment _ = false

-- A closure such as `|t| punct_is(t, src, c)` on the next token, if there is one.
unfoldable pub next_punct_is : Bytes → List Token → ℕ → Bool
next_punct_is src [] c = false
next_punct_is src (t ∷ ts) c = punct_is src t c

-- `Some(t.start..t.end)`.
abbrev pub span : Token → Option Range
span t = some (record { start = t.start; end = t.end })

unfoldable pub significant : List Token → List Token
unfolding is_whitespace
significant [] = []
significant (t ∷ ts) = let rest = significant ts in if is_whitespace t.kind then rest else t ∷ rest

-- The loop that rejects comments and semicolons.
unfoldable pub check_structure : List Token → Result (Unit {0})
check_structure [] = ok tt
check_structure (t ∷ ts) = elim t.kind [
  | TokenKind.comment ↦ reject RejectReason.comment_injection (span t)
  | TokenKind.semicolon ↦ reject RejectReason.semicolon (span t)
  | _ ↦ check_structure ts
]

-- The loop that looks each word up in the deny tables.
unfoldable pub check_words : Bytes → List Token → Result (Unit {0})
unfolding is_word
check_words src [] = ok tt
check_words src (t ∷ ts) =
    let rest = check_words src ts in
    if not (is_word t.kind)
    then rest
    else if in_table (text src t) deny_mutation
    then reject RejectReason.mutation (span t)
    else if in_table (text src t) deny_call
    then reject RejectReason.call_clause (span t)
    else if in_table (text src t) deny_admin
    then reject RejectReason.admin_clause (span t)
    else rest

-- The inner loop of `find_namespaced_call`: how many times `.` and a segment follow.
unfoldable pub count_dots : Bytes → List Token → ℕ
count_dots src (d ∷ s ∷ ts) =
    let more = suc (count_dots src ts) in
    if punct_is src d b'.' && is_name_segment s.kind then more else 0
count_dots src _ = 0

-- `sig[j].end`, for the last token of a chain.
unfoldable pub last_end : Token → List Token → ℕ
last_end t [] = t.end
last_end t (u ∷ us) = last_end u us

-- The outer loop of `find_namespaced_call`. The `skip` tokens of a chain that is no call are passed
-- over.
unfoldable pub find_namespaced_call : Bytes → ℕ → List Token → Option Range
find_namespaced_call src skip [] = none
find_namespaced_call src (suc skip) (t ∷ ts) = find_namespaced_call src skip ts
find_namespaced_call src zero (t ∷ ts) =
    let dots = if is_name_segment t.kind then count_dots src ts else 0 in
    let rest = find_namespaced_call src (2 * dots) ts in
    if is_name_segment t.kind && (ltb 0 dots && next_punct_is src (drop (2 * dots) ts) b'(')
    then some (record { start = t.start; end = last_end t (take (2 * dots) ts) })
    else rest

-- A closure such as `prev_is`, on the token before, if there is one.
unfoldable pub prev_punct_is : Bytes → Option Token → ℕ → Bool
prev_punct_is src none c = false
prev_punct_is src (some t) c = punct_is src t c

-- `is_relationship_at`, from the token before, the token and those behind it.
unfoldable pub is_relationship_at : Bytes → Option Token → Token → List Token → Bool
is_relationship_at src prev t next =
    (punct_is src t b'[' && prev_punct_is src prev b'-')
    || (punct_is src t b'>' && prev_punct_is src prev b'-')
    || (punct_is src t b'<' && next_punct_is src next b'-')
    || (punct_is src t b'-'
        && next_punct_is src next b'-'
        && (prev_punct_is src prev b')' || next_punct_is src (drop 1 next) b'('))

-- The stack of open parentheses: where each stands, and whether a relationship was seen inside.
abbrev pub Parens : Type 0
Parens = List (ℕ × Bool)

-- `top.1 = true`.
unfoldable pub mark_top : Parens → Parens
mark_top [] = []
mark_top ((open_at, saw_rel) ∷ stack) = (open_at, true) ∷ stack

unfoldable pub is_quantifier : Bytes → List Token → Bool
is_quantifier src next =
    next_punct_is src next b'+' || next_punct_is src next b'*' || next_punct_is src next b'{'

-- The span that a `)` closes, if a relationship was seen inside and a quantifier follows.
unfoldable pub quantified : Bytes → Parens → List Token → Option Range
quantified src ((open_at, true) ∷ stack) (t ∷ ts) =
    if is_quantifier src (t ∷ ts) then some (record { start = open_at; end = t.end }) else none
quantified src _ _ = none

-- The loop of `find_quantified_path`.
unfoldable pub find_quantified_path : Bytes → Option Token → Parens → List Token → Option Range
find_quantified_path src prev stack [] = none
find_quantified_path src prev stack (t ∷ ts) =
    let is_open = punct_is src t b'(' in
    let is_rel = is_relationship_at src prev t ts in
    let is_close = not is_open && not is_rel && punct_is src t b')' in
    let stack' =
      if is_open
      then (t.start, false) ∷ stack
      else if is_rel
      then mark_top stack
      else if is_close
      then drop 1 stack
      else stack in
    let rest = find_quantified_path src (some t) stack' ts in
    elim (if is_close then quantified src stack ts else none) [ some r ↦ some r | none ↦ rest ]

-- `significant.iter().find(|t| t.kind == TokenKind::Word)`.
unfoldable pub first_word : List Token → Option Token
first_word [] = none
first_word (t ∷ ts) = let rest = first_word ts in if is_word t.kind then some t else rest

unfoldable pub check_entry : Bytes → Option Token → Result (Unit {0})
check_entry src none = reject RejectReason.non_read_entry none
check_entry src (some t) =
    if in_table (text src t) read_entry then ok tt else reject RejectReason.non_read_entry (span t)

-- `if let Some(span) = … { return Err(…) }`.
unfoldable pub check_none : RejectReason → Option Range → Result (Unit {0})
check_none reason none = ok tt
check_none reason (some r) = reject reason (some r)

unfoldable pub check_empty : List Token → Result (Unit {0})
check_empty [] = reject RejectReason.empty none
check_empty (t ∷ ts) = ok tt

unfoldable pub classify : List Token → Bytes → Result (Unit {0})
classify tokens src =
    let sig = significant tokens in
    do
      check_empty sig
      check_structure sig
      check_words src sig
      check_none RejectReason.namespaced_call (find_namespaced_call src zero sig)
      check_none RejectReason.quantified_path (find_quantified_path src none [] sig)
      check_entry src (first_word sig)
