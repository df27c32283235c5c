-- ===== src/Guard/Lexer.antt =====
-- crates/cypher-guard/src/tokenizer.rs: the single-pass lexer. `bytes[i..]` is the list of the bytes
-- that are left; a scan loop returns how far it moves `i`.
pub mod Widths
pub mod Tiles
pub mod Rounds
use mathlib.Core.Option
use nexus_scout.Guard.Reason.{RejectReason, Result, ok, err, reject, ◌>>=◌}
use nexus_scout.Base.{
  zero, not, length, ◌+◌, leb, is_ascii_hexdigit, List, ℕ, suc, ◌-◌, Bool, true, false, ◌&&◌, ◌||◌,
  [], ◌∷◌, Option, none, some, ◌==◌, if◌then◌else◌, take, drop, Bytes, is_ascii_digit,
  is_ascii_alphabetic, is_ascii_alphanumeric,
}

pub data TokenKind : Type 0 where
  word backtick_ident string_lit number parameter path_range comment semicolon punct : TokenKind
  whitespace : TokenKind

pub record Token : Type 0 where
  pub kind : TokenKind
  pub start : ℕ
  pub end : ℕ

-- `&src[start..end]`.
unfoldable pub slice : Bytes → ℕ → ℕ → Bytes
slice src start end = take (end - start) (drop start src)

-- `Token::text`.
unfoldable pub text : Bytes → Token → Bytes
unfolding slice
text src t = slice src t.start t.end

unfoldable pub is_space : ℕ → Bool
is_space b = b == b' ' || b == b'\t' || b == b'\r' || b == b'\n'

unfoldable pub is_ident : ℕ → Bool
is_ident b = is_ascii_alphanumeric b || b == b'_'

unfoldable pub is_ident_start : ℕ → Bool
is_ident_start b = is_ascii_alphabetic b || b == b'_'

unfoldable pub not_newline : ℕ → Bool
not_newline b = not (b == b'\n')

unfoldable pub is_range_byte : ℕ → Bool
is_range_byte b = is_ascii_digit b || b == b'.'

unfoldable pub is_digit_or_sep : ℕ → Bool
is_digit_or_sep b = is_ascii_digit b || b == b'_'

-- `while i < bytes.len() && p(bytes[i]) { i += 1; }`.
unfoldable pub span_while : (ℕ → Bool) → Bytes → ℕ
span_while p [] = 0
span_while p (b ∷ bs) = let n = suc (span_while p bs) in if p b then n else 0

-- `bytes.get(i) == Some(&c)`.
unfoldable pub next_is : ℕ → Bytes → Bool
next_is c [] = false
next_is c (b ∷ bs) = b == c

-- The loop of a block comment, behind its `/*`; `none` if it is not closed.
unfoldable pub close_block : Bytes → Option ℕ
unfolding next_is
close_block [] = none
close_block (b ∷ bs) =
    let go = Option.map suc (close_block bs) in if b == b'*' && next_is b'/' bs then some 2 else go

-- The loop of a string literal, behind its quote. The flag is set for the byte that `i += 2` passes
-- over behind a backslash.
unfoldable pub close_quote : ℕ → Bool → Bytes → Option ℕ
close_quote quote skip [] = none
close_quote quote true (c ∷ bs) = Option.map suc (close_quote quote false bs)
close_quote quote false (c ∷ bs) =
    let go = Option.map suc (close_quote quote (c == b'\\') bs) in
    if c == b'\\' then go else if c == quote then some 1 else go

-- The loop of a quoted identifier, behind its backtick. The flag is set for the second backtick of
-- an escape, which `i += 2` passes over.
unfoldable pub close_backtick : Bool → Bytes → Option ℕ
unfolding next_is
close_backtick skip [] = none
close_backtick true (c ∷ bs) = Option.map suc (close_backtick false bs)
close_backtick false (c ∷ bs) =
    let go = Option.map suc (close_backtick (c == b'`') bs) in
    if c == b'`' then if next_is b'`' bs then go else some 1 else go

-- The loop of a quoted parameter name, behind its backtick, which ends at the end of the input too.
unfoldable pub scan_quoted_name : Bool → Bytes → ℕ
unfolding next_is
scan_quoted_name skip [] = 0
scan_quoted_name true (c ∷ bs) = suc (scan_quoted_name false bs)
scan_quoted_name false (c ∷ bs) =
    let go = suc (scan_quoted_name (c == b'`') bs) in
    if c == b'`' then if next_is b'`' bs then go else 1 else go

-- What follows the `$` of a parameter.
unfoldable pub scan_name : Bytes → ℕ
unfolding scan_quoted_name span_while is_ident
scan_name [] = 0
scan_name (c ∷ bs) =
    if c == b'`' then suc (scan_quoted_name false bs) else span_while is_ident (c ∷ bs)

abbrev digits : Bytes → ℕ
digits = span_while is_digit_or_sep

-- A `.` joins a number only when a digit follows.
unfoldable pub scan_fraction : Bytes → ℕ
unfolding span_while is_digit_or_sep
scan_fraction (p ∷ d ∷ bs) = if p == b'.' && is_ascii_digit d then suc (digits (d ∷ bs)) else 0
scan_fraction _ = 0

-- `j < n && matches!(bytes[j], b'+' | b'-')` moves `j` by one.
unfoldable pub sign_width : Bytes → ℕ
sign_width bs = if next_is b'+' bs || next_is b'-' bs then 1 else 0

unfoldable pub next_is_digit : Bytes → Bool
next_is_digit [] = false
next_is_digit (b ∷ bs) = is_ascii_digit b

-- An exponent joins a number only when a digit follows, behind a sign or not.
unfoldable pub scan_exponent : Bytes → ℕ
unfolding span_while is_digit_or_sep sign_width next_is_digit next_is
scan_exponent [] = 0
scan_exponent (e ∷ bs) =
    let sign = sign_width bs in
    if (e == b'e' || e == b'E') && next_is_digit (drop sign bs)
    then suc sign + digits (drop sign bs)
    else 0

unfoldable pub scan_decimal : Bytes → ℕ
unfolding scan_fraction scan_exponent
scan_decimal bs =
    let i = digits bs in let j = i + scan_fraction (drop i bs) in j + scan_exponent (drop j bs)

unfoldable pub is_hex_or_sep : ℕ → Bool
is_hex_or_sep b = is_ascii_hexdigit b || b == b'_'

unfoldable pub is_octal_or_sep : ℕ → Bool
is_octal_or_sep b = (leb b'0' b && leb b b'7') || b == b'_'

-- `scan_number`, from the digit at which the number starts.
unfoldable pub scan_number : Bytes → ℕ
unfolding scan_decimal is_hex_or_sep is_octal_or_sep
scan_number (z ∷ x ∷ bs) =
    if z == b'0' && (x == b'x' || x == b'X')
    then 2 + span_while is_hex_or_sep bs
    else if z == b'0' && (x == b'o' || x == b'O')
    then 2 + span_while is_octal_or_sep bs
    else scan_decimal (z ∷ x ∷ bs)
scan_number bs = scan_decimal bs

-- The variables of the loop but `i` and `tokens`. The top of the stack is its head.
pub record Lexer : Type 0 where
  pub bracket_stack : List Bool
  pub sig1 : ℕ
  pub sig2 : ℕ

abbrev pub top : List Bool → Bool
top [] = false
top (b ∷ bs) = b

-- What the `match` on one byte decides: the token's kind, how far `i` moves, and the stack.
pub record Scanned : Type 0 where
  pub kind : TokenKind
  pub width : ℕ
  pub stack : List Bool

-- The last arm: brackets are pushed and popped.
unfoldable pub scan_punct : Lexer → ℕ → Scanned
scan_punct s b = record {
  kind = TokenKind.punct;
  width = 1;
  stack =
      if b == b'['
      then (s.sig1 == b'-' && (s.sig2 == b')' || s.sig2 == b'<')) ∷ s.bracket_stack
      else if b == b']'
      then drop 1 s.bracket_stack
      else s.bracket_stack;
}

-- A scan loop that may find the end of the input: `Unterminated`, from the start of the token on.
unfoldable pub closed : TokenKind → Lexer → ℕ → ℕ → Bytes → Option ℕ → Result Scanned
closed kind s start before bs (some n) =
    ok (record { kind = kind; width = before + n; stack = s.bracket_stack })
closed kind s start before bs none =
    reject RejectReason.unterminated
      (some (record { start = start; end = start + suc (length bs) }))

-- A token that is no bracket leaves the stack alone.
abbrev pub plain : Lexer → TokenKind → ℕ → Result Scanned
plain s kind width = ok (record { kind = kind; width = width; stack = s.bracket_stack })

-- The `match b`, at offset `start`, with `bs` behind `b`.
unfoldable pub scan_token : Lexer → ℕ → ℕ → Bytes → Result Scanned
scan_token s start b bs =
    if is_space b
    then plain s TokenKind.whitespace (span_while is_space (b ∷ bs))
    else if b == b'/' && next_is b'/' bs
    then plain s TokenKind.comment (2 + span_while not_newline (drop 1 bs))
    else if b == b'/' && next_is b'*' bs
    then closed TokenKind.comment s start 2 bs (close_block (drop 1 bs))
    else if b == b'\'' || b == b'"'
    then closed TokenKind.string_lit s start 1 bs (close_quote b false bs)
    else if b == b'`'
    then closed TokenKind.backtick_ident s start 1 bs (close_backtick false bs)
    else if b == b'$'
    then plain s TokenKind.parameter (suc (scan_name bs))
    else if b == b'*' && top s.bracket_stack
    then plain s TokenKind.path_range (suc (span_while is_range_byte bs))
    else if b == b';'
    then plain s TokenKind.semicolon 1
    else if is_ascii_digit b
    then plain s TokenKind.number (scan_number (b ∷ bs))
    else if is_ident_start b
    then plain s TokenKind.word (suc (span_while is_ident bs))
    else ok (scan_punct s b)

unfoldable pub last_byte : ℕ → Bytes → ℕ
last_byte b [] = b
last_byte b (c ∷ cs) = last_byte c cs

-- The two most recent significant bytes, kept over white space and comments.
unfoldable pub track : Lexer → Scanned → ℕ → Bytes → Lexer
track s r b bs =
    let next : Lexer = record {
      bracket_stack = r.stack;
      sig1 = last_byte b (take (r.width - 1) bs);
      sig2 = s.sig1;
    } in
    elim r.kind [
      | TokenKind.whitespace ↦ record s { bracket_stack = r.stack }
      | TokenKind.comment ↦ record s { bracket_stack = r.stack }
      | _ ↦ next
    ]

-- One round of the loop: the token pushed, and the state after it.
unfoldable pub step : Lexer → ℕ → ℕ → Bytes → Result (Token × Lexer)
step s start b bs = scan_token s start b bs >>= λ r.
    ok (record { kind = r.kind; start = start; end = start + r.width }, track s r b bs)

-- The loop, from offset `i`. The `skip` bytes that belong to the last token are passed over.
unfoldable pub lex_from : Lexer → ℕ → ℕ → Bytes → Result (List Token)
lex_from s i skip [] = ok []
lex_from s i (suc skip) (b ∷ bs) = lex_from s (suc i) skip bs
lex_from s i zero (b ∷ bs) = elim (step s i b bs) [
  | ok (t, s') ↦ lex_from s' (suc i) (t.end - suc i) bs >>= λ ts. ok (t ∷ ts)
  | err e ↦ err e
]

abbrev pub initial : Lexer
initial = record { bracket_stack = []; sig1 = 0; sig2 = 0 }

unfoldable pub lex : Bytes → Result (List Token)
unfolding lex_from step scan_token track last_byte closed scan_punct next_is is_space span_while
    close_block close_quote close_backtick scan_name scan_number not_newline is_range_byte is_ident
    is_ident_start is_ascii_digit is_ascii_alphabetic is_ascii_alphanumeric is_ascii_hexdigit
lex src = lex_from initial 0 0 src
