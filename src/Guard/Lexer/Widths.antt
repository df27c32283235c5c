-- ===== src/Guard/Lexer/Widths.antt =====
-- How far each scan loop moves: at least one byte, and never past the end of the input.
use mathlib.Core.Option
use nexus_scout.Base.{
  ℕ, suc, ◌+◌, ◌≤◌, ◌<◌, Bool, true, false, [], ◌∷◌, Option, none, some, ◌≡◌, refl, arith, length,
  drop, length-drop, Bytes, is_ascii_digit, ◌==◌, if◌then◌else◌,
}
use nexus_scout.Guard.Lexer.{
  not_newline, is_range_byte, TokenKind, is_octal_or_sep, sign_width, is_ident, is_hex_or_sep,
  span_while, close_block, close_quote, close_backtick, scan_quoted_name, scan_name, scan_fraction,
  scan_exponent, scan_decimal, scan_number, scan_token, Lexer, Scanned, closed, scan_punct, next_is,
  is_digit_or_sep, is_space,
}
use nexus_scout.Guard.Reason.{Result, ok, err}

pub span_while-le : (p : ℕ → Bool) (bs : Bytes) → span_while p bs ≤ length bs
unfolding span_while
span_while-le p [] = omega arith
span_while-le p (b ∷ bs) = ground (arith, span_while-le p bs)

-- a bound on a scan that may not find its end
abbrev Within : Option ℕ → ℕ → Type 0
Within none m = Unit
Within (some n) m = n ≤ m

Within-map-suc : (o : Option ℕ) (m : ℕ) → Within o m → Within (Option.map suc o) (suc m)
Within-map-suc none m h = tt
Within-map-suc (some n) m h = omega arith

close_block-Within : (bs : Bytes) → Within (close_block bs) (length bs)
unfolding close_block
close_block-Within [] = tt
close_block-Within (b ∷ []) = ground arith
close_block-Within (b ∷ c ∷ bs) =
    ground
      (arith, Within-map-suc (close_block (c ∷ bs)) (suc (length bs)) (close_block-Within (c ∷ bs)))

close_quote-Within :
    (quote : ℕ) (skip : Bool) (bs : Bytes) → Within (close_quote quote skip bs) (length bs)
unfolding close_quote
close_quote-Within quote true [] = tt
close_quote-Within quote _ [] = tt
close_quote-Within quote true (c ∷ bs) =
    Within-map-suc (close_quote quote false bs) (length bs) (close_quote-Within quote false bs)
close_quote-Within quote false (c ∷ bs) = ground (
  arith,
  Within-map-suc (close_quote quote (c == b'\\') bs) (length bs)
      (close_quote-Within quote (c == b'\\') bs),
)

close_backtick-Within : (skip : Bool) (bs : Bytes) → Within (close_backtick skip bs) (length bs)
unfolding close_backtick
close_backtick-Within true [] = tt
close_backtick-Within _ [] = tt
close_backtick-Within true (c ∷ bs) =
    Within-map-suc (close_backtick false bs) (length bs) (close_backtick-Within false bs)
close_backtick-Within false (c ∷ bs) = ground (
  arith,
  Within-map-suc (close_backtick (c == b'`') bs) (length bs) (close_backtick-Within (c == b'`') bs),
)

scan_quoted_name-le : (skip : Bool) (bs : Bytes) → scan_quoted_name skip bs ≤ length bs
unfolding scan_quoted_name
scan_quoted_name-le true [] = omega arith
scan_quoted_name-le _ [] = omega arith
scan_quoted_name-le true (c ∷ bs) = omega (arith, scan_quoted_name-le false bs)
scan_quoted_name-le false (c ∷ bs) = ground (arith, scan_quoted_name-le (c == b'`') bs)

scan_name-le : (bs : Bytes) → scan_name bs ≤ length bs
unfolding scan_name
scan_name-le [] = omega arith
scan_name-le (c ∷ bs) = ground (arith, scan_quoted_name-le false bs, span_while-le is_ident bs)

scan_fraction-le : (bs : Bytes) → scan_fraction bs ≤ length bs
unfolding scan_fraction
scan_fraction-le [] = omega arith
scan_fraction-le (p ∷ []) = omega arith
scan_fraction-le (p ∷ d ∷ bs) = ground (arith, span_while-le is_digit_or_sep bs)

sign_width-le : (bs : Bytes) → sign_width bs ≤ length bs
unfolding sign_width next_is
sign_width-le [] = omega arith
sign_width-le (b ∷ bs) = ground arith

-- a scan behind `n` bytes that are there
span_while-drop-le :
    (p : ℕ → Bool) (n : ℕ) (bs : Bytes) → n ≤ length bs → n + span_while p (drop n bs) ≤ length bs
span_while-drop-le p n bs h = omega (arith, span_while-le p (drop n bs), length-drop n bs)

exponent_if-le : (t : Bool) (k n m : ℕ) → k + n ≤ m → (if t then suc k + n else 0) ≤ suc m
exponent_if-le true k n m h = omega arith
exponent_if-le false k n m h = omega arith

scan_exponent-le : (bs : Bytes) → scan_exponent bs ≤ length bs
unfolding scan_exponent
scan_exponent-le [] = omega arith
scan_exponent-le (e ∷ bs) =
    exponent_if-le _ _ _ _
      (span_while-drop-le is_digit_or_sep (sign_width bs) bs (sign_width-le bs))

scan_decimal-le : (bs : Bytes) → scan_decimal bs ≤ length bs
unfolding scan_decimal
scan_decimal-le bs =
    let i = span_while is_digit_or_sep bs in
    let j = i + scan_fraction (drop i bs) in
    omega (
      arith,
      span_while-le is_digit_or_sep bs,
      scan_fraction-le (drop i bs),
      length-drop i bs,
      scan_exponent-le (drop j bs),
      length-drop j bs,
    )

scan_decimal_pos : (b : ℕ) (bs : Bytes) → is_ascii_digit b ≡ true → 0 < scan_decimal (b ∷ bs)
unfolding scan_decimal span_while is_digit_or_sep
scan_decimal_pos b bs h = rw h (omega arith)

-- A number takes at least its first digit, and ends within the input.
pub scan_number_bounds :
    (b : ℕ) (bs : Bytes)
    → is_ascii_digit b ≡ true
    → (0 < scan_number (b ∷ bs)) × (scan_number (b ∷ bs) ≤ suc (length bs))
unfolding scan_number
scan_number_bounds b [] h = (scan_decimal_pos b [] h, scan_decimal-le (b ∷ []))
scan_number_bounds b (x ∷ bs) h = ground (
  arith,
  scan_decimal_pos b (x ∷ bs) h,
  scan_decimal-le (b ∷ x ∷ bs),
  span_while-le is_hex_or_sep bs,
  span_while-le is_octal_or_sep bs,
)

-- a token takes at least one byte and stays within the `n` bytes that are left
abbrev pub InBounds : ℕ → Result Scanned → Type 0
InBounds n (ok r) = (0 < r.width) × (r.width ≤ n)
InBounds n (err e) = Unit

closed-InBounds :
    (kind : TokenKind) (s : Lexer) (start before n : ℕ) (bs : Bytes) (o : Option ℕ) (m : ℕ)
    → 0 < before
    → Within o m
    → before + m ≤ n
    → InBounds n (closed kind s start before bs o)
unfolding closed
closed-InBounds kind s start before n bs none m p h k = tt
closed-InBounds kind s start before n bs (some w) m p h k = (omega arith, omega arith)

behind : (c : ℕ) (bs : Bytes) → next_is c bs ≡ true → length bs ≡ suc (length (drop 1 bs))
unfolding next_is
behind c [] h = cc
behind c (b ∷ bs) h = refl

span_while_pos : (p : ℕ → Bool) (b : ℕ) (bs : Bytes) → p b ≡ true → 0 < span_while p (b ∷ bs)
unfolding span_while
span_while_pos p b bs h = rw h (omega arith)

comment_bounds :
    (c : ℕ) (bs : Bytes)
    → next_is c bs ≡ true
    → 2 + span_while not_newline (drop 1 bs) ≤ suc (length bs)
comment_bounds c bs h = omega (arith, behind c bs h, span_while-le not_newline (drop 1 bs))

block-InBounds :
    (s : Lexer) (start c : ℕ) (bs : Bytes)
    → next_is c bs ≡ true
    → InBounds (suc (length bs)) (closed TokenKind.comment s start 2 bs (close_block (drop 1 bs)))
block-InBounds s start c bs h =
    closed-InBounds _ s start 2 _ bs _ (length (drop 1 bs)) (omega arith) (close_block-Within _)
      (omega (arith, behind c bs h))

quote-InBounds :
    (s : Lexer) (start b : ℕ) (bs : Bytes)
    → InBounds (suc (length bs)) (closed TokenKind.string_lit s start 1 bs (close_quote b false bs))
quote-InBounds s start b bs =
    closed-InBounds _ s start 1 _ bs _ (length bs) (omega arith) (close_quote-Within b false bs)
      (omega arith)

backtick-InBounds :
    (s : Lexer) (start : ℕ) (bs : Bytes)
    → InBounds
        (suc (length bs))
        (closed TokenKind.backtick_ident s start 1 bs (close_backtick false bs))
backtick-InBounds s start bs =
    closed-InBounds _ s start 1 _ bs _ (length bs) (omega arith) (close_backtick-Within false bs)
      (omega arith)

-- Every token takes at least one byte, and none beyond the end of the input.
pub scan_token-InBounds :
    (s : Lexer) (start b : ℕ) (bs : Bytes) → InBounds (suc (length bs)) (scan_token s start b bs)
unfolding scan_token scan_punct
scan_token-InBounds s start b bs = ground (
  arith,
  span_while_pos is_space b bs,
  span_while-le is_space (b ∷ bs),
  comment_bounds b'/' bs,
  block-InBounds s start b'*' bs,
  quote-InBounds s start b bs,
  backtick-InBounds s start bs,
  scan_name-le bs,
  span_while-le is_range_byte bs,
  scan_number_bounds b bs,
  span_while-le is_ident bs,
)
