-- ===== src/Guard/Oracle/Numbers.antt =====
-- The text of a number makes no denied keyword of the letters in it: `0x1f`, `1_000`, `2.5e-3`.
use nexus_scout.Base.{
  ℕ, ◌+◌, ◌==◌, ◌≡◌, refl, sym, ◌∙◌, arith, subst, Bool, true, false, ◌&&◌, ◌||◌, [], ◌∷◌, ◌++◌,
  all, take, drop, take-add, Bytes, is_ascii_digit, is_ascii_hexdigit, is_ascii_alphabetic,
  is_ascii_alphanumeric, to_ascii_lower, eq_ignore_ascii_case, Bool-cases, inl, inr,
}
use nexus_scout.Guard.Lexer.{
  is_ident, next_is, span_while, is_digit_or_sep, scan_fraction, sign_width, next_is_digit,
  scan_exponent, scan_decimal, is_hex_or_sep, is_octal_or_sep, scan_number,
}
use nexus_scout.Guard.Oracle.Code.{
  code-ident, Clean, Clean-nil, Clean-append, Clean-ident, Clean-quiet, span_while-all, all-weaken,
  code-quiet, Settled,
}
use nexus_scout.Guard.Oracle.Runs.{is_harmless, is_glue, harmless-denied_append}
use nexus_scout.Guard.Oracle.{trim_digits}
use nexus_scout.Guard.Rules.{denied_keywords, in_table}

digit_is_ident : (c : ℕ) → is_digit_or_sep c ≡ true → is_ident c ≡ true
unfolding is_digit_or_sep is_ident is_ascii_alphanumeric
digit_is_ident c h = ground arith

hex_is_ident : (c : ℕ) → is_hex_or_sep c ≡ true → is_ident c ≡ true
unfolding is_hex_or_sep is_ident is_ascii_alphanumeric is_ascii_hexdigit is_ascii_alphabetic
    is_ascii_digit
hex_is_ident c h = ground arith

octal_is_ident : (c : ℕ) → is_octal_or_sep c ≡ true → is_ident c ≡ true
unfolding is_octal_or_sep is_ident is_ascii_alphanumeric is_ascii_alphabetic is_ascii_digit
octal_is_ident c h = ground arith

digits_harmless : (w : Bytes) → all is_digit_or_sep w ≡ true → is_harmless w ≡ true
unfolding trim_digits is_digit_or_sep to_ascii_lower is_ascii_digit
digits_harmless [] h = refl
digits_harmless (c ∷ w) h = ground (arith, digits_harmless w)

Clean-digits : (bs : Bytes) → Clean (take (span_while is_digit_or_sep bs) bs)
Clean-digits bs =
    let w = take (span_while is_digit_or_sep bs) bs in
    let h = span_while-all is_digit_or_sep bs in
    Clean-ident w (all-weaken is_digit_or_sep is_ident w digit_is_ident h) (digits_harmless w h)

Clean-point : (c : ℕ) → (c == b'.') ≡ true → Clean (c ∷ [])
unfolding is_ident is_ascii_alphanumeric is_ascii_alphabetic is_ascii_digit
Clean-point c h = Clean-quiet c (ground arith) (ground arith) (ground arith)

Clean-fraction : (bs : Bytes) → Clean (take (scan_fraction bs) bs)
unfolding scan_fraction
Clean-fraction [] = Clean-nil
Clean-fraction (p ∷ []) = Clean-nil
Clean-fraction (p ∷ d ∷ bs) = elim (Bool-cases (p == b'.' && is_ascii_digit d)) [
  | inl joins ↦
      rw joins (Clean-append (p ∷ []) _ (Clean-point p (ground arith)) (Clean-digits (d ∷ bs)))
  | inr other ↦ rw other Clean-nil
]

abbrev is_exponent : ℕ → Bool
is_exponent e = e == b'e' || e == b'E'

exponent_is_ident : (e : ℕ) → is_exponent e ≡ true → is_ident e ≡ true
unfolding is_ident is_ascii_alphanumeric is_ascii_alphabetic
exponent_is_ident e h = ground arith

exponent_denied :
    (e : ℕ) → is_exponent e ≡ true → in_table (trim_digits (e ∷ [])) denied_keywords ≡ false
unfolding in_table trim_digits denied_keywords eq_ignore_ascii_case is_ascii_digit to_ascii_lower
exponent_denied e h = elim (Bool-cases (e == b'e')) [
  | inl lower ↦ let is_lower : e ≡ b'e' = ground arith in rw is_lower refl
  | inr upper ↦ let is_upper : e ≡ b'E' = ground arith in rw is_upper refl
]

Clean-signed :
    (e c : ℕ) → is_exponent e ≡ true → (c == b'+' || c == b'-') ≡ true → Clean (e ∷ c ∷ [])
unfolding is_ident is_ascii_alphanumeric is_ascii_alphabetic is_ascii_digit
Clean-signed e c h k run harmless =
    let settled : Settled (run ++ e ∷ []) c =
      (ground arith, harmless-denied_append run (e ∷ []) harmless (exponent_denied e h)) in
    record {
      landed = [];
      harmless = digits_harmless [] refl;
      passes = λ rest.
          code-ident run e (c ∷ rest) (ground arith)
          ∙ code-quiet (run ++ e ∷ []) c rest settled (ground arith) (ground arith);
    }

-- An exponent without a sign begins with `e` and a digit.
unsigned_harmless :
    (e d : ℕ) (w : Bytes)
    → is_exponent e ≡ true
    → is_ascii_digit d ≡ true
    → is_harmless (e ∷ d ∷ w) ≡ true
unfolding trim_digits is_ascii_digit
unsigned_harmless e d w h k = ground arith

take-span_while :
    (p : ℕ → Bool) (d : ℕ) (bs : Bytes)
    → p d ≡ true
    → take (span_while p (d ∷ bs)) (d ∷ bs) ≡ d ∷ take (span_while p bs) bs
unfolding span_while
take-span_while p d bs h = rw h refl

Clean-unsigned :
    (e : ℕ) (bs : Bytes)
    → is_exponent e ≡ true
    → next_is_digit bs ≡ true
    → Clean (e ∷ take (span_while is_digit_or_sep bs) bs)
unfolding next_is_digit is_digit_or_sep
Clean-unsigned e [] h k = absurd (ground arith)
Clean-unsigned e (d ∷ bs) h k =
    let w = take (span_while is_digit_or_sep bs) bs in
    let digits = span_while-all is_digit_or_sep bs in
    rw (take-span_while is_digit_or_sep d bs (ground arith)) (
      Clean-ident (e ∷ d ∷ w)
        (ground (
          arith,
          exponent_is_ident e,
          digit_is_ident d,
          all-weaken is_digit_or_sep is_ident w digit_is_ident digits,
        ))
        (unsigned_harmless e d w h k))

Clean-exponent : (bs : Bytes) → Clean (take (scan_exponent bs) bs)
unfolding scan_exponent sign_width next_is next_is_digit
Clean-exponent [] = Clean-nil
Clean-exponent (e ∷ []) = elim (Bool-cases (is_exponent e && false)) [
  | inl never ↦ absurd (ground arith)
  | inr other ↦ rw other Clean-nil
]
Clean-exponent (e ∷ c ∷ bs) = elim (Bool-cases (c == b'+' || c == b'-')) [
  | inl sign ↦ rw sign (elim (Bool-cases (is_exponent e && next_is_digit bs)) [
    | inl joins ↦ rw joins (
        subst Clean (sym (take-add 2 (span_while is_digit_or_sep bs) (e ∷ c ∷ bs)))
          (Clean-append (e ∷ c ∷ []) _ (Clean-signed e c (ground arith) sign) (Clean-digits bs)))
    | inr other ↦ rw other Clean-nil
  ])
  | inr plain ↦ rw plain (elim (Bool-cases (is_exponent e && next_is_digit (c ∷ bs))) [
    | inl joins ↦ rw joins (
        subst Clean (sym (take-add 1 (span_while is_digit_or_sep (c ∷ bs)) (e ∷ c ∷ bs)))
          (Clean-unsigned e (c ∷ bs) (ground arith) (ground arith)))
    | inr other ↦ rw other Clean-nil
  ])
]

Clean-decimal : (bs : Bytes) → Clean (take (scan_decimal bs) bs)
unfolding scan_decimal
Clean-decimal bs =
    let i = span_while is_digit_or_sep bs in
    let f = scan_fraction (drop i bs) in
    let j = i + f in
    subst Clean (sym (take-add j (scan_exponent (drop j bs)) bs)) (
      Clean-append (take j bs) (take (scan_exponent (drop j bs)) (drop j bs))
        (subst Clean (sym (take-add i f bs)) (
          Clean-append (take i bs) (take f (drop i bs)) (Clean-digits bs)
            (Clean-fraction (drop i bs))))
        (Clean-exponent (drop j bs)))

-- A prefix, `0x` or `0o`, begins no keyword.
prefixed_harmless : (x : ℕ) (w : Bytes) → is_glue x ≡ true → is_harmless (b'0' ∷ x ∷ w) ≡ true
unfolding trim_digits is_ascii_digit to_ascii_lower
prefixed_harmless x w h = ground arith

abbrev is_prefix : ℕ → Bool
is_prefix x = x == b'x' || x == b'X' || x == b'o' || x == b'O'

prefix_glue : (x : ℕ) → is_prefix x ≡ true → is_glue x ≡ true
unfolding to_ascii_lower
prefix_glue x h = ground arith

prefix_is_ident : (x : ℕ) → is_prefix x ≡ true → is_ident x ≡ true
unfolding is_ident is_ascii_alphanumeric is_ascii_alphabetic
prefix_is_ident x h = ground arith

Clean-prefixed :
    (p : ℕ → Bool) (z x : ℕ) (bs : Bytes)
    → ((c : ℕ) → p c ≡ true → is_ident c ≡ true)
    → (z == b'0') ≡ true
    → is_glue x ≡ true
    → is_ident x ≡ true
    → Clean (take (2 + span_while p bs) (z ∷ x ∷ bs))
unfolding is_digit_or_sep is_ascii_digit
Clean-prefixed p z x bs f h k l =
    let w = take (span_while p bs) bs in
    let zero_is : z ≡ b'0' = ground arith in
    subst Clean (sym (take-add 2 (span_while p bs) (z ∷ x ∷ bs))) (
      rw zero_is (
        Clean-ident (b'0' ∷ x ∷ w)
          (ground
            (arith, digit_is_ident b'0' refl, all-weaken p is_ident w f (span_while-all p bs)))
          (prefixed_harmless x w k)))

pub Clean-number : (bs : Bytes) → Clean (take (scan_number bs) bs)
unfolding scan_number
Clean-number [] = Clean-decimal []
Clean-number (z ∷ []) = Clean-decimal (z ∷ [])
Clean-number (z ∷ x ∷ bs) = elim (Bool-cases (z == b'0' && (x == b'x' || x == b'X'))) [
  | inl hex ↦ rw hex (
      Clean-prefixed is_hex_or_sep z x bs hex_is_ident (ground arith) (prefix_glue x (ground arith))
        (prefix_is_ident x (ground arith)))
  | inr other ↦ rw other (elim (Bool-cases (z == b'0' && (x == b'o' || x == b'O'))) [
    | inl octal ↦ rw octal (
        Clean-prefixed is_octal_or_sep z x bs octal_is_ident (ground arith)
          (prefix_glue x (ground arith)) (prefix_is_ident x (ground arith)))
    | inr decimal ↦ rw decimal (Clean-decimal (z ∷ x ∷ bs))
  ])
]
