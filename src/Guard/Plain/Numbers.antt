-- ===== src/Guard/Plain/Numbers.antt =====
-- crates/cypher-guard/src/tokenizer.rs, `scan_number`: no quote is part of a number.
use nexus_scout.Base.{
  ◌||◌, is_ascii_hexdigit, is_ascii_digit, if_cases, Bool-cases, ◌==◌, ◌+◌, suc, ℕ, ◌≡◌, refl, ◌∙◌,
  ap, arith, true, ◌&&◌, [], ◌∷◌, all, Bytes, take, drop, take-add, inl, inr, Bool,
}
use nexus_scout.Guard.Lexer.{
  span_while, scan_fraction, scan_exponent, scan_decimal, scan_number, is_digit_or_sep, sign_width,
  next_is_digit, next_is, is_hex_or_sep, is_octal_or_sep,
}
use nexus_scout.Guard.Oracle.Code.{span_while-all, all-weaken}
use nexus_scout.Guard.Oracle.Passed.{all-append}
use nexus_scout.Guard.Plain.Scans.{is_bare}

-- No quote is among the first bytes.
abbrev pub BareFor : ℕ → Bytes → Type 0
BareFor n s = all is_bare (take n s) ≡ true

pub BareFor-span :
    (p : ℕ → Bool) (s : Bytes)
    → ((c : ℕ) → p c ≡ true → is_bare c ≡ true)
    → BareFor (span_while p s) s
BareFor-span p s f = all-weaken p is_bare (take (span_while p s) s) f (span_while-all p s)

BareFor-add : (m n : ℕ) (s : Bytes) → BareFor m s → BareFor n (drop m s) → BareFor (m + n) s
BareFor-add m n s h k =
    ap (all is_bare) (take-add m n s)
    ∙ all-append is_bare (take m s) (take n (drop m s))
    ∙ ground (arith, h, k)

sep_bare : (c : ℕ) → is_digit_or_sep c ≡ true → is_bare c ≡ true
unfolding is_digit_or_sep is_ascii_digit
sep_bare c h = ground arith

hex_bare : (c : ℕ) → is_hex_or_sep c ≡ true → is_bare c ≡ true
unfolding is_hex_or_sep is_ascii_hexdigit is_ascii_digit
hex_bare c h = ground arith

octal_bare : (c : ℕ) → is_octal_or_sep c ≡ true → is_bare c ≡ true
unfolding is_octal_or_sep
octal_bare c h = ground arith

BareFor-sep : (s : Bytes) → BareFor (span_while is_digit_or_sep s) s
BareFor-sep s = BareFor-span is_digit_or_sep s sep_bare

BareFor-scan_fraction : (s : Bytes) → BareFor (scan_fraction s) s
unfolding scan_fraction
BareFor-scan_fraction [] = refl
BareFor-scan_fraction (p ∷ []) = refl
BareFor-scan_fraction (p ∷ d ∷ s) = elim (Bool-cases (p == b'.' && is_ascii_digit d)) [
  | inl joins ↦ rw joins (ground (arith, BareFor-sep (d ∷ s)))
  | inr apart ↦ rw apart refl
]

BareFor-sign_width : (s : Bytes) → BareFor (sign_width s) s
unfolding sign_width next_is
BareFor-sign_width [] = refl
BareFor-sign_width (c ∷ s) = ground arith

BareFor-scan_exponent : (s : Bytes) → BareFor (scan_exponent s) s
unfolding scan_exponent
BareFor-scan_exponent [] = refl
BareFor-scan_exponent (e ∷ s) =
    let n = sign_width s in
    let t = drop n s in
    let more : BareFor (n + span_while is_digit_or_sep t) s =
      BareFor-add n (span_while is_digit_or_sep t) s (BareFor-sign_width s) (BareFor-sep t) in
    elim (Bool-cases ((e == b'e' || e == b'E') && next_is_digit t)) [
      | inl joins ↦
          let width : suc n + span_while is_digit_or_sep t
              ≡ suc (n + span_while is_digit_or_sep t) =
            omega arith in
          rw (joins, width) (ground (arith, more))
      | inr apart ↦ rw apart refl
    ]

BareFor-scan_decimal : (s : Bytes) → BareFor (scan_decimal s) s
unfolding scan_decimal
BareFor-scan_decimal s =
    let i = span_while is_digit_or_sep s in
    let j = i + scan_fraction (drop i s) in
    BareFor-add j (scan_exponent (drop j s)) s
      (BareFor-add i (scan_fraction (drop i s)) s (BareFor-sep s)
        (BareFor-scan_fraction (drop i s)))
      (BareFor-scan_exponent (drop j s))

pub BareFor-scan_number : (s : Bytes) → BareFor (scan_number s) s
unfolding scan_number
BareFor-scan_number [] = BareFor-scan_decimal []
BareFor-scan_number (z ∷ []) = BareFor-scan_decimal (z ∷ [])
BareFor-scan_number (z ∷ x ∷ s) =
    if_cases (λ n. BareFor n (z ∷ x ∷ s)) (z == b'0' && (x == b'x' || x == b'X')) _ _
      (λ h. BareFor-add 2 _ (z ∷ x ∷ s) (ground arith) (BareFor-span is_hex_or_sep s hex_bare))
      λ h.
        if_cases (λ n. BareFor n (z ∷ x ∷ s)) (z == b'0' && (x == b'o' || x == b'O')) _ _
          (λ h.
            BareFor-add 2 _ (z ∷ x ∷ s) (ground arith) (BareFor-span is_octal_or_sep s octal_bare))
          (λ h. BareFor-scan_decimal (z ∷ x ∷ s))
