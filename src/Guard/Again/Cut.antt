-- ===== src/Guard/Again/Cut.antt =====
-- crates/cypher-guard/src/tokenizer.rs: the scan loops read no further than the next star.
use nexus_scout.Base.{
  take-append-drop, take, is_ascii_hexdigit, ◌∙◌, drop-drop, sym, ap, ◌+◌, is_ascii_digit,
  if◌then◌else◌, drop, ℕ, ◌==◌, ◌≡◌, refl, arith, Bool, false, [], ◌∷◌, ◌++◌, Bytes,
}
use nexus_scout.Guard.Oracle.Scans.{head?}
use nexus_scout.Guard.Lexer.{
  is_octal_or_sep, is_hex_or_sep, sign_width, scan_decimal, next_is_digit, is_digit_or_sep, next_is,
  span_while, scan_fraction, scan_exponent, scan_number,
}

-- A text up to its first star, the star with it.
unfoldable pub upto_star : Bytes → Bytes
upto_star [] = []
upto_star (c ∷ s) = let rest = upto_star s in if c == b'*' then c ∷ [] else c ∷ rest

pub upto_star-append :
    (w s t : Bytes) → upto_star s ≡ upto_star t → upto_star (w ++ s) ≡ upto_star (w ++ t)
unfolding upto_star
upto_star-append [] s t h = h
upto_star-append (c ∷ w) s t h = ground (arith, upto_star-append w s t h)

head?-upto_star : (s : Bytes) → head? (upto_star s) ≡ head? s
unfolding upto_star
head?-upto_star [] = refl
head?-upto_star (c ∷ s) = ground arith

next_is-upto_star : (c : ℕ) (s : Bytes) → next_is c (upto_star s) ≡ next_is c s
unfolding upto_star next_is
next_is-upto_star c [] = refl
next_is-upto_star c (b ∷ s) = ground arith

span_while-upto_star :
    (p : ℕ → Bool) (s : Bytes) → p b'*' ≡ false → span_while p (upto_star s) ≡ span_while p s
unfolding upto_star span_while
span_while-upto_star p [] h = refl
span_while-upto_star p (c ∷ s) h = ground (arith, span_while-upto_star p s h)

drop-upto_star :
    (p : ℕ → Bool) (s : Bytes)
    → p b'*' ≡ false
    → drop (span_while p s) (upto_star s) ≡ upto_star (drop (span_while p s) s)
unfolding upto_star span_while
drop-upto_star p [] h = refl
drop-upto_star p (c ∷ s) h = ground (arith, drop-upto_star p s h)

star_not_sep : is_digit_or_sep b'*' ≡ false
unfolding is_digit_or_sep is_ascii_digit
star_not_sep = refl

sep-upto_star :
    (s : Bytes) → span_while is_digit_or_sep (upto_star s) ≡ span_while is_digit_or_sep s
sep-upto_star s = span_while-upto_star is_digit_or_sep s star_not_sep

scan_fraction-upto_star : (s : Bytes) → scan_fraction (upto_star s) ≡ scan_fraction s
unfolding upto_star scan_fraction is_digit_or_sep is_ascii_digit
scan_fraction-upto_star [] = refl
scan_fraction-upto_star (p ∷ []) = ground arith
scan_fraction-upto_star (p ∷ d ∷ s) = ground (arith, sep-upto_star (d ∷ s))

drop_fraction :
    (s : Bytes) → drop (scan_fraction s) (upto_star s) ≡ upto_star (drop (scan_fraction s) s)
unfolding upto_star scan_fraction is_digit_or_sep is_ascii_digit
drop_fraction [] = refl
drop_fraction (p ∷ []) = refl
drop_fraction (p ∷ d ∷ s) = ground (arith, drop-upto_star is_digit_or_sep (d ∷ s) star_not_sep)

drop_sign : (s : Bytes) → drop (sign_width s) (upto_star s) ≡ upto_star (drop (sign_width s) s)
unfolding upto_star sign_width next_is
drop_sign [] = refl
drop_sign (c ∷ s) = ground arith

next_is_digit-upto_star : (s : Bytes) → next_is_digit (upto_star s) ≡ next_is_digit s
unfolding upto_star next_is_digit
next_is_digit-upto_star [] = refl
next_is_digit-upto_star (c ∷ s) = ground arith

sign_width-upto_star : (s : Bytes) → sign_width (upto_star s) ≡ sign_width s
unfolding sign_width
sign_width-upto_star s = rw (next_is-upto_star b'+' s, next_is-upto_star b'-' s) refl

scan_exponent-upto_star : (s : Bytes) → scan_exponent (upto_star s) ≡ scan_exponent s
unfolding upto_star scan_exponent
scan_exponent-upto_star [] = refl
scan_exponent-upto_star (e ∷ s) = ground (
  arith,
  sign_width-upto_star s,
  drop_sign s,
  next_is_digit-upto_star (drop (sign_width s) s),
  sep-upto_star (drop (sign_width s) s),
)

-- What a number's fraction and exponent take from a text.
abbrev fraction_exponent : Bytes → ℕ
fraction_exponent s = scan_fraction s + scan_exponent (drop (scan_fraction s) s)

fraction_exponent-upto_star : (s : Bytes) → fraction_exponent (upto_star s) ≡ fraction_exponent s
fraction_exponent-upto_star s =
    rw
      (
        scan_fraction-upto_star s,
        drop_fraction s,
        scan_exponent-upto_star (drop (scan_fraction s) s),
      )
      refl

scan_decimal-fraction_exponent :
    (s : Bytes)
    → scan_decimal s
      ≡ span_while is_digit_or_sep s + fraction_exponent (drop (span_while is_digit_or_sep s) s)
unfolding scan_decimal
scan_decimal-fraction_exponent s =
    let n = span_while is_digit_or_sep s in
    omega (arith, ap scan_exponent (drop-drop (scan_fraction (drop n s)) n s))

scan_decimal-upto_star : (s : Bytes) → scan_decimal (upto_star s) ≡ scan_decimal s
scan_decimal-upto_star s =
    let n = span_while is_digit_or_sep s in
    rw
      (
        scan_decimal-fraction_exponent (upto_star s),
        sep-upto_star s,
        drop-upto_star is_digit_or_sep s star_not_sep,
        fraction_exponent-upto_star (drop n s),
      )
      (sym (scan_decimal-fraction_exponent s))

scan_number-upto_star : (s : Bytes) → scan_number (upto_star s) ≡ scan_number s
unfolding upto_star scan_number is_hex_or_sep is_octal_or_sep is_ascii_hexdigit is_ascii_digit
scan_number-upto_star [] = scan_decimal-upto_star []
scan_number-upto_star (z ∷ []) = ground (arith, scan_decimal-upto_star (z ∷ []))
scan_number-upto_star (z ∷ x ∷ s) = ground (
  arith,
  scan_decimal-upto_star (z ∷ x ∷ s),
  span_while-upto_star is_hex_or_sep s refl,
  span_while-upto_star is_octal_or_sep s refl,
)

-- What reads no further than the next star is the same on texts that are the same up to it.
by_star {ℓ} :
    {A : Type ℓ} (f : Bytes → A) (s t : Bytes)
    → ((u : Bytes) → f (upto_star u) ≡ f u)
    → upto_star s ≡ upto_star t
    → f s ≡ f t
by_star f s t h e = sym (h s) ∙ ap f e ∙ h t

-- A text whose front is kept is the same up to its first star, if what is behind is.
pub take-Cut :
    (n : ℕ) (s rest : Bytes)
    → upto_star rest ≡ upto_star (drop n s)
    → upto_star (take n s ++ rest) ≡ upto_star s
take-Cut n s rest e =
    upto_star-append (take n s) rest (drop n s) e ∙ ap upto_star (take-append-drop n s)

pub next_is-Cut : (c : ℕ) (s t : Bytes) → upto_star s ≡ upto_star t → next_is c s ≡ next_is c t
next_is-Cut c s t e = by_star (next_is c) s t (next_is-upto_star c) e

pub head?-Cut : (s t : Bytes) → upto_star s ≡ upto_star t → head? s ≡ head? t
head?-Cut s t e = by_star head? s t head?-upto_star e

pub span_while-Cut :
    (p : ℕ → Bool) (s t : Bytes)
    → p b'*' ≡ false
    → upto_star s ≡ upto_star t
    → span_while p s ≡ span_while p t
span_while-Cut p s t h e = by_star (span_while p) s t (λ u. span_while-upto_star p u h) e

pub scan_number-Cut : (s t : Bytes) → upto_star s ≡ upto_star t → scan_number s ≡ scan_number t
scan_number-Cut s t e = by_star scan_number s t scan_number-upto_star e
