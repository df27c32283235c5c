-- ===== src/Guard/Plain/Scans.antt =====
-- crates/cypher-guard/src/tokenizer.rs: where the scan loops leave the pass over the bytes.
use nexus_scout.Base.{
  ◌==◌, is_ascii_alphabetic, is_ascii_alphanumeric, Bool-cases, zero, suc, some, ℕ, ◌≡◌, refl, ◌∙◌,
  ap, sym, arith, Bool, true, false, not, ◌||◌, [], ◌∷◌, ◌++◌, all, Bytes, take, drop,
  take-append-drop, is_ascii_digit, inl, inr,
}
use nexus_scout.Guard.Plain.{
  Place, code, single, double, backtick, is_plain_from, next_place, next_quoted, fits,
}
use nexus_scout.Guard.Lexer.{
  close_quote, close_backtick, scan_quoted_name, scan_name, span_while, is_ident,
}
use nexus_scout.Guard.Unicode.{is_plain}
use nexus_scout.Guard.Oracle.Code.{span_while-all, all-weaken}
use nexus_scout.Guard.Oracle.Scans.{mapped_some, mapped_zero, one}

-- No quote.
abbrev pub is_bare : ℕ → Bool
is_bare c = not (c == b'\'' || (c == b'"' || c == b'`'))

-- A text without quotes, in code.
pub bare-append :
    (w rest : Bytes)
    → all is_bare w ≡ true
    → is_plain_from code (w ++ rest) ≡ true
    → (all is_plain w ≡ true) × (is_plain_from code rest ≡ true)
unfolding is_plain_from fits next_place
bare-append [] rest h k = (refl, k)
bare-append (c ∷ w) rest h k =
    let (plain, later) = bare-append w rest (ground arith) (ground arith) in (ground arith, later)

-- The first bytes, if none of them is a quote.
pub bare-take :
    (n : ℕ) (s : Bytes)
    → all is_bare (take n s) ≡ true
    → is_plain_from code s ≡ true
    → (all is_plain (take n s) ≡ true) × (is_plain_from code (drop n s) ≡ true)
bare-take n s h k =
    bare-append (take n s) (drop n s) h (ap (is_plain_from code) (take-append-drop n s) ∙ k)

module _ (stay : Bool → Place) (q : ℕ)
    (steps : (e : Bool) (c : ℕ) (cs : Bytes)
      → is_plain_from (stay e) (c ∷ cs) ≡ is_plain_from (next_quoted stay q e c) cs) where
  -- A string literal ends in code.
  close_quote-code :
      (skip : Bool) (bs : Bytes) (n : ℕ)
      → close_quote q skip bs ≡ some n
      → is_plain_from (stay skip) bs ≡ true
      → is_plain_from code (drop n bs) ≡ true
  unfolding close_quote next_quoted
  close_quote-code true [] n h k = absurd (ground arith)
  close_quote-code _ [] n h k = absurd (ground arith)
  close_quote-code true (c ∷ bs) zero h k = absurd (mapped_zero _ h)
  close_quote-code true (c ∷ bs) (suc n) h k =
      close_quote-code false bs n (mapped_some _ n h) (sym (steps true c bs) ∙ k)
  close_quote-code false (c ∷ bs) zero h k =
      absurd (ground (arith, mapped_zero (close_quote q (c == b'\\') bs)))
  close_quote-code false (c ∷ bs) (suc n) h k = ground (
    arith,
    steps false c bs,
    mapped_some (close_quote q (c == b'\\') bs) n,
    close_quote-code (c == b'\\') bs n,
    one n,
  )

pub close_quote-single :
    (bs : Bytes) (n : ℕ)
    → close_quote b'\'' false bs ≡ some n
    → is_plain_from (single false) bs ≡ true
    → is_plain_from code (drop n bs) ≡ true
unfolding is_plain_from next_place fits
close_quote-single bs n h k = close_quote-code single b'\'' (λ e c cs. refl) false bs n h k

pub close_quote-double :
    (bs : Bytes) (n : ℕ)
    → close_quote b'"' false bs ≡ some n
    → is_plain_from (double false) bs ≡ true
    → is_plain_from code (drop n bs) ≡ true
unfolding is_plain_from next_place fits
close_quote-double bs n h k = close_quote-code double b'"' (λ e c cs. refl) false bs n h k

pub close_backtick-code :
    (skip : Bool) (bs : Bytes) (n : ℕ)
    → close_backtick skip bs ≡ some n
    → is_plain_from (backtick skip) bs ≡ true
    → is_plain_from code (drop n bs) ≡ true
unfolding close_backtick is_plain_from next_place fits
close_backtick-code true [] n h k = absurd (ground arith)
close_backtick-code _ [] n h k = absurd (ground arith)
close_backtick-code true (c ∷ bs) zero h k = absurd (mapped_zero _ h)
close_backtick-code true (c ∷ bs) (suc n) h k = close_backtick-code false bs n (mapped_some _ n h) k
close_backtick-code false (c ∷ bs) zero h k =
    absurd (ground (arith, mapped_zero (close_backtick (c == b'`') bs)))
close_backtick-code false (c ∷ bs) (suc n) h k = ground (
  arith,
  mapped_some (close_backtick (c == b'`') bs) n,
  close_backtick-code (c == b'`') bs n,
  one n,
)

scan_quoted_name-code :
    (skip : Bool) (bs : Bytes)
    → is_plain_from (backtick skip) bs ≡ true
    → is_plain_from code (drop (scan_quoted_name skip bs) bs) ≡ true
unfolding scan_quoted_name is_plain_from next_place fits
scan_quoted_name-code true [] k = refl
scan_quoted_name-code _ [] k = refl
scan_quoted_name-code true (c ∷ bs) k = scan_quoted_name-code false bs k
scan_quoted_name-code false (c ∷ bs) k = ground (arith, scan_quoted_name-code (c == b'`') bs)

pub ident_bare : (c : ℕ) → is_ident c ≡ true → is_bare c ≡ true
unfolding is_ident is_ascii_alphanumeric is_ascii_alphabetic is_ascii_digit
ident_bare c h = ground arith

pub ident_span : (bs : Bytes) → all is_bare (take (span_while is_ident bs) bs) ≡ true
ident_span bs =
    all-weaken is_ident is_bare (take (span_while is_ident bs) bs) ident_bare
      (span_while-all is_ident bs)

quoted :
    (c : ℕ) (bs : Bytes)
    → (c == b'`') ≡ true
    → is_plain_from code (c ∷ bs) ≡ true
    → is_plain_from (backtick false) bs ≡ true
unfolding is_plain_from next_place fits
quoted c bs h k = ground arith

-- So does what follows the `$` of a parameter.
pub scan_name-code :
    (bs : Bytes) → is_plain_from code bs ≡ true → is_plain_from code (drop (scan_name bs) bs) ≡ true
unfolding scan_name
scan_name-code [] k = k
scan_name-code (c ∷ bs) k = elim (Bool-cases (c == b'`')) [
  | inl quote ↦ rw quote (scan_quoted_name-code false bs (quoted c bs quote k))
  | inr plain ↦
      rw plain ((bare-take (span_while is_ident (c ∷ bs)) (c ∷ bs) (ident_span (c ∷ bs)) k).1)
]
