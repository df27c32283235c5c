-- ===== src/Guard/Again/Closes.antt =====
-- crates/cypher-guard/src/tokenizer.rs: the scans for a closing quote find it again where only what is
-- behind the token has changed.
use mathlib.Core.Option
use nexus_scout.Base.{
  sym, is_ascii_digit, ◌∙◌, is_ascii_alphabetic, is_ascii_alphanumeric, inr, inl, Bool-cases, ap, ℕ,
  zero, suc, ◌==◌, ◌≡◌, refl, arith, Bool, true, false, [], ◌∷◌, ◌++◌, Bytes, some, take, drop,
}
use nexus_scout.Guard.Again.Cut.{next_is-Cut, take-Cut, upto_star, head?-Cut, span_while-Cut}
use nexus_scout.Guard.Lexer.{
  is_ident, next_is, span_while, close_quote, close_backtick, scan_quoted_name, scan_name,
}
use nexus_scout.Guard.Oracle.Scans.{head?, mapped_some, mapped_zero, one, empty_end, next_is-take}

pub close_quote-take :
    (q : ℕ) (skip : Bool) (bs rest : Bytes) (n : ℕ)
    → close_quote q skip bs ≡ some n
    → close_quote q skip (take n bs ++ rest) ≡ some n
unfolding close_quote
close_quote-take q true [] rest n h = absurd (ground arith)
close_quote-take q _ [] rest n h = absurd (ground arith)
close_quote-take q true (c ∷ bs) rest zero h = absurd (mapped_zero _ h)
close_quote-take q true (c ∷ bs) rest (suc n) h =
    ap (Option.map suc) (close_quote-take q false bs rest n (mapped_some _ n h))
close_quote-take q false (c ∷ bs) rest zero h =
    absurd (ground (arith, mapped_zero (close_quote q (c == b'\\') bs)))
close_quote-take q false (c ∷ bs) rest (suc n) h = ground (
  arith,
  mapped_some (close_quote q (c == b'\\') bs) n,
  close_quote-take q (c == b'\\') bs rest n,
  one n,
)

pub close_backtick-take :
    (skip : Bool) (bs rest : Bytes) (n : ℕ)
    → close_backtick skip bs ≡ some n
    → head? rest ≡ head? (drop n bs)
    → close_backtick skip (take n bs ++ rest) ≡ some n
unfolding close_backtick
close_backtick-take true [] rest n h k = absurd (ground arith)
close_backtick-take _ [] rest n h k = absurd (ground arith)
close_backtick-take true (c ∷ bs) rest zero h k = absurd (mapped_zero _ h)
close_backtick-take true (c ∷ bs) rest (suc n) h k =
    ap (Option.map suc) (close_backtick-take false bs rest n (mapped_some _ n h) k)
close_backtick-take false (c ∷ bs) rest zero h k =
    absurd (ground (arith, mapped_zero (close_backtick (c == b'`') bs)))
close_backtick-take false (c ∷ bs) rest (suc n) h k = ground (
  arith,
  mapped_some (close_backtick (c == b'`') bs) n,
  close_backtick-take (c == b'`') bs rest n,
  one n,
  next_is-take n bs rest (next_is b'`' bs) k refl,
)

scan_quoted_name-take :
    (skip : Bool) (bs rest : Bytes)
    → head? rest ≡ head? (drop (scan_quoted_name skip bs) bs)
    → scan_quoted_name skip (take (scan_quoted_name skip bs) bs ++ rest) ≡ scan_quoted_name skip bs
unfolding scan_quoted_name
scan_quoted_name-take true [] rest k = rw (empty_end rest k) refl
scan_quoted_name-take skip [] rest k = rw (empty_end rest k) refl
scan_quoted_name-take true (c ∷ bs) rest k = ap suc (scan_quoted_name-take false bs rest k)
scan_quoted_name-take false (c ∷ bs) rest k = ground (
  arith,
  scan_quoted_name-take (c == b'`') bs rest,
  next_is-take (scan_quoted_name (c == b'`') bs) bs rest (next_is b'`' bs),
)

pub star_not_ident : is_ident b'*' ≡ false
unfolding is_ident is_ascii_alphanumeric is_ascii_alphabetic is_ascii_digit
star_not_ident = refl

next_is_first : (c : ℕ) (bs : Bytes) → (c == b'`') ≡ false → next_is b'`' (c ∷ bs) ≡ false
unfolding next_is
next_is_first c bs h = h

scan_name-plain : (s : Bytes) → next_is b'`' s ≡ false → scan_name s ≡ span_while is_ident s
unfolding scan_name next_is span_while
scan_name-plain [] h = refl
scan_name-plain (c ∷ s) h = ground arith

-- What follows the `$` of a parameter is read again.
pub scan_name-take :
    (bs rest : Bytes)
    → upto_star rest ≡ upto_star (drop (scan_name bs) bs)
    → scan_name (take (scan_name bs) bs ++ rest) ≡ scan_name bs
unfolding scan_name
scan_name-take [] rest e = rw (empty_end rest (head?-Cut rest [] e)) refl
scan_name-take (c ∷ bs) rest e = elim (Bool-cases (c == b'`')) [
  | inl quote ↦
      let e' : upto_star rest ≡ upto_star (drop (scan_quoted_name false bs) bs) = ground arith in
      rw (quote) (ground (arith, scan_quoted_name-take false bs rest (head?-Cut rest _ e')))
  | inr plain ↦
      let n = span_while is_ident (c ∷ bs) in
      let name : scan_name (c ∷ bs) ≡ n = scan_name-plain (c ∷ bs) (next_is_first c bs plain) in
      let cut = take-Cut n (c ∷ bs) rest (e ∙ ap (λ k. upto_star (drop k (c ∷ bs))) name) in
      ap (λ k. scan_name (take k (c ∷ bs) ++ rest)) name
      ∙ scan_name-plain (take n (c ∷ bs) ++ rest)
          (next_is-Cut b'`' _ (c ∷ bs) cut ∙ next_is_first c bs plain)
      ∙ span_while-Cut is_ident _ (c ∷ bs) star_not_ident cut
      ∙ sym name
]
