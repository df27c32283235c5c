-- ===== src/Guard/Oracle/Kinds.antt =====
-- The oracle over each kind of token, as the lexer scans it.
use nexus_scout.Base.{
  ℕ, suc, ◌==◌, ◌≡◌, refl, ◌∙◌, ap, arith, true, false, ◌&&◌, ◌||◌, [], ◌∷◌, ◌++◌, take, drop,
  Bytes, is_ascii_digit, is_ascii_alphabetic, Option, some, is_ascii_alphanumeric, Bool-cases, inl,
  inr,
}
use nexus_scout.Guard.Lexer.{
  is_space, is_ident, is_ident_start, next_is, span_while, close_quote, close_backtick,
  scan_quoted_name, scan_name, scan_number,
}
use nexus_scout.Guard.Oracle.Code.{
  span_while-all, span_while-stops, is_opener, code-quiet, code-quote, code-backtick, code-dollar,
  oracle-ident, oracle-name, Settled, stops, all-weaken,
}
use nexus_scout.Guard.Oracle.Numbers.{Clean-number}
use nexus_scout.Guard.Oracle.Runs.{is_harmless, harmless-denied_append}
use nexus_scout.Guard.Oracle.Scans.{
  next_is-take, backtick-skip, oracle, head?, oracle-close_quote, oracle-close_backtick,
  oracle-scan_quoted_name, next_is-head?,
}
use nexus_scout.Guard.Oracle.Tokens.{
  Passes, Clean-Passes, quiet_Passes, fresh_Passes, is_plain_byte, Clean-plain, space_plain,
}
use nexus_scout.Guard.Oracle.{name, backtick, trim_digits, code, run_is_denied}
use nexus_scout.Guard.Rules.{denied_keywords, in_table}

-- The first bytes of `s`, passed over where the rest of `s` begins what follows.
abbrev pub PassesFirst : Bytes → Bytes → ℕ → Type 0
PassesFirst run s n = Passes run (take n s) (head? (drop n s))

pub space_Passes :
    (run : Bytes) (b : ℕ) (bs : Bytes)
    → run_is_denied run denied_keywords ≡ false
    → is_space b ≡ true
    → PassesFirst run (b ∷ bs) (span_while is_space (b ∷ bs))
unfolding span_while
space_Passes run b bs h k = rw k (
    quiet_Passes run b _ _ (ground (arith, space_plain b), h) (ground (arith, space_plain b))
      (ground (arith, space_plain b))
      (Clean-plain _
        (all-weaken is_space is_plain_byte _ space_plain (span_while-all is_space bs))))

pub string_Passes :
    (run : Bytes) (b : ℕ) (bs : Bytes) (n : ℕ)
    → Settled run b
    → (b == b'\'' || b == b'"') ≡ true
    → close_quote b false bs ≡ some n
    → PassesFirst run (b ∷ bs) (suc n)
string_Passes run b bs n settled h k = fresh_Passes run _ _ (λ rest _.
    code-quote run b (take n bs ++ rest) settled h ∙ oracle-close_quote b false bs rest n k)

pub backtick_Passes :
    (run : Bytes) (b : ℕ) (bs : Bytes) (n : ℕ)
    → Settled run b
    → (b == b'`') ≡ true
    → close_backtick false bs ≡ some n
    → PassesFirst run (b ∷ bs) (suc n)
backtick_Passes run b bs n settled h k = fresh_Passes run _ _ (λ rest e.
    code-backtick run b (take n bs ++ rest) settled h ∙ oracle-close_backtick false bs rest n k e)

name_Passes :
    (bs rest : Bytes)
    → next_is b'`' bs ≡ false
    → head? rest ≡ head? (drop (scan_name bs) bs)
    → oracle name (take (scan_name bs) bs ++ rest) ≡ oracle (code []) rest
unfolding scan_name next_is
name_Passes [] rest h e = oracle-name [] rest refl (rw e refl)
name_Passes (c ∷ bs) rest h e =
    let n = span_while is_ident (c ∷ bs) in
    let e' : head? rest ≡ head? (drop n (c ∷ bs)) = ground arith in
    rw h (
      oracle-name (take n (c ∷ bs)) rest (span_while-all is_ident (c ∷ bs))
        (ap (stops is_ident) e' ∙ span_while-stops is_ident (c ∷ bs)))

quoted_Passes :
    (bs rest : Bytes)
    → next_is b'`' bs ≡ true
    → head? rest ≡ head? (drop (scan_name bs) bs)
    → oracle (backtick true) (take (scan_name bs) bs ++ rest) ≡ oracle (code []) rest
unfolding scan_name next_is
quoted_Passes [] rest h e = absurd (ground arith)
quoted_Passes (c ∷ bs) rest h e =
    let e' : head? rest ≡ head? (drop (scan_quoted_name false bs) bs) = ground arith in
    rw h (
      backtick-skip c (take (scan_quoted_name false bs) bs ++ rest)
      ∙ oracle-scan_quoted_name false bs rest e')

pub parameter_Passes :
    (run : Bytes) (b : ℕ) (bs : Bytes)
    → Settled run b
    → (b == b'$') ≡ true
    → PassesFirst run (b ∷ bs) (suc (scan_name bs))
parameter_Passes run b bs settled h = fresh_Passes run _ _ (λ rest e.
    elim (Bool-cases (next_is b'`' bs)) [
      | inl quoted ↦
          code-dollar run b _ true settled h (next_is-take (scan_name bs) bs rest true e quoted)
          ∙ quoted_Passes bs rest quoted e
      | inr bare ↦
          code-dollar run b _ false settled h (next_is-take (scan_name bs) bs rest false e bare)
          ∙ name_Passes bs rest bare e
    ])

pub number_Passes :
    (run : Bytes) (b : ℕ) (bs : Bytes) (h : Option ℕ)
    → is_harmless run ≡ true
    → Passes run (take (scan_number (b ∷ bs)) (b ∷ bs)) h
number_Passes run b bs h harmless = Clean-Passes run _ h harmless (Clean-number (b ∷ bs))

-- A word begins with no digit.
word_trim : (b : ℕ) (w : Bytes) → is_ident_start b ≡ true → trim_digits (b ∷ w) ≡ b ∷ w
unfolding trim_digits is_ident_start is_ascii_alphabetic is_ascii_digit
word_trim b w h = ground arith

pub word_ident : (b : ℕ) → is_ident_start b ≡ true → is_ident b ≡ true
unfolding is_ident is_ident_start is_ascii_alphanumeric
word_ident b h = ground arith

pub word_Passes :
    (run : Bytes) (b : ℕ) (bs : Bytes)
    → is_harmless run ≡ true
    → is_ident_start b ≡ true
    → in_table (take (suc (span_while is_ident bs)) (b ∷ bs)) denied_keywords ≡ false
    → PassesFirst run (b ∷ bs) (suc (span_while is_ident bs))
word_Passes run b bs harmless h k =
    let w = b ∷ take (span_while is_ident bs) bs in
    let stop = span_while-stops is_ident bs in
    record {
      landed = run ++ w;
      opens = (
        harmless-denied_append run w harmless
            (rw (word_trim b (take (span_while is_ident bs) bs) h) k),
        λ more. absurd (ground arith),
      );
      passes = λ rest _.
          oracle-ident run w rest (ground (arith, word_ident b, span_while-all is_ident bs));
    }

pub punct_Passes :
    (run : Bytes) (b : ℕ) (bs : Bytes)
    → Settled run b
    → is_opener b ≡ false
    → (b == b'/' && (next_is b'/' bs || next_is b'*' bs)) ≡ false
    → PassesFirst run (b ∷ bs) 1
punct_Passes run b bs settled h k = fresh_Passes run _ _ (λ rest e.
    code-quiet run b rest settled h
      (rw (next_is-head? b'/' rest bs e, next_is-head? b'*' rest bs e) k))
