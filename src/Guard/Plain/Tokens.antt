-- ===== src/Guard/Plain/Tokens.antt =====
-- crates/cypher-guard/src/tokenizer.rs: the tokens of a text that the check of the characters lets
-- through.
use nexus_scout.Base.{
  Bool-cases, is_ascii_alphabetic, ◌==◌, ◌+◌, suc, ℕ, ◌≡◌, refl, ◌∙◌, ap, arith, true, false, ◌&&◌,
  ◌||◌, [], ◌∷◌, all, Bytes, take, drop, inl, inr, Bool, if_cases, Option, none, some, List, subst,
  sym, is_ascii_digit,
}
use nexus_scout.Guard.Again.Chain.{Chained, drop_behind}
use nexus_scout.Guard.Again.Kept.{text_of}
use nexus_scout.Guard.Lexer.{
  scan_number, span_while, close_quote, TokenKind, Token, Lexer, Scanned, scan_token, scan_punct,
  closed, top, next_is, is_space, is_ident, is_ident_start, is_range_byte, text, track,
}
use nexus_scout.Guard.Plain.{code, single, double, backtick, is_plain_from, fits, next_place}
use nexus_scout.Guard.Plain.Numbers.{BareFor, BareFor-span, BareFor-scan_number}
use nexus_scout.Guard.Plain.Scans.{
  is_bare, bare-take, close_quote-single, close_quote-double, close_backtick-code, scan_name-code,
  ident_bare,
}
use nexus_scout.Guard.Reason.{Result, ok, err}
use nexus_scout.Guard.Rules.Policy.{is_clean}
use nexus_scout.Guard.Unicode.{is_plain}

-- The kinds of tokens that may hold quotes.
unfoldable pub may_quote : TokenKind → Bool
may_quote TokenKind.string_lit = true
may_quote TokenKind.backtick_ident = true
may_quote TokenKind.parameter = true
may_quote _ = false

-- A scan ends in code, behind plain bytes unless the token may hold quotes.
abbrev ReadsPlain : Bytes → Result Scanned → Type 0
ReadsPlain s (err e) = Unit
ReadsPlain s (ok r) =
    is_clean r.kind ≡ true
    → ((may_quote r.kind || all is_plain (take r.width s)) ≡ true)
      × (is_plain_from code (drop r.width s) ≡ true)

bare_token :
    (kind : TokenKind) (n : ℕ) (stack : List Bool) (s : Bytes)
    → BareFor n s
    → is_plain_from code s ≡ true
    → ReadsPlain s (ok (record { kind = kind; width = n; stack = stack }))
bare_token kind n stack s h k c =
    let (plain, later) = bare-take n s h k in (ground (arith, plain), later)

closed_token :
    (kind : TokenKind) (l : Lexer) (start b : ℕ) (bs : Bytes) (o : Option ℕ)
    → may_quote kind ≡ true
    → ((n : ℕ) → o ≡ some n → is_plain_from code (drop n bs) ≡ true)
    → ReadsPlain (b ∷ bs) (closed kind l start 1 bs o)
unfolding closed
closed_token kind l start b bs none quotes f = tt
closed_token kind l start b bs (some n) quotes f = λ c.
    let width : 1 + n ≡ suc n = omega arith in
    (ground (arith, quotes), ap (λ m. is_plain_from code (drop m (b ∷ bs))) width ∙ f n refl)

space_bare : (c : ℕ) → is_space c ≡ true → is_bare c ≡ true
unfolding is_space
space_bare c h = ground arith

range_bare : (c : ℕ) → is_range_byte c ≡ true → is_bare c ≡ true
unfolding is_range_byte is_ascii_digit
range_bare c h = ground arith

start_bare : (c : ℕ) → is_ident_start c ≡ true → is_bare c ≡ true
unfolding is_ident_start is_ascii_alphabetic
start_bare c h = ground arith

in_quotes :
    (b : ℕ) (bs : Bytes)
    → is_plain_from code (b ∷ bs) ≡ true
    → ((b ≡ b'\'') → is_plain_from (single false) bs ≡ true)
      × ((b ≡ b'"') → is_plain_from (double false) bs ≡ true)
      × ((b ≡ b'`') → is_plain_from (backtick false) bs ≡ true)
      × (is_bare b ≡ true → is_plain_from code bs ≡ true)
unfolding is_plain_from fits next_place
in_quotes b bs h = ground arith

-- A string ends in code, whichever quote it has.
string_code :
    (b : ℕ) (bs : Bytes)
    → (b == b'\'' || b == b'"') ≡ true
    → is_plain_from code (b ∷ bs) ≡ true
    → (n : ℕ) → close_quote b false bs ≡ some n
    → is_plain_from code (drop n bs) ≡ true
string_code b bs quote h n e = elim (Bool-cases (b == b'\'')) [
  | inl is_single ↦
      let q : b ≡ b'\'' = ground arith in
      close_quote-single bs n (ap (λ c. close_quote c false bs) (sym q) ∙ e)
        ((in_quotes b bs h).0 q)
  | inr other ↦
      let q : b ≡ b'"' = ground arith in
      close_quote-double bs n (ap (λ c. close_quote c false bs) (sym q) ∙ e)
        ((in_quotes b bs h).1 q)
]

comment_token :
    (l : Lexer) (start : ℕ) (bs s : Bytes) (o : Option ℕ)
    → ReadsPlain s (closed TokenKind.comment l start 2 bs o)
unfolding closed is_clean
comment_token l start bs s none = tt
comment_token l start bs s (some n) = λ c. absurd (ground arith)

scan_token-ReadsPlain :
    (l : Lexer) (start b : ℕ) (bs : Bytes)
    → is_plain_from code (b ∷ bs) ≡ true
    → ReadsPlain (b ∷ bs) (scan_token l start b bs)
unfolding scan_token scan_punct is_clean may_quote
scan_token-ReadsPlain l start b bs h =
    let P = ReadsPlain (b ∷ bs) in
    let (singles, doubles, ticks, others) = in_quotes b bs h in
    if_cases P (is_space b) _ _
      (λ _.
        bare_token TokenKind.whitespace (span_while is_space (b ∷ bs)) l.bracket_stack (b ∷ bs)
          (BareFor-span is_space (b ∷ bs) space_bare) h)
      λ h₀.
        if_cases P (b == b'/' && next_is b'/' bs) _ _ (λ _ k. absurd (ground arith))
          λ h₁.
            if_cases P (b == b'/' && next_is b'*' bs) _ _ (λ _. comment_token l start bs (b ∷ bs) _)
              λ h₂.
                if_cases P (b == b'\'' || b == b'"') _ _
                  (λ quote. closed_token _ l start b bs _ refl (string_code b bs quote h))
                  λ h₃.
                    if_cases P (b == b'`') _ _
                      (λ quote.
                        closed_token _ l start b bs _ refl
                          (λ n e. close_backtick-code false bs n e (ticks (ground arith))))
                      λ h₄.
                        if_cases P (b == b'$') _ _
                          (λ dollar _. (refl, scan_name-code bs (others (ground arith))))
                          λ h₅.
                            if_cases P (b == b'*' && top l.bracket_stack) _ _
                              (λ star.
                                bare_token TokenKind.path_range (suc (span_while is_range_byte bs))
                                  l.bracket_stack (b ∷ bs)
                                  (ground (arith, BareFor-span is_range_byte bs range_bare)) h)
                              λ h₆.
                                if_cases P (b == b';') _ _ (λ _ k. absurd (ground arith))
                                  λ h₇.
                                    if_cases P (is_ascii_digit b) _ _
                                      (λ _.
                                        bare_token TokenKind.number (scan_number (b ∷ bs))
                                          l.bracket_stack (b ∷ bs) (BareFor-scan_number (b ∷ bs)) h)
                                      λ h₈.
                                        if_cases P (is_ident_start b) _ _
                                          (λ begins.
                                            bare_token TokenKind.word (suc (span_while is_ident bs))
                                              l.bracket_stack (b ∷ bs)
                                              (ground (
                                                arith,
                                                start_bare b begins,
                                                BareFor-span is_ident bs ident_bare,
                                              ))
                                              h)
                                          λ h₉.
                                            bare_token TokenKind.punct 1 (scan_punct l b).stack
                                              (b ∷ bs) (ground arith) h

-- No byte outside quotes but plain ones.
unfoldable pub is_plain_token : Bytes → Token → Bool
is_plain_token src t = may_quote t.kind || all is_plain (text src t)

-- The tokens of a text that passes.
pub Chained-is_plain_token :
    (src : Bytes) (l : Lexer) (i : ℕ) (ts : List Token)
    → Chained src l i ts
    → all (λ t. is_clean t.kind) ts ≡ true
    → is_plain_from code (drop i src) ≡ true
    → all (is_plain_token src) ts ≡ true
unfolding is_plain_token
Chained-is_plain_token src l i [] e clean h = refl
Chained-is_plain_token src l i (t ∷ ts) (b, bs, r, e, scan, token, chain) clean h =
    let kind = ap (λ (t : Token). t.kind) token in
    let here = ap (is_plain_from code) (sym e) ∙ h in
    let (plain, later) =
      subst (ReadsPlain (b ∷ bs)) scan (scan_token-ReadsPlain l i b bs here)
        (ap is_clean (sym kind) ∙ ground arith) in
    let said : text src t ≡ take r.width (b ∷ bs) =
      ap (text src) token ∙ text_of src l i b bs r e in
    let behind = ap (is_plain_from code) (sym (drop_behind src i b r.width bs e)) ∙ later in
    ground (
      arith,
      ap may_quote kind,
      ap (all is_plain) said,
      plain,
      Chained-is_plain_token src (track l r b bs) (i + r.width) ts chain (ground arith) behind,
    )
