-- ===== src/Guard/Oracle/Handled.antt =====
-- The oracle over what one arm of the lexer scans.
use nexus_scout.Base.{
  if_cases, ℕ, suc, ◌+◌, ◌==◌, ◌≡◌, refl, arith, subst, true, false, ◌&&◌, ◌||◌, ◌∷◌, all, take,
  Bytes, is_ascii_digit, is_ascii_alphabetic, Option, none, some, is_ascii_alphanumeric,
}
use nexus_scout.Guard.Lexer.{
  TokenKind, Lexer, Scanned, is_space, is_ident, is_ident_start, is_range_byte, next_is, scan_token,
  scan_punct, closed, top,
}
use nexus_scout.Guard.Oracle.Code.{is_opener}
use nexus_scout.Guard.Oracle.Kinds.{
  PassesFirst, space_Passes, string_Passes, backtick_Passes, parameter_Passes, number_Passes,
  word_Passes, punct_Passes, word_ident,
}
use nexus_scout.Guard.Oracle.Tokens.{Open, Passes, quiet_Passes, Clean-range}
use nexus_scout.Guard.Oracle.Code.{span_while-all}
use nexus_scout.Guard.Oracle.{run_is_denied}
use nexus_scout.Guard.Reason.{Result, ok, err}
use nexus_scout.Guard.Rules.Policy.{is_clean}
use nexus_scout.Guard.Rules.{denied_keywords, in_table, is_word}

-- What the oracle makes of a token that is scanned from `b ∷ bs`: it passes over it, unless it is a
-- comment, a semicolon or a denied word.
abbrev pub Handles : Bytes → ℕ → Bytes → Result Scanned → Type 0
Handles run b bs (ok r) =
    is_clean r.kind ≡ true
    → (is_word r.kind ≡ true → in_table (take r.width (b ∷ bs)) denied_keywords ≡ false)
    → PassesFirst run (b ∷ bs) r.width
Handles run b bs (err e) = Unit

closed-Handles :
    (run : Bytes) (b : ℕ) (bs : Bytes) (kind : TokenKind) (s : Lexer) (start before : ℕ)
    (o : Option ℕ)
    → ((n : ℕ)
        → o ≡ some n
        → Handles run b bs
            (ok (record { kind = kind; width = before + n; stack = s.bracket_stack })))
    → Handles run b bs (closed kind s start before bs o)
unfolding closed
closed-Handles run b bs kind s start before none f = tt
closed-Handles run b bs kind s start before (some n) f = f n refl

closed_quote-Handles :
    (run : Bytes) (b : ℕ) (bs : Bytes) (kind : TokenKind) (s : Lexer) (start : ℕ) (o : Option ℕ)
    → ((n : ℕ) → o ≡ some n → PassesFirst run (b ∷ bs) (suc n))
    → Handles run b bs (closed kind s start 1 bs o)
closed_quote-Handles run b bs kind s start o f =
    closed-Handles run b bs kind s start 1 o (λ n e _ _.
      let width : suc n ≡ 1 + n = omega arith in subst (PassesFirst run (b ∷ bs)) width (f n e))

not_ident : (b : ℕ) → is_ascii_digit b ≡ false → is_ident_start b ≡ false → is_ident b ≡ false
unfolding is_ident is_ident_start is_ascii_alphanumeric
not_ident b h k = ground arith

digit_ident : (b : ℕ) → is_ascii_digit b ≡ true → is_ident b ≡ true
unfolding is_ident is_ascii_alphanumeric
digit_ident b h = ground arith

opener_ident : (b : ℕ) → (is_opener b || b == b'/' || b == b'*') ≡ true → is_ident b ≡ false
unfolding is_ident is_ascii_alphanumeric is_ascii_digit is_ascii_alphabetic
opener_ident b h = ground arith

pub range_Passes :
    (run : Bytes) (b : ℕ) (w : Bytes) (h : Option ℕ)
    → (b == b'*') ≡ true
    → run_is_denied run denied_keywords ≡ false
    → all is_range_byte w ≡ true
    → Passes run (b ∷ w) h
range_Passes run b w h star denied k =
    quiet_Passes run b w h (opener_ident b (ground arith), denied) (ground arith) (ground arith)
      (Clean-range w k)

-- Each arm of the scan.
pub scan_token-Handles :
    (run : Bytes) (s : Lexer) (start b : ℕ) (bs : Bytes)
    → Open run (some b)
    → Handles run b bs (scan_token s start b bs)
unfolding scan_token scan_punct is_clean is_word
scan_token-Handles run s start b bs (denied, harmless) =
    let P = Handles run b bs in
    if_cases P (is_space b) _ _ (λ space _ _. space_Passes run b bs denied space)
      λ h₀.
        if_cases P (b == b'/' && next_is b'/' bs) _ _ (λ _ k _. absurd (ground arith))
          λ h₁.
            if_cases P (b == b'/' && next_is b'*' bs) _ _
              (λ _. closed-Handles run b bs _ s start 2 _ (λ n _ k _. absurd (ground arith)))
              λ h₂.
                if_cases P (b == b'\'' || b == b'"') _ _
                  (λ quote. closed_quote-Handles run b bs _ s start _ (λ n e.
                    string_Passes run b bs n (opener_ident b (ground arith), denied) quote e))
                  λ h₃.
                    if_cases P (b == b'`') _ _
                      (λ quote. closed_quote-Handles run b bs _ s start _ (λ n e.
                        backtick_Passes run b bs n (opener_ident b (ground arith), denied) quote e))
                      λ h₄.
                        if_cases P (b == b'$') _ _
                          (λ dollar _ _.
                            parameter_Passes run b bs (opener_ident b (ground arith), denied)
                              dollar)
                          λ h₅.
                            if_cases P (b == b'*' && top s.bracket_stack) _ _
                              (λ star _ _.
                                range_Passes run b _ _ (ground arith) denied
                                  (span_while-all is_range_byte bs))
                              λ h₆.
                                if_cases P (b == b';') _ _ (λ _ k _. absurd (ground arith))
                                  λ h₇.
                                    if_cases P (is_ascii_digit b) _ _
                                      (λ digit _ _.
                                        number_Passes run b bs _
                                          (harmless (ground (arith, digit_ident b))))
                                      λ h₈.
                                        if_cases P (is_ident_start b) _ _
                                          (λ start _ allowed.
                                            word_Passes run b bs
                                              (harmless (ground (arith, word_ident b))) start
                                              (allowed refl))
                                          λ h₉ _ _.
                                            punct_Passes run b bs (not_ident b h₈ h₉, denied)
                                              (ground arith) (ground arith)
