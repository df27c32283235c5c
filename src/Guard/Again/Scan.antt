-- ===== src/Guard/Again/Scan.antt =====
-- crates/cypher-guard/src/tokenizer.rs: one round of the lexer at the place of a token that is kept.
use nexus_scout.Base.{
  is_ascii_digit, [], if◌then◌else◌, ◌∙◌, if_both, List, ℕ, ◌-◌, ◌==◌, ◌≡◌, refl, ap, arith, Bool,
  true, false, ◌&&◌, ◌||◌, ◌∷◌, ◌++◌, Bytes, take, drop, Option, none, some, suc, ◌+◌,
}
use nexus_scout.Guard.Again.Closes.{
  star_not_ident, close_quote-take, close_backtick-take, scan_name-take,
}
use nexus_scout.Guard.Again.Cut.{
  head?-Cut, next_is-Cut, span_while-Cut, scan_number-Cut, upto_star-append, next_is-Cut,
  upto_star-append, span_while-Cut, upto_star,
}
use nexus_scout.Guard.Lexer.{
  is_ident, is_ident_start, scan_name, close_backtick, close_quote, plain, next_is, TokenKind,
  Lexer, Scanned, scan_token, scan_punct, closed, top, is_space,
}
use nexus_scout.Guard.Reason.{Result, ok, err}
use nexus_scout.Guard.Rules.Policy.{is_clean}
use nexus_scout.Guard.Transforms.{is_path_range}

-- What the state of the lexer knows of a significant byte.
abbrev pub marks : ℕ → Bool × Bool × Bool
marks c = (c == b'-', c == b')', c == b'<')

-- States in which the lexer does the same.
pub record SameState (s s' : Lexer) : Type 0 where
  pub same_stack : s.bracket_stack ≡ s'.bracket_stack
  pub same_sig1 : marks s.sig1 ≡ marks s'.sig1
  pub same_sig2 : marks s.sig2 ≡ marks s'.sig2

-- The second scan makes of `bs'` what the first made of `bs`, if the token is no comment and no range
-- and its own bytes are kept.
abbrev pub Again : Bytes → Bytes → Result Scanned → Result Scanned → Type 0
Again bs bs' x' (err e) = Unit
Again bs bs' x' (ok r) =
    is_clean r.kind ≡ true
    → is_path_range r.kind ≡ false
    → (rest : Bytes) → bs' ≡ take (r.width - 1) bs ++ rest
    → upto_star rest ≡ upto_star (drop (r.width - 1) bs)
    → x' ≡ ok r

plain-Again :
    (kind : TokenKind) (m n : ℕ) (bs bs' : Bytes) (s s' : Lexer)
    → SameState s' s
    → m ≡ n
    → Again bs bs' (plain s' kind m) (plain s kind n)
plain-Again kind m n bs bs' s s' same e _ _ rest _ _ =
    let both : (m, s'.bracket_stack) ≡ (n, s.bracket_stack) =
      ap (λ k. (k, s'.bracket_stack)) e ∙ ap (λ b. (n, b)) same.same_stack in
    ap (λ (p : ℕ × List Bool). ok (record { kind = kind; width = p.0; stack = p.1 })) both

parameter-Again :
    (bs bs' : Bytes) (s s' : Lexer)
    → SameState s' s
    → Again bs bs'
        (plain s' TokenKind.parameter (suc (scan_name bs')))
        (plain s TokenKind.parameter (suc (scan_name bs)))
parameter-Again bs bs' s s' same c k rest e cut =
    let width : suc (scan_name bs) - 1 ≡ scan_name bs = omega arith in
    let kept = e ∙ ap (λ m. take m bs ++ rest) width in
    let name =
      ap scan_name kept ∙ scan_name-take bs rest (cut ∙ ap (λ m. upto_star (drop m bs)) width) in
    plain-Again _ _ _ bs bs' s s' same (ap suc name) c k rest e cut

star_not_space : is_space b'*' ≡ false
unfolding is_space
star_not_space = refl

closed-Again :
    (kind : TokenKind) (bs bs' : Bytes) (s s' : Lexer) (start start' : ℕ) (o o' : Option ℕ)
    → SameState s' s
    → ((n : ℕ)
        → o ≡ some n
        → (rest : Bytes) → bs' ≡ take n bs ++ rest
        → upto_star rest ≡ upto_star (drop n bs)
        → o' ≡ some n)
    → Again bs bs' (closed kind s' start' 1 bs' o') (closed kind s start 1 bs o)
unfolding closed
closed-Again kind bs bs' s s' start start' none o' same f = tt
closed-Again kind bs bs' s s' start start' (some n) o' same f = λ c k rest e cut.
    let width : 1 + n - 1 ≡ n = omega arith in
    let kept : o' ≡ some n =
      f n refl rest (e ∙ ap (λ m. take m bs ++ rest) width)
        (cut ∙ ap (λ m. upto_star (drop m bs)) width) in
    ap (closed kind s' start' 1 bs') kept
    ∙ plain-Again kind (1 + n) (1 + n) bs bs' s s' same refl c k rest e cut

comment-Again :
    (bs bs' : Bytes) (s : Lexer) (start : ℕ) (o : Option ℕ) (x' : Result Scanned)
    → Again bs bs' x' (closed TokenKind.comment s start 2 bs o)
unfolding closed is_clean
comment-Again bs bs' s start none x' = tt
comment-Again bs bs' s start (some n) x' = λ c. absurd (ground arith)

scan_punct-SameState : (s s' : Lexer) (b : ℕ) → SameState s' s → scan_punct s' b ≡ scan_punct s b
unfolding scan_punct
scan_punct-SameState s s' b same =
    let opens : (s'.sig1 == b'-' && (s'.sig2 == b')' || s'.sig2 == b'<'))
        ≡ (s.sig1 == b'-' && (s.sig2 == b')' || s.sig2 == b'<')) =
      ground (
        arith,
        ap (λ m. m.0) same.same_sig1,
        ap (λ m. m.1) same.same_sig2,
        ap (λ m. m.2) same.same_sig2,
      ) in
    let both : (s'.sig1 == b'-' && (s'.sig2 == b')' || s'.sig2 == b'<'), s'.bracket_stack)
        ≡ ((s.sig1 == b'-' && (s.sig2 == b')' || s.sig2 == b'<')), s.bracket_stack) =
      ap (λ k. (k, s'.bracket_stack)) opens
      ∙ ap (λ b. ((s.sig1 == b'-' && (s.sig2 == b')' || s.sig2 == b'<')), b)) same.same_stack in
    ap
      (λ (p : Bool × List Bool). record {
        kind = TokenKind.punct;
        width = 1;
        stack = if b == b'[' then p.0 ∷ p.1 else if b == b']' then drop 1 p.1 else p.1;
      })
      both

-- Every token but a comment and a range is scanned again.
pub scan_token-Again :
    (s s' : Lexer) (start start' b : ℕ) (bs bs' : Bytes)
    → SameState s' s
    → upto_star bs' ≡ upto_star bs
    → Again bs bs' (scan_token s' start' b bs') (scan_token s start b bs)
unfolding scan_token is_clean is_path_range
scan_token-Again s s' start start' b bs bs' same cut =
    let P = Again bs bs' in
    if_both P (is_space b) (is_space b) _ _ _ _ refl
      (λ space.
        plain-Again _ _ _ bs bs' s s' same
          (span_while-Cut is_space _ _ star_not_space (upto_star-append (b ∷ []) bs' bs cut)))
      λ h₀.
        if_both P (b == b'/' && next_is b'/' bs') (b == b'/' && next_is b'/' bs) _ _ _ _
          (ap (λ t. b == b'/' && t) (next_is-Cut b'/' bs' bs cut)) (λ _ k. absurd (ground arith))
          λ h₁.
            if_both P (b == b'/' && next_is b'*' bs') (b == b'/' && next_is b'*' bs) _ _ _ _
              (ap (λ t. b == b'/' && t) (next_is-Cut b'*' bs' bs cut))
              (λ _. comment-Again bs bs' s start _ _)
              λ h₂.
                if_both P (b == b'\'' || b == b'"') (b == b'\'' || b == b'"') _ _ _ _ refl
                  (λ _. closed-Again _ bs bs' s s' start start' _ _ same (λ n e rest w _.
                    ap (close_quote b false) w ∙ close_quote-take b false bs rest n e))
                  λ h₃.
                    if_both P (b == b'`') (b == b'`') _ _ _ _ refl
                      (λ _. closed-Again _ bs bs' s s' start start' _ _ same (λ n e rest w c.
                        ap (close_backtick false) w
                        ∙ close_backtick-take false bs rest n e (head?-Cut _ _ c)))
                      λ h₄.
                        if_both P (b == b'$') (b == b'$') _ _ _ _ refl
                          (λ _. parameter-Again bs bs' s s' same)
                          λ h₅.
                            if_both P (b == b'*' && top s'.bracket_stack)
                              (b == b'*' && top s.bracket_stack) _ _ _ _
                              (ap (λ t. b == b'*' && top t) same.same_stack)
                              (λ _ _ k. absurd (ground arith))
                              λ h₆.
                                if_both P (b == b';') (b == b';') _ _ _ _ refl
                                  (λ _ k. absurd (ground arith))
                                  λ h₇.
                                    if_both P (is_ascii_digit b) (is_ascii_digit b) _ _ _ _ refl
                                      (λ _. plain-Again _ _ _ bs bs' s s' same (
                                        scan_number-Cut _ _ (upto_star-append (b ∷ []) bs' bs cut)))
                                      λ h₈.
                                        if_both P (is_ident_start b) (is_ident_start b) _ _ _ _ refl
                                          (λ _. plain-Again _ _ _ bs bs' s s' same (
                                            ap suc
                                              (span_while-Cut is_ident bs' bs star_not_ident cut)))
                                          λ h₉ _ _ rest w e.
                                            ap ok (scan_punct-SameState s s' b same)
