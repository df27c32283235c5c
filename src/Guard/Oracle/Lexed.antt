-- ===== src/Guard/Oracle/Lexed.antt =====
-- The tokens of a text, each with the bytes and the scan that it came from.
use nexus_scout.Base.{
  ℕ, zero, suc, ◌+◌, ◌-◌, ◌==◌, ◌≡◌, refl, sym, ◌∙◌, ap, arith, subst, true, false, List, [], ◌∷◌,
  All, drop, drop-drop, Bytes, Option, none, some, inl, inr, ◌⊎◌,
}
use nexus_scout.Guard.Lexer.{
  TokenKind, Token, Lexer, Scanned, close_block, close_quote, close_backtick, scan_token,
  scan_punct, closed, step, lex_from, lex, initial, track,
}
use nexus_scout.Guard.Lexer.Tiles.{lex_from-ok, lex_from-err}
use nexus_scout.Guard.Reason.{Result, ok, err, SanitizeError, ◌>>=◌}
use nexus_scout.Guard.Transforms.{is_path_range}

-- The scan that a token came from.
pub record IsToken (src : Bytes) (t : Token) : Type 0 where
  pub state : Lexer
  pub first : ℕ
  pub behind : Bytes
  pub scanned : Scanned
  pub at_start : drop t.start src ≡ first ∷ behind
  pub scan : scan_token state t.start first behind ≡ ok scanned
  pub same_kind : t.kind ≡ scanned.kind
  pub same_end : t.end ≡ t.start + scanned.width

abbrev AllTokens : Bytes → Result (List Token) → Type 0
AllTokens src (ok ts) = All (IsToken src) ts
AllTokens src (err e) = Unit

AllTokens-cons :
    (src : Bytes) (t : Token) (r : Result (List Token))
    → IsToken src t
    → AllTokens src r
    → AllTokens src (r >>= λ ts. ok (t ∷ ts))
AllTokens-cons src t (ok ts) h k = (h, k)
AllTokens-cons src t (err e) h k = tt

pub Scanned-cases :
    (r : Result Scanned) → ((x : Scanned) × (r ≡ ok x)) ⊎ ((e : SanitizeError) × (r ≡ err e))
Scanned-cases (ok x) = inl (x, refl)
Scanned-cases (err e) = inr (e, refl)

pub step-ok :
    (s : Lexer) (start b : ℕ) (bs : Bytes) (r : Scanned)
    → scan_token s start b bs ≡ ok r
    → step s start b bs
      ≡ ok (record { kind = r.kind; start = start; end = start + r.width }, track s r b bs)
unfolding step
step-ok s start b bs r h = rw h refl

pub step-err :
    (s : Lexer) (start b : ℕ) (bs : Bytes) (e : SanitizeError)
    → scan_token s start b bs ≡ err e
    → step s start b bs ≡ err e
unfolding step
step-err s start b bs e h = rw h refl

drop_next : (src : Bytes) (i b : ℕ) (bs : Bytes) → drop i src ≡ b ∷ bs → drop (suc i) src ≡ bs
drop_next src i b bs h =
    let next : i + 1 ≡ suc i = omega arith in
    ap (λ n. drop n src) (sym next) ∙ sym (drop-drop 1 i src) ∙ ap (drop 1) h

lex_from-IsToken :
    (src bs : Bytes) (s : Lexer) (i skip : ℕ)
    → drop i src ≡ bs
    → AllTokens src (lex_from s i skip bs)
unfolding lex_from
lex_from-IsToken src [] s i skip h = tt
lex_from-IsToken src (b ∷ bs) s i (suc skip) h =
    lex_from-IsToken src bs s (suc i) skip (drop_next src i b bs h)
lex_from-IsToken src (b ∷ bs) s i zero h = elim (Scanned-cases (scan_token s i b bs)) [
  | inr (e, failed) ↦ rw (lex_from-err s i b bs e (step-err s i b bs e failed)) tt
  | inl (r, done) ↦
      let t : Token = record { kind = r.kind; start = i; end = i + r.width } in
      let came : IsToken src t = record {
        state = s;
        first = b;
        behind = bs;
        scanned = r;
        at_start = h;
        scan = done;
        same_kind = refl;
        same_end = refl;
      } in
      rw (lex_from-ok s i b bs t (track s r b bs) (step-ok s i b bs r done)) (
        AllTokens-cons src t _ came (
          lex_from-IsToken src bs (track s r b bs) (suc i) (t.end - suc i)
            (drop_next src i b bs h)))
]

-- Every token that `lex` makes came from a scan at its place.
pub lex-IsToken : (src : Bytes) (ts : List Token) → lex src ≡ ok ts → All (IsToken src) ts
unfolding lex
lex-IsToken src ts h = subst (AllTokens src) h (lex_from-IsToken src src initial 0 0 refl)

abbrev pub RangeStars : ℕ → Result Scanned → Type 0
RangeStars b (ok r) = is_path_range r.kind ≡ true → (b == b'*') ≡ true
RangeStars b (err e) = Unit

closed-RangeStars :
    (b : ℕ) (kind : TokenKind) (s : Lexer) (start before : ℕ) (bs : Bytes) (o : Option ℕ)
    → is_path_range kind ≡ false
    → RangeStars b (closed kind s start before bs o)
unfolding closed
closed-RangeStars b kind s start before bs none h = tt
closed-RangeStars b kind s start before bs (some n) h = λ k. absurd (ground arith)

-- A range token begins with its star.
pub scan_token-RangeStars :
    (s : Lexer) (start b : ℕ) (bs : Bytes) → RangeStars b (scan_token s start b bs)
unfolding scan_token scan_punct is_path_range
scan_token-RangeStars s start b bs = ground (
  arith,
  closed-RangeStars b TokenKind.comment s start 2 bs (close_block (drop 1 bs)) refl,
  closed-RangeStars b TokenKind.string_lit s start 1 bs (close_quote b false bs) refl,
  closed-RangeStars b TokenKind.backtick_ident s start 1 bs (close_backtick false bs) refl,
)
