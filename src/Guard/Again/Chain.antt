-- ===== src/Guard/Again/Chain.antt =====
-- crates/cypher-guard/src/tokenizer.rs: the tokens of a text, each with its scan and the state of the
-- lexer before it.
use nexus_scout.Base.{
  ◌≢◌, ◌↔◌, length, ◌≤◌, ◌<◌, drop-drop, ℕ, zero, ◌+◌, ◌-◌, ◌≡◌, refl, sym, ◌∙◌, ap, subst, arith,
  ◌∷◌, [], List, Bytes, drop, suc, inl, inr,
}
use nexus_scout.Guard.Lexer.{Token, Lexer, Scanned, scan_token, track, lex_from, lex, initial}
use nexus_scout.Guard.Lexer.Tiles.{lex_from-err, lex_from-ok}
use nexus_scout.Guard.Lexer.Rounds.{lex_from-skip, lex_from-at}
use nexus_scout.Guard.Oracle.Lexed.{step-ok, step-err, Scanned-cases}
use nexus_scout.Guard.Lexer.Widths.{InBounds, scan_token-InBounds}
use nexus_scout.Guard.Reason.{Result, ok, err, ◌>>=◌}

-- The tokens that the lexer makes from offset `i` on, in the state `s`.
abbrev pub Chained : Bytes → Lexer → ℕ → List Token → Type 0
Chained src s i [] = drop i src ≡ []
Chained src s i (t ∷ ts) =
    (b : ℕ) × (bs : Bytes) × (r : Scanned) × (drop i src ≡ b ∷ bs)
    × (scan_token s i b bs ≡ ok r)
    × (t ≡ record { kind = r.kind; start = i; end = i + r.width })
    × Chained src (track s r b bs) (i + r.width) ts

pub scan_token_width :
    (s : Lexer) (i b : ℕ) (bs : Bytes) (r : Scanned)
    → scan_token s i b bs ≡ ok r
    → (0 < r.width) × (r.width ≤ suc (length bs))
scan_token_width s i b bs r h = subst (InBounds (suc (length bs))) h (scan_token-InBounds s i b bs)

pub drop_width : (n b : ℕ) (bs : Bytes) → 0 < n → drop n (b ∷ bs) ≡ drop (n - 1) bs
drop_width zero b bs h = absurd (omega arith)
drop_width (suc n) b bs h = let e : n ≡ suc n - 1 = omega arith in ap (λ m. drop m bs) e

abbrev pub token_of : Scanned → ℕ → Token
token_of r i = record { kind = r.kind; start = i; end = i + r.width }

-- One round.
lex_from-scan :
    (s : Lexer) (i b : ℕ) (bs : Bytes) (r : Scanned)
    → scan_token s i b bs ≡ ok r
    → lex_from s i zero (b ∷ bs) ≡ (
        lex_from (track s r b bs) (i + r.width) zero (drop r.width (b ∷ bs)) >>= λ ts.
        ok (token_of r i ∷ ts))
lex_from-scan s i b bs r h =
    let (moves, ends) = scan_token_width s i b bs r h in
    let skip = i + r.width - suc i in
    let there : suc i + skip ≡ i + r.width = omega arith in
    let short : skip ≡ r.width - 1 = omega arith in
    let s' = track s r b bs in
    lex_from-ok s i b bs (token_of r i) s' (step-ok s i b bs r h)
    ∙ ap (λ x. x >>= λ ts. ok (token_of r i ∷ ts))
        (lex_from-skip bs s' (suc i) skip
          ∙ lex_from-at s' (suc i + skip) (i + r.width) (drop skip bs) there
          ∙ ap (λ n. lex_from s' (i + r.width) zero (drop n bs)) short
          ∙ ap (lex_from s' (i + r.width) zero) (sym (drop_width r.width b bs moves)))

pub drop_behind :
    (src : Bytes) (i b n : ℕ) (bs : Bytes)
    → drop i src ≡ b ∷ bs
    → drop n (b ∷ bs) ≡ drop (i + n) src
drop_behind src i b n bs e = ap (drop n) (sym e) ∙ drop-drop n i src

-- A chain of tokens is what the lexer makes.
Chained-lex_from :
    (src bs : Bytes) (s : Lexer) (i : ℕ) (ts : List Token)
    → drop i src ≡ bs
    → Chained src s i ts
    → lex_from s i zero bs ≡ ok ts
Chained-lex_from src bs s i [] e h = rw (sym e ∙ h) (unfold lex_from in refl)
Chained-lex_from src bs s i (t ∷ ts) e (b, bs', r, front, scan, token, chain) = rw (sym e ∙ front) (
    lex_from-scan s i b bs' r scan
    ∙ ap (λ x. x >>= λ ts. ok (token_of r i ∷ ts))
        (Chained-lex_from src (drop r.width (b ∷ bs')) (track s r b bs') (i + r.width) ts
          (sym (drop_behind src i b r.width bs' front)) chain)
    ∙ ap (λ t. ok (t ∷ ts)) (sym token))

tail_ok :
    (t u : Token) (ts : List Token) (x : Result (List Token))
    → (x >>= λ us. ok (u ∷ us)) ≡ ok (t ∷ ts)
    → (t ≡ u) × (x ≡ ok ts)
tail_ok t u ts (ok us) h = (cc, cc)
tail_ok t u ts (err e) h = absurd (ground arith)

no_tokens : (u : Token) (x : Result (List Token)) → (x >>= λ us. ok (u ∷ us)) ≢ ok []
no_tokens u (ok us) h = absurd (ground arith)
no_tokens u (err e) h = absurd (ground arith)

lex_from_nil : (s : Lexer) (i : ℕ) → lex_from s i zero [] ≡ ok []
unfolding lex_from
lex_from_nil s i = refl

-- What the first round has made.
first_round :
    (s : Lexer) (i b : ℕ) (bs : Bytes) (ts : List Token)
    → lex_from s i zero (b ∷ bs) ≡ ok ts
    → (r : Scanned) × (scan_token s i b bs ≡ ok r)
      × ((lex_from (track s r b bs) (i + r.width) zero (drop r.width (b ∷ bs)) >>= λ us.
            ok (token_of r i ∷ us))
          ≡ ok ts)
first_round s i b bs ts h = elim (Scanned-cases (scan_token s i b bs)) [
  | inr (f, failed) ↦ absurd (ground (arith, lex_from-err s i b bs f (step-err s i b bs f failed)))
  | inl (r, done) ↦ (r, done, sym (lex_from-scan s i b bs r done) ∙ h)
]

-- What the lexer makes is a chain of tokens.
lex_from-Chained :
    (src bs : Bytes) (s : Lexer) (i : ℕ) (ts : List Token)
    → drop i src ≡ bs
    → lex_from s i zero bs ≡ ok ts
    → Chained src s i ts
lex_from-Chained src [] s i [] e h = e
lex_from-Chained src [] s i (t ∷ ts) e h = absurd (ground (arith, lex_from_nil s i))
lex_from-Chained src (b ∷ bs) s i [] e h =
    let (r, done, later) = first_round s i b bs [] h in absurd (no_tokens (token_of r i) _ later)
lex_from-Chained src (b ∷ bs) s i (t ∷ ts) e h =
    let (r, done, later) = first_round s i b bs (t ∷ ts) h in
    let (same, behind) = tail_ok t (token_of r i) ts _ later in
    let chain =
      lex_from-Chained src (drop r.width (b ∷ bs)) (track s r b bs) (i + r.width) ts
        (sym (drop_behind src i b r.width bs e)) behind in
    (b, bs, r, e, done, same, chain)

-- The tokens of a text are the chain of them from its start.
pub lex-Chained : (src : Bytes) (ts : List Token) → (lex src ≡ ok ts) ↔ Chained src initial 0 ts
unfolding lex
lex-Chained src ts =
    (lex_from-Chained src src initial 0 ts refl, Chained-lex_from src src initial 0 ts refl)
