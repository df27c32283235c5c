-- ===== src/Guard/Lexer/Tiles.antt =====
-- The tokens of a text stand one behind the other, with no gap and no overlap.
use nexus_scout.Base.{
  subst, ◌⊎◌, inl, inr, ◌∙◌, drop-drop, drop-length, take-append-drop, ℕ, zero, suc, ◌+◌, ◌-◌, ◌≤◌,
  ◌<◌, List, [], ◌∷◌, ◌++◌, ◌≡◌, refl, sym, ap, arith, length, take, drop, Bytes,
}
use nexus_scout.Guard.Lexer.Widths.{scan_token-InBounds}
use nexus_scout.Guard.Lexer.{slice, Token, Lexer, text, step, lex_from, initial, lex}
use nexus_scout.Guard.Reason.{SanitizeError, Result, ok, err, ◌>>=◌}

-- Tokens that cover the offsets from `i` to `n`, none of them empty.
abbrev pub Tiles : ℕ → List Token → ℕ → Type 0
Tiles i [] n = i ≡ n
Tiles i (t ∷ ts) n = (t.start ≡ i) × (i < t.end) × Tiles t.end ts n

abbrev TilesResult : ℕ → Result (List Token) → ℕ → Type 0
TilesResult i (ok ts) n = Tiles i ts n
TilesResult i (err e) n = Unit

abbrev pub StepInBounds : ℕ → ℕ → Result (Token × Lexer) → Type 0
StepInBounds i n (ok (t, s)) = (t.start ≡ i) × (i < t.end) × (t.end ≤ n)
StepInBounds i n (err e) = Unit

pub step-InBounds :
    (s : Lexer) (i b : ℕ) (bs : Bytes) → StepInBounds i (i + suc (length bs)) (step s i b bs)
unfolding step
step-InBounds s i b bs = ground (arith, scan_token-InBounds s i b bs)

TilesResult-cons :
    (t : Token) (i n : ℕ) (r : Result (List Token))
    → t.start ≡ i
    → i < t.end
    → TilesResult t.end r n
    → TilesResult i (r >>= λ ts. ok (t ∷ ts)) n
TilesResult-cons t i n (ok ts) e h tiles = (e, h, tiles)
TilesResult-cons t i n (err e) _ h tiles = tt

pub Step-cases :
    (r : Result (Token × Lexer))
    → ((t : Token) × (s : Lexer) × (r ≡ ok (t, s))) ⊎ ((e : SanitizeError) × (r ≡ err e))
Step-cases (ok (t, s)) = inl (t, s, refl)
Step-cases (err e) = inr (e, refl)

-- One round of the loop, where the step succeeds and where it fails.
pub lex_from-ok :
    (s : Lexer) (i b : ℕ) (bs : Bytes) (t : Token) (s' : Lexer)
    → step s i b bs ≡ ok (t, s')
    → lex_from s i zero (b ∷ bs) ≡ (lex_from s' (suc i) (t.end - suc i) bs >>= λ ts. ok (t ∷ ts))
unfolding lex_from
lex_from-ok s i b bs t s' e = rw (e, lex_from)

pub lex_from-err :
    (s : Lexer) (i b : ℕ) (bs : Bytes) (e : SanitizeError)
    → step s i b bs ≡ err e
    → lex_from s i zero (b ∷ bs) ≡ err e
unfolding lex_from
lex_from-err s i b bs e h = rw (h, lex_from)

lex_from-Tiles :
    (bs : Bytes) (s : Lexer) (i skip j n : ℕ)
    → skip ≤ length bs
    → j ≡ i + skip
    → n ≡ i + length bs
    → TilesResult j (lex_from s i skip bs) n
unfolding lex_from
lex_from-Tiles [] s i skip j n h ej en = omega arith
lex_from-Tiles (b ∷ bs) s i (suc skip) j n h ej en =
    lex_from-Tiles bs s (suc i) skip j n (omega arith) (omega arith) (omega arith)
lex_from-Tiles (b ∷ bs) s i zero j n h ej en = elim (Step-cases (step s i b bs)) [
  | inr (e, failed) ↦ rw (lex_from-err s i b bs e failed) tt
  | inl (t, s', done) ↦
      let (starts, moves, ends) = rw done at (step-InBounds s i b bs) in
      rw (lex_from-ok s i b bs t s' done) (
        TilesResult-cons t j n (lex_from s' (suc i) (t.end - suc i) bs) (omega arith) (omega arith)
          (lex_from-Tiles bs s' (suc i) (t.end - suc i) t.end n (omega arith) (omega arith)
            (omega arith)))
]

-- The texts of the tokens, put together again.
abbrev pub texts : Bytes → List Token → Bytes
texts src [] = []
texts src (t ∷ ts) = text src t ++ texts src ts

Tiles-le : (i : ℕ) (ts : List Token) (n : ℕ) → Tiles i ts n → i ≤ n
Tiles-le i [] n h = omega arith
Tiles-le i (t ∷ ts) n (e, h, tiles) = omega (arith, Tiles-le t.end ts n tiles)

-- Tokens that cover a text from `i` on have that text.
pub texts-Tiles :
    (src : Bytes) (i : ℕ) (ts : List Token) → Tiles i ts (length src) → texts src ts ≡ drop i src
unfolding text slice
texts-Tiles src i [] e = rw e (sym (drop-length src))
texts-Tiles src i (t ∷ ts) (e, h, tiles) =
    let split = take-append-drop (t.end - t.start) (drop t.start src) in
    let behind : t.start + (t.end - t.start) ≡ t.end = omega arith in
    rw (texts-Tiles src t.end ts tiles, ← e)
      (ap (λ rest. take (t.end - t.start) (drop t.start src) ++ rest)
          (sym (drop-drop (t.end - t.start) t.start src ∙ ap (λ k. drop k src) behind))
        ∙ split)

lex_Tiles : (src : Bytes) → TilesResult 0 (lex src) (length src)
unfolding lex
lex_Tiles src =
    lex_from-Tiles src initial 0 0 0 (length src) (omega arith) (omega arith) (omega arith)

-- `lex` cuts its input into tokens that follow one another from the first byte to the last, each
-- with at least one byte, and whose texts put together are the input.
pub lex-Tiles :
    (src : Bytes) (ts : List Token)
    → lex src ≡ ok ts
    → Tiles 0 ts (length src) × (texts src ts ≡ src)
lex-Tiles src ts h =
    let tiles = subst (λ r. TilesResult 0 r (length src)) h (lex_Tiles src) in
    (tiles, texts-Tiles src 0 ts tiles)
