-- ===== src/Guard/Lexer/Rounds.antt =====
-- crates/cypher-guard/src/tokenizer.rs: the loop of `lex` as it is written, with `i` set to the end of
-- each token, and with fuel. It runs out of fuel only if it makes more rounds than there are bytes.
use nexus_scout.Base.{
  ℕ, zero, suc, ◌+◌, ◌-◌, ◌≤◌, List, [], ◌∷◌, Option, none, some, ◌≡◌, refl, sym, ◌∙◌, ap, subst,
  arith, length, drop, length-drop, Bytes, inl, inr,
}
use nexus_scout.Guard.Lexer.Tiles.{
  StepInBounds, step-InBounds, Step-cases, lex_from-ok, lex_from-err,
}
use nexus_scout.Guard.Lexer.{Token, Lexer, step, lex_from, initial, lex}
use nexus_scout.Guard.Reason.{SanitizeError, Result, ok, err, ◌>>=◌}

abbrev pub with_token : Token → Option (Result (List Token)) → Option (Result (List Token))
with_token t none = none
with_token t (some r) = some (r >>= λ ts. ok (t ∷ ts))

-- `while i < bytes.len()`, on the bytes from `i` on.
unfoldable pub lex_while : ℕ → Lexer → ℕ → Bytes → Option (Result (List Token))
lex_while fuel s i [] = some (ok [])
lex_while zero s i (b ∷ bs) = none
lex_while (suc fuel) s i (b ∷ bs) = elim (step s i b bs) [
  | ok (t, s') ↦ with_token t (lex_while fuel s' t.end (drop (t.end - i) (b ∷ bs)))
  | err e ↦ some (err e)
]

lex_while-ok :
    (fuel : ℕ) (s : Lexer) (i b : ℕ) (bs : Bytes) (t : Token) (s' : Lexer)
    → step s i b bs ≡ ok (t, s')
    → lex_while (suc fuel) s i (b ∷ bs)
      ≡ with_token t (lex_while fuel s' t.end (drop (t.end - i) (b ∷ bs)))
unfolding lex_while
lex_while-ok fuel s i b bs t s' e = rw (e, lex_while)

lex_while-err :
    (fuel : ℕ) (s : Lexer) (i b : ℕ) (bs : Bytes) (e : SanitizeError)
    → step s i b bs ≡ err e
    → lex_while (suc fuel) s i (b ∷ bs) ≡ some (err e)
unfolding lex_while
lex_while-err fuel s i b bs e h = rw (h, lex_while)

pub lex_from-at :
    (s : Lexer) (i j : ℕ) (bs : Bytes) → i ≡ j → lex_from s i zero bs ≡ lex_from s j zero bs
lex_from-at s i j bs e = ap (λ k. lex_from s k zero bs) e

-- Bytes that are passed over one by one.
pub lex_from-skip :
    (bs : Bytes) (s : Lexer) (i skip : ℕ)
    → lex_from s i skip bs ≡ lex_from s (i + skip) zero (drop skip bs)
unfolding lex_from
lex_from-skip [] s i zero = refl
lex_from-skip [] s i (suc skip) = refl
lex_from-skip (b ∷ bs) s i zero = lex_from-at s i (i + zero) (b ∷ bs) (omega arith)
lex_from-skip (b ∷ bs) s i (suc skip) =
    lex_from-skip bs s (suc i) skip
    ∙ lex_from-at s (suc i + skip) (i + suc skip) (drop skip bs) (omega arith)

lex_while-lex_from :
    (fuel : ℕ) (s : Lexer) (i : ℕ) (bs : Bytes)
    → length bs ≤ fuel
    → lex_while fuel s i bs ≡ some (lex_from s i zero bs)
unfolding lex_while
lex_while-lex_from fuel s i [] h = unfold lex_from in refl
lex_while-lex_from zero s i (b ∷ bs) h = absurd (omega arith)
lex_while-lex_from (suc fuel) s i (b ∷ bs) h = elim (Step-cases (step s i b bs)) [
  | inr (e, failed) ↦
      lex_while-err fuel s i b bs e failed ∙ ap some (sym (lex_from-err s i b bs e failed))
  | inl (t, s', done) ↦
      let (starts, moves, ends) =
        subst (StepInBounds i (i + suc (length bs))) done (step-InBounds s i b bs) in
      let left : drop (t.end - i) (b ∷ bs) ≡ drop (t.end - suc i) bs =
        let more : t.end - i ≡ suc (t.end - suc i) = omega arith in
        ap (λ n. drop n (b ∷ bs)) more in
      let there : suc i + (t.end - suc i) ≡ t.end = omega arith in
      let short : length (drop (t.end - suc i) bs) ≤ fuel =
        omega (arith, length-drop (t.end - suc i) bs) in
      let k = t.end - suc i in
      lex_while-ok fuel s i b bs t s' done
      ∙ ap (λ rest. with_token t (lex_while fuel s' t.end rest)) left
      ∙ ap (with_token t) (
          lex_while-lex_from fuel s' t.end (drop k bs) short
          ∙ ap some (
              sym (
                lex_from-skip bs s' (suc i) k
                ∙ lex_from-at s' (suc i + k) t.end (drop k bs) there)))
      ∙ ap some (sym (lex_from-ok s i b bs t s' done))
]

-- The loop of the lexer ends after at most as many rounds as the text has bytes, on every text, and
-- what it ends with, the tokens or the error, is what `lex` gives.
pub lex_while-lex :
    (src : Bytes) (rounds : ℕ)
    → length src ≤ rounds
    → lex_while rounds initial 0 src ≡ some (lex src)
unfolding lex
lex_while-lex src rounds h = lex_while-lex_from rounds initial 0 src h
