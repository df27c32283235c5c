-- ===== src/Guard/Oracle/Tokens.antt =====
-- The oracle passes over the text of each token that the classifier lets through.
use nexus_scout.Base.{
  ◌⊎◌, ℕ, ◌==◌, ◌≡◌, refl, ◌∙◌, arith, Bool, true, false, not, ◌&&◌, [], ◌∷◌, ◌++◌, all, Bytes,
  is_ascii_digit, is_ascii_alphabetic, Option, is_ascii_alphanumeric, Bool-cases, inl, inr, ◌⊎◌,
}
use nexus_scout.Guard.Lexer.{is_space, is_ident, is_range_byte}
use nexus_scout.Guard.Oracle.Code.{
  Clean, Clean-nil, Clean-append, Clean-ident, Clean-quiet, Lands, is_opener, code-quiet, Settled,
  stops,
}
use nexus_scout.Guard.Oracle.Runs.{is_harmless, harmless-denied}
use nexus_scout.Guard.Oracle.Scans.{oracle, head?}
use nexus_scout.Guard.Oracle.{trim_digits, code, run_is_denied}
use nexus_scout.Guard.Rules.{denied_keywords}

-- A run between two tokens: it is no keyword, and makes none of what follows if that continues it.
abbrev pub Open : Bytes → Option ℕ → Type 0
Open run h =
    (run_is_denied run denied_keywords ≡ false)
    × (stops is_ident h ≡ false → is_harmless run ≡ true)

harmless_Open : (run : Bytes) (h : Option ℕ) → is_harmless run ≡ true → Open run h
harmless_Open run h k = (harmless-denied run k, λ _. k)

-- A text that is passed over if what follows it begins with `h`.
pub record Passes (run w : Bytes) (h : Option ℕ) : Type 0 where
  pub landed : Bytes
  pub opens : Open landed h
  pub passes :
      (rest : Bytes) → head? rest ≡ h → oracle (code run) (w ++ rest) ≡ oracle (code landed) rest

pub Clean-Passes :
    (run w : Bytes) (h : Option ℕ) → is_harmless run ≡ true → Clean w → Passes run w h
Clean-Passes run w h harmless clean =
    let lands : Lands run w = clean run harmless in
    record {
      landed = lands.landed;
      opens = harmless_Open lands.landed h lands.harmless;
      passes = λ rest _. lands.passes rest;
    }

empty_harmless : is_harmless [] ≡ true
unfolding trim_digits
empty_harmless = refl

-- A quiet character ends the run, whatever run it is.
pub quiet_Passes :
    (run : Bytes) (b : ℕ) (w : Bytes) (h : Option ℕ)
    → Settled run b
    → is_opener b ≡ false
    → (b == b'/') ≡ false
    → Clean w
    → Passes run (b ∷ w) h
quiet_Passes run b w h settled k l clean =
    let lands : Lands [] w = clean [] empty_harmless in
    record {
      landed = lands.landed;
      opens = harmless_Open lands.landed h lands.harmless;
      passes = λ rest _. code-quiet run b (w ++ rest) settled k (ground arith) ∙ lands.passes rest;
    }

-- What a text leads to that ends in code with no run.
pub fresh_Passes :
    (run w : Bytes) (h : Option ℕ)
    → ((rest : Bytes) → head? rest ≡ h → oracle (code run) (w ++ rest) ≡ oracle (code []) rest)
    → Passes run w h
fresh_Passes run w h f = record {
  landed = [];
  opens = harmless_Open [] h empty_harmless;
  passes = f;
}

abbrev pub is_plain_byte : ℕ → Bool
is_plain_byte c = not (is_ident c) && not (is_opener c) && not (c == b'/')

pub Clean-plain : (w : Bytes) → all is_plain_byte w ≡ true → Clean w
Clean-plain [] h = Clean-nil
Clean-plain (c ∷ w) h =
    Clean-append (c ∷ []) w (Clean-quiet c (ground arith) (ground arith) (ground arith))
      (Clean-plain w (ground arith))

pub space_plain : (c : ℕ) → is_space c ≡ true → is_plain_byte c ≡ true
unfolding is_space is_ident is_ascii_alphanumeric is_ascii_alphabetic is_ascii_digit
space_plain c h = ground arith

point_plain : (c : ℕ) → (c == b'.') ≡ true → is_plain_byte c ≡ true
unfolding is_ident is_ascii_alphanumeric is_ascii_alphabetic is_ascii_digit
point_plain c h = ground arith

digit_harmless : (c : ℕ) → is_ascii_digit c ≡ true → is_harmless (c ∷ []) ≡ true
unfolding trim_digits
digit_harmless c h = rw h refl

digit_is_ident : (c : ℕ) → is_ascii_digit c ≡ true → is_ident c ≡ true
unfolding is_ident is_ascii_alphanumeric
digit_is_ident c h = ground arith

-- The bounds of a range: digits and dots.
pub Clean-range : (w : Bytes) → all is_range_byte w ≡ true → Clean w
unfolding is_range_byte
Clean-range [] h = Clean-nil
Clean-range (c ∷ w) h =
    Clean-append (c ∷ []) w (first (Bool-cases (is_ascii_digit c))) (Clean-range w (ground arith))
  where
    first : (is_ascii_digit c ≡ true) ⊎ (is_ascii_digit c ≡ false) → Clean (c ∷ [])
    first (inl digit) =
        Clean-ident (c ∷ []) (ground (arith, digit_is_ident c)) (digit_harmless c digit)
    first (inr other) = Clean-plain (c ∷ []) (ground (arith, point_plain c))
