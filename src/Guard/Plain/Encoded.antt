-- ===== src/Guard/Plain/Encoded.antt =====
-- UTF-8: the pass over the bytes of a text is the pass over its characters.
use nexus_scout.Base.{
  ltb→lt, sym, ltb, Bool-cases, ℕ, ◌≡◌, ◌≤◌, ◌<◌, refl, ◌∙◌, ap, arith, Bool, true, false, List, [],
  ◌∷◌, ◌++◌, leb, all, Bytes, utf8, utf8_char, inl, inr, ◌⊎◌,
}
use nexus_scout.Guard.Plain.{
  Place, code, single, double, backtick, is_plain_from, next_place, next_quoted, fits,
}
use nexus_scout.Guard.Lexer.{next_is}
use nexus_scout.Guard.Unicode.{is_plain}

-- The bytes of a character that is not ASCII.
abbrev IsHigh : ℕ → Bytes → Type 0
IsHigh c w = (128 ≤ c) × (b : ℕ) × (v : Bytes) × (w ≡ b ∷ v) × (128 ≤ b) × (all (leb 128) v ≡ true)

utf8_char-cases : (c : ℕ) → ((c < 128) × (utf8_char c ≡ c ∷ [])) ⊎ IsHigh c (utf8_char c)
unfolding utf8_char
utf8_char-cases c = elim (Bool-cases (ltb c 128)) [
  | inl low ↦ inl (ltb→lt c 128 low, rw low refl)
  | inr high ↦
      let large : 128 ≤ c = ground arith in
      elim (Bool-cases (ltb c 2048)) [
        | inl two ↦ rw (high, two) (inr (large, _, _, refl, omega arith, ground arith))
        | inr more ↦ elim (Bool-cases (ltb c 65536)) [
          | inl three ↦ rw (high, more, three) (inr (large, _, _, refl, omega arith, ground arith))
          | inr four ↦ rw (high, more, four) (inr (large, _, _, refl, omega arith, ground arith))
        ]
      ]
]

next_is-utf8 : (cs : List ℕ) → next_is b'`' (utf8 cs) ≡ next_is b'`' cs
unfolding utf8 next_is
next_is-utf8 [] = refl
next_is-utf8 (c ∷ cs) = elim (utf8_char-cases c) [
  | inl (low, one) ↦ rw one refl
  | inr (high, b, v, several, h, all_high) ↦ rw several (ground arith)
]

-- Quotes, with nothing escaped.
abbrev settled : Place → Place
settled code = code
settled (single e) = single false
settled (double e) = double false
settled (backtick s) = backtick false

abbrev is_code : Place → Bool
is_code code = true
is_code _ = false

next_high :
    (p : Place) (c : ℕ) (cs : Bytes) → is_code p ≡ false → 128 ≤ c → next_place p c cs ≡ settled p
unfolding next_place next_quoted
next_high code c cs h k = absurd (ground arith)
next_high (single true) c cs h k = refl
next_high (single false) c cs h k = ground arith
next_high (double true) c cs h k = refl
next_high (double false) c cs h k = ground arith
next_high (backtick true) c cs h k = refl
next_high (backtick false) c cs h k = ground arith

fits_quoted : (p : Place) (c : ℕ) → is_code p ≡ false → fits p c ≡ true
unfolding fits
fits_quoted code c h = absurd (ground arith)
fits_quoted (single e) c h = refl
fits_quoted (double e) c h = refl
fits_quoted (backtick e) c h = refl

is_code-settled : (p : Place) → is_code (settled p) ≡ is_code p
is_code-settled code = refl
is_code-settled (single e) = refl
is_code-settled (double e) = refl
is_code-settled (backtick e) = refl

settled_twice : (p : Place) → settled (settled p) ≡ settled p
settled_twice code = refl
settled_twice (single e) = refl
settled_twice (double e) = refl
settled_twice (backtick e) = refl

high_byte :
    (p : Place) (c : ℕ) (cs : Bytes)
    → is_code p ≡ false
    → 128 ≤ c
    → is_plain_from p (c ∷ cs) ≡ is_plain_from (settled p) cs
unfolding is_plain_from
high_byte p c cs h k = rw (fits_quoted p c h, next_high p c cs h k) refl

high_bytes :
    (p : Place) (w rest : Bytes)
    → is_code p ≡ false
    → all (leb 128) w ≡ true
    → is_plain_from (settled p) (w ++ rest) ≡ is_plain_from (settled p) rest
high_bytes p [] rest h k = refl
high_bytes p (c ∷ w) rest h k =
    high_byte (settled p) c (w ++ rest) (is_code-settled p ∙ h) (ground arith)
    ∙ ap (λ q. is_plain_from q (w ++ rest)) (settled_twice p)
    ∙ high_bytes p w rest h (ground arith)

next_place-next_is :
    (p : Place) (c : ℕ) (s t : Bytes)
    → next_is b'`' s ≡ next_is b'`' t
    → next_place p c s ≡ next_place p c t
unfolding next_place
next_place-next_is code c s t h = refl
next_place-next_is (single e) c s t h = refl
next_place-next_is (double e) c s t h = refl
next_place-next_is (backtick true) c s t h = refl
next_place-next_is (backtick false) c s t h = rw h refl

-- What is read in code is ASCII.
code_low : (p : Place) (c : ℕ) → is_code p ≡ true → fits p c ≡ true → c < 128
unfolding fits is_plain
code_low code c h k = ground arith
code_low (single e) c h k = absurd (ground arith)
code_low (double e) c h k = absurd (ground arith)
code_low (backtick e) c h k = absurd (ground arith)

-- A text that passes has bytes that pass.
pub is_plain_from-utf8 :
    (p : Place) (cs : List ℕ) → is_plain_from p cs ≡ true → is_plain_from p (utf8 cs) ≡ true
unfolding is_plain_from utf8
is_plain_from-utf8 p [] h = refl
is_plain_from-utf8 p (c ∷ cs) h =
    let later : is_plain_from (next_place p c cs) (utf8 cs) ≡ true =
      is_plain_from-utf8 (next_place p c cs) cs (ground arith) in
    elim (utf8_char-cases c) [
      | inl (low, one) ↦
          rw (one, next_place-next_is p c (utf8 cs) cs (next_is-utf8 cs)) (ground arith)
      | inr (high, b, v, several, first, all_high) ↦ elim (Bool-cases (is_code p)) [
        | inl inside ↦
            let fine : fits p c ≡ true = ground arith in
            absurd (omega (arith, code_low p c inside fine))
        | inr quoted ↦
            ap (λ w. is_plain_from p (w ++ utf8 cs)) several
            ∙ high_byte p b (v ++ utf8 cs) quoted first
            ∙ high_bytes p v (utf8 cs) quoted all_high
            ∙ ap (λ q. is_plain_from q (utf8 cs)) (sym (next_high p c cs quoted high))
            ∙ later
      ]
    ]
