-- ===== src/Gateway/Pages/Encoding.antt =====
-- Percent-encoding, against an independent decoder.
use nexus_scout.Base.{
  is_ascii_digit, is_ascii_alphabetic, is_ascii_alphanumeric, subst, sym, ◌/◌, ◌%◌, ℕ, ◌+◌, ◌-◌,
  ◌*◌, ◌<◌, ◌==◌, ◌≡◌, refl, arith, ap, ◌∙◌, Bool, true, false, ◌||◌, [], ◌∷◌, Bytes, All, all, leb,
  if◌then◌else◌, Bool-cases, inl, inr,
}
use nexus_scout.Gateway.Pages.{is_unreserved, hex_digit, urlencode}

-- The value of an upper-case hexadecimal digit.
abbrev hex_value : ℕ → ℕ
hex_value c = if leb c b'9' then c - b'0' else c - b'7'

-- The text that a percent-encoded one stands for.
unfoldable pub urldecode : Bytes → Bytes
urldecode [] = []
urldecode (c ∷ []) = c ∷ []
urldecode (c ∷ d ∷ []) = c ∷ d ∷ []
urldecode (c ∷ d ∷ e ∷ s) =
    let escaped = urldecode s in
    let plain = urldecode (d ∷ e ∷ s) in
    if c == b'%' then (16 * hex_value d + hex_value e) ∷ escaped else c ∷ plain

-- A byte of the result: one that is safe in a query string, or the sign of an escape.
abbrev pub is_safe : ℕ → Bool
is_safe b = is_unreserved b || b == b'%'

urldecode-plain : (c : ℕ) (t : Bytes) → (c == b'%') ≡ false → urldecode (c ∷ t) ≡ c ∷ urldecode t
unfolding urldecode
urldecode-plain c [] h = refl
urldecode-plain c (d ∷ []) h = refl
urldecode-plain c (d ∷ e ∷ t) h = ground arith

is_unreserved-percent : (b : ℕ) → is_unreserved b ≡ true → (b == b'%') ≡ false
unfolding is_unreserved is_ascii_alphanumeric is_ascii_alphabetic is_ascii_digit
is_unreserved-percent b h = ground arith

hex_value-hex_digit : (n : ℕ) → n < 16 → hex_value (hex_digit n) ≡ n
unfolding hex_digit
hex_value-hex_digit n h = ground arith

is_safe-hex_digit : (n : ℕ) → n < 16 → is_unreserved (hex_digit n) ≡ true
unfolding hex_digit is_unreserved is_ascii_alphanumeric is_ascii_alphabetic is_ascii_digit
is_safe-hex_digit n h = ground arith

urldecode-escape :
    (b : ℕ) (t : Bytes)
    → b < 256
    → urldecode (b'%' ∷ hex_digit (b / 16) ∷ hex_digit (b % 16) ∷ t) ≡ b ∷ urldecode t
unfolding urldecode
urldecode-escape b t h =
    let high : b / 16 < 16 = omega arith in
    let low : b % 16 < 16 = omega arith in
    let value : 16 * hex_value (hex_digit (b / 16)) + hex_value (hex_digit (b % 16)) ≡ b =
      omega (arith, hex_value-hex_digit (b / 16) high, hex_value-hex_digit (b % 16) low) in
    ap (λ c. c ∷ urldecode t) value

urlencode-plain : (b : ℕ) (s : Bytes) → is_unreserved b ≡ true → urlencode (b ∷ s) ≡ b ∷ urlencode s
unfolding urlencode
urlencode-plain b s h = ground arith

urlencode-escape :
    (b : ℕ) (s : Bytes)
    → is_unreserved b ≡ false
    → urlencode (b ∷ s) ≡ b'%' ∷ hex_digit (b / 16) ∷ hex_digit (b % 16) ∷ urlencode s
unfolding urlencode
urlencode-escape b s h = ground arith

-- The encoded text `t` is read back as `s`, and is safe.
abbrev pub IsRead : Bytes → Bytes → Type 0
IsRead s t = (urldecode t ≡ s) × (all is_safe t ≡ true)

-- Percent-encoded bytes are read back, and the encoded text has no byte but the unreserved ones and
-- the percent sign.
pub urldecode-urlencode : (s : Bytes) → All (λ b. b < 256) s → IsRead s (urlencode s)
urldecode-urlencode [] h = unfold urlencode urldecode in (refl, refl)
urldecode-urlencode (b ∷ s) h =
    let (back, safe) = urldecode-urlencode s h.1 in
    elim (Bool-cases (is_unreserved b)) [
      | inl plain ↦ subst (IsRead (b ∷ s)) (sym (urlencode-plain b s plain)) (
        urldecode-plain b (urlencode s) (is_unreserved-percent b plain) ∙ ap (◌∷◌ b) back,
        ground arith,
      )
      | inr other ↦ subst (IsRead (b ∷ s)) (sym (urlencode-escape b s other)) (
        urldecode-escape b (urlencode s) h.0 ∙ ap (◌∷◌ b) back,
        ground (
          arith,
          is_safe-hex_digit (b / 16) (omega arith),
          is_safe-hex_digit (b % 16) (omega arith),
        ),
      )
    ]
