-- ===== src/Base/Decimal.antt =====
-- Decimal numerals: `str::parse::<u32>` on digits, and `u32`'s `Display`.
use Prim.Native.Nat.{ℕ, zero, suc, ◌+◌, ◌-◌, ◌*◌, ◌/◌, ◌%◌, ◌≤◌, ◌<◌, min}
use mathlib.Core.Path.{◌≡◌, refl}
use mathlib.Core.Bool.{true, ◌&&◌}
use mathlib.Core.List.{concat-ne-nil, [], ◌∷◌, ◌++◌}
use mathlib.Core.Logic.{◌≢◌, inl, inr}
use native.Mathlib.Omega.{arith}
use nexus_scout.Base.Ascii.{Bytes, is_ascii_digit}
use nexus_scout.Base.Lists.{all}
use nexus_scout.Base.Tests.{ltb, if◌then◌else◌, Bool-cases}

-- `u32::MAX`.
abbrev pub u32_max : ℕ
u32_max = 4294967295

-- The number that a string of digits stands for, behind the digits of `acc`.
unfoldable pub digits_value : ℕ → Bytes → ℕ
digits_value acc [] = acc
digits_value acc (b ∷ bs) = digits_value (10 * acc + (b - b'0')) bs

-- `s.parse().unwrap_or(u32::MAX)`, for a string of digits that is not empty.
unfoldable pub parse_u32 : Bytes → ℕ
unfolding digits_value
parse_u32 bs = min (digits_value 0 bs) u32_max

-- The digits of a number, with fuel.
unfoldable pub decimal_fuel : ℕ → ℕ → Bytes
decimal_fuel zero n = []
decimal_fuel (suc fuel) n =
    let rest = decimal_fuel fuel (n / 10) in
    if ltb n 10 then (b'0' + n) ∷ [] else rest ++ (b'0' + n % 10) ∷ []

-- A number has no more digits than its own size and one.
unfoldable pub decimal : ℕ → Bytes
unfolding decimal_fuel
decimal n = decimal_fuel (suc n) n

pub digits_value-append :
    (acc : ℕ) (xs ys : Bytes) → digits_value acc (xs ++ ys) ≡ digits_value (digits_value acc xs) ys
unfolding digits_value
digits_value-append acc [] ys = refl
digits_value-append acc (x ∷ xs) ys = digits_value-append (10 * acc + (x - b'0')) xs ys

digits_value-decimal_fuel : (fuel n : ℕ) → n < fuel → digits_value 0 (decimal_fuel fuel n) ≡ n
unfolding decimal_fuel
digits_value-decimal_fuel zero n h = absurd (omega arith)
digits_value-decimal_fuel (suc fuel) n h = elim (Bool-cases (ltb n 10)) [
  | inl small ↦ rw small (unfold digits_value in omega arith)
  | inr large ↦
      let bound : n / 10 < fuel = ground arith in
      rw (large, digits_value-append, digits_value-decimal_fuel fuel (n / 10) bound)
        (unfold digits_value in omega arith)
]

-- Every number is read back from its digits.
pub digits_value-decimal : (n : ℕ) → digits_value 0 (decimal n) ≡ n
unfolding decimal
digits_value-decimal n = digits_value-decimal_fuel (suc n) n (omega arith)

pub parse_u32-decimal : (n : ℕ) → n ≤ u32_max → parse_u32 (decimal n) ≡ n
unfolding parse_u32
parse_u32-decimal n h = omega (arith, digits_value-decimal n)

all-append :
    (xs ys : Bytes)
    → all is_ascii_digit (xs ++ ys) ≡ (all is_ascii_digit xs && all is_ascii_digit ys)
all-append [] ys = refl
all-append (x ∷ xs) ys = ground (arith, all-append xs ys)

decimal_fuel-digits : (fuel n : ℕ) → all is_ascii_digit (decimal_fuel fuel n) ≡ true
unfolding decimal_fuel is_ascii_digit
decimal_fuel-digits zero n = refl
decimal_fuel-digits (suc fuel) n = ground (
  arith,
  decimal_fuel-digits fuel (n / 10),
  all-append (decimal_fuel fuel (n / 10)) ((b'0' + n % 10) ∷ []),
)

pub decimal-digits : (n : ℕ) → all is_ascii_digit (decimal n) ≡ true
unfolding decimal
decimal-digits n = decimal_fuel-digits (suc n) n

pub decimal-ne-nil : (n : ℕ) → decimal n ≢ []
unfolding decimal
decimal-ne-nil n = elim (Bool-cases (ltb n 10)) [
  | inl small ↦ rw small (ground arith)
  | inr large ↦ rw large (ground (arith, concat-ne-nil (b'0' + n % 10) (decimal_fuel n (n / 10))))
]
