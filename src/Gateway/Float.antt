-- ===== src/Gateway/Float.antt =====
-- The `f64` that the gateway computes with: finite and not negative, in units of 2^-1074, of which every
-- such number is a multiple. Each operation rounds as IEEE 754 says, to the nearest number of 53
-- significant bits, and to the even one of two. The numbers of the gateway are far below the largest
-- `f64`, so that no operation overflows.
mod Tests
use nexus_scout.Base.{
  ℕ, zero, suc, ◌+◌, ◌-◌, ◌*◌, ◌/◌, ◌%◌, ◌^◌, Bool, true, false, leb, ltb, if◌then◌else◌,
}

abbrev pub F64 : Type 0
F64 = ℕ

-- The whole number nearest to `p / q`, and of two the even one.
unfoldable pub half_even : ℕ → ℕ → ℕ
half_even p q =
    let low = p / q in
    let rest = p % q in
    if ltb (2 * rest) q then low else if ltb q (2 * rest) then suc low else low + low % 2

-- `p / q` units, rounded to multiples of `step`, or of the first double of it with which 53 bits are
-- enough. Below the largest `f64` that is at most the 2046th.
unfoldable pub round_from : ℕ → ℕ → ℕ → ℕ → F64
unfolding half_even
round_from zero step p q = half_even p (q * step) * step
round_from (suc fuel) step p q = elim (ltb p (q * step * 9007199254740992)) [
  | true ↦ half_even p (q * step) * step
  | false ↦ round_from fuel (2 * step) p q
]

unfoldable pub round : ℕ → ℕ → F64
unfolding round_from
round p q = round_from 2046 1 p q

-- `1.0`.
abbrev pub one : F64
one = 2 ^ 1074

-- `f64::from`, and `as f64`.
unfoldable pub to_f64 : ℕ → F64
unfolding round
to_f64 n = round (n * one) 1

unfoldable pub add : F64 → F64 → F64
unfolding round
add x y = round (x + y) 1

-- The difference of numbers of which the second is no greater.
unfoldable pub subtract : F64 → F64 → F64
unfolding round
subtract x y = round (x - y) 1

unfoldable pub multiply : F64 → F64 → F64
unfolding round
multiply x y = round (x * y) one

unfoldable pub divide : F64 → F64 → F64
unfolding round
divide x y = round (x * one) y

-- `Duration::as_secs_f64`, of nanoseconds.
unfoldable pub as_secs_f64 : ℕ → F64
unfolding add divide to_f64
as_secs_f64 nanos =
    add (to_f64 (nanos / 1000000000)) (divide (to_f64 (nanos % 1000000000)) (to_f64 1000000000))
