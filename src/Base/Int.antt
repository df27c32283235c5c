-- ===== src/Base/Int.antt =====
-- `i32` as signed integers over the native numbers; `negsuc n` is -(n + 1).
use Prim.Native.Nat.{ℕ, zero, suc}
use mathlib.Core.Bool.{Bool, true, false}
use nexus_scout.Base.Tests.{◌==◌, if◌then◌else◌}

pub data ℤ : Type 0 where
  pos : ℕ → ℤ
  negsuc : ℕ → ℤ

-- `i32::MAX`; `negsuc i32_max` is `i32::MIN`.
abbrev pub i32_max : ℕ
i32_max = 2147483647

-- `a + 1`, which wraps around.
unfoldable pub i32_increment : ℤ → ℤ
i32_increment (pos n) = if n == i32_max then negsuc i32_max else pos (suc n)
i32_increment (negsuc zero) = pos 0
i32_increment (negsuc (suc n)) = negsuc n

-- `a.saturating_sub(1)`, which stops at `i32::MIN`.
unfoldable pub i32_saturating_decrement : ℤ → ℤ
i32_saturating_decrement (pos zero) = negsuc 0
i32_saturating_decrement (pos (suc n)) = pos n
i32_saturating_decrement (negsuc n) = if n == i32_max then negsuc n else negsuc (suc n)

abbrev pub is_zero : ℤ → Bool
is_zero (pos zero) = true
is_zero _ = false
