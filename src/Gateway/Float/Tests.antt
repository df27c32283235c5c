-- ===== src/Gateway/Float/Tests.antt =====
-- Numbers that are known to be rounded.
use nexus_scout.Base.{◌+◌, ◌*◌, ◌^◌, ◌≡◌, refl}
use nexus_scout.Gateway.Float.{one, to_f64, add, divide, half_even, round_from, round}

-- `0.1`, which is 0x1.999999999999ap-4.
tenth : divide one (to_f64 10) ≡ 7205759403792794 * 2 ^ 1018
unfolding divide to_f64 round round_from half_even
tenth = refl

-- `0.1 + 0.2` is one unit of the last place above `0.3`.
three_tenths :
    add (divide one (to_f64 10)) (divide (to_f64 2) (to_f64 10))
    ≡ divide (to_f64 3) (to_f64 10) + 2 ^ 1020
unfolding add divide to_f64 round round_from half_even
three_tenths = refl
