-- ===== src/Guard/Transforms/Bounded.antt =====
-- What a rewritten range says: its upper bound is within the depth.
use mathlib.Core.Option.{get_or}
use nexus_scout.Base.{
  Bool-cases, leb→le, ℕ, ◌≤◌, true, false, [], ◌∷◌, ◌++◌, Option, none, some, ◌≡◌, refl, inl, inr,
  arith, leb, all, drop, Bytes, is_ascii_digit, decimal, u32_max, parse_u32-decimal, decimal-digits,
  decimal-ne-nil,
}
use nexus_scout.Guard.Transforms.{
  Bounds, is_empty, split_dots, parse_side, parse_sides, parse_range, print_range, rebound,
  rebound_range,
}

-- Digits before the first two dots are the left side.
split_dots-digits :
    (xs ys : Bytes)
    → all is_ascii_digit xs ≡ true
    → split_dots (xs ++ (b'.' ∷ b'.' ∷ ys)) ≡ some (xs, ys)
unfolding split_dots is_ascii_digit
split_dots-digits [] ys h = refl
split_dots-digits (x ∷ xs) ys h = ground (arith, split_dots-digits xs ys)

is_empty-decimal : (n : ℕ) → is_empty (decimal n) ≡ false
is_empty-decimal n = ground (arith, decimal-ne-nil n)

parse_side-decimal : (n : ℕ) → n ≤ u32_max → parse_side (decimal n) ≡ some (some n)
unfolding parse_side
parse_side-decimal n h = rw (is_empty-decimal n, decimal-digits n, parse_u32-decimal n h)

is_empty-append : (xs : Bytes) (y : ℕ) (ys : Bytes) → is_empty (xs ++ (y ∷ ys)) ≡ false
is_empty-append [] y ys = refl
is_empty-append (x ∷ xs) y ys = refl

-- A printed range is read back.
pub parse_range-print_range :
    (lower upper : ℕ)
    → lower ≤ u32_max
    → upper ≤ u32_max
    → parse_range (drop 1 (print_range lower upper)) ≡ some (some lower, some upper)
unfolding parse_range print_range
parse_range-print_range lower upper hl hu =
    rw
      (
        is_empty-append (decimal lower) b'.' (b'.' ∷ decimal upper),
        split_dots-digits (decimal lower) (decimal upper) (decimal-digits lower),
        parse_range,
      )
      (unfold parse_sides in rw (parse_side-decimal lower hl, parse_side-decimal upper hu))

-- The range as the transform leaves it.
abbrev pub rewritten : ℕ → Bytes → Bytes
rewritten max_depth t = get_or (rebound t max_depth) t

-- The text is a range whose upper bound is there, and is within the depth.
pub record IsBounded (max_depth : ℕ) (t : Bytes) : Type 0 where
  pub lower : Option ℕ
  pub upper : ℕ
  pub reads : parse_range (drop 1 t) ≡ some (lower, some upper)
  pub shallow : upper ≤ max_depth

rebound-some :
    (max_depth : ℕ) (t : Bytes) (b : Bounds)
    → parse_range (drop 1 t) ≡ some b
    → rebound t max_depth ≡ rebound_range max_depth b
unfolding rebound
rebound-some max_depth t b e = rw e

printed-IsBounded :
    (max_depth lower : ℕ)
    → max_depth ≤ u32_max
    → lower ≤ max_depth
    → IsBounded max_depth (print_range lower max_depth)
printed-IsBounded max_depth lower h k = record {
  lower = some lower;
  upper = max_depth;
  reads = parse_range-print_range lower max_depth (omega arith) h;
  shallow = omega arith;
}

-- Every range that is well formed has an upper bound within the depth after the rewrite.
pub rewritten-IsBounded :
    (max_depth : ℕ) (t : Bytes) (b : Bounds)
    → max_depth ≤ u32_max
    → parse_range (drop 1 t) ≡ some b
    → IsBounded max_depth (rewritten max_depth t)
rewritten-IsBounded max_depth t (lower, none) h e =
    rw (rebound-some max_depth t _ e)
      (unfold rebound_range in printed-IsBounded max_depth _ h (omega arith))
rewritten-IsBounded max_depth t (lower, some u) h e = rw (rebound-some max_depth t _ e) (
    unfold rebound_range in
    elim (Bool-cases (leb u max_depth)) [
      | inl within ↦
          rw within (record { lower = lower; upper = u; reads = e; shallow = leb→le _ _ within })
      | inr deep ↦ rw deep (printed-IsBounded max_depth _ h (omega arith))
    ])

-- A bounded range is left alone.
pub rebound-IsBounded :
    (max_depth : ℕ) (t : Bytes) → IsBounded max_depth t → rebound t max_depth ≡ none
rebound-IsBounded max_depth t r =
    rw (rebound-some max_depth t _ r.reads) (unfold rebound_range in ground (arith, r.shallow))
