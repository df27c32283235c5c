-- ===== src/Guard/Oracle/Runs.antt =====
-- Runs of digits and letters that can be no denied keyword, whatever follows them.
use nexus_scout.Base.{
  ℕ, ◌==◌, ◌≡◌, refl, ◌∙◌, ap, arith, Bool, true, false, not, ◌&&◌, ◌||◌, List, [], ◌∷◌, ◌++◌, any,
  if◌then◌else◌, Bytes, eq_ignore_ascii_case, is_ascii_digit, to_ascii_lower, Bool-cases, inl, inr,
  ◌⊎◌,
}
use nexus_scout.Guard.Oracle.{trim_digits, run_is_denied}
use nexus_scout.Guard.Rules.{denied_keywords, in_table}
use nexus_scout.Guard.Transforms.{is_empty}

-- The first letter of a number's prefix, or the separator of its digits: no keyword begins so.
abbrev pub is_glue : ℕ → Bool
is_glue c = to_ascii_lower c == b'x' || (to_ascii_lower c == b'o' || c == b'_')

-- No keyword has a digit in it, or begins with glue.
abbrev pub is_odd : Bytes → Bool
is_odd [] = false
is_odd (c ∷ s) = is_glue c || any is_ascii_digit (c ∷ s)

digit_lower :
    (c d : ℕ) → (to_ascii_lower c == to_ascii_lower d) ≡ true → is_ascii_digit c ≡ is_ascii_digit d
unfolding to_ascii_lower is_ascii_digit
digit_lower c d h = ground arith

glue_lower : (c d : ℕ) → (to_ascii_lower c == to_ascii_lower d) ≡ true → is_glue c ≡ is_glue d
unfolding to_ascii_lower
glue_lower c d h = ground arith

any_digit-eq :
    (w k : Bytes) → eq_ignore_ascii_case w k ≡ true → any is_ascii_digit w ≡ any is_ascii_digit k
unfolding eq_ignore_ascii_case
any_digit-eq [] [] h = refl
any_digit-eq [] (d ∷ k) h = absurd (ground arith)
any_digit-eq (c ∷ w) [] h = absurd (ground arith)
any_digit-eq (c ∷ w) (d ∷ k) h = ground (arith, digit_lower c d, any_digit-eq w k)

is_odd-eq : (w k : Bytes) → eq_ignore_ascii_case w k ≡ true → is_odd w ≡ is_odd k
unfolding eq_ignore_ascii_case
is_odd-eq [] [] h = refl
is_odd-eq [] (d ∷ k) h = absurd (ground arith)
is_odd-eq (c ∷ w) [] h = absurd (ground arith)
is_odd-eq (c ∷ w) (d ∷ k) h = ground (arith, glue_lower c d, digit_lower c d, any_digit-eq w k)

in_table-is_odd :
    (w : Bytes) (ks : List Bytes) → any is_odd ks ≡ false → is_odd w ≡ true → in_table w ks ≡ false
unfolding in_table
in_table-is_odd w [] h odd = refl
in_table-is_odd w (k ∷ ks) h odd = ground (arith, is_odd-eq w k, in_table-is_odd w ks)

keywords_even : any is_odd denied_keywords ≡ false
unfolding denied_keywords is_ascii_digit to_ascii_lower
keywords_even = refl

-- A run that, with the digits at its front taken away, is empty or odd.
abbrev pub is_harmless : Bytes → Bool
is_harmless run = is_empty (trim_digits run) || is_odd (trim_digits run)

any-append : (p : ℕ → Bool) (a b : Bytes) → any p (a ++ b) ≡ (any p a || any p b)
any-append p [] b = refl
any-append p (x ∷ a) b = ground (arith, any-append p a b)

is_odd-append : (a b : Bytes) → is_odd a ≡ true → is_odd (a ++ b) ≡ true
is_odd-append [] b h = absurd (ground arith)
is_odd-append (c ∷ a) b h = ground (arith, any-append is_ascii_digit a b)

trim_digits-append :
    (a b : Bytes)
    → trim_digits (a ++ b)
      ≡ (if is_empty (trim_digits a) then trim_digits b else trim_digits a ++ b)
unfolding trim_digits
trim_digits-append [] b = refl
trim_digits-append (c ∷ a) b = ground (arith, trim_digits-append a b)

empty_denied : in_table [] denied_keywords ≡ false
unfolding in_table denied_keywords eq_ignore_ascii_case
empty_denied = refl

denied_in_table :
    (run : Bytes)
    → run_is_denied run denied_keywords
      ≡ (not (is_empty run) && in_table (trim_digits run) denied_keywords)
unfolding run_is_denied in_table
denied_in_table run = refl

is_empty-eq : (s : Bytes) → is_empty s ≡ true → s ≡ []
is_empty-eq [] h = refl
is_empty-eq (c ∷ s) h = absurd (ground arith)

-- What a harmless run comes to with a text behind it.
harmless-cases :
    (a : Bytes)
    → is_harmless a ≡ true
    → ((b : Bytes) → trim_digits (a ++ b) ≡ trim_digits b)
      ⊎ ((b : Bytes) → is_odd (trim_digits (a ++ b)) ≡ true)
harmless-cases a h = elim (Bool-cases (is_empty (trim_digits a))) [
  | inl digits ↦ inl (λ b.
      trim_digits-append a b ∙ ap (λ t. if t then trim_digits b else trim_digits a ++ b) digits)
  | inr more ↦ inr (λ b.
      ap is_odd
        (trim_digits-append a b ∙ ap (λ t. if t then trim_digits b else trim_digits a ++ b) more)
      ∙ is_odd-append (trim_digits a) b (ground arith))
]

pub harmless-append :
    (a b : Bytes) → is_harmless a ≡ true → is_harmless b ≡ true → is_harmless (a ++ b) ≡ true
harmless-append a b h k = elim (harmless-cases a h) [
  | inl same ↦ rw (same b) k
  | inr odd ↦ ground (arith, odd b)
]

pub harmless-denied :
    (run : Bytes) → is_harmless run ≡ true → run_is_denied run denied_keywords ≡ false
harmless-denied run h = ground (
  arith,
  denied_in_table run,
  is_empty-eq (trim_digits run),
  empty_denied,
  in_table-is_odd (trim_digits run) denied_keywords keywords_even,
)

-- A harmless run makes no keyword of a text that is none.
pub harmless-denied_append :
    (a b : Bytes)
    → is_harmless a ≡ true
    → in_table (trim_digits b) denied_keywords ≡ false
    → run_is_denied (a ++ b) denied_keywords ≡ false
harmless-denied_append a b h k = elim (harmless-cases a h) [
  | inl same ↦ rw (denied_in_table (a ++ b), same b, k) (ground arith)
  | inr odd ↦ ground (arith, harmless-denied (a ++ b), odd b)
]
