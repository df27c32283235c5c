-- ===== src/Guard/Plain/Checked.antt =====
-- crates/cypher-guard/src/unicode.rs, `validate`, against the pass over the characters.
use nexus_scout.Base.{ℕ, ◌+◌, ◌≡◌, refl, arith, Bool, true, false, List, [], ◌∷◌}
use nexus_scout.Guard.Plain.{
  next_is, Place, code, single, double, backtick, is_plain_from, next_place, next_quoted, fits,
}
use nexus_scout.Guard.Lexer.{next_is}
use nexus_scout.Guard.Reason.{ok}
use nexus_scout.Guard.Unicode.{
  Region, Scan, validate_from, validate, step, step_code, step_quoted, next_is_backtick, len_utf8,
}

-- The state of the check at a place.
abbrev scan_at : Place → ℕ → ℕ → Scan
scan_at code start i = record {
  region = Region.code;
  escaped = false;
  region_start = start;
  idx = i;
}
scan_at (single e) start i = record {
  region = Region.single;
  escaped = e;
  region_start = start;
  idx = i;
}
scan_at (double e) start i = record {
  region = Region.double;
  escaped = e;
  region_start = start;
  idx = i;
}
scan_at (backtick s) start i = record {
  region = Region.backtick;
  escaped = false;
  region_start = start;
  idx = i;
}

-- The next character has been dropped.
abbrev drops : Place → Bool
drops (backtick s) = s
drops _ = false

next_is_backtick-next_is : (cs : List ℕ) → next_is_backtick cs ≡ next_is b'`' cs
unfolding next_is_backtick next_is
next_is_backtick-next_is [] = refl
next_is_backtick-next_is (c ∷ cs) = refl

validate_from-is_plain_from :
    (p : Place) (start i : ℕ) (cs : List ℕ)
    → validate_from (drops p) (scan_at p start i) cs ≡ ok tt
    → is_plain_from p cs ≡ true
unfolding validate_from step step_code step_quoted is_plain_from next_place next_quoted fits
validate_from-is_plain_from p start i [] h = refl
validate_from-is_plain_from code start i (c ∷ cs) h =
    let j = i + len_utf8 c in
    ground (
      arith,
      validate_from-is_plain_from code start j cs,
      validate_from-is_plain_from (single false) i j cs,
      validate_from-is_plain_from (double false) i j cs,
      validate_from-is_plain_from (backtick false) i j cs,
    )
validate_from-is_plain_from (single true) start i (c ∷ cs) h =
    validate_from-is_plain_from (single false) start (i + len_utf8 c) cs h
validate_from-is_plain_from (single false) start i (c ∷ cs) h =
    let j = i + len_utf8 c in
    ground (
      arith,
      validate_from-is_plain_from code start j cs,
      validate_from-is_plain_from (single false) start j cs,
      validate_from-is_plain_from (single true) start j cs,
    )
validate_from-is_plain_from (double true) start i (c ∷ cs) h =
    validate_from-is_plain_from (double false) start (i + len_utf8 c) cs h
validate_from-is_plain_from (double false) start i (c ∷ cs) h =
    let j = i + len_utf8 c in
    ground (
      arith,
      validate_from-is_plain_from code start j cs,
      validate_from-is_plain_from (double false) start j cs,
      validate_from-is_plain_from (double true) start j cs,
    )
validate_from-is_plain_from (backtick true) start i (c ∷ cs) h =
    validate_from-is_plain_from (backtick false) start (i + len_utf8 c) cs h
validate_from-is_plain_from (backtick false) start i (c ∷ cs) h =
    let j = i + len_utf8 c in
    ground (
      arith,
      next_is_backtick-next_is cs,
      validate_from-is_plain_from code start j cs,
      validate_from-is_plain_from (backtick false) start j cs,
      validate_from-is_plain_from (backtick true) start j cs,
    )

pub validate-is_plain_from : (cs : List ℕ) → validate cs ≡ ok tt → is_plain_from code cs ≡ true
unfolding validate
validate-is_plain_from cs h = validate_from-is_plain_from code 0 0 cs h
