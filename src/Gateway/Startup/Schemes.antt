-- ===== src/Gateway/Startup/Schemes.antt =====
-- The scheme of a URI, in any case of its letters.
use mathlib.Core.Option
use nexus_scout.Base.{
  ℕ, ◌==◌, ◌≡◌, refl, sym, ◌∙◌, ap, arith, Bool, true, false, ◌&&◌, [], ◌∷◌, Bytes, codes, bytes_eq,
  all, not, none, some, Option, to_ascii_lower, if◌then◌else◌,
}
use nexus_scout.Gateway.Startup.{scheme_and_rest, scheme_of}
use nexus_scout.Gateway.Text.{starts_with, split_once, before_split, to_ascii_lowercase}

-- The URI begins with the scheme, in any case of its letters, and with `://` right behind it.
unfoldable pub has_scheme : Bytes → Bytes → Bool
unfolding starts_with
has_scheme [] uri = starts_with (codes "://") uri
has_scheme (c ∷ scheme) [] = false
has_scheme (c ∷ scheme) (b ∷ uri) = to_ascii_lower b == c && has_scheme scheme uri

-- The scheme of a split, in lower case, is this one.
abbrev matches : Bytes → Option (Bytes × Bytes) → Bool
matches scheme none = false
matches scheme (some (l, r)) = bytes_eq (to_ascii_lowercase l) scheme

-- A scheme in lower case has no colon.
abbrev pub IsPlain : Bytes → Type 0
IsPlain scheme = all (λ c. not (c == b':')) scheme ≡ true

matches-before_split :
    (c b : ℕ) (scheme : Bytes) (o : Option (Bytes × Bytes))
    → matches (c ∷ scheme) (before_split b o) ≡ (to_ascii_lower b == c && matches scheme o)
unfolding to_ascii_lowercase bytes_eq
matches-before_split c b scheme none = ground arith
matches-before_split c b scheme (some (l, r)) = refl

matches_nil-before_split :
    (b : ℕ) (o : Option (Bytes × Bytes)) → matches [] (before_split b o) ≡ false
unfolding to_ascii_lowercase bytes_eq
matches_nil-before_split b none = refl
matches_nil-before_split b (some (l, r)) = refl

-- A colon is no letter of such a scheme.
colon-has_scheme :
    (c : ℕ) (scheme : Bytes) (b : ℕ) (uri : Bytes)
    → IsPlain (c ∷ scheme)
    → starts_with (codes "://") (b ∷ uri) ≡ true
    → has_scheme (c ∷ scheme) (b ∷ uri) ≡ false
unfolding has_scheme starts_with to_ascii_lower
colon-has_scheme c scheme b uri h k = ground arith

matches_nil-here :
    (front : Bool) (rest : Bytes) (later : Option (Bytes × Bytes))
    → matches [] later ≡ false
    → matches [] (if front then some ([], rest) else later) ≡ front
unfolding to_ascii_lowercase bytes_eq
matches_nil-here true rest later h = refl
matches_nil-here false rest later h = h

matches_cons-here :
    (c : ℕ) (scheme : Bytes) (front found : Bool) (rest : Bytes) (later : Option (Bytes × Bytes))
    → (front ≡ true → found ≡ false)
    → matches (c ∷ scheme) later ≡ found
    → matches (c ∷ scheme) (if front then some ([], rest) else later) ≡ found
unfolding to_ascii_lowercase bytes_eq
matches_cons-here c scheme true found rest later h k = sym (h refl)
matches_cons-here c scheme false found rest later h k = k

split_once-has_scheme :
    (scheme uri : Bytes)
    → IsPlain scheme
    → matches scheme (split_once (codes "://") uri) ≡ has_scheme scheme uri
unfolding split_once has_scheme
split_once-has_scheme [] [] h = refl
split_once-has_scheme (c ∷ scheme) [] h = refl
split_once-has_scheme [] (b ∷ uri) h =
    matches_nil-here (starts_with (codes "://") (b ∷ uri)) _ _ (matches_nil-before_split b _)
split_once-has_scheme (c ∷ scheme) (b ∷ uri) h =
    matches_cons-here c scheme (starts_with (codes "://") (b ∷ uri)) _ _ _
      (colon-has_scheme c scheme b uri h)
      (matches-before_split c b scheme _
        ∙ ap (λ m. to_ascii_lower b == c && m) (split_once-has_scheme scheme uri (ground arith)))

matches-get_or :
    (c : ℕ) (scheme : Bytes) (o : Option (Bytes × Bytes)) (uri : Bytes)
    → bytes_eq (to_ascii_lowercase (Option.get_or o ([], uri)).0) (c ∷ scheme)
      ≡ matches (c ∷ scheme) o
unfolding to_ascii_lowercase bytes_eq
matches-get_or c scheme none uri = refl
matches-get_or c scheme (some (l, r)) uri = refl

-- The scheme that the code finds is this one exactly if the URI begins with it.
pub scheme_of-has_scheme :
    (c : ℕ) (scheme uri : Bytes)
    → IsPlain (c ∷ scheme)
    → bytes_eq (scheme_of uri) (c ∷ scheme) ≡ has_scheme (c ∷ scheme) uri
unfolding scheme_of scheme_and_rest
scheme_of-has_scheme c scheme uri h =
    matches-get_or c scheme (split_once (codes "://") uri) uri
    ∙ split_once-has_scheme (c ∷ scheme) uri h
