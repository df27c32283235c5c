-- ===== src/Gateway/Startup/Written.antt =====
-- Which URIs pass in production, by the parts in which they are written.
use mathlib.Core.Option
use nexus_scout.Base.{
  ◌==◌, ◌≡◌, ◌↔◌, refl, ap, arith, Bool, true, false, ◌||◌, [], ◌∷◌, to_ascii_lower,
  eq_ignore_ascii_case, Bytes, codes, bytes_eq, all, Option,
}
use nexus_scout.Gateway.Limits.{production}
use nexus_scout.Gateway.Shaper.{ok}
use nexus_scout.Gateway.Startup.Hosts.{
  Parts, IsUri, written, host_text, host_of-written, split_once-append,
}
use nexus_scout.Gateway.Startup.{
  scheme_and_rest, scheme_of, is_loopback, insecure_remote_reason, transport_policy, check_policy,
  check_transport,
}
use nexus_scout.Gateway.Text.{to_ascii_lowercase}

-- Text in lower case is compared as any other text is without regard to case.
bytes_eq-to_ascii_lowercase :
    (s p : Bytes)
    → all (λ c. to_ascii_lower c == c) p ≡ true
    → bytes_eq (to_ascii_lowercase s) p ≡ eq_ignore_ascii_case s p
unfolding bytes_eq to_ascii_lowercase eq_ignore_ascii_case
bytes_eq-to_ascii_lowercase [] [] h = refl
bytes_eq-to_ascii_lowercase [] (c ∷ p) h = refl
bytes_eq-to_ascii_lowercase (b ∷ s) [] h = refl
bytes_eq-to_ascii_lowercase (b ∷ s) (c ∷ p) h =
    ground (arith, bytes_eq-to_ascii_lowercase s p (ground arith))

scheme_of-written : (u : Parts) → IsUri u → scheme_of (written u) ≡ to_ascii_lowercase u.scheme
unfolding scheme_of scheme_and_rest
scheme_of-written u h =
    ap (λ o. to_ascii_lowercase (Option.get_or {A = Bytes × Bytes} o ([], written u)).0)
      (split_once-append u.scheme _ h.scheme_plain)

-- The scheme is encrypted, and the certificate validated.
abbrev pub is_encrypted : Bytes → Bool
is_encrypted scheme =
    eq_ignore_ascii_case scheme (codes "bolt+s") || eq_ignore_ascii_case scheme (codes "neo4j+s")

is_encrypted-scheme_of :
    (u : Parts)
    → IsUri u
    → (bytes_eq (scheme_of (written u)) (codes "bolt+s")
        || bytes_eq (scheme_of (written u)) (codes "neo4j+s"))
      ≡ is_encrypted u.scheme
is_encrypted-scheme_of u h =
    rw
      (
        scheme_of-written u h,
        bytes_eq-to_ascii_lowercase u.scheme (codes "bolt+s") (unfold to_ascii_lower in refl),
        bytes_eq-to_ascii_lowercase u.scheme (codes "neo4j+s") (unfold to_ascii_lower in refl),
      )
      refl

-- In production, and without the override, a URI that is written out in its parts, with a user and a
-- port or without, and with no character in a part that would end it, passes exactly if its host is a
-- loopback one, or its scheme is `bolt+s` or `neo4j+s`, in any case of its letters.
pub check_transport-written :
    (parse_loopback : Bytes → Option Bool) (u : Parts)
    → IsUri u
    → (check_transport parse_loopback production false (written u) ≡ ok tt)
      ↔ ((is_loopback parse_loopback (host_text u.host) || is_encrypted u.scheme) ≡ true)
unfolding check_transport insecure_remote_reason transport_policy check_policy
check_transport-written parse_loopback u h =
    let found = ap (is_loopback parse_loopback) (host_of-written u h) in
    let encrypted = is_encrypted-scheme_of u h in ground (arith, found, encrypted)
