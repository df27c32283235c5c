-- ===== src/Gateway/Startup/Hosts.antt =====
-- The host of a URI that is written out in its parts.
use mathlib.Core.Option
use nexus_scout.Base.{
  append-nil, ℕ, ◌==◌, ◌≡◌, refl, ◌∙◌, ap, arith, Bool, true, ◌&&◌, ◌||◌, [], ◌∷◌, ◌++◌, Bytes,
  codes, all, not, none, some, Option,
}
use nexus_scout.Gateway.Startup.{
  scheme_and_rest, authority_of, host_of_port, host_of, second_or, first_or,
}
use nexus_scout.Gateway.Text.{starts_with, split_once, rsplit_once, take_while}

-- No character of the text is this one.
abbrev pub lacks : ℕ → Bytes → Bool
lacks c s = all (λ b. not (b == c)) s

-- A slash, a question mark or a hash.
abbrev pub ends_authority : ℕ → Bool
ends_authority c = c == b'/' || (c == b'?' || c == b'#')

-- What follows the authority: nothing, or what one of these characters begins.
abbrev pub is_tail : Bytes → Bool
is_tail [] = true
is_tail (c ∷ s) = ends_authority c

pub split_once-append :
    (scheme rest : Bytes)
    → lacks b':' scheme ≡ true
    → split_once (codes "://") (scheme ++ (codes "://" ++ rest)) ≡ some (scheme, rest)
unfolding split_once starts_with
split_once-append [] rest h = refl
split_once-append (c ∷ scheme) rest h =
    rw (split_once-append scheme rest (ground arith)) (ground arith)

take_while-append :
    (p : ℕ → Bool) (xs tail : Bytes)
    → all p xs ≡ true
    → take_while p tail ≡ []
    → take_while p (xs ++ tail) ≡ xs
unfolding take_while
take_while-append p [] tail h k = k
take_while-append p (c ∷ xs) tail h k =
    rw (take_while-append p xs tail (ground arith) k) (ground arith)

take_while-tail :
    (tail : Bytes) → is_tail tail ≡ true → take_while (λ c. not (ends_authority c)) tail ≡ []
unfolding take_while
take_while-tail [] h = refl
take_while-tail (c ∷ s) h = ground arith

rsplit_once-none : (c : ℕ) (s : Bytes) → lacks c s ≡ true → rsplit_once c s ≡ none
unfolding rsplit_once
rsplit_once-none c [] h = refl
rsplit_once-none c (b ∷ s) h = rw (rsplit_once-none c s (ground arith), rsplit_once) (ground arith)

rsplit_once-append :
    (c : ℕ) (l r : Bytes) → lacks c r ≡ true → rsplit_once c (l ++ (c ∷ r)) ≡ some (l, r)
unfolding rsplit_once
rsplit_once-append c [] r h = rw (rsplit_once-none c r h, rsplit_once) (ground arith)
rsplit_once-append c (b ∷ l) r h = rw (rsplit_once-append c l r h, rsplit_once) refl

all_imp :
    (p q : ℕ → Bool) (s : Bytes)
    → ((c : ℕ) → p c ≡ true → q c ≡ true)
    → all p s ≡ true
    → all q s ≡ true
all_imp p q [] h k = refl
all_imp p q (c ∷ s) h k = ground (arith, h c, all_imp p q s h)

all-append :
    (p : ℕ → Bool) (xs ys : Bytes) → all p xs ≡ true → all p ys ≡ true → all p (xs ++ ys) ≡ true
all-append p [] ys h k = k
all-append p (c ∷ xs) ys h k = ground (arith, all-append p xs ys (ground arith) k)

-- A character of an authority that does not end it, and is no `@`.
abbrev pub is_inner : ℕ → Bool
is_inner c = not (ends_authority c) && not (c == b'@')

-- Such a character that is no `:` and no `[`.
abbrev pub is_name_char : ℕ → Bool
is_name_char c = is_inner c && (not (c == b':') && not (c == b'['))

-- A host: a name or an IPv4 address, or an IPv6 address, which is written in brackets.
pub data Host : Type 0 where
  named numbered : Bytes → Host

abbrev pub host_text : Host → Bytes
host_text (named h) = h
host_text (numbered h) = h

abbrev pub is_host : Host → Bool
is_host (named h) = all is_name_char h
is_host (numbered h) = all (λ c. is_inner c && not (c == b']')) h

abbrev pub is_port : Option Bytes → Bool
is_port none = true
is_port (some p) = all is_name_char p

abbrev pub is_user : Option Bytes → Bool
is_user none = true
is_user (some u) = all (λ c. not (ends_authority c)) u

abbrev pub port_text : Option Bytes → Bytes
port_text none = []
port_text (some p) = b':' ∷ p

abbrev pub with_host : Host → Option Bytes → Bytes
with_host (named h) port = h ++ port_text port
with_host (numbered h) port = b'[' ∷ (h ++ (b']' ∷ port_text port))

abbrev pub with_user : Option Bytes → Bytes → Bytes
with_user none rest = rest
with_user (some u) rest = u ++ (b'@' ∷ rest)

-- A URI in its parts.
pub record Parts : Type 0 where
  pub scheme : Bytes
  pub user : Option Bytes
  pub host : Host
  pub port : Option Bytes
  pub tail : Bytes

abbrev pub written : Parts → Bytes
written u = u.scheme ++ (codes "://" ++ (with_user u.user (with_host u.host u.port) ++ u.tail))

-- No part has a character that would end it, and the tail is empty or begins with one that ends the
-- authority.
pub record IsUri (u : Parts) : Type 0 where
  pub scheme_plain : lacks b':' u.scheme ≡ true
  pub user_plain : is_user u.user ≡ true
  pub host_plain : is_host u.host ≡ true
  pub port_plain : is_port u.port ≡ true
  pub tail_begins : is_tail u.tail ≡ true

split_bracket-append :
    (l r : Bytes)
    → all (λ c. is_inner c && not (c == b']')) l ≡ true
    → split_once (codes "]") (l ++ (b']' ∷ r)) ≡ some (l, r)
unfolding split_once starts_with
split_bracket-append [] r h = refl
split_bracket-append (c ∷ l) r h = rw (split_bracket-append l r (ground arith)) (ground arith)

port_text-is_inner : (p : Option Bytes) → is_port p ≡ true → all is_inner (port_text p) ≡ true
port_text-is_inner none h = refl
port_text-is_inner (some p) h = all_imp is_name_char is_inner p (λ c k. ground arith) h

with_host-is_inner :
    (h : Host) (p : Option Bytes)
    → is_host h ≡ true
    → is_port p ≡ true
    → all is_inner (with_host h p) ≡ true
with_host-is_inner (named h) p k l =
    all-append is_inner h (port_text p) (all_imp is_name_char is_inner h (λ c m. ground arith) k)
      (port_text-is_inner p l)
with_host-is_inner (numbered h) p k l =
    all-append is_inner h (b']' ∷ port_text p) (all_imp _ is_inner h (λ c m. ground arith) k)
      (port_text-is_inner p l)

host_of_port-plain :
    (s : Bytes) → lacks b'[' s ≡ true → host_of_port s ≡ first_or s (rsplit_once b':' s)
unfolding host_of_port
host_of_port-plain [] h = refl
host_of_port-plain (c ∷ s) h = ground arith

host_of_port-with_host :
    (h : Host) (p : Option Bytes)
    → is_host h ≡ true
    → is_port p ≡ true
    → host_of_port (with_host h p) ≡ host_text h
host_of_port-with_host (named h) none k l =
    let no_colon = all_imp is_name_char (λ c. not (c == b':')) h (λ c m. ground arith) k in
    let no_bracket = all_imp is_name_char (λ c. not (c == b'[')) h (λ c m. ground arith) k in
    rw append-nil
      (host_of_port-plain h no_bracket ∙ ap (first_or h) (rsplit_once-none b':' h no_colon))
host_of_port-with_host (named h) (some p) k l =
    let no_colon = all_imp is_name_char (λ c. not (c == b':')) p (λ c m. ground arith) l in
    let host_bracket = all_imp is_name_char (λ c. not (c == b'[')) h (λ c m. ground arith) k in
    let port_bracket = all_imp is_name_char (λ c. not (c == b'[')) p (λ c m. ground arith) l in
    host_of_port-plain (h ++ (b':' ∷ p))
      (all-append (λ c. not (c == b'[')) h (b':' ∷ p) host_bracket port_bracket)
    ∙ ap (first_or (h ++ (b':' ∷ p))) (rsplit_once-append b':' h p no_colon)
host_of_port-with_host (numbered h) p k l =
    unfold host_of_port in
    ap (first_or (with_host (numbered h) p)) (split_bracket-append h (port_text p) k)

-- What stands behind the last `@`, or all of it.
behind_user :
    (user : Option Bytes) (rest : Bytes)
    → lacks b'@' rest ≡ true
    → second_or (with_user user rest) (rsplit_once b'@' (with_user user rest)) ≡ rest
behind_user none rest h = ap (second_or rest) (rsplit_once-none b'@' rest h)
behind_user (some u) rest h =
    ap (second_or (with_user (some u) rest)) (rsplit_once-append b'@' u rest h)

with_user-all :
    (user : Option Bytes) (rest : Bytes)
    → is_user user ≡ true
    → all is_inner rest ≡ true
    → all (λ c. not (ends_authority c)) (with_user user rest) ≡ true
with_user-all none rest h k = all_imp is_inner _ rest (λ c m. ground arith) k
with_user-all (some u) rest h k =
    all-append _ u (b'@' ∷ rest) h (all_imp is_inner _ rest (λ c m. ground arith) k)

-- The host that the code finds in a URI that is written out in its parts is its host.
pub host_of-written : (u : Parts) → IsUri u → host_of (written u) ≡ host_text u.host
unfolding host_of scheme_and_rest authority_of
host_of-written u h =
    let address = with_host u.host u.port in
    let authority = with_user u.user address in
    let inner = with_host-is_inner u.host u.port h.host_plain h.port_plain in
    let no_at = all_imp is_inner (λ c. not (c == b'@')) address (λ c m. ground arith) inner in
    let found =
      ap
        (λ o.
          take_while (λ c. not (ends_authority c))
            (Option.get_or {A = Bytes × Bytes} o ([], written u)).1)
        (split_once-append u.scheme (authority ++ u.tail) h.scheme_plain)
      ∙ take_while-append _ authority u.tail (with_user-all u.user address h.user_plain inner)
          (take_while-tail u.tail h.tail_begins) in
    ap (λ a. host_of_port (second_or a (rsplit_once b'@' a))) found
    ∙ ap host_of_port (behind_user u.user address no_at)
    ∙ host_of_port-with_host u.host u.port h.host_plain h.port_plain
