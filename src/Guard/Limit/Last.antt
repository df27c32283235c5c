-- ===== src/Guard/Limit/Last.antt =====
-- Which `LIMIT` wins, against a description that counts brackets and collects every `LIMIT`.
use mathlib.Core.Option.{get_or}
use nexus_scout.Base.{
  ℕ, zero, suc, ◌+◌, ◌≤◌, ◌<◌, ◌==◌, ap, sym, ◌∙◌, List, [], ◌∷◌, Option, none, some, ◌≡◌, refl,
  Bytes, ℤ, pos, negsuc, Bool, true, false, ◌&&◌, ◌||◌, length, all, codes, bytes_eq,
  eq_ignore_ascii_case, is_ascii_digit, parse_u32, if◌then◌else◌, arith, i32_max, i32_increment,
  i32_saturating_decrement, is_zero,
}
use nexus_scout.Guard.Lexer.{Token, TokenKind, text}
use nexus_scout.Guard.Limit.{
  value_at, depth_after, track_depth, is_top_limit, limit_value, next_significant, extract_from,
  extract_result_limit,
}
use nexus_scout.Guard.Rules.{is_punct, is_word}
use nexus_scout.Guard.Sanitized.{ResultLimit, fixed, dynamic}

-- The token is one of three brackets.
abbrev pub is_bracket : Bytes → Bytes → Bytes → Bytes → Token → Bool
is_bracket src a b c t =
    is_punct t.kind
    && (bytes_eq (text src t) a || bytes_eq (text src t) b || bytes_eq (text src t) c)

abbrev pub opens : Bytes → Token → Bool
opens src t = is_bracket src (codes "(") (codes "[") (codes "{") t

abbrev pub shuts : Bytes → Token → Bool
shuts src t = is_bracket src (codes ")") (codes "]") (codes "}") t

-- The number or the parameter behind a `LIMIT`.
unfoldable pub said : Bytes → List Token → Option ResultLimit
said src [] = none
said src (t ∷ ts) =
    let behind = said src ts in
    elim t.kind [
      | TokenKind.whitespace ↦ behind
      | TokenKind.comment ↦ behind
      | TokenKind.number ↦
          some (if all is_ascii_digit (text src t) then fixed (parse_u32 (text src t)) else dynamic)
      | TokenKind.parameter ↦ some dynamic
      | _ ↦ none
    ]

abbrev pub add : Option ResultLimit → List ResultLimit → List ResultLimit
add none vs = vs
add (some v) vs = v ∷ vs

-- What each `LIMIT` says before which as many brackets are closed as are opened, in their order. So
-- many are opened and closed before the tokens.
unfoldable pub top_limits : Bytes → ℕ → ℕ → List Token → List ResultLimit
top_limits src opened closed [] = []
top_limits src opened closed (t ∷ ts) =
    let deeper = top_limits src (suc opened) closed ts in
    let higher = top_limits src opened (suc closed) ts in
    let level = top_limits src opened closed ts in
    let here =
      is_word t.kind && (opened == closed && eq_ignore_ascii_case (text src t) (codes "LIMIT")) in
    add (if here then said src ts else none)
      (if opens src t then deeper else if shuts src t then higher else level)

abbrev pub last_or : ResultLimit → List ResultLimit → ResultLimit
last_or v [] = v
last_or v (w ∷ ws) = last_or w ws

last_or-add :
    (m : Option ResultLimit) (found : ResultLimit) (vs : List ResultLimit)
    → last_or found (add m vs) ≡ last_or (get_or m found) vs
last_or-add none found vs = refl
last_or-add (some v) found vs = refl

said-limit_value :
    (src : Bytes) (ts : List Token) → limit_value src (next_significant ts) ≡ said src ts
unfolding limit_value next_significant said
said-limit_value src [] = refl
said-limit_value src (t ∷ ts) = ground (arith, said-limit_value src ts)

-- The depth is the number of brackets that are open.
abbrev Stands : ℤ → ℕ → ℕ → Type 0
Stands (pos n) opened closed = opened ≡ closed + n
Stands (negsuc n) opened closed = opened + suc n ≡ closed

Stands-is_zero :
    (depth : ℤ) (opened closed : ℕ)
    → Stands depth opened closed
    → is_zero depth ≡ (opened == closed)
Stands-is_zero (pos zero) opened closed h = ground arith
Stands-is_zero (pos (suc n)) opened closed h = ground arith
Stands-is_zero (negsuc n) opened closed h = ground arith

Stands-increment :
    (depth : ℤ) (opened closed : ℕ)
    → opened < i32_max
    → Stands depth opened closed
    → Stands (i32_increment depth) (suc opened) closed
unfolding i32_increment
Stands-increment (pos n) opened closed k h = ground arith
Stands-increment (negsuc zero) opened closed k h = omega arith
Stands-increment (negsuc (suc n)) opened closed k h = omega arith

Stands-decrement :
    (depth : ℤ) (opened closed : ℕ)
    → closed < i32_max
    → Stands depth opened closed
    → Stands (i32_saturating_decrement depth) opened (suc closed)
unfolding i32_saturating_decrement
Stands-decrement (pos zero) opened closed k h = omega arith
Stands-decrement (pos (suc n)) opened closed k h = omega arith
Stands-decrement (negsuc n) opened closed k h = ground arith

depth_after-cases :
    (src : Bytes) (depth : ℤ) (t : Token)
    → depth_after src depth t ≡ (
        if opens src t
        then i32_increment depth
        else if shuts src t
        then i32_saturating_decrement depth
        else depth)
unfolding depth_after track_depth
depth_after-cases src depth t = ground arith

value_at-said :
    (src : Bytes) (depth : ℤ) (opened closed : ℕ) (t : Token) (ts : List Token)
    → Stands depth opened closed
    → value_at src depth t ts ≡ (
        if is_word t.kind && (opened == closed && eq_ignore_ascii_case (text src t) (codes "LIMIT"))
        then said src ts
        else none)
unfolding value_at is_top_limit
value_at-said src depth opened closed t ts h =
    rw (Stands-is_zero depth opened closed h, said-limit_value src ts) refl

-- The three ways on behind a token.
extract_from-branches :
    (src : Bytes) (a b : Bool) (deeper higher level : ℤ) (xs ys zs : List ResultLimit)
    (found : ResultLimit) (ts : List Token)
    → extract_from src deeper found ts ≡ last_or found xs
    → extract_from src higher found ts ≡ last_or found ys
    → extract_from src level found ts ≡ last_or found zs
    → extract_from src (if a then deeper else if b then higher else level) found ts
      ≡ last_or found (if a then xs else if b then ys else zs)
extract_from-branches src true b deeper higher level xs ys zs found ts h k l = h
extract_from-branches src false true deeper higher level xs ys zs found ts h k l = k
extract_from-branches src false false deeper higher level xs ys zs found ts h k l = l

extract_from-top_limits :
    (src : Bytes) (depth : ℤ) (opened closed : ℕ) (found : ResultLimit) (ts : List Token)
    → Stands depth opened closed
    → opened + length ts ≤ i32_max
    → closed + length ts ≤ i32_max
    → extract_from src depth found ts ≡ last_or found (top_limits src opened closed ts)
unfolding extract_from top_limits
extract_from-top_limits src depth opened closed found [] h k l = refl
extract_from-top_limits src depth opened closed found (t ∷ ts) h k l =
    let here =
      if is_word t.kind && (opened == closed && eq_ignore_ascii_case (text src t) (codes "LIMIT"))
      then said src ts
      else none in
    let found' = get_or here found in
    ap (λ o. extract_from src (depth_after src depth t) (get_or o found) ts)
      (value_at-said src depth opened closed t ts h)
    ∙ ap (λ d. extract_from src d found' ts) (depth_after-cases src depth t)
    ∙ extract_from-branches src (opens src t) (shuts src t) _ _ _ _ _ _ found' ts
        (extract_from-top_limits src (i32_increment depth) (suc opened) closed found' ts
          (Stands-increment depth opened closed (omega arith) h) (omega arith) (omega arith))
        (extract_from-top_limits src (i32_saturating_decrement depth) opened (suc closed) found' ts
          (Stands-decrement depth opened closed (omega arith) h) (omega arith) (omega arith))
        (extract_from-top_limits src depth opened closed found' ts h (omega arith) (omega arith))
    ∙ sym (last_or-add here found _)

-- The limit of the result is what the last of all the `LIMIT`s says before which as many brackets are
-- closed as are opened and behind which there is a number or a parameter, white space and comments
-- aside; if there is none, there is no limit. There are at most `i32::MAX` tokens.
pub extract_result_limit-last :
    (src : Bytes) (ts : List Token)
    → length ts ≤ i32_max
    → extract_result_limit ts src ≡ last_or ResultLimit.none (top_limits src 0 0 ts)
unfolding extract_result_limit
extract_result_limit-last src ts h =
    extract_from-top_limits src (pos 0) 0 0 ResultLimit.none ts (omega arith) (omega arith)
      (omega arith)
