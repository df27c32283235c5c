-- ===== src/Guard/Rules/Calls.antt =====
-- The scan for namespaced calls, against a window of four tokens.
use nexus_scout.Base.{
  bytes_eq, ℕ, zero, suc, ◌*◌, ◌<◌, Bool, true, false, ◌&&◌, ◌||◌, List, [], ◌∷◌, Option, none,
  some, ◌≡◌, refl, ◌∙◌, ap, arith, ltb, if◌then◌else◌, Bool-cases, inl, inr, drop, Bytes,
}
use nexus_scout.Guard.Lexer.{text, Token}
use nexus_scout.Guard.Rules.{
  Range, punct_is, is_name_segment, next_punct_is, count_dots, find_namespaced_call,
}

-- A segment, `.`, a segment and `(` stand at the front.
abbrev pub call_at : Bytes → List Token → Bool
call_at src (a ∷ d ∷ b ∷ p ∷ ts) =
    is_name_segment a.kind
    && (punct_is src d b'.' && (is_name_segment b.kind && punct_is src p b'('))
call_at src _ = false

-- They stand somewhere.
unfoldable pub has_call : Bytes → List Token → Bool
has_call src [] = false
has_call src (t ∷ ts) = call_at src (t ∷ ts) || has_call src ts

abbrev pub is_some : Option Range → Bool
is_some none = false
is_some (some r) = true

-- What a chain of `n` dots at a segment comes to: a call, or what stands behind the chain.
abbrev call_or_behind : Bytes → ℕ → List Token → Bool
call_or_behind src dots ts =
    (ltb 0 dots && next_punct_is src (drop (2 * dots) ts) b'(') || has_call src (drop (2 * dots) ts)

-- no token is both a dot and a segment
punct_not_segment :
    (src : Bytes) (t : Token) (c : ℕ) → punct_is src t c ≡ true → is_name_segment t.kind ≡ false
unfolding punct_is is_name_segment
punct_not_segment src t c h = ground arith

and_left : (a b : Bool) → (a && b) ≡ true → a ≡ true
and_left a b h = ground arith

and_right : (a b : Bool) → (a && b) ≡ true → b ≡ true
and_right a b h = ground arith

and_false : (a b c d : Bool) → (b && c) ≡ false → (e : Bool) → (a && (b && (c && d)) || e) ≡ e
and_false a b c d h e = ground arith

-- nor both a dot and a parenthesis
dot_not_paren_bytes : (w : Bytes) → bytes_eq w (b'.' ∷ []) ≡ true → bytes_eq w (b'(' ∷ []) ≡ false
unfolding bytes_eq
dot_not_paren_bytes [] h = refl
dot_not_paren_bytes (x ∷ w) h = ground arith

dot_not_paren : (src : Bytes) (t : Token) → punct_is src t b'.' ≡ true → punct_is src t b'(' ≡ false
unfolding punct_is
dot_not_paren src t h = ground (arith, dot_not_paren_bytes (text src t))

call_at-next :
    (src : Bytes) (a d b : Token) (ts : List Token)
    → call_at src (a ∷ d ∷ b ∷ ts) ≡ (
        is_name_segment a.kind
        && (punct_is src d b'.' && (is_name_segment b.kind && next_punct_is src ts b'(')))
unfolding next_punct_is
call_at-next src a d b [] = ground arith
call_at-next src a d b (p ∷ ts) = refl

call_at-no_segment :
    (src : Bytes) (a : Token) (ts : List Token)
    → is_name_segment a.kind ≡ false
    → call_at src (a ∷ ts) ≡ false
call_at-no_segment src a [] h = refl
call_at-no_segment src a (d ∷ []) h = refl
call_at-no_segment src a (d ∷ b ∷ ts) h = rw call_at-next (rw h)

-- a chain that goes on does not go on with `(`
count_dots-next :
    (src : Bytes) (ts : List Token) → 0 < count_dots src ts → next_punct_is src ts b'(' ≡ false
unfolding count_dots next_punct_is
count_dots-next src [] h = refl
count_dots-next src (d ∷ []) h = absurd (omega arith)
count_dots-next src (d ∷ s ∷ ts) h = ground (arith, dot_not_paren src d)

drop-two_more :
    (n : ℕ) (d s : Token) (ts : List Token) → drop (2 * suc n) (d ∷ s ∷ ts) ≡ drop (2 * n) ts
drop-two_more n d s ts = let e : 2 * suc n ≡ suc (suc (2 * n)) = omega arith in rw e

call_or_behind-suc :
    (src : Bytes) (n : ℕ) (d s : Token) (ts : List Token)
    → (0 < n → next_punct_is src ts b'(' ≡ false)
    → (next_punct_is src ts b'(' || call_or_behind src n ts)
      ≡ call_or_behind src (suc n) (d ∷ s ∷ ts)
call_or_behind-suc src zero d s ts h = rw (drop-two_more zero d s ts)
call_or_behind-suc src (suc n) d s ts h =
    rw (drop-two_more (suc n) d s ts, h (omega arith)) (ground arith)

has_call-link :
    (src : Bytes) (t d s : Token) (ts : List Token)
    → is_name_segment t.kind ≡ true
    → (punct_is src d b'.' && is_name_segment s.kind) ≡ true
    → has_call src (t ∷ d ∷ s ∷ ts) ≡ (next_punct_is src ts b'(' || has_call src (s ∷ ts))
unfolding has_call
has_call-link src t d s ts seg link =
    let dot : punct_is src d b'.' ≡ true = and_left _ (is_name_segment s.kind) link in
    let last : is_name_segment s.kind ≡ true = and_right (punct_is src d b'.') _ link in
    let d_other = call_at-no_segment src d (s ∷ ts) (punct_not_segment src d b'.' dot) in
    rw (call_at-next, d_other, seg, dot, last)

has_call-end :
    (src : Bytes) (t d s : Token) (ts : List Token)
    → (punct_is src d b'.' && is_name_segment s.kind) ≡ false
    → has_call src (t ∷ d ∷ s ∷ ts) ≡ has_call src (d ∷ s ∷ ts)
unfolding has_call
has_call-end src t d s ts no_link = rw call_at-next (
    and_false (is_name_segment t.kind) (punct_is src d b'.') (is_name_segment s.kind)
      (next_punct_is src ts b'(') no_link _)

has_call-chain :
    (src : Bytes) (t : Token) (ts : List Token)
    → is_name_segment t.kind ≡ true
    → has_call src (t ∷ ts) ≡ call_or_behind src (count_dots src ts) ts
unfolding has_call count_dots
has_call-chain src t [] seg = refl
has_call-chain src t (d ∷ []) seg = refl
has_call-chain src t (d ∷ s ∷ ts) seg =
    elim (Bool-cases (punct_is src d b'.' && is_name_segment s.kind)) [
      | inl link ↦
          has_call-link src t d s ts seg link
          ∙ ap (λ b. next_punct_is src ts b'(' || b)
              (has_call-chain src s ts (and_right (punct_is src d b'.') _ link))
          ∙ call_or_behind-suc src (count_dots src ts) d s ts (count_dots-next src ts)
          ∙ rw link
      | inr no_link ↦ has_call-end src t d s ts no_link ∙ rw no_link
    ]

has_call-no_segment :
    (src : Bytes) (t : Token) (ts : List Token)
    → is_name_segment t.kind ≡ false
    → has_call src (t ∷ ts) ≡ has_call src ts
unfolding has_call
has_call-no_segment src t ts h = rw (call_at-no_segment src t ts h)

is_some-if :
    (b : Bool) (r : Range) (o : Option Range) {c : Bool}
    → is_some o ≡ c
    → is_some (if b then some r else o) ≡ (b || c)
is_some-if true r o h = refl
is_some-if false r o h = h

find_namespaced_call-skip :
    (src : Bytes) (skip : ℕ) (ts : List Token)
    → is_some (find_namespaced_call src skip ts) ≡ has_call src (drop skip ts)
unfolding find_namespaced_call
find_namespaced_call-skip src zero [] = unfold has_call in refl
find_namespaced_call-skip src (suc skip) [] = unfold has_call in refl
find_namespaced_call-skip src (suc skip) (t ∷ ts) = find_namespaced_call-skip src skip ts
find_namespaced_call-skip src zero (t ∷ ts) = elim (Bool-cases (is_name_segment t.kind)) [
  | inl seg ↦
      rw (seg, has_call-chain src t ts seg)
        (is_some-if (ltb 0 n && next_punct_is src (drop (2 * n) ts) b'(') _ _
          (find_namespaced_call-skip src (2 * n) ts))
  | inr other ↦ rw (other, has_call-no_segment src t ts other) (find_namespaced_call-skip src 0 ts)
]
  where
    n : ℕ
    n = count_dots src ts

-- A namespaced call is found exactly where a name segment, a dot, a name segment and a parenthesis
-- stand one behind the other: the tokens that the scan passes over hide none.
pub find_namespaced_call-has_call :
    (src : Bytes) (ts : List Token) → is_some (find_namespaced_call src zero ts) ≡ has_call src ts
find_namespaced_call-has_call src ts = find_namespaced_call-skip src zero ts
