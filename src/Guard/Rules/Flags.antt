-- ===== src/Guard/Rules/Flags.antt =====
-- crates/cypher-guard/src/rules.rs, `find_quantified_path`, with no places of tokens.
use nexus_scout.Base.{
  ℕ, ◌≡◌, refl, ◌∙◌, ap, arith, Bool, true, false, not, ◌&&◌, ◌||◌, ◌∷◌, [], Bytes, drop, List,
  Option, none, some, if◌then◌else◌,
}
use nexus_scout.Guard.Lexer.{Token, top}
use nexus_scout.Guard.Reason.{Range}
use nexus_scout.Guard.Rules.Calls.{is_some}
use nexus_scout.Guard.Rules.{
  Parens, punct_is, next_punct_is, is_relationship_at, mark_top, is_quantifier, quantified,
  find_quantified_path,
}

-- Whether a relationship was seen, for each open parenthesis.
abbrev pub seen : Parens → List Bool
seen [] = []
seen ((open_at, saw_rel) ∷ stack) = saw_rel ∷ seen stack

abbrev pub mark : List Bool → List Bool
mark [] = []
mark (b ∷ bs) = true ∷ bs

seen-mark_top : (stack : Parens) → seen (mark_top stack) ≡ mark (seen stack)
unfolding mark_top
seen-mark_top [] = refl
seen-mark_top (p ∷ stack) = refl

seen-drop : (stack : Parens) → seen (drop 1 stack) ≡ drop 1 (seen stack)
seen-drop [] = refl
seen-drop (p ∷ stack) = refl

quantified-seen :
    (src : Bytes) (stack : Parens) (ts : List Token)
    → is_some (quantified src stack ts) ≡ (top (seen stack) && is_quantifier src ts)
unfolding quantified is_quantifier next_punct_is
quantified-seen src [] ts = refl
quantified-seen src ((i, false) ∷ stack) ts = refl
quantified-seen src ((i, true) ∷ stack) [] = refl
quantified-seen src ((i, true) ∷ stack) (t ∷ ts) = ground arith

-- The flags behind a token.
abbrev pub next_flags : Bool → Bool → Bool → List Bool → List Bool
next_flags is_open is_rel is_close flags =
    if is_open
    then false ∷ flags
    else if is_rel
    then mark flags
    else if is_close
    then drop 1 flags
    else flags

-- The scan for quantified paths, with no places.
unfoldable pub quantified_path : Bytes → Option Token → List Bool → List Token → Bool
quantified_path src prev flags [] = false
quantified_path src prev flags (t ∷ ts) =
    let is_open = punct_is src t b'(' in
    let is_rel = is_relationship_at src prev t ts in
    let is_close = not is_open && not is_rel && punct_is src t b')' in
    is_close && (top flags && is_quantifier src ts)
    || quantified_path src (some t) (next_flags is_open is_rel is_close flags) ts

is_some_or :
    (c : Bool) (q o : Option Range)
    → is_some (elim (if c then q else none) [ some r ↦ some r | none ↦ o ])
      ≡ (c && is_some q || is_some o)
is_some_or true (some r) o = refl
is_some_or true none o = refl
is_some_or false q o = refl

-- The stack behind a token, with the places of the parentheses.
abbrev next_stack : Bool → Bool → Bool → ℕ → Parens → Parens
next_stack is_open is_rel is_close i stack =
    if is_open
    then (i, false) ∷ stack
    else if is_rel
    then mark_top stack
    else if is_close
    then drop 1 stack
    else stack

seen-next_stack :
    (is_open is_rel is_close : Bool) (i : ℕ) (stack : Parens)
    → seen (next_stack is_open is_rel is_close i stack)
      ≡ next_flags is_open is_rel is_close (seen stack)
seen-next_stack true r c i stack = refl
seen-next_stack false true c i stack = seen-mark_top stack
seen-next_stack false false true i stack = seen-drop stack
seen-next_stack false false false i stack = refl

pub find_quantified_path-seen :
    (src : Bytes) (prev : Option Token) (stack : Parens) (ts : List Token)
    → is_some (find_quantified_path src prev stack ts) ≡ quantified_path src prev (seen stack) ts
unfolding find_quantified_path quantified_path
find_quantified_path-seen src prev stack [] = refl
find_quantified_path-seen src prev stack (t ∷ ts) =
    let is_open = punct_is src t b'(' in
    let is_rel = is_relationship_at src prev t ts in
    let is_close = not is_open && not is_rel && punct_is src t b')' in
    let c = is_close && (top (seen stack) && is_quantifier src ts) in
    let stack' = next_stack is_open is_rel is_close t.start stack in
    is_some_or is_close (quantified src stack ts) (find_quantified_path src (some t) stack' ts)
    ∙ ap (λ q. is_close && q || is_some (find_quantified_path src (some t) stack' ts))
        (quantified-seen src stack ts)
    ∙ ap (λ o. c || o)
        (find_quantified_path-seen src (some t) stack' ts
          ∙ ap (λ f. quantified_path src (some t) f ts)
              (seen-next_stack is_open is_rel is_close t.start stack))
