-- ===== src/Guard/Rules/Paths.antt =====
-- The scan for quantified paths, which keeps a stack, against a description with no stack.
use nexus_scout.Base.{
  ℕ, zero, suc, Bool, true, false, not, ◌&&◌, ◌||◌, List, [], ◌∷◌, Option, none, some, ◌≡◌, refl,
  sym, ◌∙◌, ap, arith, Bytes, drop, if◌then◌else◌,
}
use nexus_scout.Guard.Rules.Flags.{mark, quantified_path, find_quantified_path-seen}
use nexus_scout.Guard.Lexer.{Token, top}
use nexus_scout.Guard.Rules.Calls.{is_some}
use nexus_scout.Guard.Rules.{punct_is, is_relationship_at, is_quantifier, find_quantified_path}

-- What a token is to the parentheses.
pub data Role : Type 0 where
  opens relates shuts passes : Role

abbrev choose : Bool → Bool → Bool → Role
choose is_open is_rel is_shut =
    if is_open then opens else if is_rel then relates else if is_shut then shuts else passes

abbrev pub role : Bytes → Option Token → Token → List Token → Role
role src prev t ts =
    choose (punct_is src t b'(') (is_relationship_at src prev t ts) (punct_is src t b')')

-- One token, `depth` parentheses inside the one that is watched: `saw` says whether a relationship was
-- seen directly inside that one, and `quantifier` whether a quantifier follows the token.
abbrev pub closes_by : Role → Bool → (ℕ → Bool → Bool) → ℕ → Bool → Bool
closes_by opens quantifier rest depth saw = rest (suc depth) saw
closes_by relates quantifier rest zero saw = rest zero true
closes_by relates quantifier rest (suc depth) saw = rest (suc depth) saw
closes_by shuts quantifier rest zero saw = saw && quantifier
closes_by shuts quantifier rest (suc depth) saw = rest depth saw
closes_by passes quantifier rest depth saw = rest depth saw

-- The parenthesis that is watched is closed, with a quantifier right behind, and with a relationship
-- directly inside.
unfoldable pub closes : Bytes → Option Token → List Token → ℕ → Bool → Bool
closes src prev [] depth saw = false
closes src prev (t ∷ ts) depth saw =
    closes_by (role src prev t ts) (is_quantifier src ts) (λ d s. closes src (some t) ts d s) depth
      saw

-- Some `(` is closed by a `)` that a quantifier follows, with a relationship directly between the two.
unfoldable pub has_path : Bytes → Option Token → List Token → Bool
has_path src prev [] = false
has_path src prev (t ∷ ts) =
    punct_is src t b'(' && closes src (some t) ts 0 false || has_path src (some t) ts

-- One token of the scan with the stack.
abbrev scan_by : Role → Bool → (List Bool → Bool) → List Bool → Bool
scan_by opens quantifier rest flags = rest (false ∷ flags)
scan_by relates quantifier rest flags = rest (mark flags)
scan_by shuts quantifier rest flags = top flags && quantifier || rest (drop 1 flags)
scan_by passes quantifier rest flags = rest flags

scan_by-choose :
    (a b c q : Bool) (rest : List Bool → Bool) (flags : List Bool)
    → ((not a && not b && c) && (top flags && q)
        || rest (
            if a
            then false ∷ flags
            else if b
            then mark flags
            else if not a && not b && c
            then drop 1 flags
            else flags))
      ≡ scan_by (choose a b c) q rest flags
scan_by-choose true b c q rest flags = refl
scan_by-choose false true c q rest flags = refl
scan_by-choose false false true q rest flags = refl
scan_by-choose false false false q rest flags = refl

quantified_path-scan_by :
    (src : Bytes) (prev : Option Token) (flags : List Bool) (t : Token) (ts : List Token)
    → quantified_path src prev flags (t ∷ ts)
      ≡ scan_by
          (role src prev t ts)
          (is_quantifier src ts)
          (λ f. quantified_path src (some t) f ts)
          flags
unfolding quantified_path
quantified_path-scan_by src prev flags t ts =
    scan_by-choose (punct_is src t b'(') (is_relationship_at src prev t ts) (punct_is src t b')')
      (is_quantifier src ts) (λ f. quantified_path src (some t) f ts) flags

-- Some parenthesis of the stack will be closed so.
abbrev pending : (ℕ → Bool → Bool) → ℕ → List Bool → Bool
pending rest depth [] = false
pending rest depth (f ∷ flags) = rest depth f || pending rest (suc depth) flags

pending-opens :
    (q : Bool) (rest : ℕ → Bool → Bool) (d : ℕ) (flags : List Bool)
    → pending (closes_by opens q rest) d flags ≡ pending rest (suc d) flags
pending-opens q rest d [] = refl
pending-opens q rest d (f ∷ flags) =
    ap (λ b. rest (suc d) f || b) (pending-opens q rest (suc d) flags)

pending-relates :
    (q : Bool) (rest : ℕ → Bool → Bool) (d : ℕ) (flags : List Bool)
    → pending (closes_by relates q rest) (suc d) flags ≡ pending rest (suc d) flags
pending-relates q rest d [] = refl
pending-relates q rest d (f ∷ flags) =
    ap (λ b. rest (suc d) f || b) (pending-relates q rest (suc d) flags)

pending-shuts :
    (q : Bool) (rest : ℕ → Bool → Bool) (d : ℕ) (flags : List Bool)
    → pending (closes_by shuts q rest) (suc d) flags ≡ pending rest d flags
pending-shuts q rest d [] = refl
pending-shuts q rest d (f ∷ flags) = ap (λ b. rest d f || b) (pending-shuts q rest (suc d) flags)

pending-passes :
    (q : Bool) (rest : ℕ → Bool → Bool) (d : ℕ) (flags : List Bool)
    → pending (closes_by passes q rest) d flags ≡ pending rest d flags
pending-passes q rest d [] = refl
pending-passes q rest d (f ∷ flags) = ap (λ b. rest d f || b) (pending-passes q rest (suc d) flags)

pending-none : (d : ℕ) (flags : List Bool) → pending (λ _ _. false) d flags ≡ false
pending-none d [] = refl
pending-none d (f ∷ flags) = pending-none (suc d) flags

-- The description of a parenthesis that the token opens.
abbrev opened : Role → Bool → Bool
opened opens b = b
opened _ b = false

opened-choose : (a b c x : Bool) → (a && x) ≡ opened (choose a b c) x
opened-choose true b c x = refl
opened-choose false true c x = refl
opened-choose false false true x = refl
opened-choose false false false x = refl

-- One token on both sides, with the parentheses that are opened behind it.
scan_by-pending :
    (r : Role) (q later : Bool) (rest : ℕ → Bool → Bool) (flags : List Bool)
    → scan_by r q (λ f. pending rest 0 f || later) flags
      ≡ (pending (closes_by r q rest) 0 flags || (opened r (rest 0 false) || later))
scan_by-pending opens q later rest flags = ground (arith, pending-opens q rest 0 flags)
scan_by-pending relates q later rest [] = refl
scan_by-pending relates q later rest (f ∷ flags) = ground (arith, pending-relates q rest 0 flags)
scan_by-pending shuts q later rest [] = refl
scan_by-pending shuts q later rest (f ∷ flags) = ground (arith, pending-shuts q rest 0 flags)
scan_by-pending passes q later rest flags = ground (arith, pending-passes q rest 0 flags)

scan_by-ap :
    (r : Role) (q : Bool) (k k' : List Bool → Bool) (flags : List Bool)
    → ((f : List Bool) → k f ≡ k' f)
    → scan_by r q k flags ≡ scan_by r q k' flags
scan_by-ap opens q k k' flags h = h (false ∷ flags)
scan_by-ap relates q k k' flags h = h (mark flags)
scan_by-ap shuts q k k' flags h = ap (λ b. top flags && q || b) (h (drop 1 flags))
scan_by-ap passes q k k' flags h = h flags

quantified_path-pending :
    (src : Bytes) (prev : Option Token) (flags : List Bool) (ts : List Token)
    → quantified_path src prev flags ts
      ≡ (pending (λ d s. closes src prev ts d s) 0 flags || has_path src prev ts)
unfolding quantified_path closes has_path
quantified_path-pending src prev flags [] = sym (ap (λ b. b || false) (pending-none 0 flags))
quantified_path-pending src prev flags (t ∷ ts) =
    let r = role src prev t ts in
    let q = is_quantifier src ts in
    let inside = closes src (some t) ts in
    quantified_path-scan_by src prev flags t ts
    ∙ scan_by-ap r q _ _ flags (λ f. quantified_path-pending src (some t) f ts)
    ∙ scan_by-pending r q (has_path src (some t) ts) inside flags
    ∙ ap (λ b. pending (closes_by r q inside) 0 flags || (b || has_path src (some t) ts))
        (sym (
          opened-choose (punct_is src t b'(') (is_relationship_at src prev t ts)
            (punct_is src t b')') (inside 0 false)))

-- The scan finds a path exactly where there is one.
pub find_quantified_path-has_path :
    (src : Bytes) (ts : List Token)
    → is_some (find_quantified_path src none [] ts) ≡ has_path src none ts
find_quantified_path-has_path src ts =
    find_quantified_path-seen src none [] ts ∙ quantified_path-pending src none [] ts
