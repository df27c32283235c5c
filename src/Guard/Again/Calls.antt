-- ===== src/Guard/Again/Calls.antt =====
-- crates/cypher-guard/src/rules.rs: the tests of the rules on tokens that are alike.
use nexus_scout.Base.{ℕ, ◌≡◌, refl, ap, arith, Bytes, drop, List, Option, none, some}
use nexus_scout.Guard.Again.Alike.{AlikeToken, Alike, done, more}
use nexus_scout.Guard.Lexer.{Token}
use nexus_scout.Guard.Rules.Calls.{call_at, has_call}
use nexus_scout.Guard.Rules.{
  is_punct, punct_is, is_name_segment, next_punct_is, prev_punct_is, is_relationship_at,
  is_quantifier,
}
use nexus_scout.Guard.Transforms.{is_path_range}

module _ (src out : Bytes) where
  pub punct_is-Alike :
      (t t' : Token) (c : ℕ) → AlikeToken src out t t' → punct_is out t' c ≡ punct_is src t c
  unfolding punct_is is_path_range is_punct
  punct_is-Alike t t' c k = ground (arith, k.same_kind, k.same_text)

  pub next_punct_is-Alike :
      {ts ts' : List Token} (c : ℕ)
      → Alike src out ts ts'
      → next_punct_is out ts' c ≡ next_punct_is src ts c
  unfolding next_punct_is
  next_punct_is-Alike c done = refl
  next_punct_is-Alike c (more k h) = punct_is-Alike _ _ c k

  is_name_segment-Alike :
      (t t' : Token) → AlikeToken src out t t' → is_name_segment t'.kind ≡ is_name_segment t.kind
  is_name_segment-Alike t t' k = ap is_name_segment k.same_kind

  pub drop-Alike :
      {ts ts' : List Token} → Alike src out ts ts' → Alike src out (drop 1 ts) (drop 1 ts')
  drop-Alike done = done
  drop-Alike (more k h) = h

  call_at-Alike : {ts ts' : List Token} → Alike src out ts ts' → call_at out ts' ≡ call_at src ts
  call_at-Alike
        (more {t = a} {t' = a'} ka
          (more {t = d} {t' = d'} kd (more {t = b} {t' = b'} kb (more {t = p} {t' = p'} kp h)))) =
      ground (
        arith,
        is_name_segment-Alike a a' ka,
        punct_is-Alike d d' b'.' kd,
        is_name_segment-Alike b b' kb,
        punct_is-Alike p p' b'(' kp,
      )
  call_at-Alike (more _ (more _ (more _ done))) = refl
  call_at-Alike (more _ (more _ done)) = refl
  call_at-Alike (more _ done) = refl
  call_at-Alike done = refl

  pub has_call-Alike :
      {ts ts' : List Token} → Alike src out ts ts' → has_call out ts' ≡ has_call src ts
  unfolding has_call
  has_call-Alike done = refl
  has_call-Alike (more {ts} {ts'} k h) = ground (arith, call_at-Alike (more k h), has_call-Alike h)

  -- The tokens before are alike.
  abbrev pub AlikeBefore : Option Token → Option Token → Type 0
  AlikeBefore none none = Unit
  AlikeBefore (some t) (some t') = AlikeToken src out t t'
  AlikeBefore _ _ = ⊥

  prev_punct_is-Alike :
      (o o' : Option Token) (c : ℕ)
      → AlikeBefore o o'
      → prev_punct_is out o' c ≡ prev_punct_is src o c
  unfolding prev_punct_is
  prev_punct_is-Alike none none c h = refl
  prev_punct_is-Alike (some t) (some t') c h = punct_is-Alike t t' c h
  prev_punct_is-Alike none (some t') c h = absurd h
  prev_punct_is-Alike (some t) none c h = absurd h

  pub is_relationship_at-Alike :
      (o o' : Option Token) (t t' : Token) {ts ts' : List Token}
      → AlikeBefore o o'
      → AlikeToken src out t t'
      → Alike src out ts ts'
      → is_relationship_at out o' t' ts' ≡ is_relationship_at src o t ts
  unfolding is_relationship_at
  is_relationship_at-Alike o o' t t' before k h =
      rw
        (
          punct_is-Alike t t' b'[' k,
          punct_is-Alike t t' b'>' k,
          punct_is-Alike t t' b'<' k,
          punct_is-Alike t t' b'-' k,
          prev_punct_is-Alike o o' b'-' before,
          prev_punct_is-Alike o o' b')' before,
          next_punct_is-Alike b'-' h,
          next_punct_is-Alike b'(' (drop-Alike h),
        )
        refl

  pub is_quantifier-Alike :
      {ts ts' : List Token} → Alike src out ts ts' → is_quantifier out ts' ≡ is_quantifier src ts
  unfolding is_quantifier
  is_quantifier-Alike h =
      rw (next_punct_is-Alike b'+' h, next_punct_is-Alike b'*' h, next_punct_is-Alike b'{' h) refl
