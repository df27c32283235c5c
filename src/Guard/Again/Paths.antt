-- ===== src/Guard/Again/Paths.antt =====
-- crates/cypher-guard/src/rules.rs, `find_quantified_path`: on tokens that are alike.
use nexus_scout.Base.{◌≡◌, refl, ap, Bool, not, ◌&&◌, ◌||◌, Bytes, List, Option, some}
use nexus_scout.Guard.Again.Alike.{Alike, done, more}
use nexus_scout.Guard.Again.Calls.{
  AlikeBefore, punct_is-Alike, is_relationship_at-Alike, is_quantifier-Alike,
}
use nexus_scout.Guard.Lexer.{Token, top}
use nexus_scout.Guard.Rules.Flags.{next_flags, quantified_path}
use nexus_scout.Guard.Rules.{punct_is, is_relationship_at, is_quantifier}

module _ (src out : Bytes) where
  pub quantified_path-Alike :
      (o o' : Option Token) (flags : List Bool) {ts ts' : List Token}
      → AlikeBefore src out o o'
      → Alike src out ts ts'
      → quantified_path out o' flags ts' ≡ quantified_path src o flags ts
  unfolding quantified_path
  quantified_path-Alike o o' flags before done = refl
  quantified_path-Alike o o' flags before (more {t} {t'} {ts} {ts'} k h) =
      let is_open = punct_is src t b'(' in
      let is_rel = is_relationship_at src o t ts in
      let is_close = not is_open && not is_rel && punct_is src t b')' in
      rw
        (
          punct_is-Alike src out t t' b'(' k,
          punct_is-Alike src out t t' b')' k,
          is_relationship_at-Alike src out o o' t t' before k h,
          is_quantifier-Alike src out h,
        )
        (ap (λ b. is_close && (top flags && is_quantifier src ts) || b)
          (quantified_path-Alike (some t) (some t') (next_flags is_open is_rel is_close flags) k h))
