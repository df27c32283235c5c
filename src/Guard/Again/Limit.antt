-- ===== src/Guard/Again/Limit.antt =====
-- crates/cypher-guard/src/lib.rs, `extract_result_limit`, on tokens that are alike.
use mathlib.Core.Option.{get_or}
use nexus_scout.Base.{◌≡◌, refl, arith, Bytes, List, some, ℤ, pos}
use nexus_scout.Guard.Again.Alike.{AlikeToken, Alike, done, more}
use nexus_scout.Guard.Lexer.{Token}
use nexus_scout.Guard.Limit.{
  next_significant, limit_value, is_top_limit, depth_after, value_at, extract_from,
  extract_result_limit,
}
use nexus_scout.Guard.Rules.{is_word, is_punct}
use nexus_scout.Guard.Sanitized.{ResultLimit}
use nexus_scout.Guard.Transforms.{is_path_range}

module _ (src out : Bytes) where
  depth_after-Alike :
      (depth : ℤ) (t t' : Token)
      → AlikeToken src out t t'
      → depth_after out depth t' ≡ depth_after src depth t
  unfolding depth_after is_punct is_path_range
  depth_after-Alike depth t t' k = ground (arith, k.same_kind, k.same_text)

  is_top_limit-Alike :
      (depth : ℤ) (t t' : Token)
      → AlikeToken src out t t'
      → is_top_limit out depth t' ≡ is_top_limit src depth t
  unfolding is_top_limit is_word is_path_range
  is_top_limit-Alike depth t t' k = ground (arith, k.same_kind, k.same_text)

  limit_value-Alike :
      (t t' : Token)
      → AlikeToken src out t t'
      → limit_value out (some t') ≡ limit_value src (some t)
  unfolding limit_value is_path_range
  limit_value-Alike t t' k = ground (arith, k.same_kind, k.same_text)

  next_value-Alike :
      {ts ts' : List Token}
      → Alike src out ts ts'
      → limit_value out (next_significant ts') ≡ limit_value src (next_significant ts)
  unfolding next_significant
  next_value-Alike done = unfold limit_value in refl
  next_value-Alike (more {t} {t'} k h) =
      ground (arith, k.same_kind, limit_value-Alike t t' k, next_value-Alike h)

  value_at-Alike :
      (depth : ℤ) (t t' : Token) {ts ts' : List Token}
      → AlikeToken src out t t'
      → Alike src out ts ts'
      → value_at out depth t' ts' ≡ value_at src depth t ts
  unfolding value_at
  value_at-Alike depth t t' k h = rw (is_top_limit-Alike depth t t' k, next_value-Alike h) refl

  extract_from-Alike :
      (depth : ℤ) (found : ResultLimit) {ts ts' : List Token}
      → Alike src out ts ts'
      → extract_from out depth found ts' ≡ extract_from src depth found ts
  unfolding extract_from
  extract_from-Alike depth found done = refl
  extract_from-Alike depth found (more {t} {t'} {ts} {ts'} k h) =
      rw (value_at-Alike depth t t' k h, depth_after-Alike depth t t' k)
        (extract_from-Alike (depth_after src depth t) (get_or (value_at src depth t ts) found) h)

  -- Tokens that are alike have the same limit.
  pub extract_result_limit-Alike :
      {ts ts' : List Token}
      → Alike src out ts ts'
      → extract_result_limit ts' out ≡ extract_result_limit ts src
  unfolding extract_result_limit
  extract_result_limit-Alike h = extract_from-Alike (pos 0) ResultLimit.none h
