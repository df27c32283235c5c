-- ===== src/Guard/Again/Whole.antt =====
-- crates/cypher-guard/src/lib.rs, `Sanitizer::sanitize`, on what it has handed on.
use nexus_scout.Base.{
  ℕ, ◌*◌, ◌≡◌, ◌≤◌, refl, sym, ◌∙◌, ap, subst, arith, ◌∷◌, [], Bytes, length, List, u32_max, utf8,
  utf8_char, length-append, min,
}
use nexus_scout.Guard.Again.Kept.{shifted}
use nexus_scout.Guard.Again.Relex.{lex-rewritten_texts}
use nexus_scout.Guard.Again.Alike.{shifted-Alike}
use nexus_scout.Guard.Again.Policy.{IsReadOnly-Alike}
use nexus_scout.Guard.Again.Limit.{extract_result_limit-Alike}
use nexus_scout.Guard.Again.Fixed.{bound_paths-shifted}
use nexus_scout.Guard.Lexer.{Token, lex}
use nexus_scout.Guard.Limit.{extract_result_limit}
use nexus_scout.Guard.Reason.{ok}
use nexus_scout.Guard.Rules.Policy.{classify_iff}
use nexus_scout.Guard.Rules.{classify}
use nexus_scout.Guard.Sanitized.{SanitizedQuery}
use nexus_scout.Guard.Sanitizer.{Limits, check_length, sanitize, usize_max}
use nexus_scout.Guard.Sanitizer.Sound.{sanitize-IsSanitized}
use nexus_scout.Guard.Transforms.{bound_paths}
use nexus_scout.Guard.Transforms.Splice.{rewritten_texts}
use nexus_scout.Guard.Unicode.{validate}

length-utf8_char : (c : ℕ) → length (utf8_char c) ≤ 4
unfolding utf8_char
length-utf8_char c = ground arith

-- A character has at most four bytes.
length-utf8 : (cs : List ℕ) → length (utf8 cs) ≤ length cs * 4
unfolding utf8
length-utf8 [] = omega arith
length-utf8 (c ∷ cs) =
    omega (arith, length-append (utf8_char c) (utf8 cs), length-utf8_char c, length-utf8 cs)

check_length-le : (actual most : ℕ) → actual ≤ most → check_length actual most ≡ ok tt
unfolding check_length
check_length-le actual most h = ground arith

module _ (nfc : List ℕ → List ℕ) (limits : Limits) where
  -- The stages of the sanitizer, put together.
  staged :
      (text : List ℕ) (ts : List Token) (out : Bytes) (notes : List Bytes)
      → check_length (length (utf8 text)) (min (limits.max_query_length * 4) usize_max) ≡ ok tt
      → nfc text ≡ text
      → validate text ≡ ok tt
      → check_length (length text) limits.max_query_length ≡ ok tt
      → lex (utf8 text) ≡ ok ts
      → classify ts (utf8 text) ≡ ok tt
      → bound_paths (utf8 text) ts limits.max_path_depth ≡ (out, notes)
      → sanitize nfc limits text
        ≡ ok (record {
          cypher = out;
          result_limit = extract_result_limit ts (utf8 text);
          notes = notes;
        })
  unfolding sanitize
  staged text ts out notes h₁ h₂ h₃ h₄ h₅ h₆ h₇ = rw (h₁, h₂, h₃, h₄, h₅, h₆, h₇) refl

  -- A text whose bytes are a query that the sanitizer has handed on, in normal form, that passes the
  -- check of its characters and is within the length limit, is handed on unchanged: with the same
  -- text, the same result limit, and no notes. The depth is a u32, and a usize counts the bytes.
  pub sanitize-again :
      (cypher : List ℕ) (r : SanitizedQuery) (again : List ℕ)
      → limits.max_path_depth ≤ u32_max
      → sanitize nfc limits cypher ≡ ok r
      → utf8 again ≡ r.cypher
      → nfc again ≡ again
      → validate again ≡ ok tt
      → length again ≤ limits.max_query_length
      → length r.cypher ≤ usize_max
      → sanitize nfc limits again
        ≡ ok (record { cypher = r.cypher; result_limit = r.result_limit; notes = [] })
  sanitize-again cypher r again depth accepted bytes normal valid short fits =
      let q = sanitize-IsSanitized nfc limits cypher r accepted in
      let src = utf8 (nfc cypher) in
      let d = limits.max_path_depth in
      let out = rewritten_texts src d q.tokens in
      let ts = shifted src d 0 q.tokens in
      let same : utf8 again ≡ out = bytes ∙ q.bounded in
      let alike = shifted-Alike src out d 0 q.tokens refl in
      let read_only = (classify_iff ts out).1 (IsReadOnly-Alike src out alike q.read_only) in
      let size : length (utf8 again) ≤ usize_max =
        subst (λ b. length b ≤ usize_max) (sym bytes) fits in
      let limit = extract_result_limit-Alike src out alike ∙ sym q.limited in
      staged again ts r.cypher [] (check_length-le _ _ (omega (arith, length-utf8 again))) normal
        valid (check_length-le _ _ short)
        (ap lex same ∙ lex-rewritten_texts src d q.tokens q.lexed q.read_only.clean)
        (ap (classify ts) same ∙ read_only)
        (ap (λ b. bound_paths b ts d) same
          ∙ bound_paths-shifted src d q.tokens depth
          ∙ ap (λ b. (b, [])) (sym q.bounded))
      ∙ ap (λ l. ok (record { cypher = r.cypher; result_limit = l; notes = [] }))
          (ap (extract_result_limit ts) same ∙ limit)
