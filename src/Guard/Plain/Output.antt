-- ===== src/Guard/Plain/Output.antt =====
-- crates/cypher-guard/src/lib.rs, `Sanitizer::sanitize`: the characters of what it hands on.
use nexus_scout.Base.{
  is_ascii_digit, ◌+◌, ℕ, ◌≡◌, refl, ◌∙◌, ap, arith, true, ◌||◌, [], ◌∷◌, all, Bytes, drop, inl,
  inr, List, subst, sym, length, utf8, Option-cases, drop-drop,
}
use nexus_scout.Guard.Again.Alike.{text-at}
use nexus_scout.Guard.Again.Chain.{lex-Chained}
use nexus_scout.Guard.Again.Kept.{shifted}
use nexus_scout.Guard.Again.Relex.{drop-append, lex-rewritten_texts}
use nexus_scout.Guard.Lexer.{Token, lex, is_range_byte, initial}
use nexus_scout.Guard.Oracle.Code.{all-weaken}
use nexus_scout.Guard.Oracle.Passed.{IsRange, Shown, replacement_of-Shown}
use nexus_scout.Guard.Plain.Checked.{validate-is_plain_from}
use nexus_scout.Guard.Plain.Encoded.{is_plain_from-utf8}
use nexus_scout.Guard.Plain.Tokens.{may_quote, is_plain_token, Chained-is_plain_token}
use nexus_scout.Guard.Plain.{code}
use nexus_scout.Guard.Reason.{ok}
use nexus_scout.Guard.Sanitized.{SanitizedQuery}
use nexus_scout.Guard.Sanitizer.Sound.{sanitize-IsSanitized}
use nexus_scout.Guard.Sanitizer.{Limits, sanitize}
use nexus_scout.Guard.Transforms.Splice.{
  rewritten_text, rewritten_texts, rewritten_text-none, rewritten_text-some,
}
use nexus_scout.Guard.Transforms.{replacement_of}
use nexus_scout.Guard.Unicode.{is_plain}

range_plain : (c : ℕ) → is_range_byte c ≡ true → is_plain c ≡ true
unfolding is_range_byte is_ascii_digit is_plain
range_plain c h = ground arith

IsRange-is_plain : (w : Bytes) → IsRange w → all is_plain w ≡ true
unfolding is_plain
IsRange-is_plain w (v, star, bytes) =
    rw star (all-weaken is_range_byte is_plain v range_plain bytes)

-- What a plain token is rewritten to is plain.
rewritten_text-is_plain :
    (src : Bytes) (d : ℕ) (t : Token)
    → is_plain_token src t ≡ true
    → (may_quote t.kind || all is_plain (rewritten_text src d t)) ≡ true
unfolding is_plain_token
rewritten_text-is_plain src d t h = elim (Option-cases (replacement_of src d t)) [
  | inl kept ↦ rw (rewritten_text-none src d t kept) h
  | inr (w, changed) ↦
      let (range, kind) = subst (Shown src t) changed (replacement_of-Shown src d t) in
      rw (rewritten_text-some src d t w changed) (ground (arith, IsRange-is_plain w range))
]

shifted-is_plain_token :
    (src out : Bytes) (d j : ℕ) (ts : List Token)
    → drop j out ≡ rewritten_texts src d ts
    → all (is_plain_token src) ts ≡ true
    → all (is_plain_token out) (shifted src d j ts) ≡ true
unfolding shifted rewritten_texts
shifted-is_plain_token src out d j [] e h = refl
shifted-is_plain_token src out d j (t ∷ ts) e h =
    let w = rewritten_text src d t in
    let rest = rewritten_texts src d ts in
    let t' : Token = record { kind = t.kind; start = j; end = j + length w } in
    let next = sym (drop-drop (length w) j out) ∙ ap (drop (length w)) e ∙ drop-append w rest in
    let first : is_plain_token out t' ≡ true =
      unfold is_plain_token in
      ap (λ v. may_quote t.kind || all is_plain v) (text-at out w rest t' e refl)
      ∙ rewritten_text-is_plain src d t (ground arith) in
    ground (arith, first, shifted-is_plain_token src out d (j + length w) ts next)

-- What the sanitizer hands on is cut into tokens, and all of them but strings, quoted names and
-- parameters are printable ASCII and white space.
pub sanitize-is_plain_token :
    (nfc : List ℕ → List ℕ) (limits : Limits) (cypher : List ℕ) (r : SanitizedQuery)
    → sanitize nfc limits cypher ≡ ok r
    → (ts : List Token) × (lex r.cypher ≡ ok ts) × (all (is_plain_token r.cypher) ts ≡ true)
sanitize-is_plain_token nfc limits cypher r h =
    let q = sanitize-IsSanitized nfc limits cypher r h in
    let src = utf8 (nfc cypher) in
    let d = limits.max_path_depth in
    let out = rewritten_texts src d q.tokens in
    let passes =
      is_plain_from-utf8 code (nfc cypher) (validate-is_plain_from (nfc cypher) q.valid) in
    let chain = (lex-Chained src q.tokens).0 q.lexed in
    let plain = Chained-is_plain_token src initial 0 q.tokens chain q.read_only.clean passes in
    (
      shifted src d 0 q.tokens,
      ap lex q.bounded ∙ lex-rewritten_texts src d q.tokens q.lexed q.read_only.clean,
      ap (λ w. all (is_plain_token w) (shifted src d 0 q.tokens)) q.bounded
          ∙ shifted-is_plain_token src out d 0 q.tokens refl plain,
    )
