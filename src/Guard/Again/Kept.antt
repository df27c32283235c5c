-- ===== src/Guard/Again/Kept.antt =====
-- crates/cypher-guard/src/tokenizer.rs: the lexer on the text that the path transform makes.
use nexus_scout.Base.{
  zero, Bool-cases, ◌⊎◌, ◌<◌, ℕ, ◌-◌, ◌+◌, ◌≡◌, refl, sym, ◌∙◌, ap, subst, arith, true, false, ◌∷◌,
  [], ◌++◌, Bytes, take, drop, length, inl, inr, Option-cases, List, suc,
}
use nexus_scout.Guard.Again.Chain.{Chained, token_of, drop_behind}
use nexus_scout.Guard.Again.Cut.{upto_star, take-Cut}
use nexus_scout.Guard.Lexer.{
  span_while, Token, Lexer, Scanned, scan_token, track, is_range_byte, text, slice,
}
use nexus_scout.Guard.Oracle.Passed.{IsRange, Shown, replacement_of-Shown}
use nexus_scout.Guard.Transforms.Splice.{
  rewritten_text, rewritten_texts, rewritten_text-none, rewritten_text-some,
}
use nexus_scout.Guard.Transforms.{is_path_range, replacement_of}
use nexus_scout.Guard.Again.Range.{RangeScan, scan_token-RangeScan}
use nexus_scout.Guard.Oracle.Code.{span_while-all}
use nexus_scout.Guard.Reason.{ok}

-- The tokens of the rewritten text, from offset `j` on: each has the length of what it is rewritten to.
unfoldable pub shifted : Bytes → ℕ → ℕ → List Token → List Token
shifted src d j [] = []
shifted src d j (t ∷ ts) =
    let n = length (rewritten_text src d t) in
    record { kind = t.kind; start = j; end = j + n } ∷ shifted src d (j + n) ts

-- The text of a token that a scan has made.
pub text_of :
    (src : Bytes) (s : Lexer) (i b : ℕ) (bs : Bytes) (r : Scanned)
    → drop i src ≡ b ∷ bs
    → text src (token_of r i) ≡ take r.width (b ∷ bs)
unfolding text slice
text_of src s i b bs r e =
    let width : i + r.width - i ≡ r.width = omega arith in
    ap (λ n. take n (drop i src)) width ∙ ap (take r.width) e

pub take_width : (n b : ℕ) (bs : Bytes) → 0 < n → take n (b ∷ bs) ≡ b ∷ take (n - 1) bs
take_width zero b bs h = absurd (omega arith)
take_width (suc n) b bs h = let e : n ≡ suc n - 1 = omega arith in ap (λ m. b ∷ take m bs) e

-- A token that is no range keeps its text.
pub kept :
    (src : Bytes) (d : ℕ) (t : Token)
    → is_path_range t.kind ≡ false
    → rewritten_text src d t ≡ text src t
unfolding replacement_of
kept src d t h = rewritten_text-none src d t (rw h refl)

-- A range is rewritten to a range, or kept.
ranged :
    (src : Bytes) (d : ℕ) (t : Token)
    → is_path_range t.kind ≡ true
    → IsRange (text src t)
    → IsRange (rewritten_text src d t)
ranged src d t h k = elim (Option-cases (replacement_of src d t)) [
  | inl same ↦ subst IsRange (sym (rewritten_text-none src d t same)) k
  | inr (w, changed) ↦
      let (range, kind) = subst (Shown src t) changed (replacement_of-Shown src d t) in
      subst IsRange (sym (rewritten_text-some src d t w changed)) range
]

-- The text of a range token.
IsRange-text :
    (s : Lexer) (i b : ℕ) (bs : Bytes) (r : Scanned)
    → scan_token s i b bs ≡ ok r
    → is_path_range r.kind ≡ true
    → IsRange (take r.width (b ∷ bs))
IsRange-text s i b bs r scan h =
    let (star, opened, kind, width, stack) =
      subst (RangeScan s b bs) scan (scan_token-RangeScan s i b bs) h in
    rw (width, star) (take (span_while is_range_byte bs) bs, refl, span_while-all is_range_byte bs)

-- What a token that the lexer has made becomes: it keeps its text, or it is a range.
pub shown :
    (src : Bytes) (d : ℕ) (s : Lexer) (i b : ℕ) (bs : Bytes) (r : Scanned)
    → drop i src ≡ b ∷ bs
    → scan_token s i b bs ≡ ok r
    → ((is_path_range r.kind ≡ false)
        × (rewritten_text src d (token_of r i) ≡ take r.width (b ∷ bs)))
      ⊎ ((is_path_range r.kind ≡ true) × IsRange (rewritten_text src d (token_of r i)))
shown src d s i b bs r e scan = elim (Bool-cases (is_path_range r.kind)) [
  | inr plain ↦ inl (plain, kept src d (token_of r i) plain ∙ text_of src s i b bs r e)
  | inl range ↦
      let old =
        subst IsRange (sym (text_of src s i b bs r e)) (IsRange-text s i b bs r scan range) in
      inr (range, ranged src d (token_of r i) range old)
]

star_first : (v rest : Bytes) → upto_star (b'*' ∷ (v ++ rest)) ≡ b'*' ∷ []
unfolding upto_star
star_first v rest = refl

first_star : (b : ℕ) (bs : Bytes) → b ≡ b'*' → upto_star (b ∷ bs) ≡ b'*' ∷ []
unfolding upto_star
first_star b bs h = rw h refl

-- Up to its next star, the rewritten text is the text.
pub rewritten_texts-Cut :
    (src : Bytes) (d : ℕ) (s : Lexer) (i : ℕ) (ts : List Token)
    → Chained src s i ts
    → upto_star (rewritten_texts src d ts) ≡ upto_star (drop i src)
unfolding rewritten_texts
rewritten_texts-Cut src d s i [] e = ap upto_star (sym e)
rewritten_texts-Cut src d s i (t ∷ ts) (b, bs, r, e, scan, same, chain) =
    let rest = rewritten_texts src d ts in
    let behind : upto_star rest ≡ upto_star (drop r.width (b ∷ bs)) =
      rewritten_texts-Cut src d (track s r b bs) (i + r.width) ts chain
      ∙ ap upto_star (sym (drop_behind src i b r.width bs e)) in
    ap (λ t. upto_star (rewritten_text src d t ++ rest)) same
    ∙ elim (shown src d s i b bs r e scan) [
      | inl (plain, said) ↦
          ap (λ w. upto_star (w ++ rest)) said ∙ take-Cut r.width (b ∷ bs) rest behind
      | inr (range, (v, said, bytes)) ↦
          let (star, opened, kind, width, stack) =
            subst (RangeScan s b bs) scan (scan_token-RangeScan s i b bs) range in
          ap (λ w. upto_star (w ++ rest)) said ∙ star_first v rest ∙ sym (first_star b bs star)
    ]
    ∙ ap upto_star (sym e)
