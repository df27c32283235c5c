-- ===== src/Guard/Again/Alike.antt =====
-- crates/cypher-guard/src/tokenizer.rs and transforms.rs: the tokens of the rewritten text against
-- those of the text.
use nexus_scout.Base.{
  drop-drop, ℕ, ◌-◌, ◌+◌, ◌≡◌, refl, sym, ◌∙◌, ap, arith, false, ◌∷◌, [], ◌++◌, Bytes, take, drop,
  length, List,
}
use nexus_scout.Guard.Again.Kept.{shifted, kept}
use nexus_scout.Guard.Again.Relex.{take-append, drop-append}
use nexus_scout.Guard.Lexer.{Token, text, slice}
use nexus_scout.Guard.Transforms.Splice.{rewritten_text, rewritten_texts}
use nexus_scout.Guard.Transforms.{is_path_range}

-- A token of one kind, and of one text unless it is a range.
pub record AlikeToken (src out : Bytes) (t t' : Token) : Type 0 where
  pub same_kind : t'.kind ≡ t.kind
  pub same_text : is_path_range t.kind ≡ false → text out t' ≡ text src t

-- Tokens that are alike, one by one.
pub data Alike (src out : Bytes) : List Token → List Token → Type 0 where
  done : Alike src out [] []
  more :
      {t t' : Token} {ts ts' : List Token}
      → AlikeToken src out t t'
      → Alike src out ts ts'
      → Alike src out (t ∷ ts) (t' ∷ ts')

-- The text of a token that stands at `j`.
pub text-at :
    (out w rest : Bytes) (t : Token)
    → drop t.start out ≡ w ++ rest
    → t.end ≡ t.start + length w
    → text out t ≡ w
unfolding text slice
text-at out w rest t e h =
    let n : t.end - t.start ≡ length w = omega (arith, h) in
    ap (λ n. take n (drop t.start out)) n ∙ ap (take (length w)) e ∙ take-append w rest

-- The tokens of the rewritten text are alike.
pub shifted-Alike :
    (src out : Bytes) (d j : ℕ) (ts : List Token)
    → drop j out ≡ rewritten_texts src d ts
    → Alike src out ts (shifted src d j ts)
unfolding shifted rewritten_texts
shifted-Alike src out d j [] e = done
shifted-Alike src out d j (t ∷ ts) e =
    let w = rewritten_text src d t in
    let rest = rewritten_texts src d ts in
    let alike : AlikeToken src out t (record { kind = t.kind; start = j; end = j + length w }) =
      record {
        same_kind = refl;
        same_text = λ plain. text-at out w rest _ e refl ∙ kept src d t plain;
      } in
    more alike (
      shifted-Alike src out d (j + length w) ts
        (sym (drop-drop (length w) j out) ∙ ap (drop (length w)) e ∙ drop-append w rest))
