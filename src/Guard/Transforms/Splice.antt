-- ===== src/Guard/Transforms/Splice.antt =====
-- The edits from right to left against one pass from left to right.
use mathlib.Core.Option.{get_or}
use nexus_scout.Base.{
  ℕ, ◌+◌, ◌-◌, ◌≤◌, List, [], ◌∷◌, ◌++◌, none, some, ◌≡◌, sym, ◌∙◌, ap, inl, inr, arith, length,
  take, Bytes, Option-cases, append_assoc, append-nil, take-add, take-take-append, drop-take-append,
  take-length,
}
use nexus_scout.Guard.Lexer.Tiles.{Tiles}
use nexus_scout.Guard.Lexer.{Token, text, slice}
use nexus_scout.Guard.Transforms.{
  add_edit, Edit, replacement_of, collect, replace_range, apply_edits, bound_paths,
}

-- The token's text, or its replacement.
unfoldable pub rewritten_text : Bytes → ℕ → Token → Bytes
rewritten_text src max_depth t = get_or (replacement_of src max_depth t) (text src t)

unfoldable pub rewritten_texts : Bytes → ℕ → List Token → Bytes
unfolding rewritten_text
rewritten_texts src max_depth [] = []
rewritten_texts src max_depth (t ∷ ts) =
    rewritten_text src max_depth t ++ rewritten_texts src max_depth ts

abbrev edits_of : Bytes → ℕ → List Token → List Edit
edits_of src max_depth ts = (collect src max_depth ts).0

take-text :
    (src : Bytes) (t : Token) → t.start ≤ t.end → take t.end src ≡ take t.start src ++ text src t
unfolding text slice
take-text src t h =
    let e : t.end ≡ t.start + (t.end - t.start) = omega arith in
    ap (λ n. take n src) e ∙ take-add t.start (t.end - t.start) src

edits_of-some :
    (src : Bytes) (d : ℕ) (t : Token) (ts : List Token) (r : Bytes)
    → replacement_of src d t ≡ some r
    → edits_of src d (t ∷ ts)
      ≡ record { start = t.start; end = t.end; replacement = r } ∷ edits_of src d ts
unfolding collect
edits_of-some src d t ts r e = ap (λ o. (add_edit src t o (collect src d ts)).0) e

edits_of-none :
    (src : Bytes) (d : ℕ) (t : Token) (ts : List Token)
    → replacement_of src d t ≡ none
    → edits_of src d (t ∷ ts) ≡ edits_of src d ts
unfolding collect
edits_of-none src d t ts e = ap (λ o. (add_edit src t o (collect src d ts)).0) e

Tiles-end-le : (i : ℕ) (ts : List Token) (n : ℕ) → Tiles i ts n → i ≤ n
Tiles-end-le i [] n h = omega arith
Tiles-end-le i (t ∷ ts) n (e, h, tiles) = omega (arith, Tiles-end-le t.end ts n tiles)

pub rewritten_text-some :
    (src : Bytes) (d : ℕ) (t : Token) (r : Bytes)
    → replacement_of src d t ≡ some r
    → rewritten_text src d t ≡ r
unfolding rewritten_text
rewritten_text-some src d t r e = rw e

pub rewritten_text-none :
    (src : Bytes) (d : ℕ) (t : Token)
    → replacement_of src d t ≡ none
    → rewritten_text src d t ≡ text src t
unfolding rewritten_text
rewritten_text-none src d t e = rw e

replace_range-splice :
    (src : Bytes) (e : Edit) (rest : Bytes)
    → e.start ≤ e.end
    → e.end ≤ length src
    → replace_range e (take e.end src ++ rest) ≡ take e.start src ++ (e.replacement ++ rest)
unfolding replace_range
replace_range-splice src e rest h k =
    rw (take-take-append e.start e.end src rest h k, drop-take-append e.end src rest k)

apply_edits-Tiles :
    (src : Bytes) (d i : ℕ) (ts : List Token)
    → Tiles i ts (length src)
    → apply_edits (edits_of src d ts) src ≡ take i src ++ rewritten_texts src d ts
unfolding rewritten_texts apply_edits
apply_edits-Tiles src d i [] e = unfold collect in rw (append-nil, e) (sym (take-length src))
apply_edits-Tiles src d i (t ∷ ts) (e, h, tiles) =
    let rest = rewritten_texts src d ts in
    let later = apply_edits-Tiles src d t.end ts tiles in
    let bound = Tiles-end-le t.end ts (length src) tiles in
    let shown = λ (w : Bytes) (same : rewritten_text src d t ≡ w).
      ap (λ v. take t.start src ++ (v ++ rest)) (sym same)
      ∙ ap (λ k. take k src ++ (rewritten_text src d t ++ rest)) e in
    elim (Option-cases (replacement_of src d t)) [
      | inl kept ↦
          ap (λ es. apply_edits es src) (edits_of-none src d t ts kept)
          ∙ later
          ∙ ap (λ b. b ++ rest) (take-text src t (omega arith))
          ∙ append_assoc (take t.start src) (text src t) rest
          ∙ shown (text src t) (rewritten_text-none src d t kept)
      | inr (r, changed) ↦
          ap (λ es. apply_edits es src) (edits_of-some src d t ts r changed)
          ∙ ap (replace_range (edit r)) later
          ∙ replace_range-splice src (edit r) rest (omega arith) bound
          ∙ shown r (rewritten_text-some src d t r changed)
    ]
  where
    edit : Bytes → Edit
    edit r = record { start = t.start; end = t.end; replacement = r }

-- On tokens that cover the text, the edits from right to left come to one pass from left to right,
-- in which each token keeps its text or has it replaced.
pub bound_paths-Tiles :
    (src : Bytes) (ts : List Token) (max_depth : ℕ)
    → Tiles 0 ts (length src)
    → (bound_paths src ts max_depth).0 ≡ rewritten_texts src max_depth ts
unfolding bound_paths
bound_paths-Tiles src ts max_depth tiles = apply_edits-Tiles src max_depth 0 ts tiles
