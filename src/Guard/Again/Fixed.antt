-- ===== src/Guard/Again/Fixed.antt =====
-- crates/cypher-guard/src/transforms.rs and lib.rs: the output of the sanitizer, put in again.
use nexus_scout.Base.{
  true, false, drop-drop, Bool-cases, ℕ, ◌+◌, ◌≡◌, ◌≤◌, refl, sym, ◌∙◌, ap, ◌∷◌, [], Bytes, drop,
  length, List, none, Option-cases, inl, inr, u32_max,
}
use nexus_scout.Guard.Again.Kept.{shifted}
use nexus_scout.Guard.Again.Relex.{drop-append}
use nexus_scout.Guard.Again.Alike.{text-at}
use nexus_scout.Guard.Lexer.{Token, text}
use nexus_scout.Guard.Transforms.Bounded.{rewritten, rewritten-IsBounded, rebound-IsBounded}
use nexus_scout.Guard.Transforms.Splice.{rewritten_text, rewritten_texts}
use nexus_scout.Guard.Transforms.{
  apply_edits, is_path_range, parse_range, rebound, replacement_of, collect, bound_paths,
}

unread : (d : ℕ) (w : Bytes) → parse_range (drop 1 w) ≡ none → rebound w d ≡ none
unfolding rebound
unread d w h = rw h refl

-- A range is not rewritten twice.
rebound-rewritten : (d : ℕ) (w : Bytes) → d ≤ u32_max → rebound (rewritten d w) d ≡ none
rebound-rewritten d w h = elim (Option-cases (parse_range (drop 1 w))) [
  | inl e ↦ rw (unread d w e) (unread d w e)
  | inr (b, e) ↦ rebound-IsBounded d (rewritten d w) (rewritten-IsBounded d w b h e)
]

replacement_of-rewritten :
    (src out : Bytes) (d : ℕ) (t t' : Token)
    → d ≤ u32_max
    → t'.kind ≡ t.kind
    → text out t' ≡ rewritten_text src d t
    → replacement_of out d t' ≡ none
unfolding replacement_of rewritten_text
replacement_of-rewritten src out d t t' h k e = elim (Bool-cases (is_path_range t.kind)) [
  | inr plain ↦
      let kinds : is_path_range t'.kind ≡ false = ap is_path_range k ∙ plain in rw kinds refl
  | inl range ↦
      let kinds : is_path_range t'.kind ≡ true = ap is_path_range k ∙ range in
      let now : rewritten_text src d t ≡ rewritten d (text src t) = rw range refl in
      rw kinds (ap (λ w. rebound w d) (e ∙ now) ∙ rebound-rewritten d (text src t) h)
]

collect-shifted :
    (src out : Bytes) (d j : ℕ) (ts : List Token)
    → d ≤ u32_max
    → drop j out ≡ rewritten_texts src d ts
    → collect out d (shifted src d j ts) ≡ ([], [])
unfolding collect shifted rewritten_texts
collect-shifted src out d j [] h e = refl
collect-shifted src out d j (t ∷ ts) h e =
    let w = rewritten_text src d t in
    let rest = rewritten_texts src d ts in
    let t' : Token = record { kind = t.kind; start = j; end = j + length w } in
    let next = sym (drop-drop (length w) j out) ∙ ap (drop (length w)) e ∙ drop-append w rest in
    rw
      (
        replacement_of-rewritten src out d t t' h refl (text-at out w rest t' e refl),
        collect-shifted src out d (j + length w) ts h next,
      )
      refl

-- The transform finds nothing to do in its own output.
pub bound_paths-shifted :
    (src : Bytes) (d : ℕ) (ts : List Token)
    → d ≤ u32_max
    → bound_paths (rewritten_texts src d ts) (shifted src d 0 ts) d ≡ (rewritten_texts src d ts, [])
unfolding bound_paths
bound_paths-shifted src d ts h =
    let out = rewritten_texts src d ts in
    rw (collect-shifted src out d 0 ts h refl) (unfold apply_edits in refl)
