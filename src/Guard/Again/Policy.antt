-- ===== src/Guard/Again/Policy.antt =====
-- crates/cypher-guard/src/rules.rs: the policy on tokens that are alike.
use nexus_scout.Base.{
  inr, inl, Bool-cases, ◌≡◌, refl, sym, ◌∙◌, ap, arith, true, [], Bytes, all, List, none, some, ◌≢◌,
}
use nexus_scout.Guard.Again.Alike.{AlikeToken, Alike, done, more}
use nexus_scout.Guard.Lexer.{Token, text}
use nexus_scout.Guard.Rules.Paths.{find_quantified_path-has_path}
use nexus_scout.Guard.Rules.Policy.{is_clean, is_allowed, IsReadOnly}
use nexus_scout.Guard.Rules.{is_word, significant, is_whitespace, first_word, in_table, read_entry}
use nexus_scout.Guard.Transforms.{is_path_range}
use nexus_scout.Guard.Again.Calls.{has_call-Alike}
use nexus_scout.Guard.Again.Paths.{quantified_path-Alike}
use nexus_scout.Guard.Rules.Flags.{find_quantified_path-seen}

module _ (src out : Bytes) where
  significant-Alike :
      {ts ts' : List Token}
      → Alike src out ts ts'
      → Alike src out (significant ts) (significant ts')
  unfolding significant
  significant-Alike done = done
  significant-Alike (more {t} {t'} {ts} {ts'} k h) = elim (Bool-cases (is_whitespace t.kind)) [
    | inl space ↦ rw (ap is_whitespace k.same_kind, space) (significant-Alike h)
    | inr plain ↦ rw (ap is_whitespace k.same_kind, plain) (more k (significant-Alike h))
  ]

  is_clean-Alike :
      {ts ts' : List Token}
      → Alike src out ts ts'
      → all (λ t. is_clean t.kind) ts' ≡ all (λ t. is_clean t.kind) ts
  is_clean-Alike done = refl
  is_clean-Alike (more k h) = ground (arith, ap is_clean k.same_kind, is_clean-Alike h)

  word_text :
      (t t' : Token) → AlikeToken src out t t' → is_word t.kind ≡ true → text out t' ≡ text src t
  unfolding is_word is_path_range
  word_text t t' k h = ground (arith, k.same_text)

  is_allowed-Alike :
      {ts ts' : List Token}
      → Alike src out ts ts'
      → all (is_allowed out) ts' ≡ all (is_allowed src) ts
  unfolding is_allowed
  is_allowed-Alike done = refl
  is_allowed-Alike (more {t} {t'} k h) =
      ground (arith, ap is_word k.same_kind, word_text t t' k, is_allowed-Alike h)

  -- The first words are alike.
  first_word-Alike :
      {ts ts' : List Token} (t : Token)
      → Alike src out ts ts'
      → first_word ts ≡ some t
      → (t' : Token) × (first_word ts' ≡ some t') × (text out t' ≡ text src t)
  unfolding first_word
  first_word-Alike u done h = absurd (ground arith)
  first_word-Alike u (more {t} {t'} k h) e = elim (Bool-cases (is_word t.kind)) [
    | inl word ↦ (
      t',
      rw (ap is_word k.same_kind, word) refl,
      word_text t t' k word ∙ ap (text src) (ground arith),
    )
    | inr plain ↦
        let (u', first, same) = first_word-Alike u h (ground arith) in
        (u', rw (ap is_word k.same_kind, plain) first, same)
  ]

  not_empty-Alike : {ts ts' : List Token} → Alike src out ts ts' → ts ≢ [] → ts' ≢ []
  not_empty-Alike done h = h
  not_empty-Alike (more k h) e = λ e'. absurd (ground arith)

  -- Tokens that are alike are read-only alike.
  pub IsReadOnly-Alike :
      {ts ts' : List Token} → Alike src out ts ts' → IsReadOnly ts src → IsReadOnly ts' out
  IsReadOnly-Alike {ts} {ts'} h q =
      let sig = significant-Alike h in
      let (entry, first, same) = first_word-Alike q.entry sig q.entry_first in
      record {
        not_empty = not_empty-Alike sig q.not_empty;
        clean = is_clean-Alike h ∙ q.clean;
        words_allowed = is_allowed-Alike h ∙ q.words_allowed;
        no_call = has_call-Alike src out sig ∙ q.no_call;
        no_quantified_path =
            sym (find_quantified_path-has_path out (significant ts'))
            ∙ find_quantified_path-seen out none [] (significant ts')
            ∙ quantified_path-Alike src out none none [] tt sig
            ∙ sym (find_quantified_path-seen src none [] (significant ts))
            ∙ find_quantified_path-has_path src (significant ts)
            ∙ q.no_quantified_path;
        entry = entry;
        entry_first = first;
        entry_reads = ap (λ w. in_table w read_entry) same ∙ q.entry_reads;
      }
