-- ===== src/Guard/Rules/Policy.antt =====
-- What the classifier accepts, stated with no order of tests.
use nexus_scout.Base.{
  zero, Bool, true, false, not, ◌&&◌, ◌||◌, List, [], ◌∷◌, ◌++◌, Option, none, some, ◌≡◌, refl, ◌≢◌,
  ◌↔◌, ◌∙◌, ap, arith, all, Bytes, Bool-cases, inl, inr,
}
use nexus_scout.Guard.Lexer.{Token, TokenKind, text}
use nexus_scout.Guard.Rules.Calls.{has_call, find_namespaced_call-has_call}
use nexus_scout.Guard.Rules.Paths.{has_path, find_quantified_path-has_path}
use nexus_scout.Guard.Reason.{RejectReason, Result, ok, err, ◌>>◌}
use nexus_scout.Guard.Rules.{
  deny_mutation, deny_call, deny_admin, denied_keywords, read_entry, in_table, is_word, significant,
  check_structure, check_words, find_namespaced_call, find_quantified_path, first_word, check_entry,
  check_none, check_empty, classify,
}

-- Neither a comment nor a semicolon.
unfoldable pub is_clean : TokenKind → Bool
is_clean TokenKind.comment = false
is_clean TokenKind.semicolon = false
is_clean _ = true

-- No word of a deny table, in any case of its letters.
unfoldable pub is_allowed : Bytes → Token → Bool
is_allowed src t = not (is_word t.kind && in_table (text src t) denied_keywords)

-- What a read-only query is.
pub record IsReadOnly (tokens : List Token) (src : Bytes) : Type 0 where
  pub not_empty : significant tokens ≢ []
  pub clean : all (λ t. is_clean t.kind) tokens ≡ true
  pub words_allowed : all (is_allowed src) tokens ≡ true
  pub no_call : has_call src (significant tokens) ≡ false
  pub no_quantified_path : has_path src none (significant tokens) ≡ false
  pub entry : Token
  pub entry_first : first_word (significant tokens) ≡ some entry
  pub entry_reads : in_table (text src entry) read_entry ≡ true

in_table-append :
    (w : Bytes) (xs ys : List Bytes) → in_table w (xs ++ ys) ≡ (in_table w xs || in_table w ys)
unfolding in_table
in_table-append w [] ys = refl
in_table-append w (x ∷ xs) ys = ground (arith, in_table-append w xs ys)

in_table-denied :
    (w : Bytes)
    → in_table w denied_keywords
      ≡ (in_table w deny_mutation || (in_table w deny_call || in_table w deny_admin))
unfolding denied_keywords
in_table-denied w =
    in_table-append w deny_mutation (deny_call ++ deny_admin)
    ∙ ap (λ b. in_table w deny_mutation || b) (in_table-append w deny_call deny_admin)

check_structure_iff :
    (ts : List Token)
    → (check_structure (significant ts) ≡ ok tt) ↔ (all (λ t. is_clean t.kind) ts ≡ true)
unfolding check_structure significant is_clean
check_structure_iff [] = ground arith
check_structure_iff (t ∷ ts) = ground (arith, check_structure_iff ts)

check_words_iff :
    (src : Bytes) (ts : List Token)
    → (check_words src (significant ts) ≡ ok tt) ↔ (all (is_allowed src) ts ≡ true)
unfolding check_words significant is_allowed
check_words_iff src [] = ground arith
check_words_iff src (t ∷ ts) = ground (arith, check_words_iff src ts, in_table-denied (text src t))

check_empty_iff : (ts : List Token) → (check_empty ts ≡ ok tt) ↔ (ts ≢ [])
unfolding check_empty
check_empty_iff [] = (λ h. cc, λ h. absurd (h refl))
check_empty_iff (t ∷ ts) = (λ _. cc, λ _. refl)

check_call_iff :
    (src : Bytes) (ts : List Token)
    → (check_none RejectReason.namespaced_call (find_namespaced_call src zero ts) ≡ ok tt)
      ↔ (has_call src ts ≡ false)
unfolding check_none
check_call_iff src ts = ground (arith, find_namespaced_call-has_call src ts)

check_path_iff :
    (src : Bytes) (ts : List Token)
    → (check_none RejectReason.quantified_path (find_quantified_path src none [] ts) ≡ ok tt)
      ↔ (has_path src none ts ≡ false)
unfolding check_none
check_path_iff src ts = ground (arith, find_quantified_path-has_path src ts)

check_entry_iff :
    (src : Bytes) (o : Option Token)
    → (check_entry src o ≡ ok tt)
      ↔ ((t : Token) × (o ≡ some t) × (in_table (text src t) read_entry ≡ true))
unfolding check_entry
check_entry_iff src none = (λ h. cc, λ (t, e, h). cc)
check_entry_iff src (some t) = elim (Bool-cases (in_table (text src t) read_entry)) [
  | inl reads ↦ (λ _. (t, refl, reads), λ _. rw (reads, check_entry))
  | inr other ↦ (λ h. ground arith, λ (u, e, h). ground arith)
]

>>_iff : (m k : Result (Unit {0})) → ((m >> k) ≡ ok tt) ↔ ((m ≡ ok tt) × (k ≡ ok tt))
>>_iff (ok tt) k = (λ h. (refl, h), λ h. h.1)
>>_iff (err e) k = (λ h. cc, λ h. cc)

pub classify_iff :
    (tokens : List Token) (src : Bytes) → (classify tokens src ≡ ok tt) ↔ IsReadOnly tokens src
unfolding classify
classify_iff tokens src = (accepted, accepts)
  where
    accepted : classify tokens src ≡ ok tt → IsReadOnly tokens src
    accepted h =
        let (e₁, h₁) = (>>_iff _ _).0 h in
        let (e₂, h₂) = (>>_iff _ _).0 h₁ in
        let (e₃, h₃) = (>>_iff _ _).0 h₂ in
        let (e₄, h₄) = (>>_iff _ _).0 h₃ in
        let (e₅, h₅) = (>>_iff _ _).0 h₄ in
        let (t, first, reads) = (check_entry_iff src _).0 h₅ in
        record {
          not_empty = (check_empty_iff _).0 e₁;
          clean = (check_structure_iff tokens).0 e₂;
          words_allowed = (check_words_iff src tokens).0 e₃;
          no_call = (check_call_iff src _).0 e₄;
          no_quantified_path = (check_path_iff src _).0 e₅;
          entry = t;
          entry_first = first;
          entry_reads = reads;
        }

    accepts : IsReadOnly tokens src → classify tokens src ≡ ok tt
    accepts q = (>>_iff _ _).1 (
      (check_empty_iff _).1 q.not_empty,
      (>>_iff _ _).1 (
        (check_structure_iff tokens).1 q.clean,
        (>>_iff _ _).1 (
          (check_words_iff src tokens).1 q.words_allowed,
          (>>_iff _ _).1 (
            (check_call_iff src _).1 q.no_call,
            (>>_iff _ _).1 (
              (check_path_iff src _).1 q.no_quantified_path,
              (check_entry_iff src _).1 (q.entry, q.entry_first, q.entry_reads),
            ),
          ),
        ),
      ),
    )
