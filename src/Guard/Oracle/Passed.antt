-- ===== src/Guard/Oracle/Passed.antt =====
-- The oracle of the fuzz target finds nothing in what the sanitizer hands on.
use nexus_scout.Base.{
  if_cases, and_then, leb, ℕ, zero, suc, ◌-◌, ◌<◌, ◌≡◌, refl, sym, ◌∙◌, ap, arith, subst, Bool,
  true, false, not, ◌&&◌, List, [], ◌∷◌, ◌++◌, all, All, take, drop, drop-drop, drop-length, length,
  Bytes, is_ascii_digit, Option, none, some, decimal, decimal-digits, inl, inr, Option-cases, ◌⊎◌,
  utf8,
}
use nexus_scout.Guard.Lexer.{Token, is_range_byte, text, slice}
use nexus_scout.Guard.Lexer.Tiles.{Tiles}
use nexus_scout.Guard.Oracle.Handled.{Handles, scan_token-Handles, range_Passes}
use nexus_scout.Guard.Oracle.Lexed.{IsToken, lex-IsToken, RangeStars, scan_token-RangeStars}
use nexus_scout.Guard.Oracle.Scans.{oracle, head?}
use nexus_scout.Guard.Oracle.Tokens.{Open, Passes}
use nexus_scout.Guard.Oracle.{
  run_is_denied, violation, at_end, trim_digits, code, code_position_violation,
}
use nexus_scout.Guard.Reason.{ok}
use nexus_scout.Guard.Rules.Policy.{is_clean, is_allowed}
use nexus_scout.Guard.Rules.{denied_keywords, in_table, is_word}
use nexus_scout.Guard.Sanitized.{SanitizedQuery}
use nexus_scout.Guard.Sanitizer.Sound.{sanitize-IsSanitized}
use nexus_scout.Guard.Sanitizer.{Limits, sanitize}
use nexus_scout.Guard.Transforms.Splice.{
  rewritten_text, rewritten_texts, rewritten_text-none, rewritten_text-some,
}
use nexus_scout.Guard.Transforms.{
  is_path_range, replacement_of, rebound, rebound_range, print_range, Bounds,
}

text-IsToken :
    (src : Bytes) (t : Token) (k : IsToken src t)
    → text src t ≡ take k.scanned.width (k.first ∷ k.behind)
unfolding text slice
text-IsToken src t k =
    let width : t.end - t.start ≡ k.scanned.width = omega (arith, k.same_end) in
    ap (λ n. take n (drop t.start src)) width ∙ ap (take k.scanned.width) k.at_start

drop-IsToken :
    (src : Bytes) (t : Token) (k : IsToken src t)
    → drop t.end src ≡ drop k.scanned.width (k.first ∷ k.behind)
drop-IsToken src t k =
    ap (λ n. drop n src) k.same_end
    ∙ sym (drop-drop k.scanned.width t.start src)
    ∙ ap (drop k.scanned.width) k.at_start

-- The bytes of a printed range.
abbrev pub IsRange : Bytes → Type 0
IsRange w = (v : Bytes) × (w ≡ b'*' ∷ v) × (all is_range_byte v ≡ true)

pub all-append : (p : ℕ → Bool) (a b : Bytes) → all p (a ++ b) ≡ (all p a && all p b)
all-append p [] b = refl
all-append p (c ∷ a) b = ground (arith, all-append p a b)

digits_range : (w : Bytes) → all is_ascii_digit w ≡ true → all is_range_byte w ≡ true
unfolding is_range_byte
digits_range [] h = refl
digits_range (c ∷ w) h = ground (arith, digits_range w)

print_range-IsRange : (lower upper : ℕ) → IsRange (print_range lower upper)
unfolding print_range is_range_byte
print_range-IsRange lower upper =
    let two : Bytes = b'.' ∷ b'.' ∷ decimal upper in
    (
      decimal lower ++ two,
      refl,
      ground (
        arith,
        all-append is_range_byte (decimal lower) two,
        digits_range (decimal lower) (decimal-digits lower),
        digits_range (decimal upper) (decimal-digits upper),
      ),
    )

-- What a token has in its place in the output: its text, or for a range another range.
abbrev pub Shown : Bytes → Token → Option Bytes → Type 0
Shown src t none = Unit
Shown src t (some w) = IsRange w × (is_path_range t.kind ≡ true)

rebound-Shown :
    (src : Bytes) (t : Token) (d : ℕ) (o : Option Bounds)
    → is_path_range t.kind ≡ true
    → Shown src t (and_then o (rebound_range d))
unfolding rebound_range
rebound-Shown src t d none k = tt
rebound-Shown src t d (some (lower, none)) k = (print_range-IsRange _ d, k)
rebound-Shown src t d (some (lower, some u)) k =
    if_cases (Shown src t) (leb u d) _ _ (λ _. tt) (λ _. (print_range-IsRange _ d, k))

pub replacement_of-Shown : (src : Bytes) (d : ℕ) (t : Token) → Shown src t (replacement_of src d t)
unfolding replacement_of rebound
replacement_of-Shown src d t =
    if_cases (Shown src t) (not (is_path_range t.kind)) _ _ (λ _. tt)
      (λ k. rebound-Shown src t d _ (ground arith))

-- A token's place in the output is its scanned text, or a printed range in the place of another.
Shown-cases :
    (src : Bytes) (d : ℕ) (t : Token) (k : IsToken src t)
    → (rewritten_text src d t ≡ take k.scanned.width (k.first ∷ k.behind))
      ⊎ (IsRange (rewritten_text src d t) × (is_path_range t.kind ≡ true))
Shown-cases src d t k = elim (Option-cases (replacement_of src d t)) [
  | inl kept ↦ inl (rewritten_text-none src d t kept ∙ text-IsToken src t k)
  | inr (w, changed) ↦
      let (range, kind) = subst (Shown src t) changed (replacement_of-Shown src d t) in
      inr (subst IsRange (sym (rewritten_text-some src d t w changed)) range, kind)
]

-- The oracle passes over what each token has in the output.
token-Passes :
    (src : Bytes) (d : ℕ) (t : Token) (run : Bytes)
    → IsToken src t
    → Open run (head? (drop t.start src))
    → is_clean t.kind ≡ true
    → is_allowed src t ≡ true
    → Passes run (rewritten_text src d t) (head? (drop t.end src))
unfolding is_allowed
token-Passes src d t run k opens clean allowed = elim (Shown-cases src d t k) [
  | inl same ↦
      let open_first = subst (Open run) (ap head? k.at_start) opens in
      let handles =
        subst (Handles run k.first k.behind) k.scan
          (scan_token-Handles run k.state t.start k.first k.behind open_first) in
      let kinds = ap is_word k.same_kind in
      let words = ap (λ w. in_table w denied_keywords) (text-IsToken src t k) in
      rw (same, drop-IsToken src t k)
        (handles (sym (ap is_clean k.same_kind) ∙ clean) (λ word. ground arith))
  | inr ((v, star, range), kind) ↦ rw star (range_Passes run b'*' v _ refl opens.0 range)
]

head?-take_pos : (n b : ℕ) (bs rest : Bytes) → 0 < n → head? (take n (b ∷ bs) ++ rest) ≡ some b
head?-take_pos zero b bs rest h = absurd (omega arith)
head?-take_pos (suc n) b bs rest h = refl

first-Shown :
    (src : Bytes) (d : ℕ) (t : Token) (k : IsToken src t) (rest : Bytes)
    → t.start < t.end
    → head? (rewritten_text src d t ++ rest) ≡ some k.first
first-Shown src d t k rest h = elim (Shown-cases src d t k) [
  | inl same ↦
      rw same (head?-take_pos k.scanned.width k.first k.behind rest (omega (arith, k.same_end)))
  | inr ((v, star, range), kind) ↦
      let stars =
        subst (RangeStars k.first) k.scan
          (scan_token-RangeStars k.state t.start k.first k.behind) in
      let is_star = stars (sym (ap is_path_range k.same_kind) ∙ kind) in
      let first : b'*' ≡ k.first = ground (arith, is_star) in
      ap (λ w. head? (w ++ rest)) star ∙ ap some first
]

-- The output begins with the byte that the text begins with.
head?-rewritten_texts :
    (src : Bytes) (d i : ℕ) (ts : List Token)
    → Tiles i ts (length src)
    → All (IsToken src) ts
    → head? (rewritten_texts src d ts) ≡ head? (drop i src)
unfolding rewritten_texts
head?-rewritten_texts src d i [] e all = rw (e, drop-length src) refl
head?-rewritten_texts src d i (t ∷ ts) (e, h, tiles) (k, all) =
    first-Shown src d t k (rewritten_texts src d ts) (omega arith)
    ∙ sym (ap head? k.at_start)
    ∙ ap (λ n. head? (drop n src)) e

oracle_end : (run : Bytes) → run_is_denied run denied_keywords ≡ false → oracle (code run) [] ≡ none
unfolding violation at_end
oracle_end run h = rw h refl

oracle-rewritten_texts :
    (src : Bytes) (d i : ℕ) (ts : List Token) (run : Bytes)
    → Tiles i ts (length src)
    → All (IsToken src) ts
    → all (λ t. is_clean t.kind) ts ≡ true
    → all (is_allowed src) ts ≡ true
    → Open run (head? (drop i src))
    → oracle (code run) (rewritten_texts src d ts) ≡ none
unfolding rewritten_texts
oracle-rewritten_texts src d i [] run e scans clean allowed opens = oracle_end run opens.0
oracle-rewritten_texts src d i (t ∷ ts) run (e, h, tiles) (k, scans) clean allowed opens =
    let opens_t = subst (λ n. Open run (head? (drop n src))) (sym e) opens in
    let p = token-Passes src d t run k opens_t (ground arith) (ground arith) in
    p.passes (rewritten_texts src d ts) (head?-rewritten_texts src d t.end ts tiles scans)
    ∙ oracle-rewritten_texts src d t.end ts p.landed tiles scans (ground arith) (ground arith)
        p.opens

empty_Open : (h : Option ℕ) → Open [] h
unfolding run_is_denied trim_digits
empty_Open h = (refl, λ _. refl)

-- What the sanitizer hands on holds no violation for the fuzz target's oracle: no denied keyword, not
-- even behind digits, no semicolon and no comment, outside strings, quoted names and parameters.
pub sanitize-code_position_violation :
    (nfc : List ℕ → List ℕ) (limits : Limits) (cypher : List ℕ) (r : SanitizedQuery)
    → sanitize nfc limits cypher ≡ ok r
    → code_position_violation r.cypher denied_keywords ≡ none
unfolding code_position_violation
sanitize-code_position_violation nfc limits cypher r h =
    let q = sanitize-IsSanitized nfc limits cypher r h in
    let src = utf8 (nfc cypher) in
    rw q.bounded (
      oracle-rewritten_texts src limits.max_path_depth 0 q.tokens [] q.tiles
        (lex-IsToken src q.tokens q.lexed) q.read_only.clean q.read_only.words_allowed
        (empty_Open _))
