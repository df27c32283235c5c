-- ===== src/Guard/Rules/Spans.antt =====
-- crates/cypher-guard/src/rules.rs: the spans that the classifier reports.
use nexus_scout.Base.{
  ltb, ℕ, zero, suc, ◌*◌, ◌≤◌, arith, Bool, true, false, not, ◌&&◌, List, [], ◌∷◌, Option, none,
  some, if◌then◌else◌, if_cases, Bytes, drop, take,
}
use nexus_scout.Guard.Lexer.{Token, text}
use nexus_scout.Guard.Lexer.Tiles.{Tiles}
use nexus_scout.Guard.Reason.{Range, RejectReason, Result, ok, err, ◌>>◌}
use nexus_scout.Guard.Rules.{
  is_relationship_at, punct_is, count_dots, significant, is_whitespace, check_empty,
  check_structure, check_words, check_none, check_entry, find_namespaced_call, find_quantified_path,
  first_word, last_end, quantified, Parens, mark_top, classify, is_word, in_table, deny_mutation,
  deny_call, deny_admin, read_entry, is_name_segment, next_punct_is, is_quantifier,
}

-- A span of a text of `n` bytes, or none.
abbrev pub InText : ℕ → Option Range → Type 0
InText n none = Unit
InText n (some r) = (r.start ≤ r.end) × (r.end ≤ n)

abbrev pub Spans {ℓ} : {A : Type ℓ} → ℕ → Result A → Type 0
Spans n (ok a) = Unit
Spans n (err e) = InText n e.span

-- Tokens that stand one behind the other between `i` and `n`.
abbrev pub Ordered : ℕ → List Token → ℕ → Type 0
Ordered i [] n = i ≤ n
Ordered i (t ∷ ts) n = (i ≤ t.start) × (t.start ≤ t.end) × Ordered t.end ts n

Ordered-le : (i : ℕ) (ts : List Token) (n : ℕ) → Ordered i ts n → i ≤ n
Ordered-le i [] n h = h
Ordered-le i (t ∷ ts) n (a, b, h) = omega (arith, Ordered-le t.end ts n h)

Ordered-below : (i j : ℕ) (ts : List Token) (n : ℕ) → j ≤ i → Ordered i ts n → Ordered j ts n
Ordered-below i j [] n k h = omega arith
Ordered-below i j (t ∷ ts) n k (a, b, h) = (omega arith, b, h)

Tiles-Ordered : (i : ℕ) (ts : List Token) (n : ℕ) → Tiles i ts n → Ordered i ts n
Tiles-Ordered i [] n h = omega arith
Tiles-Ordered i (t ∷ ts) n (a, b, h) = (omega arith, omega arith, Tiles-Ordered t.end ts n h)

Ordered-significant :
    (i : ℕ) (ts : List Token) (n : ℕ) → Ordered i ts n → Ordered i (significant ts) n
unfolding significant
Ordered-significant i [] n h = h
Ordered-significant i (t ∷ ts) n (a, b, h) =
    let later = Ordered-significant t.end ts n h in
    if_cases (λ us. Ordered i us n) (is_whitespace t.kind) _ _
      (λ _. Ordered-below t.end i (significant ts) n (omega arith) later) (λ _. (a, b, later))

check_structure-Spans :
    (i : ℕ) (ts : List Token) (n : ℕ) → Ordered i ts n → Spans n (check_structure ts)
unfolding check_structure
check_structure-Spans i [] n h = tt
check_structure-Spans i (t ∷ ts) n (a, b, h) =
    let end = Ordered-le t.end ts n h in
    let later = check_structure-Spans t.end ts n h in ground (arith, end, later)

check_words-Spans :
    (src : Bytes) (i : ℕ) (ts : List Token) (n : ℕ) → Ordered i ts n → Spans n (check_words src ts)
unfolding check_words
check_words-Spans src i [] n h = tt
check_words-Spans src i (t ∷ ts) n (a, b, h) =
    let here : (t.start ≤ t.end) × (t.end ≤ n) = (b, Ordered-le t.end ts n h) in
    let later = check_words-Spans src t.end ts n h in
    if_cases (Spans n) (not (is_word t.kind)) _ _ (λ _. later)
      λ _.
        if_cases (Spans n) (in_table (text src t) deny_mutation) _ _ (λ _. here)
          λ _.
            if_cases (Spans n) (in_table (text src t) deny_call) _ _ (λ _. here)
              λ _. if_cases (Spans n) (in_table (text src t) deny_admin) _ _ (λ _. here) λ _. later

last_end-le :
    (t : Token) (k : ℕ) (ts : List Token) (n : ℕ)
    → Ordered t.end ts n
    → (t.end ≤ last_end t (take k ts)) × (last_end t (take k ts) ≤ n)
unfolding last_end
last_end-le t zero ts n h = (omega arith, Ordered-le t.end ts n h)
last_end-le t (suc k) [] n h = (omega arith, h)
last_end-le t (suc k) (u ∷ ts) n (a, b, h) =
    let (low, high) = last_end-le u k ts n h in (omega arith, high)

find_namespaced_call-Spans :
    (src : Bytes) (skip i : ℕ) (ts : List Token) (n : ℕ)
    → Ordered i ts n
    → InText n (find_namespaced_call src skip ts)
unfolding find_namespaced_call
find_namespaced_call-Spans src skip i [] n h = tt
find_namespaced_call-Spans src (suc skip) i (t ∷ ts) n (a, b, h) =
    find_namespaced_call-Spans src skip t.end ts n h
find_namespaced_call-Spans src zero i (t ∷ ts) n (a, b, h) =
    let dots = if is_name_segment t.kind then count_dots src ts else 0 in
    let (low, high) = last_end-le t (2 * dots) ts n h in
    if_cases (InText n)
      (is_name_segment t.kind && (ltb 0 dots && next_punct_is src (drop (2 * dots) ts) b'(')) _ _
      (λ _. (omega arith, high)) (λ _. find_namespaced_call-Spans src (2 * dots) t.end ts n h)

-- Parentheses that have been opened before `i`.
abbrev Opened : ℕ → Parens → Type 0
Opened i [] = Unit
Opened i ((open_at, saw_rel) ∷ stack) = (open_at ≤ i) × Opened i stack

Opened-above : (i j : ℕ) (stack : Parens) → i ≤ j → Opened i stack → Opened j stack
Opened-above i j [] k h = tt
Opened-above i j (p ∷ stack) k (a, h) = (omega arith, Opened-above i j stack k h)

Opened-mark_top : (i : ℕ) (stack : Parens) → Opened i stack → Opened i (mark_top stack)
unfolding mark_top
Opened-mark_top i [] h = tt
Opened-mark_top i (p ∷ stack) h = h

Opened-drop : (i : ℕ) (stack : Parens) → Opened i stack → Opened i (drop 1 stack)
Opened-drop i [] h = tt
Opened-drop i (p ∷ stack) (a, h) = h

quantified-Spans :
    (src : Bytes) (i : ℕ) (stack : Parens) (ts : List Token) (n : ℕ)
    → Opened i stack
    → Ordered i ts n
    → InText n (quantified src stack ts)
unfolding quantified
quantified-Spans src i [] ts n h k = tt
quantified-Spans src i ((o, false) ∷ stack) ts n h k = tt
quantified-Spans src i ((o, true) ∷ stack) [] n h k = tt
quantified-Spans src i ((o, true) ∷ stack) (t ∷ ts) n (below, h) (a, b, k) =
    if_cases (InText n) (is_quantifier src (t ∷ ts)) _ _
      (λ _. (omega arith, Ordered-le t.end ts n k)) (λ _. tt)

first_or :
    (n : ℕ) (c : Bool) (q o : Option Range)
    → InText n q
    → InText n o
    → InText n (elim (if c then q else none) [ some r ↦ some r | none ↦ o ])
first_or n true (some r) o h k = h
first_or n true none o h k = k
first_or n false q o h k = k

find_quantified_path-Spans :
    (src : Bytes) (prev : Option Token) (stack : Parens) (i : ℕ) (ts : List Token) (n : ℕ)
    → Opened i stack
    → Ordered i ts n
    → InText n (find_quantified_path src prev stack ts)
unfolding find_quantified_path
find_quantified_path-Spans src prev stack i [] n h k = tt
find_quantified_path-Spans src prev stack i (t ∷ ts) n h (a, b, k) =
    let is_open = punct_is src t b'(' in
    let is_rel = is_relationship_at src prev t ts in
    let is_close = not is_open && not is_rel && punct_is src t b')' in
    let above : Opened t.end stack = Opened-above i t.end stack (omega arith) h in
    let stack' : Opened t.end (
        if is_open
        then (t.start, false) ∷ stack
        else if is_rel
        then mark_top stack
        else if is_close
        then drop 1 stack
        else stack) =
      if_cases (Opened t.end) is_open _ _ (λ _. (b, above))
        λ _.
          if_cases (Opened t.end) is_rel _ _ (λ _. Opened-mark_top t.end stack above)
            λ _.
              if_cases (Opened t.end) is_close _ _ (λ _. Opened-drop t.end stack above)
                λ _. above in
    first_or n is_close (quantified src stack ts) _ (quantified-Spans src t.end stack ts n above k)
      (find_quantified_path-Spans src (some t) _ t.end ts n stack' k)

check_entry-Spans :
    (src : Bytes) (i : ℕ) (ts : List Token) (n : ℕ)
    → Ordered i ts n
    → Spans n (check_entry src (first_word ts))
unfolding check_entry first_word
check_entry-Spans src i [] n h = tt
check_entry-Spans src i (t ∷ ts) n (a, b, h) =
    let here : (t.start ≤ t.end) × (t.end ≤ n) = (b, Ordered-le t.end ts n h) in
    if_cases (λ o. Spans n (check_entry src o)) (is_word t.kind) _ _
      (λ _. if_cases (Spans n) (in_table (text src t) read_entry) _ _ (λ _. tt) (λ _. here))
      (λ _. check_entry-Spans src t.end ts n h)

check_none-Spans :
    (n : ℕ) (reason : RejectReason) (o : Option Range) → InText n o → Spans n (check_none reason o)
unfolding check_none
check_none-Spans n reason none h = tt
check_none-Spans n reason (some r) h = h

check_empty-Spans : (n : ℕ) (ts : List Token) → Spans n (check_empty ts)
unfolding check_empty
check_empty-Spans n [] = tt
check_empty-Spans n (t ∷ ts) = tt

pub then-Spans :
    {A : Type 0} (n : ℕ) (x : Result (Unit {0})) (y : Result A)
    → Spans n x
    → Spans n y
    → Spans n (x >> y)
then-Spans n (ok tt) y h k = k
then-Spans n (err e) y h k = h

-- The classifier reports spans of the text, on tokens that cover it.
pub classify-Spans :
    (ts : List Token) (src : Bytes) (n : ℕ) → Tiles 0 ts n → Spans n (classify ts src)
unfolding classify
classify-Spans ts src n tiles =
    let sig = significant ts in
    let order = Ordered-significant 0 ts n (Tiles-Ordered 0 ts n tiles) in
    then-Spans n _ _ (check_empty-Spans n sig) (
      then-Spans n _ _ (check_structure-Spans 0 sig n order) (
        then-Spans n _ _ (check_words-Spans src 0 sig n order) (
          then-Spans n _ _
            (check_none-Spans n _ _ (find_namespaced_call-Spans src zero 0 sig n order))
            (then-Spans n _ _
              (check_none-Spans n _ _ (find_quantified_path-Spans src none [] 0 sig n tt order))
              (check_entry-Spans src 0 sig n order)))))
