-- ===== src/Guard/Oracle/Scans.antt =====
-- How the oracle passes over what the lexer's scan loops take: the regions that close, and texts that
-- leave it in code.
use mathlib.Core.Option
use nexus_scout.Base.{
  zero, ◌≢◌, ℕ, suc, ◌==◌, ◌≡◌, refl, ◌∙◌, ap, arith, Bool, true, false, [], ◌∷◌, ◌++◌, Option,
  none, some, take, drop, if◌then◌else◌, Bytes, Bool-cases, inl, inr,
}
use nexus_scout.Guard.Lexer.{next_is, close_quote, close_backtick, scan_quoted_name}
use nexus_scout.Guard.Oracle.{
  go, Violation, Region, code, string, backtick, violation, move, run_is_denied, follow, at_end,
}
use nexus_scout.Guard.Rules.{denied_keywords}

-- The oracle with the sanitizer's keywords.
abbrev pub oracle : Region → Bytes → Option Violation
oracle = violation denied_keywords

-- The first byte, if there is one.
abbrev pub head? : Bytes → Option ℕ
head? [] = none
head? (c ∷ s) = some c

pub next_is-head? : (c : ℕ) (s t : Bytes) → head? s ≡ head? t → next_is c s ≡ next_is c t
unfolding next_is
next_is-head? c [] [] h = refl
next_is-head? c [] (d ∷ t) h = absurd (ground arith)
next_is-head? c (b ∷ s) [] h = absurd (ground arith)
next_is-head? c (b ∷ s) (d ∷ t) h = ground arith

pub mapped_some : (o : Option ℕ) (n : ℕ) → Option.map suc o ≡ some (suc n) → o ≡ some n
mapped_some none n h = absurd (ground arith)
mapped_some (some m) n h = ground arith

pub mapped_zero : (o : Option ℕ) → Option.map suc o ≢ some 0
mapped_zero none h = absurd (ground arith)
mapped_zero (some m) h = absurd (ground arith)

pub one : (n : ℕ) → some 1 ≡ some (suc n) → n ≡ 0
one n h = ground arith

-- One character in a string.
string-escape :
    (q c : ℕ) (s : Bytes)
    → (c == b'\\') ≡ true
    → oracle (string q false) (c ∷ s) ≡ oracle (string q true) s
unfolding violation move
string-escape q c s h =
    ap
      (λ t.
        follow (if t then go (string q true) else go (if c == q then code [] else string q false))
          (λ r. oracle r s))
      h

string-inside :
    (q c : ℕ) (s : Bytes)
    → (c == b'\\') ≡ false
    → oracle (string q false) (c ∷ s) ≡ oracle (if c == q then code [] else string q false) s
unfolding violation move
string-inside q c s h =
    ap
      (λ t.
        follow (if t then go (string q true) else go (if c == q then code [] else string q false))
          (λ r. oracle r s))
      h

string-skip : (q c : ℕ) (s : Bytes) → oracle (string q true) (c ∷ s) ≡ oracle (string q false) s
unfolding violation move
string-skip q c s = refl

-- A string literal is passed over.
pub oracle-close_quote :
    (q : ℕ) (skip : Bool) (bs rest : Bytes) (n : ℕ)
    → close_quote q skip bs ≡ some n
    → oracle (string q skip) (take n bs ++ rest) ≡ oracle (code []) rest
unfolding close_quote
oracle-close_quote q true [] rest n h = absurd (ground arith)
oracle-close_quote q _ [] rest n h = absurd (ground arith)
oracle-close_quote q true (c ∷ bs) rest zero h = absurd (mapped_zero _ h)
oracle-close_quote q true (c ∷ bs) rest (suc n) h =
    string-skip q c (take n bs ++ rest) ∙ oracle-close_quote q false bs rest n (mapped_some _ n h)
oracle-close_quote q false (c ∷ bs) rest zero h =
    absurd (ground (arith, mapped_zero (close_quote q (c == b'\\') bs)))
oracle-close_quote q false (c ∷ bs) rest (suc n) h = elim (Bool-cases (c == b'\\')) [
  | inl slash ↦
      string-escape q c (take n bs ++ rest) slash
      ∙ oracle-close_quote q true bs rest n (ground (arith, mapped_some (close_quote q true bs) n))
  | inr other ↦ string-inside q c (take n bs ++ rest) other ∙ elim (Bool-cases (c == q)) [
    | inl quote ↦ rw quote (ap (λ k. oracle (code []) (take k bs ++ rest)) (one n (ground arith)))
    | inr inside ↦ rw inside (
        oracle-close_quote q false bs rest n
          (ground (arith, mapped_some (close_quote q false bs) n)))
  ]
]

-- One character in a quoted name.
pub backtick-skip : (c : ℕ) (s : Bytes) → oracle (backtick true) (c ∷ s) ≡ oracle (backtick false) s
unfolding violation move
backtick-skip c s = refl

abbrev after_quote : Bool → Region
after_quote t = if t then backtick true else code []

backtick-inside :
    (c : ℕ) (s : Bytes)
    → (c == b'`') ≡ false
    → oracle (backtick false) (c ∷ s) ≡ oracle (backtick false) s
unfolding violation move
backtick-inside c s h =
    ap
      (λ t.
        follow (if t then go (after_quote (next_is b'`' s)) else go (backtick false))
          (λ r. oracle r s))
      h

backtick-quote :
    (c : ℕ) (s : Bytes) (t : Bool)
    → (c == b'`') ≡ true
    → next_is b'`' s ≡ t
    → oracle (backtick false) (c ∷ s) ≡ oracle (after_quote t) s
unfolding violation move
backtick-quote c s t h k =
    ap
      (λ t.
        follow (if t then go (after_quote (next_is b'`' s)) else go (backtick false))
          (λ r. oracle r s))
      h
    ∙ ap (λ t. oracle (after_quote t) s) k

-- A text cut where another continues it with the same byte has the same byte in front.
pub head?-take :
    (n : ℕ) (s rest : Bytes) → head? rest ≡ head? (drop n s) → head? (take n s ++ rest) ≡ head? s
head?-take zero s rest h = h
head?-take (suc n) [] rest h = h
head?-take (suc n) (c ∷ s) rest h = refl

pub next_is-take :
    (n : ℕ) (s rest : Bytes) (t : Bool)
    → head? rest ≡ head? (drop n s)
    → next_is b'`' s ≡ t
    → next_is b'`' (take n s ++ rest) ≡ t
next_is-take n s rest t h k = next_is-head? b'`' (take n s ++ rest) s (head?-take n s rest h) ∙ k

-- A quoted identifier is passed over, whatever comes behind it.
pub oracle-close_backtick :
    (skip : Bool) (bs rest : Bytes) (n : ℕ)
    → close_backtick skip bs ≡ some n
    → head? rest ≡ head? (drop n bs)
    → oracle (backtick skip) (take n bs ++ rest) ≡ oracle (code []) rest
unfolding close_backtick
oracle-close_backtick true [] rest n h k = absurd (ground arith)
oracle-close_backtick _ [] rest n h k = absurd (ground arith)
oracle-close_backtick true (c ∷ bs) rest zero h k = absurd (mapped_zero _ h)
oracle-close_backtick true (c ∷ bs) rest (suc n) h k =
    backtick-skip c (take n bs ++ rest)
    ∙ oracle-close_backtick false bs rest n (mapped_some _ n h) k
oracle-close_backtick false (c ∷ bs) rest zero h k =
    absurd (ground (arith, mapped_zero (close_backtick (c == b'`') bs)))
oracle-close_backtick false (c ∷ bs) rest (suc n) h k = elim (Bool-cases (c == b'`')) [
  | inr inside ↦
      backtick-inside c (take n bs ++ rest) inside
      ∙ oracle-close_backtick false bs rest n
          (ground (arith, mapped_some (close_backtick false bs) n)) k
  | inl quote ↦ elim (Bool-cases (next_is b'`' bs)) [
    | inl again ↦
        backtick-quote c (take n bs ++ rest) true quote (next_is-take n bs rest true k again)
        ∙ oracle-close_backtick true bs rest n
            (ground (arith, mapped_some (close_backtick true bs) n)) k
    | inr ends ↦
        backtick-quote c (take n bs ++ rest) false quote (next_is-take n bs rest false k ends)
        ∙ ap (λ m. oracle (code []) (take m bs ++ rest)) (one n (ground arith))
  ]
]

pub empty_end : (rest : Bytes) → head? rest ≡ none → rest ≡ []
empty_end [] h = refl
empty_end (c ∷ s) h = absurd (ground arith)

backtick_end : (skip : Bool) → oracle (backtick skip) [] ≡ oracle (code []) []
unfolding violation at_end run_is_denied
backtick_end skip = refl

-- So is the quoted name of a parameter, which the end of the text closes too.
pub oracle-scan_quoted_name :
    (skip : Bool) (bs rest : Bytes)
    → head? rest ≡ head? (drop (scan_quoted_name skip bs) bs)
    → oracle (backtick skip) (take (scan_quoted_name skip bs) bs ++ rest) ≡ oracle (code []) rest
unfolding scan_quoted_name
oracle-scan_quoted_name true [] rest k = rw (empty_end rest k) (backtick_end true)
oracle-scan_quoted_name skip [] rest k = rw (empty_end rest k) (backtick_end skip)
oracle-scan_quoted_name true (c ∷ bs) rest k =
    backtick-skip c (take (scan_quoted_name false bs) bs ++ rest)
    ∙ oracle-scan_quoted_name false bs rest k
oracle-scan_quoted_name false (c ∷ bs) rest k = elim (Bool-cases (c == b'`')) [
  | inr inside ↦
      let k' : head? rest ≡ head? (drop (scan_quoted_name false bs) bs) = ground arith in
      rw inside (
        backtick-inside c (take (scan_quoted_name false bs) bs ++ rest) inside
        ∙ oracle-scan_quoted_name false bs rest k')
  | inl quote ↦ elim (Bool-cases (next_is b'`' bs)) [
    | inl again ↦
        let k' : head? rest ≡ head? (drop (scan_quoted_name true bs) bs) = ground arith in
        rw (quote, again)
          (backtick-quote c (take (scan_quoted_name true bs) bs ++ rest) true quote
              (next_is-take (scan_quoted_name true bs) bs rest true k' again)
            ∙ oracle-scan_quoted_name true bs rest k')
    | inr ends ↦
        let k' : head? rest ≡ head? bs = ground arith in
        rw (quote, ends)
          (backtick-quote c rest false quote (next_is-take zero bs rest false k' ends))
  ]
]
