-- ===== src/Guard/Oracle/Code.antt =====
-- The oracle in code: one character at a time, the runs of digits and letters, and the texts that it
-- passes over whatever harmless run they stand behind.
use nexus_scout.Base.{
  ℕ, ◌==◌, ◌≡◌, refl, ◌∙◌, ap, arith, Bool, true, false, not, ◌&&◌, ◌||◌, [], ◌∷◌, ◌++◌, all,
  Option, none, some, take, drop, if◌then◌else◌, Bytes, append_assoc, append-nil,
}
use nexus_scout.Guard.Lexer.{is_ident, next_is, span_while}
use nexus_scout.Guard.Oracle.Runs.{is_harmless, harmless-append, harmless-denied}
use nexus_scout.Guard.Oracle.Scans.{oracle, head?}
use nexus_scout.Guard.Oracle.{
  Move, go, stop, semicolon, comment, code, string, backtick, name, violation, move, in_code,
  run_is_denied, follow, at_end, trim_digits,
}
use nexus_scout.Guard.Rules.{denied_keywords}

-- The characters at which the oracle enters another region, or stops.
abbrev pub is_opener : ℕ → Bool
is_opener c = c == b';' || c == b'\'' || c == b'"' || c == b'`' || c == b'$'

abbrev pub opens_comment : ℕ → Bytes → Bool
opens_comment c s = c == b'/' && (next_is b'/' s || next_is b'*' s)

pub code-ident :
    (run : Bytes) (c : ℕ) (s : Bytes)
    → is_ident c ≡ true
    → oracle (code run) (c ∷ s) ≡ oracle (code (run ++ c ∷ [])) s
unfolding violation move in_code
code-ident run c s h = ground (arith)

abbrev pub Settled : Bytes → ℕ → Type 0
Settled run c = (is_ident c ≡ false) × (run_is_denied run denied_keywords ≡ false)

in_code-Settled :
    (run : Bytes) (c : ℕ) (s : Bytes) (m : Move)
    → Settled run c
    → (if c == b';'
        then stop semicolon
        else if c == b'/' && (next_is b'/' s || next_is b'*' s)
        then stop comment
        else if c == b'\'' || c == b'"'
        then go (string c false)
        else if c == b'`'
        then go (backtick false)
        else if c == b'$'
        then go (if next_is b'`' s then backtick true else name)
        else go (code []))
      ≡ m
    → oracle (code run) (c ∷ s) ≡ follow m (λ r. oracle r s)
unfolding violation move in_code
in_code-Settled run c s m (h, k) e = ap (λ m. follow m (λ r. oracle r s)) (rw (h, k) e)

pub code-quiet :
    (run : Bytes) (c : ℕ) (s : Bytes)
    → Settled run c
    → is_opener c ≡ false
    → opens_comment c s ≡ false
    → oracle (code run) (c ∷ s) ≡ oracle (code []) s
code-quiet run c s settled h k = in_code-Settled run c s (go (code [])) settled (ground arith)

pub code-quote :
    (run : Bytes) (c : ℕ) (s : Bytes)
    → Settled run c
    → (c == b'\'' || c == b'"') ≡ true
    → oracle (code run) (c ∷ s) ≡ oracle (string c false) s
code-quote run c s settled h = in_code-Settled run c s (go (string c false)) settled (ground arith)

pub code-backtick :
    (run : Bytes) (c : ℕ) (s : Bytes)
    → Settled run c
    → (c == b'`') ≡ true
    → oracle (code run) (c ∷ s) ≡ oracle (backtick false) s
code-backtick run c s settled h =
    in_code-Settled run c s (go (backtick false)) settled (ground arith)

pub code-dollar :
    (run : Bytes) (c : ℕ) (s : Bytes) (t : Bool)
    → Settled run c
    → (c == b'$') ≡ true
    → next_is b'`' s ≡ t
    → oracle (code run) (c ∷ s) ≡ oracle (if t then backtick true else name) s
code-dollar run c s t settled h k =
    in_code-Settled run c s (go (if t then backtick true else name)) settled (ground arith)

-- A run is read to its end.
pub oracle-ident :
    (run w rest : Bytes)
    → all is_ident w ≡ true
    → oracle (code run) (w ++ rest) ≡ oracle (code (run ++ w)) rest
oracle-ident run [] rest h = rw (append-nil run) refl
oracle-ident run (c ∷ w) rest h =
    code-ident run c (w ++ rest) (ground arith)
    ∙ oracle-ident (run ++ c ∷ []) w rest (ground arith)
    ∙ ap (λ r. oracle (code r) rest) (append_assoc run (c ∷ []) w)

-- A scan ends where its test fails.
abbrev pub stops : (ℕ → Bool) → Option ℕ → Bool
stops p none = true
stops p (some c) = not (p c)

pub span_while-stops :
    (p : ℕ → Bool) (bs : Bytes) → stops p (head? (drop (span_while p bs) bs)) ≡ true
unfolding span_while
span_while-stops p [] = refl
span_while-stops p (b ∷ bs) = ground (arith, span_while-stops p bs)

pub span_while-all : (p : ℕ → Bool) (bs : Bytes) → all p (take (span_while p bs) bs) ≡ true
unfolding span_while
span_while-all p [] = refl
span_while-all p (b ∷ bs) = ground (arith, span_while-all p bs)

pub all-weaken :
    (p q : ℕ → Bool) (w : Bytes)
    → ((c : ℕ) → p c ≡ true → q c ≡ true)
    → all p w ≡ true
    → all q w ≡ true
all-weaken p q [] f h = refl
all-weaken p q (c ∷ w) f h = ground (arith, f c, all-weaken p q w f)

name_end :
    (rest : Bytes) → stops is_ident (head? rest) ≡ true → oracle name rest ≡ oracle (code []) rest
unfolding violation move at_end run_is_denied
name_end [] h = refl
name_end (c ∷ s) h =
    let other : is_ident c ≡ false = ground arith in
    ap (λ t. follow (if t then go name else in_code denied_keywords [] c s) (λ r. oracle r s)) other

name-ident : (c : ℕ) (s : Bytes) → is_ident c ≡ true → oracle name (c ∷ s) ≡ oracle name s
unfolding violation move
name-ident c s h =
    ap (λ t. follow (if t then go name else in_code denied_keywords [] c s) (λ r. oracle r s)) h

-- The plain name of a parameter is passed over.
pub oracle-name :
    (w rest : Bytes)
    → all is_ident w ≡ true
    → stops is_ident (head? rest) ≡ true
    → oracle name (w ++ rest) ≡ oracle (code []) rest
oracle-name [] rest h k = name_end rest k
oracle-name (c ∷ w) rest h k =
    name-ident c (w ++ rest) (ground arith) ∙ oracle-name w rest (ground arith) k

-- Where a text leaves the oracle that comes to it in code: in code again, behind a harmless run.
pub record Lands (run w : Bytes) : Type 0 where
  pub landed : Bytes
  pub harmless : is_harmless landed ≡ true
  pub passes : (rest : Bytes) → oracle (code run) (w ++ rest) ≡ oracle (code landed) rest

-- A text that is passed over behind each harmless run.
abbrev pub Clean : Bytes → Type 0
Clean w = (run : Bytes) → is_harmless run ≡ true → Lands run w

pub Clean-nil : Clean []
Clean-nil run h = record { landed = run; harmless = h; passes = λ rest. refl }

pub Clean-append : (a b : Bytes) → Clean a → Clean b → Clean (a ++ b)
Clean-append a b f g run h =
    let first : Lands run a = f run h in
    let second : Lands first.landed b = g first.landed first.harmless in
    record {
      landed = second.landed;
      harmless = second.harmless;
      passes = λ rest.
          ap (oracle (code run)) (append_assoc a b rest)
          ∙ first.passes (b ++ rest)
          ∙ second.passes rest;
    }

pub Clean-ident : (w : Bytes) → all is_ident w ≡ true → is_harmless w ≡ true → Clean w
Clean-ident w h k run harmless = record {
  landed = run ++ w;
  harmless = harmless-append run w harmless k;
  passes = λ rest. oracle-ident run w rest h;
}

empty_harmless : is_harmless [] ≡ true
unfolding trim_digits
empty_harmless = refl

pub Clean-quiet :
    (c : ℕ) → is_ident c ≡ false → is_opener c ≡ false → (c == b'/') ≡ false → Clean (c ∷ [])
Clean-quiet c h k l run harmless = record {
  landed = [];
  harmless = empty_harmless;
  passes = λ rest. code-quiet run c rest (h, harmless-denied run harmless) k (ground arith);
}
