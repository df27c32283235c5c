-- ===== src/Guard/Unicode.antt =====
-- crates/cypher-guard/src/unicode.rs: the check that code outside quoted regions is ASCII. A text is
-- its list of characters (code points); offsets are UTF-8 bytes, as `char_indices` gives them.
use nexus_scout.Base.{
  ℕ, ◌+◌, Bool, true, false, ◌&&◌, ◌||◌, List, [], ◌∷◌, some, ltb, leb, ◌==◌, if◌then◌else◌, length,
  utf8_char,
}
use nexus_scout.Guard.Reason.{RejectReason, Result, ok, err, reject, ◌>>=◌}

pub data Region : Type 0 where
  code single double backtick : Region

-- The characters that the `Code` arm lets through: `\t`, `\n`, `\r` and printable ASCII.
unfoldable pub is_plain : ℕ → Bool
is_plain c = (c == b'\t' || c == b'\n' || c == b'\r') || (leb 32 c && ltb c 127)

unfoldable pub len_utf8 : ℕ → ℕ
unfolding utf8_char
len_utf8 c = length (utf8_char c)

-- The variables of the loop.
pub record Scan : Type 0 where
  pub region : Region
  pub escaped : Bool
  pub region_start : ℕ
  pub idx : ℕ

-- Opening a region records where it starts.
abbrev pub enter : Region → Scan → Scan
enter r s = record s { region = r; region_start = s.idx }

-- The arm `Region::Code`.
unfoldable pub step_code : Scan → ℕ → Result Scan
unfolding is_plain len_utf8
step_code s ch =
    if ch == b'\''
    then ok (enter single s)
    else if ch == b'"'
    then ok (enter double s)
    else if ch == b'`'
    then ok (enter backtick s)
    else if is_plain ch
    then ok s
    else reject RejectReason.non_ascii_keyword
        (some (record { start = s.idx; end = s.idx + len_utf8 ch }))

-- The arm `Region::Single | Region::Double`.
unfoldable pub step_quoted : ℕ → Scan → ℕ → Scan
step_quoted quote s ch =
    if s.escaped
    then record s { escaped = false }
    else if ch == b'\\'
    then record s { escaped = true }
    else if ch == quote
    then record s { region = code }
    else s

-- `chars.peek()` is a backtick.
unfoldable pub next_is_backtick : List ℕ → Bool
next_is_backtick [] = false
next_is_backtick (c ∷ cs) = c == b'`'

-- One character, with those behind it. The flag is set where `chars.next()` drops the second
-- backtick of an escape.
unfoldable pub step : Region → Scan → ℕ → List ℕ → Result (Bool × Scan)
unfolding step_code step_quoted next_is_backtick
step code s ch chars = step_code s ch >>= λ t. ok (false, t)
step single s ch chars = ok (false, step_quoted b'\'' s ch)
step double s ch chars = ok (false, step_quoted b'"' s ch)
step backtick s ch chars =
    if ch == b'`'
    then if next_is_backtick chars then ok (true, s) else ok (false, record s { region = code })
    else ok (false, s)

-- The offset of the next character.
abbrev pub advance : ℕ → Scan → Scan
advance ch s = record s { idx = s.idx + len_utf8 ch }

-- The test after the loop, where `idx` is `s.len()`.
unfoldable pub finish : Region → Scan → Result (Unit {0})
finish code s = ok tt
finish _ s =
    reject RejectReason.unterminated (some (record { start = s.region_start; end = s.idx }))

-- The loop; the flag says that the next character has been dropped.
unfoldable pub validate_from : Bool → Scan → List ℕ → Result (Unit {0})
unfolding step finish
validate_from skip s [] = finish s.region s
validate_from true s (ch ∷ chars) = validate_from false (advance ch s) chars
validate_from false s (ch ∷ chars) = elim (step s.region s ch chars) [
  | ok (skip, t) ↦ validate_from skip (advance ch t) chars
  | err e ↦ err e
]

abbrev pub initial : Scan
initial = record { region = code; escaped = false; region_start = 0; idx = 0 }

unfoldable pub validate : List ℕ → Result (Unit {0})
unfolding validate_from
validate s = validate_from false initial s
