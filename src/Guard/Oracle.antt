-- ===== src/Guard/Oracle.antt =====
-- crates/cypher-guard/fuzz/fuzz_targets/sanitize.rs: the oracle that an accepted query is held against.
-- It is read on bytes here: all characters that it tells apart are ASCII, and every byte of another
-- character is passed over as the character is.
pub mod Runs
pub mod Scans
pub mod Code
pub mod Numbers
pub mod Tokens
pub mod Kinds
pub mod Handled
pub mod Lexed
pub mod Passed
use nexus_scout.Base.{
  ℕ, ◌==◌, Bool, true, false, not, ◌&&◌, ◌||◌, List, [], ◌∷◌, ◌++◌, Option, none, some, any,
  if◌then◌else◌, Bytes, eq_ignore_ascii_case, is_ascii_digit,
}
use nexus_scout.Guard.Lexer.{is_ident, next_is}
use nexus_scout.Guard.Transforms.{is_empty}

-- The kind of a violation, which the source returns as a text.
pub data Violation : Type 0 where
  denied_keyword semicolon comment : Violation

-- `trim_start_matches` on the digits.
unfoldable pub trim_digits : Bytes → Bytes
unfolding is_ascii_digit
trim_digits [] = []
trim_digits (c ∷ s) = let rest = trim_digits s in if is_ascii_digit c then rest else c ∷ s

unfoldable pub run_is_denied : Bytes → List Bytes → Bool
unfolding trim_digits
run_is_denied run denied = not (is_empty run) && any (eq_ignore_ascii_case (trim_digits run)) denied

-- The region with the variables that matter in it. `code` has the run, which is empty elsewhere; a
-- string has its quote and `escaped`; the flag of a backtick region is set for a character that
-- `chars.next()` passes over. The two inner loops behind a `$` are regions too: a quoted name is read
-- like a backtick region, a plain one is `name`.
pub data Region : Type 0 where
  code : Bytes → Region
  string : ℕ → Bool → Region
  backtick : Bool → Region
  name : Region

-- What one character leads to: `return Some(…)`, or the next region.
pub data Move : Type 0 where
  stop : Violation → Move
  go : Region → Move

-- The arm `Region::Code`, with the characters behind `c` for `chars.peek()`.
unfoldable pub in_code : List Bytes → Bytes → ℕ → Bytes → Move
in_code denied run c next =
    if is_ident c
    then go (code (run ++ c ∷ []))
    else if run_is_denied run denied
    then stop denied_keyword
    else if c == b';'
    then stop semicolon
    else if c == b'/' && (next_is b'/' next || next_is b'*' next)
    then stop comment
    else if c == b'\'' || c == b'"'
    then go (string c false)
    else if c == b'`'
    then go (backtick false)
    else if c == b'$'
    then go (if next_is b'`' next then backtick true else name)
    else go (code [])

-- The `match region`.
unfoldable pub move : List Bytes → Region → ℕ → Bytes → Move
unfolding in_code
move denied (code run) c next = in_code denied run c next
move denied (string quote true) c next = go (string quote false)
move denied (string quote false) c next =
    if c == b'\\'
    then go (string quote true)
    else go (if c == quote then code [] else string quote false)
move denied (backtick true) c next = go (backtick false)
move denied (backtick false) c next =
    if c == b'`'
    then go (if next_is b'`' next then backtick true else code [])
    else go (backtick false)
move denied name c next = if is_ident c then go name else in_code denied [] c next

-- The test behind the loop.
unfoldable pub at_end : List Bytes → Region → Option Violation
at_end denied (code run) = if run_is_denied run denied then some denied_keyword else none
at_end denied _ = none

abbrev pub follow : Move → (Region → Option Violation) → Option Violation
follow (stop v) rest = some v
follow (go r) rest = rest r

-- The loop of `code_position_violation`, from a region on.
unfoldable pub violation : List Bytes → Region → Bytes → Option Violation
unfolding move at_end
violation denied r [] = at_end denied r
violation denied r (c ∷ next) = follow (move denied r c next) (λ r'. violation denied r' next)

unfoldable pub code_position_violation : Bytes → List Bytes → Option Violation
unfolding violation run_is_denied next_is is_ident
code_position_violation out denied = violation denied (code []) out
