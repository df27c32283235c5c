-- ===== src/Guard/Plain.antt =====
-- crates/cypher-guard/src/unicode.rs: what the check of the characters means for the tokens. The check
-- as one pass over a text, of characters or of bytes.
pub mod Checked
pub mod Encoded
pub mod Scans
pub mod Numbers
pub mod Tokens
pub mod Output
use nexus_scout.Base.{ℕ, Bool, true, false, ◌&&◌, ◌||◌, [], ◌∷◌, ◌==◌, if◌then◌else◌, Bytes}
use nexus_scout.Guard.Lexer.{next_is}
use nexus_scout.Guard.Unicode.{is_plain}

-- Where the pass is: in code, or in quotes. The flag is set behind a backslash, and at the second
-- backtick of an escape.
pub data Place : Type 0 where
  code : Place
  single double backtick : Bool → Place

-- Behind a character in quotes of the kind `q`.
unfoldable pub next_quoted : (Bool → Place) → ℕ → Bool → ℕ → Place
next_quoted stay q true c = stay false
next_quoted stay q false c = if c == b'\\' then stay true else if c == q then code else stay false

unfoldable pub next_place : Place → ℕ → Bytes → Place
unfolding next_quoted
next_place code c cs =
    if c == b'\''
    then single false
    else if c == b'"'
    then double false
    else if c == b'`'
    then backtick false
    else code
next_place (single escaped) c cs = next_quoted single b'\'' escaped c
next_place (double escaped) c cs = next_quoted double b'"' escaped c
next_place (backtick true) c cs = backtick false
next_place (backtick false) c cs =
    if c == b'`' then if next_is b'`' cs then backtick true else code else backtick false

-- What may stand at a place.
unfoldable pub fits : Place → ℕ → Bool
fits code c = c == b'\'' || c == b'"' || c == b'`' || is_plain c
fits _ c = true

-- No character outside quotes but plain ones.
unfoldable pub is_plain_from : Place → Bytes → Bool
unfolding next_place fits
is_plain_from p [] = true
is_plain_from p (c ∷ cs) = fits p c && is_plain_from (next_place p c cs) cs
