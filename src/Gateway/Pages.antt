-- ===== src/Gateway/Pages.antt =====
-- crates/nexus-scout/src/http.rs: the text that the handlers take apart or put together.
pub mod Encoding
use mathlib.Core.Option
use nexus_scout.Base.{
  ℕ, ◌+◌, ◌/◌, ◌%◌, ◌==◌, Bool, true, false, ◌&&◌, ◌||◌, List, [], ◌∷◌, ◌++◌, Option, none, some,
  Bytes, codes, drop, leb, ltb, if◌then◌else◌, is_ascii_alphanumeric, is_ascii_digit, all,
  digits_value, u32_max,
}
use nexus_scout.Gateway.Config.{parse_unsigned}
use nexus_scout.Gateway.Errors.{Error, new_error, bad_request}
use nexus_scout.Gateway.Json.{Members, end_members}
use nexus_scout.Gateway.Shaper.{Outcome, ok, err}
use nexus_scout.Gateway.Text.{starts_with, split_once, trim_start}

-- The bytes that `urlencode` leaves alone.
unfoldable pub is_unreserved : ℕ → Bool
unfolding is_ascii_alphanumeric
is_unreserved b = is_ascii_alphanumeric b || (b == b'-' || (b == b'_' || (b == b'.' || b == b'~')))

-- `HEX`.
unfoldable pub hex_digit : ℕ → ℕ
hex_digit n = if ltb n 10 then b'0' + n else b'7' + n

unfoldable pub urlencode : Bytes → Bytes
unfolding is_unreserved hex_digit
urlencode [] = []
urlencode (b ∷ s) =
    let rest = urlencode s in
    if is_unreserved b then b ∷ rest else b'%' ∷ hex_digit (b / 16) ∷ hex_digit (b % 16) ∷ rest

abbrev pub body_of : Bytes → Option (Bytes × Bytes) → Bytes
body_of doc none = doc
body_of doc (some (header, body)) = trim_start body

-- The line that opens the block, and the one that closes it.
abbrev pub opening : Bytes
opening = codes "---" ++ 10 ∷ []

abbrev pub closing : Bytes
closing = 10 ∷ opening

-- `strip_prefix` and `split_once`.
unfoldable pub strip_frontmatter : Bytes → Bytes
unfolding starts_with split_once trim_start
strip_frontmatter doc =
    if starts_with opening doc then body_of doc (split_once closing (drop 4 doc)) else doc

-- The `Host` header, if it is there and is not empty.
abbrev pub host_or_localhost : Option Bytes → Bytes
host_or_localhost none = codes "localhost"
host_or_localhost (some []) = codes "localhost"
host_or_localhost (some (c ∷ h)) = c ∷ h

abbrev pub assumed_scheme : Bytes → Bytes
assumed_scheme host =
    if starts_with (codes "localhost") host || starts_with (codes "127.0.0.1") host
    then codes "http"
    else codes "https"

-- `base_url`, from the headers `Host` and `x-forwarded-proto`, where they are text.
unfoldable pub base_url : Option Bytes → Option Bytes → Bytes
unfolding starts_with
base_url host proto =
    Option.get_or proto (assumed_scheme (host_or_localhost host))
    ++ (codes "://" ++ host_or_localhost host)
