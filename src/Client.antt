-- ===== src/Client.antt =====
-- crates/nexus-scout-cli/src/main.rs: the client `scout`. The parser of JSON text is a parameter;
-- arguments are as the command line gives them, and what the HTTP client ureq does is a value.
pub mod Params
pub mod Exit
pub mod Command
mod Tests
use nexus_scout.Base.{
  ℕ, ◌==◌, Bool, true, false, ◌&&◌, List, [], ◌∷◌, ◌++◌, Option, none, some, Bytes, codes, bytes_eq,
  leb, ltb, if◌then◌else◌,
}
use nexus_scout.Gateway.Json.{
  Value, null, boolean, number, string, array, object, Members, end_members, member,
}
use nexus_scout.Gateway.Shaper.{Outcome, ok, err}
use nexus_scout.Gateway.Text.{split_once, trim_end_matches}
use nexus_scout.Wire.{ErrorCode, from_wire, exit_code}

-- `DEFAULT_SERVER_URL`.
abbrev pub default_server_url : Bytes
default_server_url = codes "https://nexus-scout.pubky.app"

-- `Option::or` and `unwrap_or`.
abbrev pub first_of : Option Bytes → Option Bytes → Bytes → Bytes
first_of (some flag) env fallback = flag
first_of none (some v) fallback = v
first_of none none fallback = fallback

-- `resolve_url`, with the variable of the environment.
unfoldable pub resolve_url : Option Bytes → Option Bytes → Bytes
unfolding trim_end_matches
resolve_url flag env = trim_end_matches (λ c. c == b'/') (first_of flag env default_server_url)

-- `Map::insert`, which replaces in place or appends.
unfoldable pub insert : {Number : Type 0} → Bytes → Value Number → Members Number → Members Number
insert k v end_members = member k v end_members
insert k v (member j w ms) =
    let rest = insert k v ms in if bytes_eq j k then member j v ms else member j w rest

-- Why parameters are refused, in place of the message.
pub data BadParams : Type 0 where
  no_equals : Bytes → BadParams
  bad_json not_an_object : BadParams

abbrev pub code_in : Option Bytes → Option ErrorCode
code_in none = none
code_in (some s) = from_wire s

abbrev pub exit_or_1 : Option ErrorCode → ℕ
exit_or_1 none = 1
exit_or_1 (some c) = exit_code c

module _ {Number : Type 0} where
  -- One round of the loop over `--param`, before the rest of it.
  abbrev pub add_entry :
      Option (Bytes × Bytes)
      → Bytes
      → (Members Number → Outcome (Members Number) BadParams)
      → Members Number
      → Outcome (Members Number) BadParams
  add_entry none entry rest map = err (no_equals entry)
  add_entry (some (key, value)) entry rest map = rest (insert key (string value) map)

  -- The loop over `--param`.
  unfoldable pub add_params : List Bytes → Members Number → Outcome (Members Number) BadParams
  unfolding insert split_once
  add_params [] map = ok map
  add_params (entry ∷ entries) map =
      add_entry (split_once (codes "=") entry) entry (add_params entries) map

  -- The loop over the members of `--params-json`.
  unfoldable pub add_members : Members Number → Members Number → Members Number
  unfolding insert
  add_members end_members map = map
  add_members (member k v ms) map = add_members ms (insert k v map)

  -- `let Value::Object(object) = parsed else { ... }`.
  abbrev pub add_object :
      Option (Value Number) → Members Number → Outcome (Members Number) BadParams
  add_object none map = err bad_json
  add_object (some (object ms)) map = ok (add_members ms map)
  add_object (some v) map = err not_an_object

  module _ (from_json : Bytes → Option (Value Number)) where
    abbrev pub add_json :
        Option Bytes → Outcome (Members Number) BadParams → Outcome (Members Number) BadParams
    add_json raw (err e) = err e
    add_json none (ok map) = ok map
    add_json (some raw) (ok map) = add_object (from_json raw) map

    unfoldable pub build_params : List Bytes → Option Bytes → Outcome (Members Number) BadParams
    unfolding add_params add_members
    build_params params params_json = add_json params_json (add_params params end_members)

  -- `Value::get` on an object.
  unfoldable pub get : Bytes → Members Number → Option (Value Number)
  get k end_members = none
  get k (member j v ms) = let rest = get k ms in if bytes_eq j k then some v else rest

  abbrev pub get_member : Bytes → Value Number → Option (Value Number)
  get_member k (object ms) = get k ms
  get_member k v = none

  abbrev pub as_text : Option (Value Number) → Option Bytes
  as_text (some (string s)) = some s
  as_text _ = none

  -- `exit_for`.
  unfoldable pub exit_for : ℕ → Value Number → ℕ
  unfolding get
  exit_for status value =
      if leb 200 status && ltb status 300
      then 0
      else exit_or_1 (code_in (as_text (get_member (codes "error") value)))
