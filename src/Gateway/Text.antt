-- ===== src/Gateway/Text.antt =====
-- The operations of `str` that the gateway and the client call.
use nexus_scout.Base.{
  ℕ, ◌==◌, Bool, true, false, ◌&&◌, ◌||◌, [], ◌∷◌, Option, none, some, map, Bytes, drop, length,
  leb, if◌then◌else◌, to_ascii_lower,
}

-- `str::starts_with`, with the prefix first.
unfoldable pub starts_with : Bytes → Bytes → Bool
starts_with [] s = true
starts_with (c ∷ p) [] = false
starts_with (c ∷ p) (b ∷ s) = c == b && starts_with p s

-- `str::contains`, with the pattern first.
unfoldable pub contains : Bytes → Bytes → Bool
unfolding starts_with
contains p [] = starts_with p []
contains p (b ∷ s) = starts_with p (b ∷ s) || contains p s

-- One character put before the first part of a split.
abbrev pub before_split : ℕ → Option (Bytes × Bytes) → Option (Bytes × Bytes)
before_split b none = none
before_split b (some (l, r)) = some (b ∷ l, r)

-- `str::split_once`, with the pattern first.
unfoldable pub split_once : Bytes → Bytes → Option (Bytes × Bytes)
unfolding starts_with
split_once p [] = if starts_with p [] then some ([], []) else none
split_once p (b ∷ s) =
    let later = before_split b (split_once p s) in
    if starts_with p (b ∷ s) then some ([], drop (length p) (b ∷ s)) else later

-- `str::rsplit_once` on one character.
unfoldable pub rsplit_once : ℕ → Bytes → Option (Bytes × Bytes)
rsplit_once c [] = none
rsplit_once c (b ∷ s) = elim (rsplit_once c s) [
  | some (l, r) ↦ some (b ∷ l, r)
  | none ↦ if b == c then some ([], s) else none
]

-- `str::to_ascii_lowercase`.
unfoldable pub to_ascii_lowercase : Bytes → Bytes
to_ascii_lowercase s = map to_ascii_lower s

-- `char::is_whitespace`.
unfoldable pub is_space_char : ℕ → Bool
is_space_char c =
    (leb 9 c && leb c 13)
    || (c == 32
        || (c == 133
            || (c == 160
                || (c == 5760
                    || ((leb 8192 c && leb c 8202)
                        || (c == 8232
                            || (c == 8233 || (c == 8239 || (c == 8287 || c == 12288)))))))))

-- `str::trim_start`.
unfoldable pub trim_start : Bytes → Bytes
unfolding is_space_char
trim_start [] = []
trim_start (c ∷ s) = let rest = trim_start s in if is_space_char c then rest else c ∷ s

-- `str::trim_end_matches` with the characters that pass the test.
unfoldable pub trim_end_matches : (ℕ → Bool) → Bytes → Bytes
trim_end_matches p [] = []
trim_end_matches p (c ∷ s) = elim (trim_end_matches p s) [
  | [] ↦ if p c then [] else c ∷ []
  | d ∷ rest ↦ c ∷ d ∷ rest
]

-- `str::trim`.
unfoldable pub trim : Bytes → Bytes
unfolding trim_start trim_end_matches
trim s = trim_end_matches is_space_char (trim_start s)

-- `take_while`.
unfoldable pub take_while : (ℕ → Bool) → Bytes → Bytes
take_while p [] = []
take_while p (c ∷ s) = let rest = c ∷ take_while p s in if p c then rest else []
