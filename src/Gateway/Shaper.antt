-- ===== src/Gateway/Shaper.antt =====
-- crates/nexus-scout/src/executor/shape.rs, and the loop of `read_rows`: rows are kept under a row
-- budget and a byte cap. What `serde_json` makes of a row's size is a parameter.
pub mod Prefix
pub mod Caps
use nexus_scout.Base.{
  ℕ, ◌+◌, Bool, true, false, List, [], ◌∷◌, ◌++◌, Option, none, some, ltb, leb, min, if◌then◌else◌,
  length,
}
use nexus_scout.Guard.Sanitizer.{usize_max}
use nexus_scout.Wire.{QueryResponse, new_response}

pub data Truncation : Type 0 where
  row_budget byte_cap : Truncation

pub record RowShaper (Row : Type 0) : Type 0 where
  pub rows : List Row
  pub budget : ℕ
  pub byte_cap : ℕ
  pub bytes : ℕ
  pub truncated : Option Truncation

-- `RowShaper::new`.
abbrev pub new_shaper : {Row : Type 0} → ℕ → ℕ → RowShaper Row
new_shaper budget most_bytes = record {
  rows = [];
  budget = budget;
  byte_cap = most_bytes;
  bytes = 0;
  truncated = none;
}

-- What the driver's stream yields: a row that is converted to JSON, or an error.
pub data Next (Row Error : Type 0) : Type 0 where
  row : Row → Next Row Error
  failed : Error → Next Row Error

-- `Result<A, Error>`.
pub data Outcome (A Error : Type 0) : Type 0 where
  ok : A → Outcome A Error
  err : Error → Outcome A Error

-- `RowShaper::push`, with whether more rows are wanted.
unfoldable pub push : {Row : Type 0} → (Row → ℕ) → RowShaper Row → Row → RowShaper Row × Bool
push serialized_len s r =
    if leb s.budget (length s.rows)
    then (record s { truncated = some Truncation.row_budget }, false)
    else if ltb s.byte_cap (min (s.bytes + serialized_len r) usize_max)
    then (record s { truncated = some Truncation.byte_cap }, false)
    else (record s { bytes = s.bytes + serialized_len r; rows = s.rows ++ r ∷ [] }, true)

-- The loop of `read_rows`; the stream ends with the list.
unfoldable pub drain :
    {Row Error : Type 0}
    → (Row → ℕ)
    → RowShaper Row
    → List (Next Row Error)
    → Outcome (RowShaper Row) Error
drain serialized_len s [] = ok s
drain serialized_len s (failed e ∷ stream) = err e
drain serialized_len s (row r ∷ stream) =
    let (s', wanted) = push serialized_len s r in
    let rest = drain serialized_len s' stream in if wanted then rest else ok s'

abbrev pub is_cut : Option Truncation → Bool
is_cut none = false
is_cut (some t) = true

unfoldable pub respond :
    {Row Error : Type 0}
    → Outcome (RowShaper Row) Error
    → Outcome (QueryResponse Row × Option Truncation) Error
respond (ok s) = ok (new_response s.rows (is_cut s.truncated), s.truncated)
respond (err e) = err e

-- `read_rows`.
unfoldable pub read_rows :
    {Row Error : Type 0}
    → (Row → ℕ)
    → ℕ
    → ℕ
    → List (Next Row Error)
    → Outcome (QueryResponse Row × Option Truncation) Error
unfolding drain respond
read_rows serialized_len budget most_bytes stream =
    respond (drain serialized_len (new_shaper budget most_bytes) stream)
