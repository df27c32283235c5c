-- ===== src/Gateway/Shaper/Caps.antt =====
-- The caps hold of any stream, one that ends in an error included.
use nexus_scout.Base.{
  ℕ, ◌+◌, ◌≤◌, ◌<◌, ◌≡◌, List, [], ◌∷◌, ◌++◌, length, leb, ltb, Bool-cases, inl, inr, arith, subst,
  sym, refl, true, false,
}
use nexus_scout.Gateway.Shaper.{
  new_shaper, RowShaper, Next, row, failed, Outcome, ok, err, drain, respond, read_rows,
}
use nexus_scout.Gateway.Shaper.Prefix.{
  total, IsReading, push-full, push-heavy, push-kept, IsReading-keep, IsReading-new, drain-row,
}
use nexus_scout.Guard.Sanitizer.{usize_max}
use nexus_scout.Wire.{QueryResponse, new_response}

module _ {Row : Type 0} (serialized_len : Row → ℕ) where
  -- The rows, if there are any, keep to a budget and a cap on their size.
  abbrev pub IsWithin : {Error : Type 0} → ℕ → ℕ → Outcome (RowShaper Row) Error → Type 0
  IsWithin budget most_bytes (ok s) =
      (length s.rows ≤ budget) × (total serialized_len s.rows ≤ most_bytes)
  IsWithin budget most_bytes (err e) = Unit

  pub drain-IsWithin :
      {Error : Type 0} (stream : List (Next Row Error)) (s : RowShaper Row)
      → s.byte_cap < usize_max
      → IsReading serialized_len s
      → IsWithin s.budget s.byte_cap (drain serialized_len s stream)
  drain-IsWithin [] s h inv = unfold drain in (inv.few, omega (arith, inv.counted, inv.small))
  drain-IsWithin (failed e ∷ stream) s h inv = unfold drain in tt
  drain-IsWithin (row r ∷ stream) s h inv =
      let stopped : (length s.rows ≤ s.budget) × (total serialized_len s.rows ≤ s.byte_cap) =
        (inv.few, omega (arith, inv.counted, inv.small)) in
      elim (Bool-cases (leb s.budget (length s.rows))) [
        | inl full ↦
            subst (IsWithin s.budget s.byte_cap)
              (sym (
                drain-row serialized_len s r stream _ false
                  (push-full serialized_len s r (ground arith))))
              stopped
        | inr room ↦ elim (Bool-cases (ltb s.byte_cap (s.bytes + serialized_len r))) [
          | inl heavy ↦
              subst (IsWithin s.budget s.byte_cap)
                (sym (
                  drain-row serialized_len s r stream _ false
                    (push-heavy serialized_len s r (ground arith) h (ground arith))))
                stopped
          | inr light ↦
              let room' : length s.rows < s.budget = ground arith in
              let light' : s.bytes + serialized_len r ≤ s.byte_cap = ground arith in
              let s' = record s { bytes = s.bytes + serialized_len r; rows = s.rows ++ r ∷ [] } in
              subst (IsWithin s.budget s.byte_cap)
                (sym (
                  drain-row serialized_len s r stream s' true
                    (push-kept serialized_len s r room' h light')))
                (drain-IsWithin stream s' h (IsReading-keep serialized_len s r inv room' light'))
        ]
      ]

  -- What `read_rows` returns keeps to both caps, and its count is that of its rows.
  abbrev pub Keeps : {A Error : Type 0} → ℕ → ℕ → Outcome (QueryResponse Row × A) Error → Type 0
  Keeps budget most_bytes (ok response) =
      (length (response.0).results ≤ budget)
      × (total serialized_len (response.0).results ≤ most_bytes)
      × ((response.0).count ≡ length (response.0).results)
  Keeps budget most_bytes (err e) = Unit

  respond-Keeps :
      {Error : Type 0} (budget most_bytes : ℕ) (o : Outcome (RowShaper Row) Error)
      → IsWithin budget most_bytes o
      → Keeps budget most_bytes (respond o)
  unfolding respond new_response
  respond-Keeps budget most_bytes (ok s) h = (h.0, h.1, refl)
  respond-Keeps budget most_bytes (err e) h = tt

  pub read_rows-Keeps :
      {Error : Type 0} (budget most_bytes : ℕ) (stream : List (Next Row Error))
      → most_bytes < usize_max
      → Keeps budget most_bytes (read_rows serialized_len budget most_bytes stream)
  unfolding read_rows
  read_rows-Keeps budget most_bytes stream h = respond-Keeps budget most_bytes _ (
      drain-IsWithin stream (new_shaper budget most_bytes) h
        (IsReading-new serialized_len budget most_bytes))
