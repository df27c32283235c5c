-- ===== src/Gateway/Shaper/Prefix.antt =====
-- The rows that are returned: the longest prefix of the stream that meets both caps.
use nexus_scout.Base.{
  if◌then◌else◌, subst, ℕ, ◌+◌, ◌≤◌, ◌<◌, Bool, true, false, List, [], ◌∷◌, ◌++◌, map, Option, none,
  some, ◌≡◌, refl, ◌∙◌, ap, inl, inr, arith, ltb, leb, Bool-cases, length, length-append,
  append_assoc,
}
use nexus_scout.Gateway.Shaper.{
  respond, Truncation, RowShaper, new_shaper, Next, row, Outcome, ok, push, drain, read_rows,
  is_cut,
}
use nexus_scout.Guard.Sanitizer.{usize_max}
use nexus_scout.Wire.{new_response}

module _ {Row : Type 0} (serialized_len : Row → ℕ) where
  -- The summed size of some rows.
  pub total : List Row → ℕ
  total [] = 0
  total (r ∷ rs) = serialized_len r + total rs

  total-append : (xs ys : List Row) → total (xs ++ ys) ≡ total xs + total ys
  unfolding total
  total-append [] ys = omega arith
  total-append (x ∷ xs) ys = omega (arith, total-append xs ys)

  -- Why reading stopped, with the rows that were not kept.
  abbrev pub Stops : ℕ → ℕ → List Row → List Row → Option Truncation → Type 0
  Stops budget most_bytes rows rest none = rest ≡ []
  Stops budget most_bytes rows rest (some Truncation.row_budget) =
      (r : Row) × (later : List Row) × (rest ≡ r ∷ later) × (length rows ≡ budget)
  Stops budget most_bytes rows rest (some Truncation.byte_cap) =
      (r : Row) × (later : List Row) × (rest ≡ r ∷ later)
      × (length rows < budget)
      × (most_bytes < total rows + serialized_len r)

  -- `rows` are the first of `stream`, within both caps, and no more could be kept.
  pub record IsShaped (budget most_bytes : ℕ) (stream rows : List Row) (t : Option Truncation)
      : Type 0 where
    pub rest : List Row
    pub splits : stream ≡ rows ++ rest
    pub within_budget : length rows ≤ budget
    pub within_cap : total rows ≤ most_bytes
    pub stops : Stops budget most_bytes rows rest t

  -- What holds of a shaper that is still reading.
  pub record IsReading (s : RowShaper Row) : Type 0 where
    pub counted : s.bytes ≡ total s.rows
    pub few : length s.rows ≤ s.budget
    pub small : s.bytes ≤ s.byte_cap
    pub uncut : s.truncated ≡ none

  record Drains {Error : Type 0} (s : RowShaper Row) (stream : List Row)
      (o : Outcome (RowShaper Row) Error) : Type 0 where
    last : RowShaper Row
    done : o ≡ ok last
    shaped : IsShaped s.budget s.byte_cap (s.rows ++ stream) last.rows last.truncated

  pub push-full :
      (s : RowShaper Row) (r : Row)
      → s.budget ≤ length s.rows
      → push serialized_len s r ≡ (record s { truncated = some Truncation.row_budget }, false)
  unfolding push
  push-full s r h = ground arith

  pub push-heavy :
      (s : RowShaper Row) (r : Row)
      → length s.rows < s.budget
      → s.byte_cap < usize_max
      → s.byte_cap < s.bytes + serialized_len r
      → push serialized_len s r ≡ (record s { truncated = some Truncation.byte_cap }, false)
  unfolding push
  push-heavy s r h k l = ground arith

  pub push-kept :
      (s : RowShaper Row) (r : Row)
      → length s.rows < s.budget
      → s.byte_cap < usize_max
      → s.bytes + serialized_len r ≤ s.byte_cap
      → push serialized_len s r
        ≡ (record s { bytes = s.bytes + serialized_len r; rows = s.rows ++ r ∷ [] }, true)
  unfolding push
  push-kept s r h k l = ground arith

  pub drain-row :
      {Error : Type 0} (s : RowShaper Row) (r : Row) (stream : List (Next Row Error))
      (s' : RowShaper Row) (wanted : Bool)
      → push serialized_len s r ≡ (s', wanted)
      → drain serialized_len s (row r ∷ stream)
        ≡ (if wanted then drain serialized_len s' stream else ok s')
  unfolding drain
  drain-row s r stream s' wanted e =
      ap (λ (p : RowShaper Row × Bool). if p.1 then drain serialized_len p.0 stream else ok p.0) e

  Drains-stop :
      {Error : Type 0} (s : RowShaper Row) (r : Row) (stream : List Row) (t : Truncation)
      → push serialized_len s r ≡ (record s { truncated = some t }, false)
      → IsReading s
      → Stops s.budget s.byte_cap s.rows (r ∷ stream) (some t)
      → Drains s (r ∷ stream) (drain {Error = Error} serialized_len s (map row (r ∷ stream)))
  Drains-stop s r stream t e inv why = record {
    last = record s { truncated = some t };
    done = drain-row s r (map row stream) _ false e;
    shaped = record {
      rest = r ∷ stream;
      splits = refl;
      within_budget = inv.few;
      within_cap = omega (arith, inv.small, inv.counted);
      stops = why;
    };
  }

  pub IsReading-new : (budget most_bytes : ℕ) → IsReading (new_shaper budget most_bytes)
  IsReading-new budget most_bytes = record {
    counted = unfold total in refl;
    few = omega arith;
    small = omega arith;
    uncut = refl;
  }

  pub IsReading-keep :
      (s : RowShaper Row) (r : Row)
      → IsReading s
      → length s.rows < s.budget
      → s.bytes + serialized_len r ≤ s.byte_cap
      → IsReading (record s { bytes = s.bytes + serialized_len r; rows = s.rows ++ r ∷ [] })
  IsReading-keep s r inv room light = record {
    counted = unfold total in omega (arith, total-append s.rows (r ∷ []), inv.counted);
    few = omega (arith, length-append s.rows (r ∷ []));
    small = light;
    uncut = inv.uncut;
  }

  drain-Drains :
      {Error : Type 0} (stream : List Row) (s : RowShaper Row)
      → s.byte_cap < usize_max
      → IsReading s
      → Drains s stream (drain {Error = Error} serialized_len s (map row stream))
  drain-Drains [] s h inv = record {
    last = s;
    done = unfold drain in refl;
    shaped = record {
      rest = [];
      splits = refl;
      within_budget = inv.few;
      within_cap = omega (arith, inv.small, inv.counted);
      stops = rw inv.uncut refl;
    };
  }
  drain-Drains (r ∷ stream) s h inv = elim (Bool-cases (leb s.budget (length s.rows))) [
    | inl full ↦
        Drains-stop s r stream _ (push-full s r (ground arith)) inv
          (r, stream, refl, ground (arith, inv.few))
    | inr room ↦ elim (Bool-cases (ltb s.byte_cap (s.bytes + serialized_len r))) [
      | inl heavy ↦
          Drains-stop s r stream _ (push-heavy s r (ground arith) h (ground arith)) inv
            (r, stream, refl, ground arith, ground (arith, inv.counted))
      | inr light ↦
          let room' : length s.rows < s.budget = ground arith in
          let light' : s.bytes + serialized_len r ≤ s.byte_cap = ground arith in
          let kept = push-kept s r room' h light' in
          let s' = record s { bytes = s.bytes + serialized_len r; rows = s.rows ++ r ∷ [] } in
          let reading : IsReading s' = IsReading-keep s r inv room' light' in
          let later = drain-Drains stream s' h reading in
          record {
            last = later.last;
            done = drain-row s r (map row stream) s' true kept ∙ later.done;
            shaped =
                subst (λ xs. IsShaped s.budget s.byte_cap xs later.last.rows later.last.truncated)
                  (append_assoc s.rows (r ∷ []) stream) later.shaped;
          }
    ]
  ]

  -- A stream with no error is read into a response whose rows are the first of the stream, as many
  -- as the row budget and the byte cap allow, with the cap that stopped the read; the response is
  -- marked as truncated exactly if there is such a cap. The byte cap is below `usize::MAX`.
  pub read_rows-IsShaped :
      {Error : Type 0} (budget most_bytes : ℕ) (stream : List Row)
      → most_bytes < usize_max
      → (rows : List Row) × (t : Option Truncation) × (read_rows {Error = Error} serialized_len
            budget most_bytes
            (map row stream)
          ≡ ok (new_response rows (is_cut t), t))
        × IsShaped budget most_bytes stream rows t
  unfolding read_rows
  read_rows-IsShaped {Error} budget most_bytes stream h =
      let d =
        drain-Drains {Error = Error} stream (new_shaper budget most_bytes) h
          (IsReading-new budget most_bytes) in
      (d.last.rows, d.last.truncated, ap respond d.done, d.shaped)
