-- ===== src/Gateway/Execution/Response.antt =====
-- What comes back, and how the transaction ends.
use nexus_scout.Base.{
  sym, subst, ℕ, ◌≡◌, ◌≤◌, ◌<◌, ◌⊎◌, inl, inr, refl, arith, List, [], ◌∷◌, map, Bytes, Option, some,
  none, length, ap, Bool, true, false,
}
use nexus_scout.Gateway.Budget.{BudgetSource, row_budget}
use nexus_scout.Gateway.Errors.{Error, DriverError}
use nexus_scout.Gateway.Execution.{
  behind, Timed, in_time, elapsed, Session, start_txn, run_query, commit, rollback, Answer, closed,
  read, executing, starting, lift_next,
}
use nexus_scout.Gateway.Limits.{Limits}
use nexus_scout.Gateway.Shaper.Caps.{Keeps, read_rows-Keeps}
use nexus_scout.Gateway.Shaper.Prefix.{total}
use nexus_scout.Gateway.Shaper.{Next, Outcome, ok, err, Truncation}
use nexus_scout.Guard.Sanitized.{ResultLimit}
use nexus_scout.Guard.Sanitizer.{usize_max}
use nexus_scout.Wire.{QueryResponse}

-- The database has handed out a transaction.
abbrev pub is_opened : Timed (Outcome Unit DriverError) → Bool
is_opened (in_time (ok u)) = true
is_opened _ = false

-- That a read transaction is brought to its end, by what was asked of the database: a response comes
-- with a commit at the end, an error with a rollback behind the query, unless the database has
-- refused the query. Nothing else is asked of a database that has not handed out a transaction, and
-- where none is asked for, there is none.
abbrev pub Ends : {Row Bound : Type 0} → Session Row → Answer Row Bound → Type 0
Ends {Bound = Bound} session (ok response, requests) =
    (is_opened session.started ≡ true)
    × (text : Bytes) × (bound : Bound) × (requests ≡ start_txn ∷ run_query text bound ∷ commit ∷ [])
Ends {Bound = Bound} session (err e, requests) =
    (requests ≡ [])
    ⊎ ((is_opened session.started ≡ false) × (requests ≡ start_txn ∷ []))
    ⊎ ((is_opened session.started ≡ true)
        × (text : Bytes) × (bound : Bound) × (requests
            ≡ start_txn ∷ run_query text bound ∷ rollback ∷ []))
    ⊎ ((is_opened session.started ≡ true)
        × (text : Bytes) × (bound : Bound) × (refusal : DriverError) × (session.executed
            ≡ in_time (err refusal))
        × (requests ≡ start_txn ∷ run_query text bound ∷ []))

-- A response keeps to the limits on rows and bytes, and counts its rows.
abbrev pub KeepsLimits :
    {Row : Type 0} → (Row → ℕ) → Limits → Outcome (QueryResponse Row) Error → Type 0
KeepsLimits row_len limits (ok response) =
    (length response.results ≤ limits.max_result_rows)
    × (total row_len response.results ≤ limits.max_result_bytes)
    × (response.count ≡ length response.results)
KeepsLimits row_len limits (err e) = Unit

pub row_budget-max_result_rows :
    (limits : Limits) (requested : Option ℕ) (own : ResultLimit)
    → (row_budget limits requested own).0 ≤ limits.max_result_rows
unfolding row_budget
row_budget-max_result_rows limits (some r) own = ground arith
row_budget-max_result_rows limits none (ResultLimit.fixed n) = ground arith
row_budget-max_result_rows limits none ResultLimit.dynamic = ground arith
row_budget-max_result_rows limits none ResultLimit.none = ground arith

module _ {Row Bound : Type 0} (row_len : Row → ℕ) (limits : Limits) (ms : ℕ)
    (budget : ℕ × BudgetSource) (text : Bytes) (bound : Bound) (session : Session Row) where
  module _ (small : budget.0 ≤ limits.max_result_rows)
      (cap : limits.max_result_bytes < usize_max) where
    closed-KeepsLimits :
        (o : Outcome (QueryResponse Row × Option Truncation) Error)
        → Keeps row_len budget.0 limits.max_result_bytes o
        → KeepsLimits row_len limits (closed Bound row_len limits ms budget o).0
    unfolding closed
    closed-KeepsLimits (ok r) h = (omega (arith, h.0, small), h.1, h.2)
    closed-KeepsLimits (err e) h = tt

    read-KeepsLimits :
        (rows : Timed (List (Next Row DriverError)))
        → KeepsLimits row_len limits (read Bound row_len limits ms budget rows).0
    unfolding read
    read-KeepsLimits (in_time stream) =
        closed-KeepsLimits _
          (read_rows-Keeps row_len budget.0 limits.max_result_bytes (map lift_next stream) cap)
    read-KeepsLimits elapsed = tt

    executing-KeepsLimits :
        (executed : Timed (Outcome Unit DriverError))
        → KeepsLimits row_len limits
            (executing Bound row_len limits ms budget text bound session executed).0
    unfolding executing
    executing-KeepsLimits (in_time (ok u)) = read-KeepsLimits session.rows
    executing-KeepsLimits (in_time (err e)) = tt
    executing-KeepsLimits elapsed = tt

    pub starting-KeepsLimits :
        (started : Timed (Outcome Unit DriverError))
        → KeepsLimits row_len limits
            (starting Bound row_len limits ms budget text bound session started).0
    unfolding starting
    starting-KeepsLimits (in_time (ok u)) = executing-KeepsLimits session.executed
    starting-KeepsLimits (in_time (err e)) = tt
    starting-KeepsLimits elapsed = tt

  -- What follows the query, by the outcome of reading.
  closed-last :
      (o : Outcome (QueryResponse Row × Option Truncation) Error)
      → ((response : QueryResponse Row) × (closed Bound row_len limits ms budget o
            ≡ (ok response, commit ∷ [])))
        ⊎ ((e : Error) × (closed Bound row_len limits ms budget o ≡ (err e, rollback ∷ [])))
  unfolding closed
  closed-last (ok r) = inl (_, refl)
  closed-last (err e) = inr (e, refl)

  read-last :
      (rows : Timed (List (Next Row DriverError)))
      → ((response : QueryResponse Row) × (read Bound row_len limits ms budget rows
            ≡ (ok response, commit ∷ [])))
        ⊎ ((e : Error) × (read Bound row_len limits ms budget rows ≡ (err e, rollback ∷ [])))
  unfolding read
  read-last (in_time stream) = closed-last _
  read-last elapsed = inr (_, refl)

  executing-Ends :
      (executed : Timed (Outcome Unit DriverError))
      → is_opened session.started ≡ true
      → session.executed ≡ executed
      → Ends session
          (behind start_txn (executing Bound row_len limits ms budget text bound session executed))
  unfolding executing
  executing-Ends (in_time (ok u)) o h = elim (read-last session.rows) [
    | inl found ↦
        subst (λ a. Ends session (behind start_txn (behind (run_query text bound) a))) (sym found.1)
          (o, text, bound, refl)
    | inr found ↦
        subst (λ a. Ends session (behind start_txn (behind (run_query text bound) a))) (sym found.1)
          (inr (inr (inl (o, text, bound, refl))))
  ]
  executing-Ends (in_time (err e)) o h = inr (inr (inr (o, text, bound, e, h, refl)))
  executing-Ends elapsed o h = inr (inr (inl (o, text, bound, refl)))

  pub starting-Ends :
      (started : Timed (Outcome Unit DriverError))
      → session.started ≡ started
      → Ends session (starting Bound row_len limits ms budget text bound session started)
  unfolding starting
  starting-Ends (in_time (ok u)) h = executing-Ends session.executed (ap is_opened h) refl
  starting-Ends (in_time (err e)) h = inr (inl (ap is_opened h, refl))
  starting-Ends elapsed h = inr (inl (ap is_opened h, refl))
