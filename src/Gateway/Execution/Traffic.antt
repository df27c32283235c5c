-- ===== src/Gateway/Execution/Traffic.antt =====
-- What reaches the database.
use nexus_scout.Base.{ℕ, ◌≡◌, refl, List, All, Bytes, Option}
use nexus_scout.Gateway.Budget.{BudgetSource, row_budget}
use nexus_scout.Gateway.Convert.{Numbers, BoltMap}
use nexus_scout.Gateway.Errors.{Error, DriverError}
use nexus_scout.Gateway.Execution.{
  Timed, in_time, elapsed, Session, Request, run_query, Answer, bind_params, closed, read,
  executing, starting, with_params, execute, checked, sanitized, run_scout, prepend_notes,
}
use nexus_scout.Gateway.Json.{Members}
use nexus_scout.Gateway.Limits.{Limits}
use nexus_scout.Gateway.Params.{check_params}
use nexus_scout.Gateway.Shaper.{Next, Outcome, ok, err, Truncation}
use nexus_scout.Guard.Reason
use nexus_scout.Guard.Sanitized.{SanitizedQuery}
use nexus_scout.Guard.Sanitizer.Sound.{IsSanitized, sanitize-IsSanitized}
use nexus_scout.Guard.Sanitizer.{sanitize}
use nexus_scout.Wire.{QueryResponse}

-- `P` of each query that is put to the database.
abbrev pub OnQuery : {Bound : Type 0} → (Bytes → Bound → Type 0) → Request Bound → Type 0
OnQuery P (run_query text bound) = P text bound
OnQuery P _ = Unit

module _ {Row Bound : Type 0} (serialized_len : Row → ℕ) (limits : Limits) (ms : ℕ)
    (budget : ℕ × BudgetSource) (text : Bytes) (bound : Bound) (session : Session Row) where
  module _ (P : Bytes → Bound → Type 0) (p : P text bound) where
    closed-OnQuery :
        (o : Outcome (QueryResponse Row × Option Truncation) Error)
        → All (OnQuery P) (closed Bound serialized_len limits ms budget o).1
    unfolding closed
    closed-OnQuery (ok r) = (tt, tt)
    closed-OnQuery (err e) = (tt, tt)

    read-OnQuery :
        (rows : Timed (List (Next Row DriverError)))
        → All (OnQuery P) (read Bound serialized_len limits ms budget rows).1
    unfolding read
    read-OnQuery (in_time stream) = closed-OnQuery _
    read-OnQuery elapsed = (tt, tt)

    executing-OnQuery :
        (executed : Timed (Outcome Unit DriverError))
        → All
            (OnQuery P)
            (executing Bound serialized_len limits ms budget text bound session executed).1
    unfolding executing
    executing-OnQuery (in_time (ok u)) = (p, read-OnQuery session.rows)
    executing-OnQuery (in_time (err e)) = (p, tt)
    executing-OnQuery elapsed = (p, (tt, tt))

    pub starting-OnQuery :
        (started : Timed (Outcome Unit DriverError))
        → All
            (OnQuery P)
            (starting Bound serialized_len limits ms budget text bound session started).1
    unfolding starting
    starting-OnQuery (in_time (ok u)) = (tt, executing-OnQuery session.executed)
    starting-OnQuery (in_time (err e)) = (tt, tt)
    starting-OnQuery elapsed = (tt, tt)

module _ {Number Integer Float Row : Type 0} (numbers : Numbers Number Integer Float)
    (row_len : Row → ℕ) (params_len : Members Number → ℕ) (normalize : List ℕ → List ℕ)
    (limits : Limits) (ms : ℕ) (session : Session Row) (cypher : List ℕ) (params : Members Number)
    (requested_limit : Option ℕ) where
  -- What a query that is put to the database has gone through.
  pub record IsChecked (text : Bytes) (bound : BoltMap Integer Float) : Type 0 where
    pub query : SanitizedQuery
    pub sanitized_as : IsSanitized normalize limits.guard cypher query
    pub rewritten_to : text ≡ query.cypher
    pub params_checked : check_params params_len params limits ≡ ok tt
    pub params_bound : bind_params numbers params ≡ ok bound

  with_params-IsChecked :
      (query : SanitizedQuery)
      → IsSanitized normalize limits.guard cypher query
      → check_params params_len params limits ≡ ok tt
      → (o : Outcome (BoltMap Integer Float) Error) → bind_params numbers params ≡ o
      → All
          (OnQuery IsChecked)
          (with_params
            (BoltMap Integer Float)
            row_len
            limits
            ms
            (row_budget limits requested_limit query.result_limit)
            query.cypher
            session
            o).1
  unfolding with_params
  with_params-IsChecked query s c (ok bound) b =
      starting-OnQuery row_len limits ms _ query.cypher bound session IsChecked
        (record {
          query = query;
          sanitized_as = s;
          rewritten_to = refl;
          params_checked = c;
          params_bound = b;
        })
        session.started
  with_params-IsChecked query s c (err e) b = tt

  prepend_notes-IsChecked :
      (notes : List Bytes) (a : Answer Row (BoltMap Integer Float))
      → All (OnQuery IsChecked) a.1
      → All
          (OnQuery IsChecked)
          (prepend_notes numbers row_len params_len normalize limits ms session notes a).1
  prepend_notes-IsChecked notes (ok response, requests) h = h
  prepend_notes-IsChecked notes (err e, requests) h = h

  checked-IsChecked :
      (query : SanitizedQuery)
      → IsSanitized normalize limits.guard cypher query
      → (o : Outcome Unit Error) → check_params params_len params limits ≡ o
      → All
          (OnQuery IsChecked)
          (checked numbers row_len params_len normalize limits ms session query params
            requested_limit o).1
  unfolding checked execute
  checked-IsChecked query s (ok u) c =
      prepend_notes-IsChecked query.notes _
        (with_params-IsChecked query s c (bind_params numbers params) refl)
  checked-IsChecked query s (err e) c = tt

  sanitized-IsChecked :
      (r : Reason.Result SanitizedQuery)
      → sanitize normalize limits.guard cypher ≡ r
      → All
          (OnQuery IsChecked)
          (sanitized numbers row_len params_len normalize limits ms session params requested_limit
            r).1
  unfolding sanitized
  sanitized-IsChecked (Reason.ok query) e =
      checked-IsChecked query (sanitize-IsSanitized normalize limits.guard cypher query e)
        (check_params params_len params limits) refl
  sanitized-IsChecked (Reason.err e) h = tt

  -- Whatever the caller sends and whatever the database does, every query that is put to the database
  -- is the caller's after the sanitizer, with parameters that are within the limits and bound as
  -- values.
  pub run_scout-IsChecked :
      All
        (OnQuery IsChecked)
        (run_scout numbers row_len params_len normalize limits ms session cypher params
          requested_limit).1
  unfolding run_scout
  run_scout-IsChecked = sanitized-IsChecked (sanitize normalize limits.guard cypher) refl
