-- ===== src/Gateway/Execution.antt =====
-- crates/nexus-scout/src/executor/mod.rs (`execute`) and src/lib.rs (`Scout::run`): a query on its
-- way from the caller to the database and back. What the database does in one call is a `Session`;
-- rows have been taken out of the driver's format.
pub mod Traffic
pub mod Response
pub mod Scout
use nexus_scout.Base.{
  ℕ, Bool, true, false, Option, none, some, List, [], ◌∷◌, ◌++◌, Bytes, map, if◌then◌else◌,
}
use nexus_scout.Gateway.Budget.{BudgetSource, row_budget, result_note}
use nexus_scout.Gateway.Convert.{
  Numbers, BoltMap, end_map, entry, BoltType, insert_entry, json_to_bolt,
}
use nexus_scout.Gateway.Errors.{Error, new_error, DriverError, from_neo4rs, timeout, rejected}
use nexus_scout.Gateway.Json.{Members, end_members, member}
use nexus_scout.Gateway.Limits.{Limits}
use nexus_scout.Gateway.Params.{check_params}
use nexus_scout.Gateway.Shaper.{Next, row, failed, Outcome, ok, err, Truncation, read_rows}
use nexus_scout.Guard.Reason
use nexus_scout.Guard.Reason.{SanitizeError}
use nexus_scout.Guard.Sanitized.{SanitizedQuery}
use nexus_scout.Guard.Sanitizer.{sanitize}
use nexus_scout.Wire.{QueryResponse}

-- `tokio::time::timeout`: the value in time, or `Err(Elapsed)`.
pub data Timed (A : Type 0) : Type 0 where
  in_time : A → Timed A
  elapsed : Timed A

-- What the database does: at the start of a transaction, at the query, and with its rows, which are
-- not read to their end when the time runs out.
pub record Session (Row : Type 0) : Type 0 where
  pub started : Timed (Outcome Unit DriverError)
  pub executed : Timed (Outcome Unit DriverError)
  pub rows : Timed (List (Next Row DriverError))

-- What the gateway asks of the database.
pub data Request (Bound : Type 0) : Type 0 where
  start_txn : Request Bound
  -- the query's text and its parameters
  run_query : Bytes → Bound → Request Bound
  commit rollback : Request Bound

-- What the caller gets, with what was asked of the database.
abbrev pub Answer : Type 0 → Type 0 → Type 0
Answer Row Bound = Outcome (QueryResponse Row) Error × List (Request Bound)

-- The answer, with a request that came before.
abbrev pub behind : {Row Bound : Type 0} → Request Bound → Answer Row Bound → Answer Row Bound
behind r answer = (answer.0, r ∷ answer.1)

-- `map_err(Error::from_neo4rs)` on the stream of `read_rows`.
unfoldable pub lift_next : {Row : Type 0} → Next Row DriverError → Next Row Error
lift_next (row r) = row r
lift_next (failed e) = failed (from_neo4rs e)

abbrev pub note_list : Option Bytes → List Bytes
note_list none = []
note_list (some note) = note ∷ []

-- `response.notes.extend(...)`.
abbrev pub add_notes : {Row : Type 0} → QueryResponse Row → List Bytes → QueryResponse Row
add_notes response notes = record response { notes = response.notes ++ notes }

module _ {Number Integer Float : Type 0} (numbers : Numbers Number Integer Float) where
  -- `neo_query.param(key, json_to_bolt(value)?)` for every parameter.
  unfoldable pub bind_params : Members Number → Outcome (BoltMap Integer Float) Error
  bind_params end_members = ok end_map
  bind_params (member k v ms) = insert_entry numbers k (json_to_bolt numbers v) (bind_params ms)

module _ {Row : Type 0} (Bound : Type 0) (serialized_len : Row → ℕ) (limits : Limits) (ms : ℕ) where
  -- The end of `execute`, on what `read_rows` returned in time.
  unfoldable pub closed :
      ℕ × BudgetSource → Outcome (QueryResponse Row × Option Truncation) Error → Answer Row Bound
  closed budget (ok response) = (
    ok (
        add_notes response.0
          (note_list (result_note response.1 budget.1 budget.0 (response.0).count limits))),
    commit ∷ [],
  )
  closed budget (err e) = (err e, rollback ∷ [])

  unfoldable pub read : ℕ × BudgetSource → Timed (List (Next Row DriverError)) → Answer Row Bound
  unfolding closed
  read budget (in_time stream) =
      closed budget
        (read_rows serialized_len budget.0 limits.max_result_bytes (map lift_next stream))
  read budget elapsed = (err (new_error (timeout ms)), rollback ∷ [])

  unfoldable pub executing :
      ℕ × BudgetSource
      → Bytes
      → Bound
      → Session Row
      → Timed (Outcome Unit DriverError)
      → Answer Row Bound
  unfolding read
  executing budget text bound session (in_time (ok u)) =
      behind (run_query text bound) (read budget session.rows)
  executing budget text bound session (in_time (err e)) =
      (err (from_neo4rs e), run_query text bound ∷ [])
  executing budget text bound session elapsed =
      (err (new_error (timeout ms)), run_query text bound ∷ (rollback ∷ []))

  unfoldable pub starting :
      ℕ × BudgetSource
      → Bytes
      → Bound
      → Session Row
      → Timed (Outcome Unit DriverError)
      → Answer Row Bound
  unfolding executing
  starting budget text bound session (in_time (ok u)) =
      behind start_txn (executing budget text bound session session.executed)
  starting budget text bound session (in_time (err e)) = (err (from_neo4rs e), start_txn ∷ [])
  starting budget text bound session elapsed = (err (new_error (timeout ms)), start_txn ∷ [])

  unfoldable pub with_params :
      ℕ × BudgetSource → Bytes → Session Row → Outcome (Bound) Error → Answer Row Bound
  unfolding starting
  with_params budget text session (ok bound) = starting budget text bound session session.started
  with_params budget text session (err e) = (err e, [])

module _ {Number Integer Float Row : Type 0} (numbers : Numbers Number Integer Float)
    (row_len : Row → ℕ) (params_len : Members Number → ℕ) (normalize : List ℕ → List ℕ)
    (limits : Limits) (ms : ℕ) (session : Session Row) where
  -- `Executor::execute`, with the query timeout of `ms` milliseconds.
  unfoldable pub execute :
      SanitizedQuery → Members Number → Option ℕ → Answer Row (BoltMap Integer Float)
  unfolding bind_params with_params
  execute query params requested_limit =
      with_params (BoltMap Integer Float) row_len limits ms
        (row_budget limits requested_limit query.result_limit) query.cypher session
        (bind_params numbers params)

  -- `response.notes.splice(0..0, ...)`.
  abbrev pub prepend_notes :
      List Bytes → Answer Row (BoltMap Integer Float) → Answer Row (BoltMap Integer Float)
  prepend_notes notes (ok response, requests) =
      (ok (record response { notes = notes ++ response.notes }), requests)
  prepend_notes notes (err e, requests) = (err e, requests)

  unfoldable pub checked :
      SanitizedQuery
      → Members Number
      → Option ℕ
      → Outcome Unit Error
      → Answer Row (BoltMap Integer Float)
  unfolding execute
  checked query params requested_limit (ok u) =
      prepend_notes query.notes (execute query params requested_limit)
  checked query params requested_limit (err e) = (err e, [])

  unfoldable pub sanitized :
      Members Number → Option ℕ → Reason.Result SanitizedQuery → Answer Row (BoltMap Integer Float)
  unfolding checked
  sanitized params requested_limit (Reason.ok query) =
      checked query params requested_limit (check_params params_len params limits)
  sanitized params requested_limit (Reason.err e) = (err (new_error (rejected e)), [])

  -- `Scout::run`.
  unfoldable pub run_scout : List ℕ → Members Number → Option ℕ → Answer Row (BoltMap Integer Float)
  unfolding sanitized
  run_scout cypher params requested_limit =
      sanitized params requested_limit (sanitize normalize limits.guard cypher)
