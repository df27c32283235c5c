-- ===== src/Gateway/Execution/Scout.antt =====
-- What `Scout::run` comes back with.
use nexus_scout.Base.{ℕ, ◌<◌, inl, refl, List, Bytes, Option}
use nexus_scout.Gateway.Budget.{row_budget}
use nexus_scout.Gateway.Convert.{Numbers, BoltMap}
use nexus_scout.Gateway.Errors.{Error}
use nexus_scout.Gateway.Execution.{
  Session, Answer, bind_params, with_params, execute, checked, sanitized, run_scout, prepend_notes,
}
use nexus_scout.Gateway.Json.{Members}
use nexus_scout.Gateway.Limits.{Limits}
use nexus_scout.Gateway.Params.{check_params}
use nexus_scout.Gateway.Shaper.{Outcome, ok, err}
use nexus_scout.Guard.Reason
use nexus_scout.Guard.Sanitized.{SanitizedQuery}
use nexus_scout.Guard.Sanitizer.{sanitize, usize_max}
use nexus_scout.Gateway.Execution.Response.{
  Ends, KeepsLimits, row_budget-max_result_rows, starting-KeepsLimits, starting-Ends,
}

module _ {Number Integer Float Row : Type 0} (numbers : Numbers Number Integer Float)
    (row_len : Row → ℕ) (params_len : Members Number → ℕ) (normalize : List ℕ → List ℕ)
    (limits : Limits) (ms : ℕ) (session : Session Row) (params : Members Number)
    (requested_limit : Option ℕ) where
  -- The two facts about an answer, and that they hold.
  abbrev IsGood : Answer Row (BoltMap Integer Float) → Type 0
  IsGood a = Ends session a × (limits.max_result_bytes < usize_max → KeepsLimits row_len limits a.0)

  prepend_notes-IsGood :
      (notes : List Bytes) (a : Answer Row (BoltMap Integer Float))
      → IsGood a
      → IsGood (prepend_notes numbers row_len params_len normalize limits ms session notes a)
  prepend_notes-IsGood notes (ok response, requests) h = h
  prepend_notes-IsGood notes (err e, requests) h = h

  with_params-IsGood :
      (query : SanitizedQuery) (o : Outcome (BoltMap Integer Float) Error)
      → IsGood (
          with_params
            (BoltMap Integer Float)
            row_len
            limits
            ms
            (row_budget limits requested_limit query.result_limit)
            query.cypher
            session
            o)
  unfolding with_params
  with_params-IsGood query (ok bound) = (
    starting-Ends row_len limits ms _ query.cypher bound session session.started refl,
    λ cap.
        starting-KeepsLimits row_len limits ms _ query.cypher bound session
          (row_budget-max_result_rows limits requested_limit query.result_limit) cap
          session.started,
  )
  with_params-IsGood query (err e) = (inl refl, λ cap. tt)

  checked-IsGood :
      (query : SanitizedQuery) (o : Outcome Unit Error)
      → IsGood (
          checked numbers row_len params_len normalize limits ms session query params
            requested_limit o)
  unfolding checked execute
  checked-IsGood query (ok u) =
      prepend_notes-IsGood query.notes _ (with_params-IsGood query (bind_params numbers params))
  checked-IsGood query (err e) = (inl refl, λ cap. tt)

  sanitized-IsGood :
      (r : Reason.Result SanitizedQuery)
      → IsGood (
          sanitized numbers row_len params_len normalize limits ms session params requested_limit r)
  unfolding sanitized
  sanitized-IsGood (Reason.ok query) = checked-IsGood query (check_params params_len params limits)
  sanitized-IsGood (Reason.err e) = (inl refl, λ cap. tt)

  -- Whatever the caller sends and whatever the database does: a response is behind a commit, at the
  -- end of a transaction that was handed out. An error is behind a rollback, unless no transaction was
  -- asked for, the database has handed out none, or it has refused the query.
  pub run_scout-Ends :
      (cypher : List ℕ)
      → Ends session (
          run_scout numbers row_len params_len normalize limits ms session cypher params
            requested_limit)
  unfolding run_scout
  run_scout-Ends cypher = (sanitized-IsGood (sanitize normalize limits.guard cypher)).0

  -- If the byte limit is below `usize::MAX`, a response has at most the limit's rows, whose sizes sum
  -- up to at most the limit on bytes, and its count is their number, whatever limit the caller asks
  -- for.
  pub run_scout-KeepsLimits :
      (cypher : List ℕ)
      → limits.max_result_bytes < usize_max
      → KeepsLimits row_len limits
          (run_scout numbers row_len params_len normalize limits ms session cypher params
            requested_limit).0
  unfolding run_scout
  run_scout-KeepsLimits cypher cap =
      (sanitized-IsGood (sanitize normalize limits.guard cypher)).1 cap
