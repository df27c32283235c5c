-- ===== src/Gateway/Probes/Ready.antt =====
-- What the operational endpoints answer, and the identifiers of requests.
use nexus_scout.Base.{
  if◌then◌else◌, ℕ, zero, suc, ◌^◌, ◌<◌, ◌≡◌, ◌↔◌, ◌≢◌, refl, sym, ◌∙◌, ap, arith, List, Bytes,
  decimal, digits_value-decimal, digits_value,
}
use nexus_scout.Gateway.Errors.{DriverError, new_error, internal}
use nexus_scout.Gateway.Execution.{Timed}
use nexus_scout.Gateway.Probes.{
  readiness, cost_bounds_detail, ready_handler, make_request_id, counter_behind,
}
use nexus_scout.Gateway.Limits.{production}
use nexus_scout.Gateway.Shaper.{Outcome, ok, err, Next}
use nexus_scout.Gateway.Startup.{
  Setting, verify_server_bounds, cost_bounds_outcome, BoundsOutcome, all_set, some_unset,
  unverifiable, production_aborts, ensure_cost_bounds,
}

readiness_iff :
    (Row : Type 0) (b : BoundsOutcome) (detail : Bytes)
    → ((readiness {Row = Row} b detail).status ≡ 200)
      ↔ ((if production_aborts production b then err (new_error internal) else ok tt) ≡ ok tt)
unfolding production_aborts
readiness_iff Row all_set detail = (λ h. refl, λ h. refl)
readiness_iff Row some_unset detail = (λ h. absurd (omega arith), λ h. absurd (ground arith))
readiness_iff Row unverifiable detail = (λ h. absurd (omega arith), λ h. absurd (ground arith))

-- The probe answers that the gateway is ready exactly if a gateway with the production profile would
-- start on the same answer of the database.
pub ready_handler-ensure_cost_bounds :
    (Row : Type 0) (answer : Timed (Outcome (List (Next Setting DriverError)) DriverError))
    → ((ready_handler {Row = Row} answer).status ≡ 200)
      ↔ (ensure_cost_bounds production answer ≡ ok tt)
unfolding ready_handler ensure_cost_bounds
ready_handler-ensure_cost_bounds Row answer =
    readiness_iff Row (cost_bounds_outcome (verify_server_bounds answer))
      (cost_bounds_detail (verify_server_bounds answer))

counter_behind-lt : (k : ℕ) → k < 2 ^ 64 → counter_behind k ≡ k
unfolding counter_behind
counter_behind-lt zero h = refl
counter_behind-lt (suc k) h = omega (arith, counter_behind-lt k)

decimal-injective : (m n : ℕ) → decimal m ≡ decimal n → m ≡ n
decimal-injective m n h =
    sym (digits_value-decimal m) ∙ ap (digits_value 0) h ∙ digits_value-decimal n

-- The identifiers of two different requests among the first 2 ^ 64 are different.
pub make_request_id-distinct :
    (i j : ℕ)
    → i < 2 ^ 64
    → j < 2 ^ 64
    → i ≢ j
    → (make_request_id (counter_behind i)).1 ≢ (make_request_id (counter_behind j)).1
unfolding make_request_id
make_request_id-distinct i j hi hj different h = different (
    sym (counter_behind-lt i hi)
    ∙ decimal-injective (counter_behind i) (counter_behind j) h
    ∙ counter_behind-lt j hj)
