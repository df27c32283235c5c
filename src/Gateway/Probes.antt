-- ===== src/Gateway/Probes.antt =====
-- crates/nexus-scout/src/http.rs: the operational endpoints and the identifiers of requests.
pub mod Ready
use nexus_scout.Base.{
  ℕ, ◌+◌, ◌%◌, ◌^◌, Bool, true, false, ◌&&◌, List, [], ◌∷◌, ◌++◌, Option, none, some, Bytes, codes,
  decimal, leb, ltb, if◌then◌else◌, u32_max,
}
use nexus_scout.Gateway.Admission.{Shared}
use nexus_scout.Gateway.Config.{parse_unsigned}
use nexus_scout.Gateway.Convert.{Numbers}
use nexus_scout.Gateway.Errors.Replies.{to_response, display}
use nexus_scout.Gateway.Errors.{Error, new_error, bad_request, code, DriverError}
use nexus_scout.Gateway.Execution.{Session, run_scout, Timed}
use nexus_scout.Gateway.Json.{Members, end_members}
use nexus_scout.Gateway.Limits.{Limits}
use nexus_scout.Gateway.Shaper.{Outcome, ok, err, Next}
use nexus_scout.Gateway.Startup.{
  Setting, verify_server_bounds, cost_bounds_outcome, BoundsOutcome, all_set, some_unset,
  unverifiable,
}
use nexus_scout.Wire.{
  ErrorCode, QueryRequest, QueryResponse, ErrorResponse, new_error_response, http_status,
}
use nexus_scout.Gateway.Handlers.{HttpResponse, Body, failure, empty}

-- `health_handler`.
unfoldable pub health_handler : {Row : Type 0} → HttpResponse Row
health_handler = record { status = 200; no_store = false; body = empty }

-- `join(", ")`.
abbrev pub joined : List Bytes → Bytes
joined [] = []
joined (s ∷ []) = s
joined (s ∷ t ∷ rest) = s ++ (codes ", " ++ joined (t ∷ rest))

-- The detail of `cost_bounds_outcome`.
unfoldable pub cost_bounds_detail : Outcome (List Bytes) Error → Bytes
cost_bounds_detail (ok []) = []
cost_bounds_detail (ok (b ∷ bs)) = codes "unset server-side cost bounds: " ++ joined (b ∷ bs)
cost_bounds_detail (err e) = codes "could not verify server-side cost bounds: " ++ display e

-- `COST_BOUNDS_HINT`.
abbrev pub cost_bounds_hint : Bytes
cost_bounds_hint =
    codes "Set db.transaction.timeout and the transaction memory limits in neo4j.conf."

abbrev pub unavailable : {Row : Type 0} → Bytes → HttpResponse Row
unavailable detail = record {
  status = 503;
  no_store = false;
  body = failure (new_error_response ErrorCode.internal_error detail cost_bounds_hint);
}

abbrev pub readiness : {Row : Type 0} → BoundsOutcome → Bytes → HttpResponse Row
readiness all_set detail = record { status = 200; no_store = false; body = empty }
readiness some_unset detail = unavailable detail
readiness unverifiable detail = unavailable detail

-- `ready_handler`, on what the database answers to `SHOW SETTINGS`.
unfoldable pub ready_handler :
    {Row : Type 0}
    → Timed (Outcome (List (Next Setting DriverError)) DriverError)
    → HttpResponse Row
unfolding verify_server_bounds cost_bounds_detail
ready_handler answer =
    let bounds = verify_server_bounds answer in
    readiness (cost_bounds_outcome bounds) (cost_bounds_detail bounds)

-- One line of the metrics.
abbrev pub metric : Bytes → ℕ → Bytes
metric name n = name ++ (b' ' ∷ (decimal n ++ 10 ∷ []))

-- `metrics_handler`.
unfoldable pub metrics_handler : Shared → Bytes
metrics_handler s =
    metric (codes "nexus_scout_in_flight") s.in_flight
    ++ (metric (codes "nexus_scout_requests_total") s.total
        ++ (metric (codes "nexus_scout_responses_4xx_total") s.rejected
            ++ (metric (codes "nexus_scout_responses_5xx_total") s.failed
                ++ metric (codes "nexus_scout_shed_total") s.shed_count)))

-- `CounterRequestId::make_request_id`: the counter after it, which wraps around, and the identifier.
unfoldable pub make_request_id : ℕ → ℕ × Bytes
make_request_id n = ((n + 1) % 2 ^ 64, decimal n)

-- The counter behind a number of requests.
unfoldable pub counter_behind : ℕ → ℕ
unfolding make_request_id
counter_behind ℕ.zero = 0
counter_behind (ℕ.suc k) = (make_request_id (counter_behind k)).0
