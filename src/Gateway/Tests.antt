-- ===== src/Gateway/Tests.antt =====
-- Runs of the gateway, and its theorems at concrete inputs.
use nexus_scout.Base.{
  refl, ℕ, ◌*◌, ◌≡◌, ◌≤◌, ◌↔◌, ◌⊎◌, arith, codes, Bytes, List, [], ◌∷◌, map, All, Option, some,
  none, true, leb, if◌then◌else◌,
}
use nexus_scout.Gateway.Admission.Counters.{IsTallied, Reach-IsTallied}
use nexus_scout.Gateway.Admission.InFlight.{IsCapped, Reach-IsCapped}
use nexus_scout.Gateway.Admission.{
  admit, Reach, start, later, arrive, serve, new_shared, numbered, entered, arriving, proceed,
}
use nexus_scout.Gateway.Budget.Notes.{Explains, row_budget-Explains}
use nexus_scout.Gateway.Budget.{full_page_is_ambiguous, result_note, row_budget}
use nexus_scout.Gateway.Convert.Depth.{
  is_ok, all_bindable, json_to_bolt-all_bindable, bolt_to_json-depth,
}
use nexus_scout.Gateway.Convert.Rows.Order.{row_to_json-Reordered, exchange}
use nexus_scout.Gateway.Convert.Rows.{row_to_json}
use nexus_scout.Gateway.Convert.{
  bolt_map, Numbers, BoltType, json_to_bolt, bolt_to_json, path, node, end_list, element, end_map,
  entry, bolt_integer,
}
use nexus_scout.Gateway.Errors.Driver.{IsBlamed, from_neo4rs-IsBlamed}
use nexus_scout.Gateway.Errors.{DriverError, unexpected_message, from_neo4rs, code}
use nexus_scout.Gateway.Execution.Response.{Ends, KeepsLimits}
use nexus_scout.Gateway.Execution.Scout.{run_scout-Ends, run_scout-KeepsLimits}
use nexus_scout.Gateway.Execution.Traffic.{OnQuery, IsChecked, run_scout-IsChecked}
use nexus_scout.Gateway.Execution.{Session, in_time, run_scout}
use nexus_scout.Gateway.Json.{
  Members, member, end_members, number, array, item, end_items, depth, depth_members, member_count,
}
use nexus_scout.Gateway.Limits.{standard_limits, standard_http_limits}
use nexus_scout.Gateway.Params.Depth.{check_params_iff}
use nexus_scout.Gateway.Params.{check_params}
use nexus_scout.Gateway.Shaper.Prefix.{IsShaped, read_rows-IsShaped}
use nexus_scout.Gateway.Shaper.{ok, row, Truncation, read_rows, is_cut}
use nexus_scout.Guard.Sanitized.{ResultLimit}
use nexus_scout.Wire.{http_status, new_response}

-- Natural numbers as the numbers of both sides; those of 2^63 and more are no `i64`.
abbrev naturals : Numbers ℕ ℕ ℕ
naturals = record {
  as_i64 = λ n. if leb 9223372036854775808 n then none else some n;
  is_u64 = λ n. true;
  as_f64 = λ n. some n;
  from_i64 = λ n. n;
  from_f64 = λ n. some n;
  base64 = λ b. b;
}

abbrev same_text : List ℕ → List ℕ
same_text s = s

-- A row is its own size.
abbrev size : ℕ → ℕ
size n = n

abbrev params : Members ℕ
params = member (codes "ids") (array (item (number 1) (item (number 2) end_items))) end_members

abbrev params_size : Members ℕ → ℕ
params_size ms = 13

abbrev asked_text : Bytes
asked_text = codes "MATCH (a)-[:F*]->(b) WHERE a.id IN $ids RETURN b.name LIMIT 3"

abbrev session : Session ℕ
session = record {
  started = in_time (ok tt);
  executed = in_time (ok tt);
  rows = in_time (row 10 ∷ row 20 ∷ row 30 ∷ []);
}

run_scout-IsChecked_example :
    All
      (OnQuery (
        IsChecked naturals size params_size same_text standard_limits 10000 session asked_text
          params none))
      (run_scout naturals size params_size same_text standard_limits 10000 session asked_text params
        none).1
run_scout-IsChecked_example =
    run_scout-IsChecked naturals size params_size same_text standard_limits 10000 session asked_text
      params none

run_scout-Ends_example : Ends session (
    run_scout naturals size params_size same_text standard_limits 10000 session asked_text params
      none)
run_scout-Ends_example =
    run_scout-Ends naturals size params_size same_text standard_limits 10000 session params none
      asked_text

run_scout-KeepsLimits_example :
    KeepsLimits size standard_limits
      (run_scout naturals size params_size same_text standard_limits 10000 session asked_text params
        none).0
run_scout-KeepsLimits_example =
    run_scout-KeepsLimits naturals size params_size same_text standard_limits 10000 session params
      none asked_text (omega arith)

-- One request, counted and past its load of the gauge.
reached : Reach standard_http_limits 7 (record {
  shared = record (new_shared 50 7) { in_flight = 1; total = 1 };
  requests = entered ∷ [];
})
reached =
    unfold admit in
    later (later (later start (arrive _)) (serve (new_shared 50 7) [] arriving [] (proceed 7 200)))
      (serve (record (new_shared 50 7) { total = 1 }) [] numbered [] (proceed 7 200))

Reach-IsCapped_example : IsCapped standard_http_limits (record {
  shared = record (new_shared 50 7) { in_flight = 1; total = 1 };
  requests = entered ∷ [];
})
Reach-IsCapped_example = Reach-IsCapped standard_http_limits 7 _ reached

read_rows-IsShaped_example :
    (rows : List ℕ) × (t : Option Truncation) × (read_rows {Error = Unit {0}} size 2 100
        (map row (10 ∷ 20 ∷ 30 ∷ []))
      ≡ ok (new_response rows (is_cut t), t))
    × IsShaped size 2 100 (10 ∷ 20 ∷ 30 ∷ []) rows t
read_rows-IsShaped_example = read_rows-IsShaped size 2 100 (10 ∷ 20 ∷ 30 ∷ []) (omega arith)

check_params_iff_example :
    (check_params params_size params standard_limits ≡ ok tt)
    ↔ ((member_count params ≤ 32) × (params_size params ≤ 8 * 1024) × (depth_members params ≤ 8))
check_params_iff_example = check_params_iff params_size params standard_limits

json_to_bolt-all_bindable_example :
    is_ok (json_to_bolt naturals (array (item (number 9223372036854775808) end_items)))
    ≡ all_bindable naturals (array (item (number 9223372036854775808) end_items))
json_to_bolt-all_bindable_example =
    json_to_bolt-all_bindable naturals (array (item (number 9223372036854775808) end_items))
      (unfold depth in omega arith)

abbrev walk : BoltType ℕ ℕ
walk = path (element (node (entry (codes "id") (bolt_integer 1) end_map)) end_list) end_list

bolt_to_json-depth_example : depth (bolt_to_json naturals walk) ≤ 257
bolt_to_json-depth_example = bolt_to_json-depth naturals walk

abbrev wrapped : DriverError
wrapped = unexpected_message (codes "code: Neo.ClientError.Statement.ArithmeticError")

from_neo4rs-IsBlamed_example :
    ((http_status (code (from_neo4rs wrapped)) ≡ 400) ↔ IsBlamed wrapped)
    × ((http_status (code (from_neo4rs wrapped)) ≡ 400)
        ⊎ (http_status (code (from_neo4rs wrapped)) ≡ 500))
from_neo4rs-IsBlamed_example = from_neo4rs-IsBlamed wrapped

row_budget-Explains_example :
    Explains standard_limits none
      (ResultLimit.fixed 500)
      (row_budget standard_limits none (ResultLimit.fixed 500))
row_budget-Explains_example = row_budget-Explains standard_limits none (ResultLimit.fixed 500)

-- A request for 10 rows of a query with a `LIMIT 10` of its own: a full page carries no note, though the
-- database may have cut it.
full_page : (row_budget standard_limits (some 10) (ResultLimit.fixed 10)).0 ≡ 10
full_page = unfold row_budget in refl

full_page_unsaid :
    result_note none
      (row_budget standard_limits (some 10) (ResultLimit.fixed 10)).1
      10
      10
      standard_limits
    ≡ none
full_page_unsaid = unfold row_budget result_note full_page_is_ambiguous in refl

-- The columns `b` and `a`, in both orders.
row_to_json-Reordered_example :
    row_to_json naturals {Failure = Unit {0}} (
      ok (
        bolt_map (entry (codes "b") (bolt_integer 1) (entry (codes "a") (bolt_integer 2) end_map))))
    ≡ row_to_json naturals {Failure = Unit {0}} (
        ok (
          bolt_map
            (entry (codes "a") (bolt_integer 2) (entry (codes "b") (bolt_integer 1) end_map))))
row_to_json-Reordered_example =
    row_to_json-Reordered naturals (Unit {0})
      (entry (codes "b") (bolt_integer 1) (entry (codes "a") (bolt_integer 2) end_map))
      (entry (codes "a") (bolt_integer 2) (entry (codes "b") (bolt_integer 1) end_map))
      (exchange (codes "b") (codes "a") (bolt_integer 1) (bolt_integer 2) end_map (ground arith))

Reach-IsTallied_example : IsTallied (record {
  shared = record (new_shared 50 7) { in_flight = 1; total = 1 };
  requests = entered ∷ [];
})
Reach-IsTallied_example = Reach-IsTallied standard_http_limits 7 _ reached
