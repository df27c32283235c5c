-- ===== src/Gateway/Budget.antt =====
-- crates/nexus-scout/src/executor/mod.rs: the row budget of a query, and the note that says why a
-- result stopped.
pub mod Notes
use nexus_scout.Base.{
  ℕ, ◌/◌, Bool, true, false, ◌&&◌, ◌||◌, Option, none, some, ltb, ◌==◌, min, if◌then◌else◌, Bytes,
  codes, decimal, ◌++◌,
}
use nexus_scout.Gateway.Limits.{Limits}
use nexus_scout.Gateway.Shaper.{Truncation}
use nexus_scout.Guard.Sanitized.{ResultLimit}

pub data BudgetSource : Type 0 where
  query_limit requested default ceiling : BudgetSource
  capped : ℕ → BudgetSource

unfoldable pub full_page_is_ambiguous : BudgetSource → Bool
full_page_is_ambiguous BudgetSource.query_limit = true
full_page_is_ambiguous BudgetSource.ceiling = true
full_page_is_ambiguous _ = false

-- The first `match` of `row_budget`: what was asked for, and by whom.
unfoldable pub asked_for : Limits → Option ℕ → ResultLimit → ℕ × BudgetSource
asked_for limits (some r) own = (r, BudgetSource.requested)
asked_for limits none (ResultLimit.fixed n) = (n, BudgetSource.query_limit)
asked_for limits none ResultLimit.dynamic = (limits.max_result_rows, BudgetSource.ceiling)
asked_for limits none ResultLimit.none = (limits.default_limit, BudgetSource.default)

-- `matches!(source, BudgetSource::Requested | BudgetSource::QueryLimit)`.
unfoldable pub is_callers : BudgetSource → Bool
is_callers BudgetSource.requested = true
is_callers BudgetSource.query_limit = true
is_callers _ = false

unfoldable pub row_budget : Limits → Option ℕ → ResultLimit → ℕ × BudgetSource
unfolding asked_for is_callers
row_budget limits wanted own =
    let (asked, source) = asked_for limits wanted own in
    (
      min asked limits.max_result_rows,
      if ltb limits.max_result_rows asked && is_callers source
          then BudgetSource.capped asked
          else source,
    )

-- The note on a page that a server-side `LIMIT` may have cut.
unfoldable pub full_page_note : ℕ → Bytes
full_page_note returned =
    codes "returned exactly the "
    ++ (decimal returned
        ++ (codes "-row limit, so there may be more; re-run with SKIP "
            ++ (decimal returned ++ codes ", or compare against a count() to get the true total")))

unfoldable pub byte_cap_note : Limits → Bytes
byte_cap_note limits =
    codes "result payload reached the "
    ++ (decimal (limits.max_result_bytes / 1024)
        ++ codes
            " KiB cap, so the remaining rows were dropped; return fewer or smaller columns rather than paging")

unfoldable pub default_note : Limits → Bytes
default_note limits =
    codes "no LIMIT in the query, so the default of "
    ++ (decimal limits.default_limit
        ++ (codes " rows applied (maximum "
            ++ (decimal limits.max_result_rows
                ++ codes "); add a LIMIT, or page with SKIP, to read further")))

unfoldable pub capped_note : Limits → ℕ → Bytes
capped_note limits asked =
    codes "the requested limit of "
    ++ (decimal asked
        ++ (codes " was capped to the maximum of "
            ++ (decimal limits.max_result_rows ++ codes " rows; page with SKIP to read further")))

unfoldable pub ceiling_note : Limits → Bytes
ceiling_note limits =
    codes "the parameterized LIMIT exceeded the maximum of "
    ++ (decimal limits.max_result_rows
        ++ codes " rows and was capped; page with SKIP to read further")

-- The arm `Truncation::RowBudget`.
unfoldable pub row_budget_note : Limits → BudgetSource → Option Bytes
row_budget_note limits BudgetSource.query_limit = none
row_budget_note limits BudgetSource.requested = none
row_budget_note limits BudgetSource.default = some (default_note limits)
row_budget_note limits (BudgetSource.capped asked) = some (capped_note limits asked)
row_budget_note limits BudgetSource.ceiling = some (ceiling_note limits)

unfoldable pub result_note : Option Truncation → BudgetSource → ℕ → ℕ → Limits → Option Bytes
unfolding row_budget_note
result_note none source budget returned limits =
    if full_page_is_ambiguous source && (ltb 0 returned && returned == budget)
    then some (full_page_note returned)
    else none
result_note (some Truncation.byte_cap) source budget returned limits = some (byte_cap_note limits)
result_note (some Truncation.row_budget) source budget returned limits =
    row_budget_note limits source
