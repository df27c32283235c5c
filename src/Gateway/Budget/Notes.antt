-- ===== src/Gateway/Budget/Notes.antt =====
-- When a result carries no note.
use nexus_scout.Base.{ℕ, ◌≤◌, ◌<◌, Option, none, some, ◌≡◌, ◌⊎◌, arith, min}
use nexus_scout.Gateway.Budget.{BudgetSource, row_budget}
use nexus_scout.Gateway.Limits.{Limits}
use nexus_scout.Guard.Sanitized.{ResultLimit}

-- Who asked for the rows that the budget allows.
abbrev pub Explains : Limits → Option ℕ → ResultLimit → ℕ × BudgetSource → Type 0
Explains limits wanted own (budget, BudgetSource.requested) =
    (wanted ≡ some budget) × (budget ≤ limits.max_result_rows)
Explains limits wanted own (budget, BudgetSource.query_limit) =
    (wanted ≡ none) × (own ≡ ResultLimit.fixed budget) × (budget ≤ limits.max_result_rows)
Explains limits wanted own (budget, BudgetSource.capped asked) =
    ((wanted ≡ some asked) ⊎ (wanted ≡ none) × (own ≡ ResultLimit.fixed asked))
    × (limits.max_result_rows < asked)
    × (budget ≡ limits.max_result_rows)
Explains limits wanted own (budget, BudgetSource.ceiling) =
    (wanted ≡ none) × (own ≡ ResultLimit.dynamic) × (budget ≡ limits.max_result_rows)
Explains limits wanted own (budget, BudgetSource.default) =
    (wanted ≡ none)
    × (own ≡ ResultLimit.none)
    × (budget ≡ min limits.default_limit limits.max_result_rows)

-- The budget and its source are right in every case: a request's limit wins over the query's own, an
-- ask above the ceiling is cut to it and named, and with neither the default applies.
pub row_budget-Explains :
    (limits : Limits) (wanted : Option ℕ) (own : ResultLimit)
    → Explains limits wanted own (row_budget limits wanted own)
unfolding row_budget
row_budget-Explains limits (some r) own = ground arith
row_budget-Explains limits none (ResultLimit.fixed n) = ground arith
row_budget-Explains limits none ResultLimit.dynamic = ground arith
row_budget-Explains limits none ResultLimit.none = ground arith
