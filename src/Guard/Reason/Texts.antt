-- ===== src/Guard/Reason/Texts.antt =====
-- crates/cypher-guard/src/error.rs: what a rejection says, and how it can be put right.
use nexus_scout.Base.{Bytes, codes}
use nexus_scout.Guard.Reason.{RejectReason, SanitizeError}

-- `RejectReason::hint`.
unfoldable pub hint : RejectReason → Bytes
hint RejectReason.mutation =
    codes
      "Only read-only queries are allowed. Remove write clauses such as CREATE, MERGE, SET, DELETE, REMOVE, or DROP."
hint RejectReason.admin_clause =
    codes
      "Administration and graph-selector clauses (USE, SHOW, PROFILE, EXPLAIN, ...) are not permitted."
hint RejectReason.call_clause =
    codes
      "CALL is not permitted in any form, neither stored procedures (CALL db.labels()) nor CALL { } subqueries. Built-in functions need no CALL and are allowed, e.g. count(), collect(), labels(), shortestPath()."
hint RejectReason.namespaced_call =
    codes "Namespaced procedure/function calls (apoc.*, db.*, dbms.*, gds.*) are not permitted."
hint RejectReason.quantified_path =
    codes
      "Quantified path patterns ((...)+, (...)*, (...){n,m}) are not permitted; their cost is unbounded. Use a bounded variable-length relationship instead, e.g. -[:FOLLOWS*1..5]->."
hint RejectReason.semicolon = codes "Submit a single statement; the ';' separator is not allowed."
hint RejectReason.comment_injection =
    codes "Comments are not permitted; remove // and /* */ from the query."
hint RejectReason.non_read_entry =
    codes "A query must begin with MATCH, OPTIONAL MATCH, WITH, UNWIND, or RETURN."
hint RejectReason.non_ascii_keyword =
    codes
      "Keywords must be ASCII; non-ASCII or invisible characters were found outside string literals."
hint RejectReason.unterminated =
    codes "The query has an unterminated string literal or block comment."
hint RejectReason.too_long = codes "The query is too long; shorten it."
hint RejectReason.empty = codes "The query is empty."

-- `Display` of a reason.
unfoldable pub display : RejectReason → Bytes
display RejectReason.mutation = codes "query contains a mutating clause"
display RejectReason.admin_clause =
    codes "query contains an administration or graph-selector clause"
display RejectReason.call_clause = codes "query contains a CALL clause"
display RejectReason.namespaced_call = codes "query contains a namespaced procedure/function call"
display RejectReason.quantified_path = codes "query contains a quantified path pattern"
display RejectReason.semicolon = codes "query contains a statement separator ';'"
display RejectReason.comment_injection = codes "query contains a comment"
display RejectReason.non_read_entry = codes "query does not begin with a read-entry clause"
display RejectReason.non_ascii_keyword =
    codes "query contains a non-ASCII character in keyword position"
display RejectReason.unterminated = codes "query has an unterminated string or comment"
display RejectReason.too_long = codes "query exceeds the maximum length"
display RejectReason.empty = codes "query is empty"

-- `Display` of an error, which is its reason's.
unfoldable pub display_error : SanitizeError → Bytes
unfolding display
display_error e = display e.reason

-- `SanitizeError::hint`.
unfoldable pub hint_of : SanitizeError → Bytes
unfolding hint
hint_of e = hint e.reason
