-- ===== src/Gateway/Errors/Opaque.antt =====
-- What of the database's texts a caller gets to see.
use nexus_scout.Base.{
  Bool, true, false, Bytes, codes, [], ◌∷◌, ◌≡◌, refl, arith, if◌then◌else◌, Bool-cases, inl, inr,
}
use nexus_scout.Gateway.Errors.Replies.{to_response}
use nexus_scout.Gateway.Errors.{
  Error, new_error, syntax, resource_exhausted, internal, DriverError, neo4j, unexpected_message,
  other, is_statement_error, is_query_statement_error, is_resource_limit, statement_error_detail,
  from_neo4rs,
}

-- The database blames the query, and says why.
abbrev pub has_reason : DriverError → Bool
has_reason (neo4j status []) = false
has_reason (neo4j status (b ∷ message)) = is_query_statement_error status
has_reason (unexpected_message m) = false
has_reason other = false

abbrev fixed_detail : Bytes
fixed_detail = codes "the query could not be executed"

statement_error_detail-has_reason :
    (e : DriverError)
    → has_reason e ≡ false
    → is_statement_error e ≡ true
    → statement_error_detail e ≡ fixed_detail
unfolding statement_error_detail is_statement_error
statement_error_detail-has_reason (neo4j status []) h k = refl
statement_error_detail-has_reason (neo4j status (b ∷ message)) h k = absurd (ground arith)
statement_error_detail-has_reason (unexpected_message m) h k = refl
statement_error_detail-has_reason other h k = refl

-- An error, by its class alone.
abbrev class_error : Bool → Bool → Error
class_error statement resource =
    if statement
    then new_error (syntax fixed_detail)
    else if resource
    then new_error resource_exhausted
    else new_error internal

from_neo4rs-class_error :
    (e : DriverError)
    → has_reason e ≡ false
    → from_neo4rs e ≡ class_error (is_statement_error e) (is_resource_limit e)
unfolding from_neo4rs
from_neo4rs-class_error e h = elim (Bool-cases (is_statement_error e)) [
  | inl blamed ↦ rw (blamed, statement_error_detail-has_reason e h blamed) refl
  | inr spared ↦ rw spared refl
]

-- Two errors of the driver are answered with the same response, whatever their texts, if they are of
-- the same class and neither is one with which the database blames the query and says why.
pub to_response-from_neo4rs :
    (e d : DriverError)
    → has_reason e ≡ false
    → has_reason d ≡ false
    → is_statement_error e ≡ is_statement_error d
    → is_resource_limit e ≡ is_resource_limit d
    → to_response (from_neo4rs e) ≡ to_response (from_neo4rs d)
to_response-from_neo4rs e d he hd statement resource =
    rw (from_neo4rs-class_error e he, from_neo4rs-class_error d hd, statement, resource) refl
