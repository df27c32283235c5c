-- ===== src/Gateway/Errors/Driver.antt =====
-- The errors of the driver, told apart by their status.
use nexus_scout.Base.{
  inr, sym, inl, subst, Bool-cases, ◌≡◌, ◌↔◌, ◌⊎◌, [], ◌∷◌, ◌++◌, Bytes, true, refl, arith, ap,
}
use nexus_scout.Gateway.Text.{starts_with, contains}
use nexus_scout.Gateway.Errors.{
  DriverError, neo4j, unexpected_message, other, from_neo4rs, is_statement_error,
  statement_error_prefix, code, code_of, is_query_statement_error,
}
use nexus_scout.Wire.{http_status}

starts_with-append : (p s : Bytes) → starts_with p (p ++ s) ≡ true
unfolding starts_with
starts_with-append [] s = refl
starts_with-append (c ∷ p) s = ground (arith, starts_with-append p s)

starts_with-eq : (p s : Bytes) → starts_with p s ≡ true → (rest : Bytes) × (s ≡ p ++ rest)
unfolding starts_with
starts_with-eq [] s h = (s, refl)
starts_with-eq (c ∷ p) [] h = absurd (ground arith)
starts_with-eq (c ∷ p) (b ∷ s) h =
    let found = starts_with-eq p s (ground arith) in (found.0, ground (arith, found.1))

contains-start : (p s : Bytes) → starts_with p s ≡ true → contains p s ≡ true
unfolding contains
contains-start p [] h = h
contains-start p (b ∷ s) h = ground arith

contains-append : (p before rest : Bytes) → contains p (before ++ (p ++ rest)) ≡ true
unfolding contains
contains-append p [] rest = contains-start p (p ++ rest) (starts_with-append p rest)
contains-append p (b ∷ before) rest = ground (arith, contains-append p before rest)

contains-eq :
    (p s : Bytes)
    → contains p s ≡ true
    → (before : Bytes) × (rest : Bytes) × (s ≡ before ++ (p ++ rest))
unfolding contains
contains-eq p [] h = let found = starts_with-eq p [] h in ([], found.0, found.1)
contains-eq p (b ∷ s) h = elim (Bool-cases (starts_with p (b ∷ s))) [
  | inl start ↦ let found = starts_with-eq p (b ∷ s) start in ([], found.0, found.1)
  | inr later ↦
      let found = contains-eq p s (ground arith) in (b ∷ found.0, found.1, ap (◌∷◌ b) found.2)
]

-- That the database blames the query: the status says so, or the text that the driver wraps it in.
abbrev pub IsBlamed : DriverError → Type 0
IsBlamed (neo4j status message) = (rest : Bytes) × (status ≡ statement_error_prefix ++ rest)
IsBlamed (unexpected_message m) =
    (before : Bytes) × (rest : Bytes) × (m ≡ before ++ (statement_error_prefix ++ rest))
IsBlamed other = ⊥

is_statement_error-IsBlamed : (e : DriverError) → (is_statement_error e ≡ true) ↔ IsBlamed e
unfolding is_statement_error is_query_statement_error
is_statement_error-IsBlamed (neo4j status message) = (
  starts_with-eq statement_error_prefix status,
  λ b.
      subst (λ s. starts_with statement_error_prefix s ≡ true) (sym b.1)
        (starts_with-append statement_error_prefix b.0),
)
is_statement_error-IsBlamed (unexpected_message m) = (
  contains-eq statement_error_prefix m,
  λ b.
      subst (λ s. contains statement_error_prefix s ≡ true) (sym b.2)
        (contains-append statement_error_prefix b.0 b.1),
)
is_statement_error-IsBlamed other = (λ h. ground arith, λ b. absurd b)

status-is_statement_error :
    (e : DriverError) → ((http_status (code (from_neo4rs e)) ≡ 400) ↔ (is_statement_error e ≡ true))
unfolding from_neo4rs code code_of http_status
status-is_statement_error e = ground arith

-- An error of the driver is answered with the status 400 exactly if the database blames the query;
-- any other is answered with 500.
pub from_neo4rs-IsBlamed :
    (e : DriverError)
    → ((http_status (code (from_neo4rs e)) ≡ 400) ↔ IsBlamed e)
      × ((http_status (code (from_neo4rs e)) ≡ 400) ⊎ (http_status (code (from_neo4rs e)) ≡ 500))
unfolding from_neo4rs code code_of http_status
from_neo4rs-IsBlamed e =
    let status = status-is_statement_error e in
    let blamed = is_statement_error-IsBlamed e in
    ((λ h. blamed.0 (status.0 h), λ b. status.1 (blamed.1 b)), ground arith)
