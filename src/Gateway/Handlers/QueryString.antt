-- ===== src/Gateway/Handlers/QueryString.antt =====
-- A request as a query string, and that it is read as that request.
use nexus_scout.Base.{
  ◌≢◌, ℕ, ◌≤◌, ◌≡◌, refl, ap, arith, Bool, true, false, ◌&&◌, [], ◌∷◌, Option, none, some, Bytes,
  codes, decimal, decimal-digits, decimal-ne-nil, digits_value-decimal, digits_value,
  is_ascii_digit, all, bytes_eq, leb, u32_max, ◌≢◌,
}
use nexus_scout.Gateway.Config.{parse_unsigned, parse_digits}
use nexus_scout.Gateway.Handlers.{QueryStringRequest, params_of, limit_of, query_of}
use nexus_scout.Gateway.Json.{Members}
use nexus_scout.Gateway.Shaper.{Outcome, ok}

no_sign : (c : ℕ) → is_ascii_digit c ≡ true → bytes_eq (c ∷ []) (codes "+") ≡ false
unfolding is_ascii_digit bytes_eq
no_sign c h = ground arith

parse_unsigned-digits :
    (s : Bytes) (n : ℕ)
    → all is_ascii_digit s ≡ true
    → digits_value 0 s ≡ n
    → n ≤ u32_max
    → s ≢ []
    → parse_unsigned u32_max s ≡ some n
unfolding parse_unsigned parse_digits
parse_unsigned-digits [] n d v h k = absurd (k refl)
parse_unsigned-digits (c ∷ s) n d v h k =
    let within : (all is_ascii_digit (c ∷ s) && leb (digits_value 0 (c ∷ s)) u32_max) ≡ true =
      rw (d, v) (ground arith) in
    let sign : bytes_eq (c ∷ []) (codes "+") ≡ false = no_sign c (ground arith) in
    rw (sign, within) (ap some v)

parse_unsigned-decimal : (n : ℕ) → n ≤ u32_max → parse_unsigned u32_max (decimal n) ≡ some n
parse_unsigned-decimal n h =
    parse_unsigned-digits (decimal n) n (decimal-digits n) (digits_value-decimal n) h
      (decimal-ne-nil n)

-- A limit, as it is written in a query string.
abbrev pub limit_text : Option ℕ → Option Bytes
limit_text none = none
limit_text (some n) = some (decimal n)

abbrev pub is_u32 : Option ℕ → Bool
is_u32 none = true
is_u32 (some n) = leb n u32_max

module _ {Number : Type 0} (from_json : Bytes → Outcome (Members Number) Bytes)
    (int_error : Bytes → Bytes) where
  limit_of-digits :
      (s : Bytes) (n : ℕ)
      → s ≢ []
      → parse_unsigned u32_max s ≡ some n
      → limit_of from_json int_error (some s) ≡ ok (some n)
  unfolding limit_of
  limit_of-digits [] n k h = absurd (k refl)
  limit_of-digits (c ∷ s) n k h = rw h refl

  limit_of-limit_text :
      (limit : Option ℕ)
      → is_u32 limit ≡ true
      → limit_of from_json int_error (limit_text limit) ≡ ok limit
  unfolding limit_of
  limit_of-limit_text none h = refl
  limit_of-limit_text (some n) h =
      limit_of-digits (decimal n) n (decimal-ne-nil n) (parse_unsigned-decimal n (ground arith))

  params_of-json :
      (raw : Bytes) (params : Members Number)
      → raw ≢ []
      → from_json raw ≡ ok params
      → params_of from_json int_error (some raw) ≡ ok params
  unfolding params_of
  params_of-json [] params k h = absurd (k refl)
  params_of-json (c ∷ s) params k h = rw h refl

  -- The query string of a request, with the parameters as JSON text.
  abbrev pub query_string : Bytes → Bytes → Option ℕ → QueryStringRequest
  query_string cypher raw limit = record {
    cypher = some cypher;
    params = some raw;
    limit = limit_text limit;
  }

  pub query_of-query_string :
      (cypher raw : Bytes) (params : Members Number) (limit : Option ℕ)
      → raw ≢ []
      → from_json raw ≡ ok params
      → is_u32 limit ≡ true
      → query_of from_json int_error (query_string cypher raw limit)
        ≡ ok (record { cypher = cypher; params = params; limit = limit })
  unfolding query_of
  query_of-query_string cypher raw params limit k h l =
      rw (params_of-json raw params k h, limit_of-limit_text limit l) refl
