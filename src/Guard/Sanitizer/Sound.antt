-- ===== src/Guard/Sanitizer/Sound.antt =====
-- What a sanitized query is.
use nexus_scout.Base.{◌∙◌, ℕ, ◌≤◌, List, [], ◌≡◌, arith, length, utf8}
use nexus_scout.Guard.Lexer.Tiles.{Tiles, texts, lex-Tiles}
use nexus_scout.Guard.Lexer.{Token, lex}
use nexus_scout.Guard.Limit.{extract_result_limit}
use nexus_scout.Guard.Reason.{Result, ok, err}
use nexus_scout.Guard.Rules.Policy.{IsReadOnly, classify_iff}
use nexus_scout.Guard.Rules.{classify}
use nexus_scout.Guard.Sanitized.{SanitizedQuery}
use nexus_scout.Guard.Sanitizer.{Limits, check_length, sanitize}
use nexus_scout.Guard.Transforms.Splice.{rewritten_texts, bound_paths-Tiles}
use nexus_scout.Guard.Transforms.{bound_paths}
use nexus_scout.Guard.Unicode.{validate}

module _ (nfc : List ℕ → List ℕ) where
  -- What the sanitizer promises of a query `r` that it makes of the text `cypher`.
  pub record IsSanitized (limits : Limits) (cypher : List ℕ) (r : SanitizedQuery) : Type 0 where
    pub short : length (nfc cypher) ≤ limits.max_query_length
    pub valid : validate (nfc cypher) ≡ ok tt
    pub tokens : List Token
    pub tiles : Tiles 0 tokens (length (utf8 (nfc cypher)))
    pub whole : texts (utf8 (nfc cypher)) tokens ≡ utf8 (nfc cypher)
    pub lexed : lex (utf8 (nfc cypher)) ≡ ok tokens
    pub read_only : IsReadOnly tokens (utf8 (nfc cypher))
    pub bounded : r.cypher ≡ rewritten_texts (utf8 (nfc cypher)) limits.max_path_depth tokens
    pub limited : r.result_limit ≡ extract_result_limit tokens (utf8 (nfc cypher))

  check_length-ok : (actual most : ℕ) → check_length actual most ≡ ok tt → actual ≤ most
  unfolding check_length
  check_length-ok actual most h = ground arith

  abbrev tokens_of : Result (List Token) → List Token
  tokens_of (ok ts) = ts
  tokens_of (err e) = []

  -- The stages that a query has passed.
  stages :
      (limits : Limits) (cypher : List ℕ) (r : SanitizedQuery)
      → sanitize nfc limits cypher ≡ ok r
      → (length (nfc cypher) ≤ limits.max_query_length)
        × (validate (nfc cypher) ≡ ok tt)
        × (ts : List Token) × (lex (utf8 (nfc cypher)) ≡ ok ts)
        × (classify ts (utf8 (nfc cypher)) ≡ ok tt)
        × (r.cypher ≡ (bound_paths (utf8 (nfc cypher)) ts limits.max_path_depth).0)
        × (r.result_limit ≡ extract_result_limit ts (utf8 (nfc cypher)))
  unfolding sanitize
  stages limits cypher r h = (
    ground arith,
    ground arith,
    tokens_of (lex (utf8 (nfc cypher))),
    ground arith,
    ground arith,
    ground arith,
    ground arith,
  )

  -- A query that the sanitizer hands on is the normalized text with its path ranges rewritten: that
  -- text is within the length limit, passes the check of its characters, is cut into tokens that
  -- cover it, and is read-only.
  pub sanitize-IsSanitized :
      (limits : Limits) (cypher : List ℕ) (r : SanitizedQuery)
      → sanitize nfc limits cypher ≡ ok r
      → IsSanitized limits cypher r
  sanitize-IsSanitized limits cypher r h =
      let (short, valid, ts, lexed, accepted, cut, limited) = stages limits cypher r h in
      let (tiles, whole) = lex-Tiles (utf8 (nfc cypher)) ts lexed in
      record {
        short = short;
        valid = valid;
        tokens = ts;
        tiles = tiles;
        whole = whole;
        lexed = lexed;
        read_only = (classify_iff ts (utf8 (nfc cypher))).0 accepted;
        bounded = cut ∙ bound_paths-Tiles (utf8 (nfc cypher)) ts limits.max_path_depth tiles;
        limited = limited;
      }
