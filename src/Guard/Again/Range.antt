-- ===== src/Guard/Again/Range.antt =====
-- crates/cypher-guard/src/tokenizer.rs: one round of the lexer at the place of a range.
use nexus_scout.Base.{
  length, all, ℕ, ◌≡◌, refl, ap, arith, Bool, true, false, ◌∷◌, [], ◌++◌, Bytes, drop, Option, none,
  some, suc,
}
use nexus_scout.Guard.Lexer.{
  plain, TokenKind, Lexer, Scanned, scan_token, scan_punct, closed, top, is_space, close_block,
  close_quote, close_backtick, span_while, is_range_byte,
}
use nexus_scout.Guard.Reason.{Result, ok, err}
use nexus_scout.Guard.Transforms.{is_path_range}
use nexus_scout.Guard.Oracle.Scans.{head?}
use nexus_scout.Guard.Oracle.Code.{stops}

-- What a scan that makes a range has come from.
abbrev pub RangeScan : Lexer → ℕ → Bytes → Result Scanned → Type 0
RangeScan s b bs (err e) = Unit
RangeScan s b bs (ok r) =
    is_path_range r.kind ≡ true
    → (b ≡ b'*')
      × (top s.bracket_stack ≡ true)
      × (r.kind ≡ TokenKind.path_range)
      × (r.width ≡ suc (span_while is_range_byte bs))
      × (r.stack ≡ s.bracket_stack)

closed-RangeScan :
    (b : ℕ) (kind : TokenKind) (s : Lexer) (start before : ℕ) (bs : Bytes) (o : Option ℕ)
    → is_path_range kind ≡ false
    → RangeScan s b bs (closed kind s start before bs o)
unfolding closed
closed-RangeScan b kind s start before bs none h = tt
closed-RangeScan b kind s start before bs (some n) h = λ k. absurd (ground arith)

pub scan_token-RangeScan :
    (s : Lexer) (start b : ℕ) (bs : Bytes) → RangeScan s b bs (scan_token s start b bs)
unfolding scan_token scan_punct is_path_range
scan_token-RangeScan s start b bs = ground (
  arith,
  closed-RangeScan b TokenKind.comment s start 2 bs (close_block (drop 1 bs)) refl,
  closed-RangeScan b TokenKind.string_lit s start 1 bs (close_quote b false bs) refl,
  closed-RangeScan b TokenKind.backtick_ident s start 1 bs (close_backtick false bs) refl,
)

pub span_while-append :
    (p : ℕ → Bool) (v rest : Bytes)
    → all p v ≡ true
    → stops p (head? rest) ≡ true
    → span_while p (v ++ rest) ≡ length v
unfolding span_while
span_while-append p [] [] h k = refl
span_while-append p [] (c ∷ rest) h k = ground arith
span_while-append p (c ∷ v) rest h k = ground (arith, span_while-append p v rest)

-- A range is scanned again, whatever bounds are written in it.
pub scan_token-range :
    (s : Lexer) (start : ℕ) (v rest : Bytes)
    → top s.bracket_stack ≡ true
    → all is_range_byte v ≡ true
    → stops is_range_byte (head? rest) ≡ true
    → scan_token s start b'*' (v ++ rest) ≡ plain s TokenKind.path_range (suc (length v))
unfolding scan_token is_space
scan_token-range s start v rest h k e =
    rw h
      (ap (λ n. plain s TokenKind.path_range (suc n)) (span_while-append is_range_byte v rest k e))
