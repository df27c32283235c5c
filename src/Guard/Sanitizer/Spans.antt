-- ===== src/Guard/Sanitizer/Spans.antt =====
-- crates/cypher-guard/src/lib.rs: the spans of the errors that the sanitizer returns.
use nexus_scout.Base.{
  ◌⊎◌, ltb, ℕ, zero, suc, ◌+◌, ◌-◌, ◌≤◌, ◌≡◌, refl, sym, subst, arith, Bool, true, false, List, [],
  ◌∷◌, Option, none, some, if_cases, Bytes, drop, length, length-append, utf8, utf8_char, inl, inr,
}
use nexus_scout.Guard.Lexer.{
  Token, TokenKind, Lexer, scan_token, closed, step, lex_from, lex, close_block, close_quote,
  close_backtick,
}
use nexus_scout.Guard.Lexer.Tiles.{Step-cases, lex_from-ok, lex_from-err, lex-Tiles}
use nexus_scout.Guard.Reason.{Result, ok, err, ◌>>=◌, ◌>>◌, SanitizeError}
use nexus_scout.Guard.Rules.Spans.{InText, Spans, classify-Spans, then-Spans}
use nexus_scout.Guard.Rules.{classify}
use nexus_scout.Guard.Sanitizer.{normalize_and_validate, Limits, check_length, sanitize}
use nexus_scout.Guard.Unicode.{
  Region, Scan, validate_from, validate, step_code, step_quoted, len_utf8, advance, finish, code,
  single, double, backtick,
}
use nexus_scout.Guard.Unicode

-- A character's step keeps the offset, and the start of the region before it.
abbrev Keeps : Scan → ℕ → Result (Bool × Scan) → Type 0
Keeps s n (ok (skip, t)) = (t.idx ≡ s.idx) × (t.region_start ≤ t.idx)
Keeps s n (err e) = InText n e.span

step-Keeps :
    (r : Region) (s : Scan) (ch : ℕ) (chars : List ℕ) (n : ℕ)
    → s.region_start ≤ s.idx
    → s.idx + len_utf8 ch ≤ n
    → Keeps s n (Unicode.step r s ch chars)
unfolding Unicode.step step_code step_quoted
step-Keeps code s ch chars n h k = ground arith
step-Keeps single s ch chars n h k = ground arith
step-Keeps double s ch chars n h k = ground arith
step-Keeps backtick s ch chars n h k = ground arith

finish-Spans :
    (r : Region) (s : Scan) (n : ℕ) → s.region_start ≤ s.idx → s.idx ≤ n → Spans n (finish r s)
unfolding finish
finish-Spans code s n h k = tt
finish-Spans single s n h k = (h, k)
finish-Spans double s n h k = (h, k)
finish-Spans backtick s n h k = (h, k)

length-utf8_cons : (c : ℕ) (cs : List ℕ) → length (utf8 (c ∷ cs)) ≡ len_utf8 c + length (utf8 cs)
unfolding utf8 len_utf8
length-utf8_cons c cs = length-append (utf8_char c) (utf8 cs)

stepped :
    (r : Result (Bool × Scan))
    → ((skip : Bool) × (t : Scan) × (r ≡ ok (skip, t))) ⊎ ((e : SanitizeError) × (r ≡ err e))
stepped (ok (skip, t)) = inl (skip, t, refl)
stepped (err e) = inr (e, refl)

length-utf8_nil : length (utf8 []) ≡ 0
unfolding utf8
length-utf8_nil = refl

validate_from-ok :
    (s : Scan) (ch : ℕ) (cs : List ℕ) (skip : Bool) (t : Scan)
    → Unicode.step s.region s ch cs ≡ ok (skip, t)
    → validate_from false s (ch ∷ cs) ≡ validate_from skip (advance ch t) cs
unfolding validate_from
validate_from-ok s ch cs skip t e = rw (e, validate_from)

validate_from-err :
    (s : Scan) (ch : ℕ) (cs : List ℕ) (f : SanitizeError)
    → Unicode.step s.region s ch cs ≡ err f
    → validate_from false s (ch ∷ cs) ≡ err f
unfolding validate_from
validate_from-err s ch cs f e = rw (e, validate_from)

advance-idx : (ch : ℕ) (s : Scan) → (advance ch s).idx ≡ s.idx + len_utf8 ch
advance-idx ch s = refl

validate_from-Spans :
    (skip : Bool) (s : Scan) (cs : List ℕ) (n : ℕ)
    → s.region_start ≤ s.idx
    → s.idx + length (utf8 cs) ≡ n
    → Spans n (validate_from skip s cs)
unfolding validate_from
validate_from-Spans skip s [] n h k = finish-Spans s.region s n h (omega (arith, length-utf8_nil))
validate_from-Spans true s (ch ∷ cs) n h k =
    validate_from-Spans false (advance ch s) cs n (omega arith)
      (omega (arith, length-utf8_cons ch cs))
validate_from-Spans false s (ch ∷ cs) n h k = elim (stepped (Unicode.step s.region s ch cs)) [
  | inl (skip, t, e) ↦
      let (same, starts) =
        subst (Keeps s n) e
          (step-Keeps s.region s ch cs n h (omega (arith, length-utf8_cons ch cs))) in
      rw (validate_from-ok s ch cs skip t e) (
        validate_from-Spans skip (advance ch t) cs n (omega arith)
          (omega (arith, length-utf8_cons ch cs)))
  | inr (f, e) ↦ rw (validate_from-err s ch cs f e) (
      subst (Keeps s n) e (step-Keeps s.region s ch cs n h (omega (arith, length-utf8_cons ch cs))))
]

closed-Spans :
    (kind : TokenKind) (s : Lexer) (start before n : ℕ) (bs : Bytes) (o : Option ℕ)
    → start + suc (length bs) ≤ n
    → Spans n (closed kind s start before bs o)
unfolding closed
closed-Spans kind s start before n bs none h = (omega arith, h)
closed-Spans kind s start before n bs (some w) h = tt

scan_token-Spans :
    (s : Lexer) (start b n : ℕ) (bs : Bytes)
    → start + suc (length bs) ≤ n
    → Spans n (scan_token s start b bs)
unfolding scan_token
scan_token-Spans s start b n bs h = ground (
  arith,
  closed-Spans TokenKind.comment s start 2 n bs (close_block (drop 1 bs)) h,
  closed-Spans TokenKind.string_lit s start 1 n bs (close_quote b false bs) h,
  closed-Spans TokenKind.backtick_ident s start 1 n bs (close_backtick false bs) h,
)

bind-Spans :
    {A B : Type 0} (n : ℕ) (r : Result A) (f : A → Result B)
    → Spans n r
    → ((a : A) → r ≡ ok a → Spans n (f a))
    → Spans n (r >>= f)
bind-Spans n (ok a) f h k = k a refl
bind-Spans n (err e) f h k = h

step-Spans :
    (s : Lexer) (start b n : ℕ) (bs : Bytes)
    → start + suc (length bs) ≤ n
    → Spans n (step s start b bs)
unfolding step
step-Spans s start b n bs h =
    bind-Spans n (scan_token s start b bs) _ (scan_token-Spans s start b n bs h) (λ r _. tt)

lex_from-Spans :
    (bs : Bytes) (s : Lexer) (i skip n : ℕ) → i + length bs ≤ n → Spans n (lex_from s i skip bs)
unfolding lex_from
lex_from-Spans [] s i skip n h = tt
lex_from-Spans (b ∷ bs) s i (suc skip) n h = lex_from-Spans bs s (suc i) skip n (omega arith)
lex_from-Spans (b ∷ bs) s i zero n h = elim (Step-cases (step s i b bs)) [
  | inr (e, failed) ↦
      rw (lex_from-err s i b bs e failed)
        (subst (Spans n) failed (step-Spans s i b n bs (omega arith)))
  | inl (t, s', done) ↦
      rw (lex_from-ok s i b bs t s' done) (
        bind-Spans n _ _ (lex_from-Spans bs s' (suc i) (t.end - suc i) n (omega arith))
          (λ ts _. tt))
]

check_length-Spans : (n actual most : ℕ) → Spans n (check_length actual most)
unfolding check_length
check_length-Spans n actual most = if_cases (Spans n) (ltb most actual) _ _ (λ _. tt) (λ _. tt)

then_ok : {A B : Type 0} (r : Result A) (b b' : B) → (r >> ok b) ≡ ok b' → b ≡ b'
then_ok (ok a) b b' h = cc
then_ok (err e) b b' h = cc

lex-Spans : (src : Bytes) → Spans (length src) (lex src)
unfolding lex
lex-Spans src = lex_from-Spans src _ 0 0 (length src) (omega arith)

lexed-Spans : (cs : List ℕ) (a : List ℕ) → cs ≡ a → Spans (length (utf8 cs)) (lex (utf8 a))
lexed-Spans cs a same =
    subst (λ x. Spans (length (utf8 cs)) (lex (utf8 x))) same (lex-Spans (utf8 cs))

classified-Spans :
    (cs a : List ℕ) (ts : List Token)
    → cs ≡ a
    → lex (utf8 a) ≡ ok ts
    → Spans (length (utf8 cs)) (classify ts (utf8 a))
classified-Spans cs a ts same lexed =
    subst (λ x. Spans (length (utf8 x)) (classify ts (utf8 a))) (sym same)
      (classify-Spans ts (utf8 a) _ (lex-Tiles (utf8 a) ts lexed).0)

-- The span of an error, if there is one, starts no later than it ends, and ends within the bytes of the
-- normalized text, whatever the text, the limits and the normal form.
pub sanitize-Spans :
    (nfc : List ℕ → List ℕ) (limits : Limits) (cypher : List ℕ)
    → Spans (length (utf8 (nfc cypher))) (sanitize nfc limits cypher)
unfolding sanitize normalize_and_validate validate lex
sanitize-Spans nfc limits cypher =
    let text = utf8 (nfc cypher) in
    let n = length text in
    then-Spans n _ _ (check_length-Spans n _ _) (
      bind-Spans n _ _
        (then-Spans n _ _
          (validate_from-Spans false Unicode.initial (nfc cypher) n (omega arith) (omega arith)) tt)
        (λ a e.
          let same = then_ok (validate (nfc cypher)) (nfc cypher) a e in
          then-Spans n _ _ (check_length-Spans n _ _) (
            bind-Spans n (lex (utf8 a)) _ (lexed-Spans _ a same) (λ ts lexed.
              then-Spans n (classify ts (utf8 a)) _ (classified-Spans _ a ts same lexed) tt))))
