-- ===== src/Guard/Again/Relex.antt =====
-- crates/cypher-guard/src/tokenizer.rs: the lexer on the text that the path transform makes.
use nexus_scout.Base.{
  drop-drop, take-take-append, ◌≤◌, zero, ℕ, ◌-◌, ◌+◌, ◌≡◌, refl, sym, ◌∙◌, ap, subst, arith, true,
  false, ◌∷◌, [], ◌++◌, Bytes, take, drop, all, length, inl, inr, List, suc,
}
use nexus_scout.Guard.Again.Chain.{
  lex-Chained, Chained, token_of, drop_behind, drop_width, scan_token_width,
}
use nexus_scout.Guard.Again.Cut.{upto_star, take-Cut, head?-Cut}
use nexus_scout.Guard.Again.Scan.{SameState, marks, Again, scan_token-Again}
use nexus_scout.Guard.Again.State.{track-SameState, last_byte-range}
use nexus_scout.Guard.Again.Kept.{shifted, shown, take_width, rewritten_texts-Cut}
use nexus_scout.Guard.Again.Range.{RangeScan, scan_token-RangeScan, scan_token-range}
use nexus_scout.Guard.Lexer.{
  initial, lex, top, span_while, TokenKind, Token, Lexer, Scanned, scan_token, track, last_byte,
  is_range_byte,
}
use nexus_scout.Guard.Oracle.Scans.{head?}
use nexus_scout.Guard.Oracle.Code.{stops, span_while-all, span_while-stops}
use nexus_scout.Guard.Transforms.Splice.{rewritten_text, rewritten_texts}
use nexus_scout.Guard.Transforms.{is_path_range}
use nexus_scout.Guard.Rules.Policy.{is_clean}
use nexus_scout.Guard.Reason.{ok}

-- A token of a length.
abbrev token_at : TokenKind → ℕ → ℕ → Token
token_at kind start n = record { kind = kind; start = start; end = start + n }

-- The round that the lexer makes on `w ++ rest`, where it made the token `r` before.
record Round (s s' : Lexer) (j b : ℕ) (bs : Bytes) (r : Scanned) (w rest : Bytes) : Type 0 where
  pub first : ℕ
  pub behind : Bytes
  pub scanned : Scanned
  pub front : w ++ rest ≡ first ∷ behind
  pub scan : scan_token s' j first behind ≡ ok scanned
  pub same_kind : scanned.kind ≡ r.kind
  pub same_width : scanned.width ≡ length w
  pub same_state : SameState (track s' scanned first behind) (track s r b bs)

length-take : (n : ℕ) (s : Bytes) → n ≤ length s → length (take n s) ≡ n
length-take zero s h = refl
length-take (suc n) [] h = absurd (omega arith)
length-take (suc n) (c ∷ s) h = ap suc (length-take n s (omega arith))

pub take-append : (v rest : Bytes) → take (length v) (v ++ rest) ≡ v
take-append [] rest = refl
take-append (c ∷ v) rest = ap (◌∷◌ c) (take-append v rest)

pub drop-append : (v rest : Bytes) → drop (length v) (v ++ rest) ≡ rest
drop-append [] rest = refl
drop-append (c ∷ v) rest = drop-append v rest

kept-Round :
    (s s' : Lexer) (i j b : ℕ) (bs : Bytes) (r : Scanned) (rest : Bytes)
    → scan_token s i b bs ≡ ok r
    → SameState s' s
    → is_clean r.kind ≡ true
    → is_path_range r.kind ≡ false
    → upto_star rest ≡ upto_star (drop r.width (b ∷ bs))
    → Round s s' j b bs r (take r.width (b ∷ bs)) rest
kept-Round s s' i j b bs r rest scan same clean plain cut =
    let (moves, ends) = scan_token_width s i b bs r scan in
    let n = r.width - 1 in
    let short : n ≤ length bs = omega arith in
    let behind = take n bs ++ rest in
    let cut' = cut ∙ ap upto_star (drop_width r.width b bs moves) in
    record {
      first = b;
      behind = behind;
      scanned = r;
      front = ap (λ w. w ++ rest) (take_width r.width b bs moves);
      scan =
          subst (Again bs behind (scan_token s' j b behind)) scan
            (scan_token-Again s s' i j b bs behind same (take-Cut n bs rest cut')) clean plain rest
            refl cut';
      same_kind = refl;
      same_width = sym (length-take r.width (b ∷ bs) ends);
      same_state =
          track-SameState s s' r r b b bs behind same refl refl
            (ap (λ v. marks (last_byte b v)) (take-take-append n n bs rest (omega arith) short));
    }

ranged-Round :
    (s s' : Lexer) (i j b : ℕ) (bs : Bytes) (r : Scanned) (v rest : Bytes)
    → scan_token s i b bs ≡ ok r
    → SameState s' s
    → is_path_range r.kind ≡ true
    → all is_range_byte v ≡ true
    → upto_star rest ≡ upto_star (drop r.width (b ∷ bs))
    → Round s s' j b bs r (b'*' ∷ v) rest
ranged-Round s s' i j b bs r v rest scan same range bytes cut =
    let (star, opened, kind, width, stack) =
      subst (RangeScan s b bs) scan (scan_token-RangeScan s i b bs) range in
    let n = span_while is_range_byte bs in
    let ended : head? rest ≡ head? (drop n bs) =
      head?-Cut rest (drop n bs) (cut ∙ ap (λ k. upto_star (drop k (b ∷ bs))) width) in
    let scanned : Scanned = record {
      kind = TokenKind.path_range;
      width = suc (length v);
      stack = s'.bracket_stack;
    } in
    let now : take (suc (length v) - 1) (v ++ rest) ≡ v =
      let e : suc (length v) - 1 ≡ length v = omega arith in
      ap (λ k. take k (v ++ rest)) e ∙ take-append v rest in
    let before : take (r.width - 1) bs ≡ take n bs =
      let e : r.width - 1 ≡ n = omega arith in ap (λ k. take k bs) e in
    record {
      first = b'*';
      behind = v ++ rest;
      scanned = scanned;
      front = refl;
      scan =
          scan_token-range s' j v rest (ap top same.same_stack ∙ opened) bytes
            (ap (stops is_range_byte) ended ∙ span_while-stops is_range_byte bs);
      same_kind = sym kind;
      same_width = refl;
      same_state =
          track-SameState s s' r scanned b b'*' bs (v ++ rest) same (sym kind)
            (same.same_stack ∙ sym stack)
            (ap (λ u. marks (last_byte b'*' u)) now
              ∙ last_byte-range b'*' v refl bytes
              ∙ sym (last_byte-range b'*' (take n bs) refl (span_while-all is_range_byte bs))
              ∙ ap (λ u. marks (last_byte b'*' u)) (sym before)
              ∙ ap (λ c. marks (last_byte c (take (r.width - 1) bs))) (sym star));
    }

-- The round on what a token has become.
Round-rewritten_text :
    (src : Bytes) (d : ℕ) (s s' : Lexer) (i j b : ℕ) (bs : Bytes) (r : Scanned) (rest : Bytes)
    → drop i src ≡ b ∷ bs
    → scan_token s i b bs ≡ ok r
    → SameState s' s
    → is_clean r.kind ≡ true
    → upto_star rest ≡ upto_star (drop r.width (b ∷ bs))
    → Round s s' j b bs r (rewritten_text src d (token_of r i)) rest
Round-rewritten_text src d s s' i j b bs r rest e scan same clean cut =
    elim (shown src d s i b bs r e scan) [
      | inl (plain, said) ↦
          subst (λ w. Round s s' j b bs r w rest) (sym said)
            (kept-Round s s' i j b bs r rest scan same clean plain cut)
      | inr (range, (v, said, bytes)) ↦
          subst (λ w. Round s s' j b bs r w rest) (sym said)
            (ranged-Round s s' i j b bs r v rest scan same range bytes cut)
    ]

same_token : {k l : TokenKind} {m n : ℕ} (j : ℕ) → k ≡ l → m ≡ n → token_at k j m ≡ token_at l j n
same_token {k} {l} {m} {n} j e h = ap (λ k. token_at k j m) e ∙ ap (λ n. token_at l j n) h

-- Tokens that have been made of a text are made of the rewritten text again.
relex :
    (src out : Bytes) (d : ℕ) (s s' : Lexer) (i j : ℕ) (ts : List Token)
    → Chained src s i ts
    → SameState s' s
    → all (λ t. is_clean t.kind) ts ≡ true
    → drop j out ≡ rewritten_texts src d ts
    → Chained out s' j (shifted src d j ts)
unfolding shifted rewritten_texts
relex src out d s s' i j [] e same clean here = here
relex src out d s s' i j (t ∷ ts) (b, bs, r, e, scan, token, chain) same clean here =
    let rest = rewritten_texts src d ts in
    let w = rewritten_text src d t in
    let cut : upto_star rest ≡ upto_star (drop r.width (b ∷ bs)) =
      rewritten_texts-Cut src d (track s r b bs) (i + r.width) ts chain
      ∙ ap upto_star (sym (drop_behind src i b r.width bs e)) in
    let k : Round s s' j b bs r w rest =
      subst (λ t. Round s s' j b bs r (rewritten_text src d t) rest) (sym token)
        (Round-rewritten_text src d s s' i j b bs r rest e scan same
          (ap (λ t. is_clean t.kind) (sym token) ∙ ground arith) cut) in
    let next : drop (j + length w) out ≡ rest =
      sym (drop-drop (length w) j out) ∙ ap (drop (length w)) here ∙ drop-append w rest in
    let later =
      relex src out d (track s r b bs) (track s' k.scanned k.first k.behind) (i + r.width)
        (j + length w) ts chain k.same_state (ground arith) next in
    (
      k.first,
      k.behind,
      k.scanned,
      here ∙ k.front,
      k.scan,
      same_token j (ap (λ (t : Token). t.kind) token ∙ sym k.same_kind) (sym k.same_width),
      subst
          (λ n.
            Chained out (track s' k.scanned k.first k.behind) (j + n)
              (shifted src d (j + length w) ts))
          (sym k.same_width) later,
    )

-- A text with no comment in it is cut into the same tokens again when its ranges are rewritten, each
-- at its new place.
pub lex-rewritten_texts :
    (src : Bytes) (d : ℕ) (ts : List Token)
    → lex src ≡ ok ts
    → all (λ t. is_clean t.kind) ts ≡ true
    → lex (rewritten_texts src d ts) ≡ ok (shifted src d 0 ts)
lex-rewritten_texts src d ts h clean =
    let same : SameState initial initial = record {
      same_stack = refl;
      same_sig1 = refl;
      same_sig2 = refl;
    } in
    let out = rewritten_texts src d ts in
    (lex-Chained out (shifted src d 0 ts)).1
      (relex src out d initial initial 0 0 ts ((lex-Chained src ts).0 h) same clean refl)
