-- ===== src/Guard/Again/State.antt =====
-- crates/cypher-guard/src/tokenizer.rs: the state of the lexer behind a token.
use nexus_scout.Base.{is_ascii_digit, ℕ, ◌-◌, ◌≡◌, arith, true, false, ◌∷◌, [], Bytes, take, all}
use nexus_scout.Guard.Again.Scan.{SameState, marks}
use nexus_scout.Guard.Lexer.{Lexer, Scanned, track, last_byte, is_range_byte}

-- Tokens of one kind that leave one stack, and end in bytes that the lexer does not tell apart.
pub track-SameState :
    (s s' : Lexer) (r r' : Scanned) (b b' : ℕ) (bs bs' : Bytes)
    → SameState s' s
    → r'.kind ≡ r.kind
    → r'.stack ≡ r.stack
    → marks (last_byte b' (take (r'.width - 1) bs')) ≡ marks (last_byte b (take (r.width - 1) bs))
    → SameState (track s' r' b' bs') (track s r b bs)
unfolding track
track-SameState s s' r r' b b' bs bs' same kind stack last = record {
  same_stack = ground (arith, same.same_stack);
  same_sig1 = ground (arith, same.same_sig1);
  same_sig2 = ground (arith, same.same_sig1, same.same_sig2);
}

pub last_byte-range :
    (b : ℕ) (v : Bytes)
    → marks b ≡ (false, false, false)
    → all is_range_byte v ≡ true
    → marks (last_byte b v) ≡ (false, false, false)
unfolding last_byte is_range_byte is_ascii_digit
last_byte-range b [] h k = h
last_byte-range b (c ∷ v) h k = last_byte-range c v (ground arith) (ground arith)
