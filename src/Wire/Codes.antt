-- ===== src/Wire/Codes.antt =====
-- The error codes on the wire.
use nexus_scout.Base.{ap, ◌∙◌, codes, true, Bytes, bytes_eq, some, ◌≡◌, ◌↔◌, refl, arith, [], ◌∷◌}
use nexus_scout.Wire.{ErrorCode, as_str, from_wire}

pub bytes_eq-eq : (a b : Bytes) → bytes_eq a b ≡ true → a ≡ b
unfolding bytes_eq
bytes_eq-eq [] [] h = refl
bytes_eq-eq (x ∷ a) (y ∷ b) h = ground (arith, bytes_eq-eq a b)
bytes_eq-eq [] (y ∷ b) h = cc
bytes_eq-eq (x ∷ a) [] h = cc

pub reads_back : (c : ErrorCode) → from_wire (as_str c) ≡ some c
unfolding from_wire as_str bytes_eq
reads_back ErrorCode.query_rejected = refl
reads_back _ = refl

written : (s : Bytes) (c : ErrorCode) → from_wire s ≡ some c → s ≡ as_str c
unfolding from_wire as_str
written s ErrorCode.query_rejected h = ground (arith, bytes_eq-eq s (codes "QUERY_REJECTED"))
written s ErrorCode.query_timeout h = ground (arith, bytes_eq-eq s (codes "QUERY_TIMEOUT"))
written s ErrorCode.query_syntax_error h =
    ground (arith, bytes_eq-eq s (codes "QUERY_SYNTAX_ERROR"))
written s ErrorCode.rate_limited h = ground (arith, bytes_eq-eq s (codes "RATE_LIMITED"))
written s ErrorCode.internal_error h = ground (arith, bytes_eq-eq s (codes "INTERNAL_ERROR"))

-- A wire string is read as a code exactly if it is the string that the code is written as.
pub from_wire-as_str : (s : Bytes) (c : ErrorCode) → (from_wire s ≡ some c) ↔ (s ≡ as_str c)
from_wire-as_str s c = (written s c, λ e. ap from_wire e ∙ reads_back c)
