-- ===== src/Client/Exit.antt =====
-- The client's exit code.
use nexus_scout.Base.{◌≡◌, ◌≢◌, refl, arith, Bytes, codes, bytes_eq}
use nexus_scout.Client.{exit_for, get}
use nexus_scout.Gateway.Json.{Value, object, member, end_members, string}
use nexus_scout.Wire.{ErrorCode, as_str, http_status, exit_code, from_wire}

-- The body of an error of the gateway.
abbrev pub error_body : {Number : Type 0} → ErrorCode → Bytes → Bytes → Value Number
error_body c message hint = object (
    member (codes "error") (string (as_str c))
      (member (codes "message") (string message) (member (codes "hint") (string hint) end_members)))

-- What the gateway answers an error with, the client exits with: whatever the code, the message and
-- the hint, the exit code is the contract's for the code, and not 0.
pub exit_for-error_body :
    (Number : Type 0) (c : ErrorCode) (message hint : Bytes)
    → (exit_for {Number = Number} (http_status c) (error_body {Number = Number} c message hint)
        ≡ exit_code c)
      × (exit_for {Number = Number} (http_status c) (error_body {Number = Number} c message hint)
          ≢ 0)
unfolding exit_for http_status exit_code get bytes_eq from_wire as_str
exit_for-error_body Number ErrorCode.query_rejected message hint = (refl, ground arith)
exit_for-error_body Number ErrorCode.query_timeout message hint = (refl, ground arith)
exit_for-error_body Number ErrorCode.query_syntax_error message hint = (refl, ground arith)
exit_for-error_body Number ErrorCode.rate_limited message hint = (refl, ground arith)
exit_for-error_body Number ErrorCode.internal_error message hint = (refl, ground arith)
