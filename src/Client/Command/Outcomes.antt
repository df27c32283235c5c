-- ===== src/Client/Command/Outcomes.antt =====
-- What the client prints and exits with.
use nexus_scout.Base.{
  ℕ, ◌≤◌, ◌≡◌, ◌↔◌, refl, arith, Bool, true, false, ◌&&◌, ◌++◌, Option, none, some, Bytes, codes,
  leb, ltb, if◌then◌else◌, Bool-cases, ◌⊎◌, inl, inr,
}
use nexus_scout.Client.Command.{
  Reply, response, transport, Printed, Command, query, schema, Cli, Agent, printed_or, normalize,
  from_response, handle, posted, run_query, run_get, query_with, run_command, main,
  resolve_timeout_ms,
}
use nexus_scout.Client.{
  BadParams, build_params, exit_for, exit_or_1, resolve_url, code_in, as_text, get_member,
}
use nexus_scout.Gateway.Json.{Value, Members}
use nexus_scout.Gateway.Shaper.{Outcome, ok, err}
use nexus_scout.Wire.{ErrorCode, exit_code, QueryRequest, new_request}

-- The status is one of success.
abbrev pub is_success : ℕ → Bool
is_success status = leb 200 status && ltb status 300

exit_code_bounds : (c : ErrorCode) → (1 ≤ exit_code c) × (exit_code c ≤ 3)
unfolding exit_code
exit_code_bounds ErrorCode.query_rejected = (omega arith, omega arith)
exit_code_bounds ErrorCode.query_timeout = (omega arith, omega arith)
exit_code_bounds _ = (omega arith, omega arith)

exit_or_1_bounds : (c : Option ErrorCode) → (1 ≤ exit_or_1 c) × (exit_or_1 c ≤ 3)
exit_or_1_bounds none = (omega arith, omega arith)
exit_or_1_bounds (some c) = exit_code_bounds c

module _ {Number : Type 0} (from_json : Bytes → Option (Value Number)) where
  -- The value of the body, for a reply that has a status of success and a body that can be read.
  abbrev pub success_value : Option Reply → Option (Value Number)
  success_value none = none
  success_value (some (transport e)) = none
  success_value (some (response status (err e))) = none
  success_value (some (response status (ok body))) =
      if is_success status then from_json body else none

  -- The exit code is 0 to 3, and it is 0 exactly if there is a reply that is a success and whose value
  -- is what is printed.
  abbrev pub Reports : Option Reply → Printed Number → Type 0
  Reports r out = (out.1 ≤ 3) × ((out.1 ≡ 0) ↔ (success_value r ≡ some out.0))

  failed-Reports :
      (r : Option Reply) (v : Value Number) (n : ℕ)
      → 1 ≤ n
      → n ≤ 3
      → success_value r ≡ none
      → Reports r (v, n)
  failed-Reports r v n h k nothing = (k, (λ e. absurd (omega arith), λ e. absurd (ground arith)))

  exit_for-is_success :
      (status : ℕ) (v : Value Number) → is_success status ≡ true → exit_for status v ≡ 0
  unfolding exit_for
  exit_for-is_success status v h = rw h refl

  exit_for-error :
      (status : ℕ) (v : Value Number)
      → is_success status ≡ false
      → exit_for status v ≡ exit_or_1 (code_in (as_text (get_member (codes "error") v)))
  unfolding exit_for
  exit_for-error status v h = rw h refl

  value-Reports :
      (status : ℕ) (body : Bytes) (v : Value Number)
      → from_json body ≡ some v
      → Reports (some (response status (ok body))) (v, exit_for status v)
  value-Reports status body v e = elim (Bool-cases (is_success status)) [
    | inl good ↦ (
      omega (arith, exit_for-is_success status v good),
      (λ _. rw good e, λ _. exit_for-is_success status v good),
    )
    | inr bad ↦ rw (exit_for-error status v bad) (
        failed-Reports (some (response status (ok body))) v _ (exit_or_1_bounds _).0
          (exit_or_1_bounds _).1 (rw bad refl))
  ]

  response-Reports :
      (status : ℕ) (body : Bytes) (o : Option (Value Number))
      → from_json body ≡ o
      → Reports (some (response status (ok body))) (printed_or from_json status o)
  response-Reports status body none e =
      failed-Reports (some (response status (ok body))) _ 1 (omega arith) (omega arith)
        (unread (Bool-cases (is_success status)))
    where
      unread :
          (is_success status ≡ true) ⊎ (is_success status ≡ false)
          → success_value (some (response status (ok body))) ≡ none
      unread (inl good) = rw good e
      unread (inr bad) = rw bad refl
  response-Reports status body (some v) e = value-Reports status body v e

  handle-Reports : (r : Reply) (url : Bytes) → Reports (some r) (handle from_json r url)
  unfolding handle from_response normalize
  handle-Reports (response status (ok body)) url =
      response-Reports status body (from_json body) refl
  handle-Reports (response status (err e)) url =
      failed-Reports (some (response status (err e))) _ 1 (omega arith) (omega arith) refl
  handle-Reports (transport e) url =
      failed-Reports (some (transport e)) _ 1 (omega arith) (omega arith) refl

  module _ (to_text : QueryRequest (Members Number) → Outcome Bytes Bytes) where
    abbrev posted_reply : Agent → Bytes → Outcome Bytes Bytes → Option Reply
    posted_reply agent url (ok body) = some (agent.post url body)
    posted_reply agent url (err e) = none

    abbrev query_reply :
        Agent → Bytes → Bytes → Option ℕ → Outcome (Members Number) BadParams → Option Reply
    query_reply agent base cypher limit (err e) = none
    query_reply agent base cypher limit (ok params) =
        posted_reply agent (base ++ codes "/v1/query") (to_text (new_request cypher params limit))

    -- The reply to the one request that the client sends, if it sends one.
    abbrev pub reply_of : Agent → Bytes → Command → Option Reply
    reply_of agent base (query cypher params params_json limit) =
        query_reply agent base cypher limit (build_params from_json params params_json)
    reply_of agent base schema = some (agent.get_url (base ++ codes "/v1/schema"))

    posted-Reports :
        (agent : Agent) (url : Bytes) (o : Outcome Bytes Bytes)
        → Reports (posted_reply agent url o) (posted from_json to_text agent url o)
    posted-Reports agent url (ok body) = handle-Reports (agent.post url body) url
    posted-Reports agent url (err e) = failed-Reports none _ 1 (omega arith) (omega arith) refl

    module _ (debug : Bytes → Bytes) (json_error : Bytes) where
      query-Reports :
          (agent : Agent) (base cypher : Bytes) (limit : Option ℕ)
          (o : Outcome (Members Number) BadParams)
          → Reports
              (query_reply agent base cypher limit o)
              (query_with from_json to_text debug json_error agent base cypher limit o)
      unfolding run_query
      query-Reports agent base cypher limit (err e) =
          failed-Reports none _ 2 (omega arith) (omega arith) refl
      query-Reports agent base cypher limit (ok params) =
          posted-Reports agent (base ++ codes "/v1/query")
            (to_text (new_request cypher params limit))

      command-Reports :
          (agent : Agent) (base : Bytes) (c : Command)
          → Reports
              (reply_of agent base c)
              (run_command from_json to_text debug json_error agent base c)
      unfolding run_get
      command-Reports agent base (query cypher params params_json limit) =
          query-Reports agent base cypher limit (build_params from_json params params_json)
      command-Reports agent base schema =
          handle-Reports (agent.get_url (base ++ codes "/v1/schema")) (base ++ codes "/v1/schema")

      -- Whatever the arguments, the environment and the gateway, the client exits with a code of 0 to 3,
      -- and with 0 exactly if its request was answered with a status of success and with JSON, which is
      -- then what it prints.
      pub main-Reports :
          (build_agent : ℕ → Agent) (url_var timeout_var : Option Bytes) (cli : Cli)
          → Reports
              (reply_of
                (build_agent (resolve_timeout_ms cli.timeout_ms timeout_var))
                (resolve_url cli.server_url url_var)
                cli.command)
              (main from_json to_text debug json_error build_agent url_var timeout_var cli)
      unfolding main
      main-Reports build_agent url_var timeout_var cli =
          command-Reports (build_agent (resolve_timeout_ms cli.timeout_ms timeout_var))
            (resolve_url cli.server_url url_var) cli.command
