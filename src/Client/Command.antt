-- ===== src/Client/Command.antt =====
-- crates/nexus-scout-cli/src/main.rs: `main`, from the arguments to what is printed and the exit code.
-- What ureq returns is a value; the parser and the printer of JSON, and the texts of errors that are
-- not the client's own, are parameters. The printed text is given by its JSON value.
pub mod Outcomes
use mathlib.Core.Option
use nexus_scout.Base.{ℕ, ◌++◌, List, [], Option, none, some, Bytes, codes, decimal, and_then}
use nexus_scout.Client.Exit.{error_body}
use nexus_scout.Client.{
  BadParams, no_equals, bad_json, not_an_object, build_params, exit_for, resolve_url,
}
use nexus_scout.Gateway.Config.{parse_unsigned}
use nexus_scout.Gateway.Json.{Value, object, string, Members, end_members, member}
use nexus_scout.Gateway.Shaper.{Outcome, ok, err}
use nexus_scout.Guard.Sanitizer.{usize_max}
use nexus_scout.Wire.{
  ErrorCode, ErrorResponse, new_error_response, as_str, QueryRequest, new_request,
}

-- `resolve_timeout_ms`, with the variable of the environment; a `u64` has the bounds of a `usize`.
unfoldable pub resolve_timeout_ms : Option ℕ → Option Bytes → ℕ
unfolding parse_unsigned
resolve_timeout_ms (some ms) env = ms
resolve_timeout_ms none env = Option.get_or (and_then env (parse_unsigned usize_max)) 35000

-- The `match` of `envelope`.
unfoldable pub envelope_hint : ErrorCode → Bytes
envelope_hint ErrorCode.query_rejected =
    codes "Check the request: parameters must be key=value or valid JSON."
envelope_hint _ =
    codes
      "Retry; if it persists, check the gateway URL named in the message (set --server-url or NEXUS_SCOUT_URL to change it)."

-- `envelope`.
unfoldable pub envelope : {Number : Type 0} → ErrorCode → Bytes → Value Number
unfolding envelope_hint
envelope code message = error_body code message (envelope_hint code)

-- What ureq returns: a response with its status and its body or why that cannot be read, or why there
-- is no response.
pub data Reply : Type 0 where
  response : ℕ → Outcome Bytes Bytes → Reply
  transport : Bytes → Reply

-- What is printed, and the exit code.
abbrev pub Printed : Type 0 → Type 0
Printed Number = Value Number × ℕ

abbrev pub failed_with : {Number : Type 0} → Bytes → Printed Number
failed_with message = (envelope ErrorCode.internal_error message, 1)

-- The subcommand.
pub data Command : Type 0 where
  -- the query, `--param`, `--params-json` and `--limit`
  query : Bytes → List Bytes → Option Bytes → Option ℕ → Command
  schema : Command

-- `Cli`.
pub record Cli : Type 0 where
  pub server_url : Option Bytes
  pub timeout_ms : Option ℕ
  pub command : Command

-- What the client asks of ureq: the timeout, and to POST a body to a URL or to GET a URL.
pub record Agent : Type 0 where
  pub post : Bytes → Bytes → Reply
  pub get_url : Bytes → Reply

module _ {Number : Type 0} (from_json : Bytes → Option (Value Number)) where
  abbrev pub printed_or : ℕ → Option (Value Number) → Printed Number
  printed_or status none =
      failed_with (codes "gateway returned a non-JSON " ++ (decimal status ++ codes " response"))
  printed_or status (some value) = (value, exit_for status value)

  unfoldable pub normalize : ℕ → Bytes → Printed Number
  unfolding envelope exit_for
  normalize status body = printed_or status (from_json body)

  unfoldable pub from_response : ℕ → Outcome Bytes Bytes → Printed Number
  unfolding normalize
  from_response status (ok body) = normalize status body
  from_response status (err e) =
      failed_with
        (codes "could not read the gateway's " ++ (decimal status ++ (codes " response: " ++ e)))

  unfoldable pub handle : Reply → Bytes → Printed Number
  unfolding from_response
  handle (response status body) url = from_response status body
  handle (transport e) url =
      failed_with (codes "could not reach the gateway at " ++ (url ++ (codes ": " ++ e)))

  module _ (to_text : QueryRequest (Members Number) → Outcome Bytes Bytes) where
    abbrev pub posted : Agent → Bytes → Outcome Bytes Bytes → Printed Number
    posted agent url (ok body) = handle (agent.post url body) url
    posted agent url (err e) = failed_with (codes "could not serialize request: " ++ e)

    unfoldable pub run_query : Agent → Bytes → Bytes → Members Number → Option ℕ → Printed Number
    unfolding handle
    run_query agent base cypher params limit =
        posted agent (base ++ codes "/v1/query") (to_text (new_request cypher params limit))

    unfoldable pub run_get : Agent → Bytes → Printed Number
    unfolding handle
    run_get agent url = handle (agent.get_url url) url

    module _ (debug : Bytes → Bytes) (json_error : Bytes) where
      -- The message of `build_params`.
      unfoldable pub message_of : BadParams → Bytes
      message_of (no_equals entry) =
          codes "invalid --param " ++ (debug entry ++ codes ", expected key=value")
      message_of bad_json = codes "invalid --params-json: " ++ json_error
      message_of not_an_object = codes "--params-json must be a JSON object"

      abbrev pub query_with :
          Agent → Bytes → Bytes → Option ℕ → Outcome (Members Number) BadParams → Printed Number
      query_with agent base cypher limit (err e) =
          (envelope ErrorCode.query_rejected (message_of e), 2)
      query_with agent base cypher limit (ok params) = run_query agent base cypher params limit

      abbrev pub run_command : Agent → Bytes → Command → Printed Number
      run_command agent base (query cypher params params_json limit) =
          query_with agent base cypher limit (build_params from_json params params_json)
      run_command agent base schema = run_get agent (base ++ codes "/v1/schema")

      -- `main`, with the agent that a timeout builds and the two variables of the environment.
      unfoldable pub main : (ℕ → Agent) → Option Bytes → Option Bytes → Cli → Printed Number
      unfolding run_query run_get message_of build_params resolve_url resolve_timeout_ms envelope
      main build_agent url_var timeout_var cli =
          run_command (build_agent (resolve_timeout_ms cli.timeout_ms timeout_var))
            (resolve_url cli.server_url url_var) cli.command
