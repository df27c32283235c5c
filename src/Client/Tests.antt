-- ===== src/Client/Tests.antt =====
-- Runs of the client, and its theorems at concrete inputs.
use nexus_scout.Base.{ℕ, ◌≡◌, refl, Bytes, codes, bytes_eq, List, [], ◌∷◌, Option, none, some}
use nexus_scout.Client.Params.{or_else, last_member, last_param, json_members, get-build_params}
use nexus_scout.Client.Command.Outcomes.{Reports, reply_of, main-Reports}
use nexus_scout.Client.Command.{Agent, Cli, query, response, transport, main}
use nexus_scout.Gateway.Shaper.{Outcome, ok}
use nexus_scout.Wire.{QueryRequest}
use nexus_scout.Client.{default_server_url, build_params, get, resolve_url}
use nexus_scout.Gateway.Json.{Value, object, Members, member, end_members, number, string}

trailing_slashes : resolve_url (some (codes "http://a/b//")) none ≡ codes "http://a/b"
unfolding resolve_url
trailing_slashes = refl

-- A parser that reads every text as one object.
abbrev one_object : Bytes → Option (Value ℕ)
one_object raw = some (object (member (codes "a") (number 1) end_members))

abbrev given : List Bytes
given = codes "a=x" ∷ codes "b=y=z" ∷ []

abbrev merged : Members ℕ
merged = member (codes "a") (number 1) (member (codes "b") (string (codes "y=z")) end_members)

get-build_params_example :
    get (codes "a") merged
    ≡ or_else
        (last_member (codes "a") (json_members one_object (some (codes "{}"))))
        (last_param (codes "a") given)
get-build_params_example =
    get-build_params one_object given (some (codes "{}")) merged (codes "a")
      (unfold build_params bytes_eq in refl)

-- A gateway that answers each POST with one page, and no GET.
abbrev agent : ℕ → Agent
agent ms = record {
  post = λ url body. response 200 (ok (codes "page"));
  get_url = λ url. transport (codes "refused");
}

abbrev no_text : QueryRequest (Members ℕ) → Outcome Bytes Bytes
no_text r = ok (r.cypher)

abbrev quoted : Bytes → Bytes
quoted s = s

abbrev arguments : Cli
arguments = record {
  server_url = none;
  timeout_ms = none;
  command = query (codes "RETURN 1") given none (some 5);
}

main-Reports_example :
    Reports one_object
      (reply_of one_object no_text (agent 35000) default_server_url arguments.command)
      (main one_object no_text quoted (codes "EOF") agent none none arguments)
main-Reports_example =
    main-Reports one_object no_text quoted (codes "EOF") agent none none arguments

-- Its answer is printed.
page_printed :
    main one_object no_text quoted (codes "EOF") agent none none arguments
    ≡ (object (member (codes "a") (number 1) end_members), 0)
unfolding main bytes_eq
page_printed = refl
