-- ===== src/Lib.antt =====
-- nexus-scout: a gateway through which agents put read-only Cypher queries to a Neo4j database.
--
-- crates/cypher-guard is the sanitizer: a text is normalized and its characters are checked, it is
-- lexed, the tokens are classified against deny tables, the variable-length paths are bounded, and
-- the query's own `LIMIT` is read off. crates/nexus-scout takes queries in over HTTP or MCP, admits
-- or sheds them, has the sanitizer and the bounds on parameters decide, and runs what passes in a
-- transaction whose rows it keeps under a row budget and a byte cap. crates/nexus-scout-types has
-- the codes and the response that the gateway and the client share.
--
-- Base: the shared names, lists measured by native numbers, ASCII and UTF-8, decimals, 32-bit
--   integers.
-- Guard.Reason: crates/cypher-guard/src/error.rs.
-- Guard.Unicode: crates/cypher-guard/src/unicode.rs, `validate`.
-- Guard.Lexer: crates/cypher-guard/src/tokenizer.rs, `lex`; Widths, Tiles and Rounds have its proofs.
-- Guard.Rules: crates/cypher-guard/src/rules.rs, `classify`; Calls and Policy have its proofs.
-- Guard.Transforms: crates/cypher-guard/src/transforms.rs, `bound_paths`; Bounded and Splice have its
--   proofs.
-- Guard.Sanitized, Guard.Limit, Guard.Sanitizer: crates/cypher-guard/src/sanitized.rs and lib.rs,
--   `extract_result_limit` and `Sanitizer::sanitize`.
-- Guard.Again: what the sanitizer makes of its own output, stage by stage.
-- Guard.Plain: the check of the characters, against the tokens that are made of the bytes.
-- Guard.Oracle: crates/cypher-guard/fuzz/fuzz_targets/sanitize.rs, `code_position_violation`; its
--   modules follow the oracle over what the sanitizer makes of each token.
-- Wire: crates/nexus-scout-types/src/lib.rs.
-- Gateway.Limits, Gateway.Config: crates/nexus-scout/src/config.rs, the limits, `apply_env`.
-- Gateway.Startup: what is refused at the start, in crates/nexus-scout/src/executor/mod.rs, lib.rs and
--   config.rs: `insecure_remote_reason`, `ensure_cost_bounds`, `check_http_pool_capacity`.
-- Gateway.Text: the operations of `str` that the crates call.
-- Gateway.Json, Gateway.Params: crates/nexus-scout/src/params.rs, `check_params`.
-- Gateway.Convert: crates/nexus-scout/src/convert.rs, `json_to_bolt`, `bolt_to_json` and
--   `row_to_json`.
-- Gateway.Errors: crates/nexus-scout/src/error.rs, `Error::from_neo4rs` and `to_response`, with the
--   texts of Guard.Reason.Texts, which are of crates/cypher-guard/src/error.rs.
-- Gateway.Shaper, Gateway.Budget: crates/nexus-scout/src/executor/shape.rs and, in
--   crates/nexus-scout/src/executor/mod.rs, `read_rows`, `row_budget` and `result_note`.
-- Gateway.Execution: `Executor::execute` and `Scout::run`, with what is asked of the database.
-- Gateway.Float: the `f64` of the token bucket.
-- Gateway.Admission: `admit` and `TokenBucket` of crates/nexus-scout/src/http.rs, as steps of
--   requests that run interleaved.
-- Gateway.Pages: `urlencode`, `strip_frontmatter` and `base_url` of crates/nexus-scout/src/http.rs.
-- Gateway.Index: `index_handler` of crates/nexus-scout/src/http.rs.
-- Gateway.Handlers, Gateway.Probes: the handlers of the query routes and the operational endpoints in
--   crates/nexus-scout/src/http.rs, and the tool `query_cypher` of server.rs.
-- Gateway.Routes: `routers` of crates/nexus-scout/src/http.rs, over an interface to axum.
-- Gateway.Serve: the start of the gateway, from `run` of crates/nexus-scout/src/main.rs over
--   `serve_http` and `serve_stdio` to `Executor::connect`.
-- Client: crates/nexus-scout-cli/src/main.rs, `build_params`, `resolve_url` and `exit_for`; Client.Command
--   has the rest, up to `main`.
-- Guard.Tests, Gateway.Tests, Gateway.Handlers.Tests, Gateway.Convert.Tests, Gateway.Routes.Tests,
--   Gateway.Serve.Tests, Gateway.Startup.Tests, Client.Tests: runs, and the theorems at concrete
--   inputs.
--
-- A text is the list of its code points, and its bytes are `utf8` of it. Numbers are natural; a
-- `usize` has 64 bits, a `u32` and an `i32` are checked or wrap where the code does so. The lexer
-- has no fuel: a token is scanned on the rest of the text, and a count of bytes to pass over makes
-- the loop structural. The printer of decimals has fuel, one more than the number, which is enough
-- because every division by ten makes it smaller. An `f64` is not negative and finite here, and the
-- count of its units of 2^-1074; the operations of Gateway.Float round it as IEEE 754 says, with fuel for
-- each exponent that a double has.
--
-- Parameters of the model are NFC normalization (unicode_normalization), the numbers, the size of JSON
-- text and its parser and printer (serde_json), base64, the parsers of IP and socket addresses, the
-- texts of the errors of libraries, the driver's numbers, what the database answers in one call, what
-- the operating system answers at the start, and what ureq answers the client.
-- A `HashMap` of the driver is the list of its entries in the order in which they are visited.
--
-- Not modelled: what the layers of tower do to a request, the extraction of axum, the protocol of MCP,
-- the parser of the command line and logging, which are I/O and glue; the schema, a constant. In
-- Gateway.Shaper and Gateway.Execution a row stands for what `row_to_json` makes of it.
mod Base
pub mod Guard
pub mod Wire
pub mod Gateway
pub mod Client
