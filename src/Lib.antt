-- ===== src/Lib.antt =====
-- Verification of AI Open Router, a proxy that takes requests of the OpenAI and Anthropic
-- protocols and forwards each to a provider that the routing table of a group selects. The program
-- is the Rust code under src-tauri/src.
--
-- A request comes in under /oc/<group>/<suffix>. The pipeline (proxy/pipeline.rs) detects the
-- protocol of the suffix, refreshes the route index if the configuration has changed, checks the
-- local access token, looks the group up, resolves the provider by the request's model, prepares
-- body, headers and URL, and sends the request on. The answer is relayed as a stream, framed into
-- events, or read as a whole; it is converted by the transformer, captured and counted. The
-- configuration is migrated and checked when it is loaded, and a remote administrator signs in
-- with a password and a session.
--
-- The files:
--   Prelude, Text, Dict, Json   shared: tests on numbers, lists, results; the `str` methods; maps
--                               with text keys; `serde_json::Value` with the accessors in use.
--   Entities                    domain/entities.rs and the defaults of config/schema.rs.
--   Routing                     proxy/routing.rs. Entry: `detect_entry_protocol`. Url:
--                               `resolve_upstream_url`. Headers: `build_forward_headers` and the
--                               policy on single headers. Index: `build_route_index`,
--                               `refresh_route_index_if_needed`, and their interleaving with
--                               `ConfigStore::set_in_memory` (config_store.rs). Resolve:
--                               `resolve_runtime_active_route`.
--   LogStore                    log_store.rs: the bounded log and the developer file.
--   Observability               proxy/observability.rs. Metrics: `MetricsState`. Usage:
--                               `extract_token_usage`. Stream: `StreamTokenAccumulator`, which
--                               decodes each chunk of bytes on its own.
--   Auth                        auth.rs: `RemoteAdminAuthStore`, bearer tokens and cookies. Remote:
--                               `is_remote_request_with_headers`.
--   Network                     proxy/net.rs: `bind_proxy_listener`.
--   Transform                   transformer. Common, Reasoning and ToolCalls:
--                               convert/common.rs. Context: types.rs. Formats and Events: the
--                               events of a Claude stream, and `build_claude_event` of
--                               convert/common.rs.
--                               OpenAiStream: `openai_stream_to_claude` with its finalizer
--                               (convert/claude_openai.rs). ResponsesStream: the finalizer of
--                               convert/claude_openai_responses_stream.rs.
--   Pipeline                    proxy/pipeline.rs. Framing: `pop_sse_event` and its loop. Capture:
--                               `capture_stream_chunk`. Access:
--                               `request_matches_local_access_token`. Request: thinking, tools,
--                               the transformer, the timeout and merged usage. The stages of
--                               `handle_proxy_request`: Admission, up to the call of the upstream;
--                               Probe, whether the answer is a stream; Relay, the task that relays
--                               a stream, with Debug, its `StreamDebugState`, and Chat, its use
--                               with transformer/cc/openai.rs; Answer, the other
--                               answers and the end of a stream.
--   Config                      Validator: config/validator.rs. Migrator: config/migrator.rs.
--
-- State is passed explicitly: an operation takes the state and returns the next one with its
-- result. Errors are values of `Result` or `Option`; where the source words an error with a number
-- or a path in it, a data type names the case. Concurrency, in Routing.Index.Coherence, is a step
-- relation on the shared state with the threads in it: each load, store and lock is a step of its
-- own, and the revision wraps at 64 bits.
--
-- Numbers are unbounded where the source only compares, copies or stores them; the counters of
-- `MetricsState` wrap at 64 bits, and a version number must fit 32 bits as in the source. A `f64`
-- is its bit pattern, compared with zero only. Texts are sequences of Unicode scalar values, and
-- `len` counts UTF-8 bytes; Text.Decode is `String::from_utf8_lossy`. An `i32` of the converters
-- wraps when it is incremented. JSON objects are key-value lists that keep one value for a key.
--
-- A relay is a function of the results of `try_next`, and the client's end of the channel is the
-- number of items that it takes before it goes. Its reads are handled one at a time; the events of
-- a read are cut before they are converted, which changes nothing, since a failure ends the task.
--
-- Loops are structural recursion, except four. `drain` in Observability.Stream and `pop_events`
-- in Pipeline.Framing run on fuel, one more than the length of the buffer, which is enough since
-- each round takes at least one character. `migrate_loop` runs on the number of versions left.
-- `push_digits` has fuel for ten digits, which are enough for an `i32`.
--
-- Outside the model, as parameters: `url::Url` (UrlLibrary), `IpAddr` (IpLibrary),
-- `TcpListener::bind`, `serde_json` (`from_str`, also at the type of a stream chunk, `from_slice`,
-- `to_vec` and `to_string`), and `argon2`, `chrono` and the serializer of auth.rs (Auth.Crates),
-- with two hypotheses: the hash library verifies what it hashed, and the serializer reads what it
-- wrote. The methods of `dyn Transformer` that the pipeline calls are parameters too, since most
-- of the converters behind them are not modelled. The clock, fresh identifiers and the outcome of
-- writing a file are arguments. Poisoned locks are modelled in routing, without
-- Routing.Index.Coherence, and in the pipeline only. The log entries that the pipeline writes, and what it prints, are left out.
--
-- Not modelled: the conversions of requests and whole responses and of the other streams
-- (transformer/convert), network and file access, the SQLite stores, quotas, statistics, remote
-- synchronisation, integrations with other tools, the startup of the process, and the user
-- interface.
pub mod Prelude
pub mod Text
pub mod Dict
pub mod Json
pub mod Entities
pub mod Routing
pub mod LogStore
pub mod Observability
pub mod Auth
pub mod Transform
pub mod Network
pub mod Pipeline
pub mod Config
