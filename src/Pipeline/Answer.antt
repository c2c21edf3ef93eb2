-- ===== src/Pipeline/Answer.antt =====
-- proxy/pipeline.rs, `handle_proxy_request` after the call of the upstream: what the client is
-- answered, and what the metrics count.
mod Tests
pub mod Laws
use Prim.Native.Char.{Char}
use Prim.Native.String.{[], ◌∷◌, ◌++◌}
use ai_open_router.Prelude.{
  ℕ, zero, suc, String, Bool, ◌||◌, Option, none, some, List, [], ◌∷◌, leb, if◌then◌else◌, ◌>>=◌,
  get_or, Result, ok, err,
}
use ai_open_router.Json.{Value, Fields, object, field, end, boolean, string, get, as_str}
use ai_open_router.Text.Decode.{from_utf8_lossy}
use ai_open_router.Entities.{TokenUsage}
use ai_open_router.Observability.Metrics.{Event, increment_error, add_latency, add_token_usage}
use ai_open_router.Observability.Usage.{extract_token_usage}
use ai_open_router.Observability.Stream.{into_token_usage}
use ai_open_router.Transform.Context.{pos}
use ai_open_router.Transform.Formats.{show}
use ai_open_router.Pipeline.Request.{merge_token_usage}
use ai_open_router.Pipeline.Capture.{Capture}
use ai_open_router.Pipeline.Relay.{Relay}

-- An answer to the client: the upstream's, converted, or an error with the upstream's status if
-- there is one.
pub data Answer : Type 0 where
  success : Value → Answer
  upstream_error : (status : ℕ) → (message : String) → (upstream_status : Option ℕ) → Answer

abbrev pub status_of : Answer → ℕ
status_of (success body) = 200
status_of (upstream_error status message upstream_status) = status

-- An answer with the calls on the metrics that go with it.
pub record Completion : Type 0 where
  pub answer : Answer
  pub metrics : List Event

abbrev pub failed_with : Answer → Completion
failed_with answer = record { answer = answer; metrics = increment_error ∷ [] }

-- How the call of the upstream can fail, with the text of the error. Only a stream has a time
-- limit of its own for the headers.
pub data SendError : Type 0 where
  request_failed : String → SendError
  header_timeout : (request_timeout_ms : ℕ) → SendError

unfoldable pub send_failed : SendError → Completion
unfolding show
send_failed (request_failed error) =
    failed_with (upstream_error 502 ("Upstream request failed: " ++ error) none)
send_failed (header_timeout request_timeout_ms) = failed_with (
    upstream_error 504
      ("Upstream response header timeout exceeded after "
        ++ (show (pos request_timeout_ms) ++ "ms"))
      none)

abbrev pub usage_event : Option TokenUsage → List Event
usage_event none = []
usage_event (some usage) = add_token_usage usage ∷ []

abbrev pub then_event : List Event → Event → List Event
then_event [] last = last ∷ []
then_event (first ∷ rest) last = first ∷ then_event rest last

-- `text.chars().take(n)`.
abbrev take_chars : ℕ → String → String
take_chars zero s = []
take_chars (suc n) [] = []
take_chars (suc n) (c ∷ s) = c ∷ take_chars n s

-- `error.message` of an error of the upstream, or a text with its status.
unfoldable pub error_message : ℕ → Value → String
unfolding get show
error_message upstream_status upstream_json =
    get_or (get "error" upstream_json >>= λ e. get "message" e >>= λ v. as_str v)
      ("Upstream returned HTTP " ++ show (pos upstream_status))

abbrev or_else_same : Value → Result String Value → Value
or_else_same same (ok converted) = converted
or_else_same same (err message) = same

-- `transform_response` of the transformer, between `to_vec` and `from_slice`, is a parameter; an
-- answer that does not convert goes out as it is.
unfoldable pub map_response_body : (Value → Result String Value) → Value → Value
map_response_body transform_response upstream_json =
    or_else_same upstream_json (transform_response upstream_json)

-- The answer that was read and parsed.
unfoldable pub complete_json : (Value → Result String Value) → ℕ → ℕ → Value → Completion
unfolding error_message map_response_body extract_token_usage merge_token_usage
complete_json transform_response upstream_status elapsed_ms upstream_json =
    let output_body = map_response_body transform_response upstream_json in
    let usage =
      merge_token_usage (extract_token_usage upstream_json) (extract_token_usage output_body) in
    if leb 400 upstream_status
    then failed_with (
        upstream_error upstream_status (error_message upstream_status upstream_json)
          (some upstream_status))
    else record {
      answer = success output_body;
      metrics = then_event (usage_event usage) (add_latency elapsed_ms);
    }

-- The answer as its text, or the error of reading it.
unfoldable pub complete_text :
    (String → Option Value)
    → (Value → Result String Value)
    → ℕ
    → ℕ
    → Result String String
    → Completion
unfolding complete_json
complete_text from_str transform_response upstream_status elapsed_ms (err error) =
    failed_with
      (upstream_error 502 ("Failed to read upstream response: " ++ error) (some upstream_status))
complete_text from_str transform_response upstream_status elapsed_ms (ok text) =
    elim (from_str text) [
      | none ↦ failed_with (
          upstream_error 502 ("Upstream returned non-JSON response: " ++ take_chars 200 text)
            (some upstream_status))
      | some upstream_json ↦
          complete_json transform_response upstream_status elapsed_ms upstream_json
    ]

-- The end of a stream: the calls on the metrics, and the status in the log.
unfoldable pub stream_metrics : (String → Option Value) → ℕ → ℕ → Relay → List Event
unfolding into_token_usage
stream_metrics from_str upstream_status elapsed_ms s =
    let events =
      then_event (usage_event (into_token_usage from_str s.usage_acc)) (add_latency elapsed_ms) in
    if s.stream_failed || leb 400 upstream_status then then_event events increment_error else events

unfoldable pub stream_log_status : ℕ → Relay → ℕ
stream_log_status upstream_status s =
    if s.stream_failed then 502 else if leb 400 upstream_status then upstream_status else 200

-- The status of the response, which is sent before the stream is read.
unfoldable pub stream_status : ℕ → ℕ
stream_status upstream_status = if leb 400 upstream_status then upstream_status else 200

unfoldable pub build_stream_log_body : String → Capture → Value
unfolding from_utf8_lossy
build_stream_log_body source capture = object (
    field "stream" (boolean Bool.true) (
      field "source" (string source) (
        field "payload" (string (from_utf8_lossy capture.stream_body))
          (field "truncated" (boolean capture.stream_body_truncated) end))))
