-- ===== src/Pipeline/Answer/Tests.antt =====
-- Answers and ends of streams at concrete values.
use ai_open_router.Prelude.{
  String, ◌≡◌, refl, false, some, List, [], ◌∷◌, Occurs, inl, Option, Result, ok, inr,
}
use ai_open_router.Json.{Value, object, end}
use ai_open_router.Transform.Context
use ai_open_router.Pipeline.Request.{stream_requires_sse_event_buffer}
use ai_open_router.Pipeline.Relay.{
  Setup, io_error, bytes, read_error, Read, Relay, start_debug, start_relay, relay,
}
use ai_open_router.Pipeline.Answer.{stream_log_status}
use ai_open_router.Pipeline.Answer.Laws.{relay-error_logged}

abbrev every_object : String → Option Value
every_object s = some (object end)

abbrev same : Value → Result String Value
same v = ok v

abbrev setup : Setup
setup = record {
  from_str = every_object;
  to_string = λ v. "{}";
  transform_sse_event = λ event ctx. (ctx, ok event);
  transformer_name = "cc_claude";
  capture_body = false;
  debug_capture_body = false;
}

abbrev start : Relay
start = start_relay false Context.new (start_debug "cc_claude" false false "text/event-stream") 8

abbrev broken : List Read
broken = bytes (b'a' ∷ []) ∷ read_error ∷ []

breaks : Occurs (io_error "stream read failed") (relay setup broken start).sent
unfolding relay stream_requires_sse_event_buffer
breaks = inr (inl refl)

relay-error_logged_example : stream_log_status 200 (relay setup broken start) ≡ 502
relay-error_logged_example =
    relay-error_logged setup broken start "stream read failed" 200 refl breaks
