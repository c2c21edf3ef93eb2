-- ===== src/Pipeline/Relay.antt =====
-- proxy/pipeline.rs, `handle_proxy_request`: the task that relays the stream of the upstream to
-- the client. What it prints, and the log entries for a stream under way, are left out.
mod Tests
pub mod Events
pub mod Transform
pub mod End
pub mod Tail
pub mod Rounds
pub mod Reference
pub mod Refinement
pub mod Passthrough
pub mod Failures
pub mod Honesty
pub mod Chat
use ai_open_router.Prelude.{
  ℕ, String, ◌+◌, ◌-◌, ◌*◌, Bool, true, false, not, ◌&&◌, ◌||◌, Option, List, [], ◌∷◌, ◌++◌, ◌==◌,
  eqb, ltb, if◌then◌else◌, length, is_nil, Result, ok, err, none,
}
use ai_open_router.Text.Decode.{from_utf8_lossy}
use ai_open_router.Json.{Value}
use ai_open_router.Observability.Stream.{StreamTokenAccumulator, consume_chunk}
use ai_open_router.Transform.Context.{StreamContext}
use ai_open_router.Transform.Context
use ai_open_router.Dict.{HashSet}
use ai_open_router.Observability.Stream
use ai_open_router.Transform.Events.{encode}
use ai_open_router.Transform.OpenAiStream.{Output, finalize_openai_stream_to_claude}
use ai_open_router.Transform.ResponsesStream.{finalize_openai_responses_stream_to_claude}
use ai_open_router.Pipeline.Framing.{all_events}
use ai_open_router.Pipeline.Capture.{Capture, capture_stream_chunk, empty_capture}
use ai_open_router.Pipeline.Request.{stream_requires_sse_event_buffer}
use ai_open_router.Pipeline.Probe.{looks_like_sse_prelude}
use ai_open_router.Pipeline.Debug.{
  StreamDebugState, stream_debug_update_upstream_chunk, stream_debug_update_upstream_event,
  stream_debug_update_transformed_chunk,
}

abbrev pub max_sse_pending_bytes : ℕ
max_sse_pending_bytes = 2 * 1024 * 1024

-- What the task is given: `serde_json`, the transformer of the route with its name, and what is
-- to be captured. `transform_sse_event` is the method of the `dyn Transformer`.
pub record Setup : Type 0 where
  pub from_str : String → Option Value
  pub to_string : Value → String
  pub transform_sse_event : List ℕ → StreamContext → StreamContext × Result String (List ℕ)
  pub transformer_name : String
  pub capture_body : Bool
  pub debug_capture_body : Bool

-- What the channel to the client carries.
pub data Item : Type 0 where
  chunk : List ℕ → Item
  io_error : String → Item

-- A result of `try_next`; the end of the list is the end of the stream.
pub data Read : Type 0 where
  bytes : List ℕ → Read
  read_error : Read

-- The variables of the task. `receiver` counts the items that the client takes before it goes.
pub record Relay : Type 0 where
  pub probe_sse : Bool
  pub usage_acc : StreamTokenAccumulator
  pub stream_failed : Bool
  pub downstream_closed : Bool
  pub upstream_response : Capture
  pub transformed_response : Capture
  pub sse_pending : List ℕ
  pub stream_ctx : StreamContext
  pub stream_debug : StreamDebugState
  pub receiver : ℕ
  pub sent : List Item

-- `StreamContext::new()` with what the route gives it.
unfoldable pub stream_context : String → Bool → HashSet → StreamContext
unfolding Context.new
stream_context target_model fallback_enabled declared_tool_names = record Context.new {
  model_name = target_model;
  text_tool_call_fallback_enabled = fallback_enabled;
  allowed_tool_names = if fallback_enabled then declared_tool_names else [];
}

-- `StreamDebugState { .., ..Default::default() }`.
abbrev pub start_debug : String → Bool → Bool → String → StreamDebugState
start_debug transformer_name requires_buffer probe_sse upstream_content_type = record {
  entered_stream_mode = true;
  transformer_name = transformer_name;
  requires_buffer = requires_buffer;
  probe_sse_enabled = probe_sse;
  upstream_content_type = upstream_content_type;
  upstream_chunk_count = 0;
  upstream_chunk_bytes = 0;
  upstream_event_count = 0;
  first_upstream_event = none;
  first_upstream_data_type = none;
  upstream_done_seen = false;
  transformed_chunk_count = 0;
  transformed_chunk_bytes = 0;
  transformed_event_count = 0;
  first_transformed_event = none;
  first_transformed_data_type = none;
  transformed_done_seen = false;
  transformed_message_start_seen = false;
  transformed_message_delta_seen = false;
  transformed_message_stop_seen = false;
  downstream_send_count = 0;
  finalizer_count = 0;
  finalizer_bytes = 0;
}

-- The state of the task when it starts.
abbrev pub start_relay : Bool → StreamContext → StreamDebugState → ℕ → Relay
start_relay probe_sse ctx debug receiver = record {
  probe_sse = probe_sse;
  usage_acc = Stream.start;
  stream_failed = false;
  downstream_closed = false;
  upstream_response = empty_capture;
  transformed_response = empty_capture;
  sse_pending = [];
  stream_ctx = ctx;
  stream_debug = debug;
  receiver = receiver;
  sent = [];
}

abbrev encoded : (Value → String) → Output → StreamContext × List ℕ
encoded to_string o = (o.ctx, encode to_string o.result)

unfoldable pub finalize_stream_transform :
    (Value → String) → String → StreamContext → StreamContext × List ℕ
unfolding encode finalize_openai_stream_to_claude finalize_openai_responses_stream_to_claude
finalize_stream_transform to_string transformer_name ctx =
    if transformer_name == "cc_openai"
    then encoded to_string (finalize_openai_stream_to_claude ctx)
    else if transformer_name == "cc_openai2"
    then encoded to_string (finalize_openai_responses_stream_to_claude ctx)
    else (ctx, [])

-- `tx.send(..)`, with its error ignored.
unfoldable pub send_item : Item → Relay → Relay
send_item item s =
    if eqb s.receiver 0
    then s
    else record s { receiver = s.receiver - 1; sent = s.sent ++ item ∷ [] }

-- `if tx.send(Ok(outgoing)).await.is_err() { downstream_closed = true; }`
unfoldable pub send : List ℕ → Relay → Relay
unfolding send_item
send outgoing s =
    if eqb s.receiver 0 then record s { downstream_closed = true } else send_item (chunk outgoing) s

module _ (setup : Setup) where
  abbrev pub requires_buffer : Bool
  requires_buffer = stream_requires_sse_event_buffer setup.transformer_name

  abbrev pub captured : List ℕ → Relay → Relay
  captured outgoing s = record s {
    transformed_response =
        capture_stream_chunk outgoing setup.capture_body setup.debug_capture_body
          s.transformed_response;
  }

  -- Bytes for the client are captured and sent.
  unfoldable pub deliver : List ℕ → Relay → Relay
  unfolding capture_stream_chunk send
  deliver outgoing s = send outgoing (captured outgoing s)

  abbrev pub see_transformed : List ℕ → Relay → Relay
  see_transformed payload s = record s {
    stream_debug = stream_debug_update_transformed_chunk setup.from_str payload s.stream_debug;
  }

  abbrev pub count_finalizer : List ℕ → Relay → Relay
  count_finalizer finalizer s = see_transformed finalizer (record s {
    stream_debug = record s.stream_debug {
      finalizer_count = s.stream_debug.finalizer_count + 1;
      finalizer_bytes = s.stream_debug.finalizer_bytes + length finalizer;
    };
  })

  -- The stream fails: the client gets what the transformer ends with, or else an error. The
  -- finalizer is not counted when the buffer overflows.
  abbrev pub end_or_error : Bool → String → List ℕ → Relay → Relay
  end_or_error counted message finalizer s =
      if is_nil finalizer
      then send_item (io_error message) s
      else deliver finalizer (if counted then count_finalizer finalizer s else s)

  unfoldable pub fail : Bool → String → Relay → Relay
  unfolding finalize_stream_transform send_item deliver
  fail counted message s =
      let end = finalize_stream_transform setup.to_string setup.transformer_name s.stream_ctx in
      end_or_error counted message end.1 (record s { stream_failed = true; stream_ctx = end.0 })

  -- An event is counted and converted.
  abbrev pub after_event : List ℕ → Relay → Relay
  after_event event s = record s {
    stream_debug = stream_debug_update_upstream_event setup.from_str event s.stream_debug;
    stream_ctx = (setup.transform_sse_event event s.stream_ctx).0;
  }

  -- `if !converted.is_empty()`.
  abbrev pub see_converted : List ℕ → Relay → Relay
  see_converted converted s = if is_nil converted then s else see_transformed converted s

  abbrev pub push_converted : List ℕ → List (List ℕ) → List (List ℕ)
  push_converted converted chunks = if is_nil converted then chunks else converted ∷ chunks

  -- The loop over the events of a chunk, with `transformed_chunks`. The events are cut
  -- beforehand: a failure leaves the loop, and the buffer is not read again.
  unfoldable pub transform_events : List (List ℕ) → Relay → Relay × List (List ℕ)
  unfolding fail
  transform_events [] s = (s, [])
  transform_events (event ∷ events) s = elim (setup.transform_sse_event event s.stream_ctx).1 [
    | err message ↦ (fail true "stream transform failed" (after_event event s), [])
    | ok converted ↦
        let (rest, chunks) =
          transform_events events (see_converted converted (after_event event s)) in
        (rest, push_converted converted chunks)
  ]

  -- `stream_debug.downstream_send_count += 1`.
  abbrev pub count_send : Relay → Relay
  count_send s = record s {
    stream_debug = record s.stream_debug {
      downstream_send_count = s.stream_debug.downstream_send_count + 1;
    };
  }

  -- The loop over `outgoing_chunks`.
  unfoldable pub forward : List (List ℕ) → Relay → Relay
  unfolding deliver
  forward [] s = s
  forward (outgoing ∷ rest) s =
      let t = deliver outgoing (count_send s) in
      let more = forward rest t in if t.downstream_closed then t else more

  -- The chunks of a read, unless an event has failed.
  abbrev pub forward_if : Relay × List (List ℕ) → Relay
  forward_if (t, chunks) = let all = forward chunks t in if t.stream_failed then t else all

  unfoldable pub forward_events : Relay → Relay
  unfolding all_events transform_events forward fail
  forward_events s =
      let cut = all_events s.sse_pending in
      let converted = transform_events cut.0 (record s { sse_pending = cut.1 }) in
      if ltb max_sse_pending_bytes (length s.sse_pending)
      then fail false "stream transform buffer overflow" s
      else forward_if converted

  -- The usage and the capture of a chunk that passes the probe.
  unfoldable pub take_in : List ℕ → Relay → Relay
  unfolding consume_chunk capture_stream_chunk
  take_in incoming s = record s {
    probe_sse = false;
    usage_acc = consume_chunk setup.from_str incoming s.usage_acc;
    upstream_response =
        capture_stream_chunk incoming setup.capture_body setup.debug_capture_body
          s.upstream_response;
  }

  -- `Ok(Some(bytes))`.
  abbrev pub seen : List ℕ → Relay → Relay
  seen incoming s = record s {
    stream_debug = stream_debug_update_upstream_chunk incoming s.stream_debug;
  }

  abbrev pub buffered : List ℕ → Relay → Relay
  buffered incoming s = record s { sse_pending = s.sse_pending ++ incoming }

  abbrev pub probe_failed : Relay → Relay
  probe_failed s =
      send_item (io_error "upstream stream probe failed: non-SSE payload")
        (record s { probe_sse = false; stream_failed = true })

  unfoldable pub on_chunk : List ℕ → Relay → Relay
  unfolding stream_debug_update_upstream_chunk looks_like_sse_prelude send_item take_in forward
      forward_events
  on_chunk incoming s =
      let taken = take_in incoming (seen incoming s) in
      if s.probe_sse && not (looks_like_sse_prelude incoming)
      then probe_failed (seen incoming s)
      else if requires_buffer
      then forward_events (buffered incoming taken)
      else forward (incoming ∷ []) taken

  -- The bytes after the last event, at the end of the stream.
  abbrev pub send_tail : List ℕ → Relay → Relay
  send_tail converted s = if is_nil converted then s else deliver converted s

  abbrev pub after_tail : Relay → Relay
  after_tail s = record s {
    sse_pending = [];
    stream_ctx = (setup.transform_sse_event s.sse_pending s.stream_ctx).0;
  }

  unfoldable pub transform_tail : Relay → Relay
  unfolding fail deliver
  transform_tail s =
      let t = after_tail s in
      elim (setup.transform_sse_event s.sse_pending s.stream_ctx).1 [
        | err message ↦ fail true "stream transform failed" t
        | ok converted ↦ send_tail converted t
      ]

  abbrev pub send_finalizer : List ℕ → Relay → Relay
  send_finalizer finalizer s =
      if is_nil finalizer then s else deliver finalizer (count_finalizer finalizer s)

  unfoldable pub send_end : Relay → Relay
  unfolding finalize_stream_transform deliver
  send_end s =
      let end = finalize_stream_transform setup.to_string setup.transformer_name s.stream_ctx in
      if s.downstream_closed then s else send_finalizer end.1 (record s { stream_ctx = end.0 })

  -- `Ok(None)`.
  unfoldable pub on_end : Relay → Relay
  unfolding transform_tail send_end
  on_end s =
      send_end (if requires_buffer && not (is_nil s.sse_pending) then transform_tail s else s)

  -- The loop. Each `break` in the round of a chunk follows a failure or a closed channel, and no
  -- other round sets either.
  unfoldable pub relay : List Read → Relay → Relay
  unfolding on_chunk on_end fail
  relay [] s = on_end s
  relay (read_error ∷ reads) s = fail true "stream read failed" s
  relay (bytes incoming ∷ reads) s =
      let t = on_chunk incoming s in
      let rest = relay reads t in if t.stream_failed || t.downstream_closed then t else rest
