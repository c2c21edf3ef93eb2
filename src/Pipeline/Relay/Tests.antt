-- ===== src/Pipeline/Relay/Tests.antt =====
-- The relay of proxy/pipeline.rs at concrete streams.
use ai_open_router.Prelude.{
  ℕ, String, ◌≡◌, refl, true, false, Option, ◌==◌, none, some, List, [], ◌∷◌, ◌++◌, ltb, length,
  concat, map, if◌then◌else◌, Result, ok, err, arith,
}
use ai_open_router.Transform.Context.{StreamContext, OpenAiStreamChunk, pos}
use ai_open_router.Transform.Common.{parse_sse}
use ai_open_router.Transform.Events.{ClaudeEvent, encode}
use ai_open_router.Transform.OpenAiStream.Reader.{waiting, finished, read_all}
use ai_open_router.Transform.OpenAiStream.Stream.{Announced, Before}
use ai_open_router.Pipeline.Relay.Chat.{chat_setup, CarryAll, surplus, tagged, relay-finished}
use ai_open_router.Transform.Context
use ai_open_router.Pipeline.Framing.{all_events}
use ai_open_router.Pipeline.Request.{stream_requires_sse_event_buffer}
use ai_open_router.Pipeline.Relay.{
  Setup, chunk, io_error, bytes, Relay, start_debug, start_relay, relay, on_chunk, requires_buffer,
}
use ai_open_router.Pipeline.Relay.Events.{Runs, translate, sent_bytes}
use ai_open_router.Pipeline.Relay.End.{Delivers}
use ai_open_router.Pipeline.Relay.Reference.{reference}
use ai_open_router.Pipeline.Relay.Refinement.{relay-reference}
use ai_open_router.Pipeline.Relay.Passthrough.{relay-passthrough}
use ai_open_router.Pipeline.Relay.Failures.{closing, end_of, on_chunk-failed_event}

-- A transformer that repeats an event, and refuses one of more than three bytes.
abbrev twice : List ℕ → StreamContext → StreamContext × Result String (List ℕ)
twice event ctx = (ctx, if ltb 3 (length event) then err "too long" else ok (event ++ event))

abbrev setup_of : String → Setup
setup_of name = record {
  from_str = λ s. none;
  to_string = λ v. "{}";
  transform_sse_event = twice;
  transformer_name = name;
  capture_body = true;
  debug_capture_body = false;
}

abbrev converting : Setup
converting = setup_of "cx_resp_claude"

abbrev passing : Setup
passing = setup_of "cc_claude"

abbrev start : Relay
start = start_relay false Context.new (start_debug "" true false "text/event-stream") 8

-- "a" and a blank line, in two chunks; the second one begins another event.
abbrev chunks : List (List ℕ)
chunks = (b'a' ∷ b'\n' ∷ []) ∷ (b'\n' ∷ b'b' ∷ []) ∷ []

abbrev long : List ℕ
long = b'a' ∷ b'\n' ∷ b'\n' ∷ b'b' ∷ b'b' ∷ b'\n' ∷ b'\n' ∷ []

start-Runs : Runs Context.new [] [] start
start-Runs = record {
  ctx_is = refl;
  pending_is = refl;
  received_is = refl;
  not_failed = refl;
  not_closed = refl;
  not_probed = refl;
}

converting_buffers : requires_buffer converting ≡ true
unfolding stream_requires_sse_event_buffer
converting_buffers = refl

stays : (relay converting (map bytes chunks) start).downstream_closed ≡ false
unfolding relay stream_requires_sse_event_buffer
stays = refl

relays :
    (relay converting (map bytes chunks) start).sent
    ≡ (chunk (b'a' ∷ b'\n' ∷ b'\n' ∷ b'a' ∷ b'\n' ∷ b'\n' ∷ []) ∷ chunk (b'b' ∷ b'b' ∷ []) ∷ [])
unfolding relay stream_requires_sse_event_buffer
relays = refl

relay-reference_example :
    Delivers
      (reference converting (concat chunks) Context.new)
      []
      (relay converting (map bytes chunks) start)
relay-reference_example =
    relay-reference converting chunks start start-Runs converting_buffers (omega arith) stays

passing_passes : requires_buffer passing ≡ false
unfolding stream_requires_sse_event_buffer
passing_passes = refl

passing_stays : (relay passing (map bytes chunks) start).downstream_closed ≡ false
unfolding relay stream_requires_sse_event_buffer
passing_stays = refl

relay-passthrough_example :
    Delivers (some (concat chunks)) [] (relay passing (map bytes chunks) start)
relay-passthrough_example =
    relay-passthrough passing chunks Context.new [] [] start start-Runs passing_passes passing_stays

refused : translate converting (all_events ([] ++ long)).0 Context.new ≡ none
unfolding translate all_events
refused = refl

-- The first event of the read converts, and is not sent.
drops : (on_chunk converting long start).sent ≡ io_error "stream transform failed" ∷ []
unfolding on_chunk stream_requires_sse_event_buffer
drops = refl

-- It is sent if it comes in a read of its own.
keeps :
    (relay converting
      (bytes (b'a' ∷ b'\n' ∷ b'\n' ∷ []) ∷ bytes (b'b' ∷ b'b' ∷ b'\n' ∷ b'\n' ∷ []) ∷ [])
      start).sent
    ≡ (chunk (b'a' ∷ b'\n' ∷ b'\n' ∷ b'a' ∷ b'\n' ∷ b'\n' ∷ [])
        ∷ io_error "stream transform failed"
        ∷ [])
unfolding relay stream_requires_sse_event_buffer
keeps = refl

on_chunk-failed_event_example :
    ((on_chunk converting long start).stream_failed ≡ true)
    × ((on_chunk converting long start).sent
        ≡ start.sent
          ++ closing converting "stream transform failed"
              (end_of converting (all_events ([] ++ long)).0 start.stream_ctx)
            ∷ [])
on_chunk-failed_event_example =
    on_chunk-failed_event converting Context.new [] [] long start start-Runs converting_buffers
      (omega arith) refused refl

-- A chat stream of one chunk and its marker, in three reads.
abbrev hello : OpenAiStreamChunk
hello = record {
  id = "chatcmpl-1";
  object = "chat.completion.chunk";
  created = pos 0;
  model = "gpt";
  choices =
      (record {
        index = pos 0;
        delta = record {
          role = none;
          content = some "Hi";
          reasoning_content = none;
          tool_calls = none;
        };
        finish_reason = none;
      })
      ∷ [];
  usage = none;
}

abbrev typed : String → Option OpenAiStreamChunk
typed s = if s == "{}" then some hello else none

abbrev reads : List (List ℕ)
reads =
    (b'd' ∷ b'a' ∷ b't' ∷ b'a' ∷ b':' ∷ b' ' ∷ [])
    ∷ (b'{' ∷ b'}' ∷ b'\n' ∷ b'\n' ∷ b'd' ∷ b'a' ∷ b't' ∷ b'a' ∷ b':' ∷ b' ' ∷ b'[' ∷ [])
    ∷ (b'D' ∷ b'O' ∷ b'N' ∷ b'E' ∷ b']' ∷ b'\n' ∷ b'\n' ∷ [])
    ∷ []

abbrev chat : Setup
chat = chat_setup typed (λ s. none) (λ v. "{}") "msg_1" false false

whole : (all_events (concat reads)).1 ≡ []
unfolding all_events
whole = refl

hello_carried : CarryAll typed true (all_events (concat reads)).0 (hello ∷ [])
unfolding all_events parse_sse
hello_carried = (record { not_empty = refl; not_done = refl; parsed = refl }, (refl, refl))

starts_fresh : Before waiting start.stream_ctx
unfolding Context.new
starts_fresh = (refl, (refl, refl, refl))

all-Announced : Announced (tagged "msg_1" (hello ∷ [])) start.stream_ctx
all-Announced = (refl, tt)

chat_stays : (relay chat (map bytes reads) start).downstream_closed ≡ false
unfolding relay stream_requires_sse_event_buffer
    ai_open_router.Transform.OpenAiStream.openai_stream_to_claude Context.new
chat_stays = refl

relay-finished_example :
    (events : List ClaudeEvent) × (sent_bytes (relay chat (map bytes reads) start).sent
      ≡ encode (λ v. "{}") (events ++ surplus true))
    × (read_all waiting events ≡ some finished)
    × ((relay chat (map bytes reads) start).stream_failed ≡ false)
relay-finished_example =
    relay-finished typed (λ s. none) (λ v. "{}") "msg_1" false false true reads hello [] start
      start-Runs (omega arith) chat_stays whole hello_carried starts_fresh all-Announced
