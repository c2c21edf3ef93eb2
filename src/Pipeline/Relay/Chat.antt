-- ===== src/Pipeline/Relay/Chat.antt =====
-- The relay of proxy/pipeline.rs with transformer/cc/openai.rs: an OpenAI chat stream, in whatever
-- chunks of bytes it comes, for a Claude client.
use ai_open_router.Prelude.{
  ◌&&◌, if◌then◌else◌, arith, ℕ, String, ◌≡◌, refl, ap, sym, ◌∙◌, subst, ◌≤◌, Bool, true, false,
  Option, none, some, List, [], ◌∷◌, ◌++◌, ◌==◌, map, length, concat, append_assoc, Result, ok, err,
  ◌>>=◌,
}
use ai_open_router.Text.{is_empty}
use ai_open_router.Json.{Value}
use ai_open_router.Transform.Common.{parse_sse}
use ai_open_router.Transform.Context.{OpenAiStreamChunk, StreamContext}
use ai_open_router.Transform.Events.{
  ClaudeEvent, message_stop, encode, build_claude_event, event_type, event_json,
}
use ai_open_router.Transform.OpenAiStream.{Output, begin, emit_chunk, openai_stream_to_claude}
use ai_open_router.Transform.OpenAiStream.Reader.{Block, reading, waiting, finished, read_all}
use ai_open_router.Transform.OpenAiStream.Stream.{
  convert_stream, Announced, Before, convert_stream-finished, emit_chunk-Settles,
}
use ai_open_router.Pipeline.Framing.{all_events}
use ai_open_router.Pipeline.Relay.{
  Setup, bytes, Relay, relay, max_sse_pending_bytes, finalize_stream_transform,
  finalize_openai_stream_to_claude,
}
use ai_open_router.Pipeline.Relay.Events.{Runs, translate, shift, sent_bytes}
use ai_open_router.Pipeline.Relay.Transform.{translate-ok}
use ai_open_router.Pipeline.Request.{stream_requires_sse_event_buffer}
use ai_open_router.Transform.OpenAiStream.Finalizer.{finalize_openai_stream_to_claude-again}
use ai_open_router.Transform.OpenAiStream.Blocks.{Shows}
use mathlib.Core.List.{append-nil}
use ai_open_router.Pipeline.Relay.End.{Delivers, finalizer, translate_end}
use ai_open_router.Pipeline.Relay.Reference.{reference, after}
use ai_open_router.Pipeline.Relay.Refinement.{relay-reference}

and_true : (b : Bool) → (b && true) ≡ b
and_true true = refl
and_true false = refl

encode-append :
    (to_string : Value → String) (events more : List ClaudeEvent)
    → encode to_string (events ++ more) ≡ encode to_string events ++ encode to_string more
unfolding encode
encode-append to_string [] more = refl
encode-append to_string (event ∷ events) more =
    let first = build_claude_event to_string (event_type event) (event_json event) in
    ap (λ out. first ++ out) (encode-append to_string events more)
    ∙ sym (append_assoc first (encode to_string events) (encode to_string more))

-- An event that carries a chunk.
pub record Carries (typed : String → Option OpenAiStreamChunk) (event : List ℕ)
    (chunk : OpenAiStreamChunk) : Type 0 where
  pub not_empty : is_empty (parse_sse event).1 ≡ false
  pub not_done : ((parse_sse event).1 == "[DONE]") ≡ false
  pub parsed : typed (parse_sse event).1 ≡ some chunk

-- The events carry the chunks, one each. A marked stream has one event more, the marker of the end.
abbrev pub CarryAll :
    (String → Option OpenAiStreamChunk) → Bool → List (List ℕ) → List OpenAiStreamChunk → Type 0
CarryAll typed marked [] [] = marked ≡ false
CarryAll typed marked (event ∷ []) [] = (marked ≡ true) × ((parse_sse event).1 ≡ "[DONE]")
CarryAll typed marked (event ∷ next ∷ events) [] = ⊥
CarryAll typed marked [] (chunk ∷ chunks) = ⊥
CarryAll typed marked (event ∷ events) (chunk ∷ chunks) =
    Carries typed event chunk × CarryAll typed marked events chunks

-- What the end of a marked stream adds to a message that the marker has stopped.
abbrev pub surplus : Bool → List ClaudeEvent
surplus marked = if marked then message_stop ∷ [] else []

abbrev pub tagged : String → List OpenAiStreamChunk → List (String × OpenAiStreamChunk)
tagged fresh [] = []
tagged fresh (chunk ∷ chunks) = (fresh, chunk) ∷ tagged fresh chunks

-- The libraries, and an identifier for a stream whose chunks have none.
module _ (typed : String → Option OpenAiStreamChunk) (from_str : String → Option Value)
    (to_string : Value → String) (fresh : String) (capture_body debug : Bool) where
  abbrev answer : Output × Bool → StreamContext × Result String (List ℕ)
  answer (o, true) = (o.ctx, ok (encode to_string o.result))
  answer (o, false) = (o.ctx, err "parse openai stream chunk")

  -- `OpenAITransformer::transform_response_with_context`.
  abbrev pub transform_chat_event : List ℕ → StreamContext → StreamContext × Result String (List ℕ)
  transform_chat_event event ctx = answer (openai_stream_to_claude typed fresh event ctx)

  abbrev pub chat_setup : Setup
  chat_setup = record {
    from_str = from_str;
    to_string = to_string;
    transform_sse_event = transform_chat_event;
    transformer_name = "cc_openai";
    capture_body = capture_body;
    debug_capture_body = debug;
  }

  transform-Carries :
      (event : List ℕ) (chunk : OpenAiStreamChunk) (ctx : StreamContext)
      → Carries typed event chunk
      → transform_chat_event event ctx ≡ (
        (emit_chunk fresh chunk (begin ctx)).ctx,
        ok (encode to_string (emit_chunk fresh chunk (begin ctx)).result),
      )
  unfolding openai_stream_to_claude
  transform-Carries event chunk ctx h =
      rw (openai_stream_to_claude, h.not_empty, h.not_done, h.parsed) refl

  abbrev ended : Option (StreamContext × List ℕ) → Option (List ℕ)
  ended o = o >>= λ mid. some (mid.1 ++ finalizer chat_setup mid.0)

  ended-shift :
      (out : List ℕ) (o : Option (StreamContext × List ℕ))
      → ended (shift out o) ≡ after out (ended o)
  ended-shift out none = refl
  ended-shift out (some (ctx, more)) = ap some (append_assoc out more (finalizer chat_setup ctx))

  -- The context after the chunks.
  abbrev last_ctx : List OpenAiStreamChunk → StreamContext → StreamContext
  last_ctx [] ctx = ctx
  last_ctx (chunk ∷ chunks) ctx = last_ctx chunks (emit_chunk fresh chunk (begin ctx)).ctx

  abbrev chat_result : Bool → List OpenAiStreamChunk → StreamContext → List ClaudeEvent
  chat_result marked chunks ctx =
      (convert_stream (tagged fresh chunks) ctx).result
      ++ surplus (marked && (last_ctx chunks ctx).message_start_sent)

  transform-mark :
      (event : List ℕ) (ctx : StreamContext)
      → (parse_sse event).1 ≡ "[DONE]"
      → transform_chat_event event ctx ≡ (
        (finalize_openai_stream_to_claude ctx).ctx,
        ok (encode to_string (finalize_openai_stream_to_claude ctx).result),
      )
  unfolding openai_stream_to_claude
  transform-mark event ctx h = rw (openai_stream_to_claude, h) refl

  translate-mark :
      (event : List ℕ) (ctx : StreamContext)
      → (parse_sse event).1 ≡ "[DONE]"
      → ended (translate chat_setup (event ∷ []) ctx)
        ≡ some (encode to_string (chat_result true [] ctx))
  unfolding translate convert_stream finalize_stream_transform
  translate-mark event ctx h =
      let done = finalize_openai_stream_to_claude ctx in
      let out = encode to_string done.result in
      let transformed = transform-mark event ctx h in
      ap ended (translate-ok chat_setup event [] ctx out (ap (λ r. r.1) transformed))
      ∙ ap (λ r. ended (shift out (translate chat_setup [] r.0))) transformed
      ∙ ended-shift out (translate chat_setup [] done.ctx)
      ∙ ap (λ events. some (out ++ encode to_string events))
          (finalize_openai_stream_to_claude-again ctx)
      ∙ ap some (sym (encode-append to_string done.result (surplus ctx.message_start_sent)))

  translate-chat :
      (marked : Bool) (events : List (List ℕ)) (chunks : List OpenAiStreamChunk)
      (ctx : StreamContext)
      → CarryAll typed marked events chunks
      → ended (translate chat_setup events ctx)
        ≡ some (encode to_string (chat_result marked chunks ctx))
  unfolding translate convert_stream finalize_stream_transform
  translate-chat true [] [] ctx h = absurd (ground arith)
  translate-chat false [] [] ctx h =
      ap (λ events. some (encode to_string events))
        (sym (append-nil (finalize_openai_stream_to_claude ctx).result))
  translate-chat false (event ∷ []) [] ctx h = absurd (ground arith)
  translate-chat true (event ∷ []) [] ctx h = translate-mark event ctx h.1
  translate-chat marked (event ∷ next ∷ events) [] ctx h = absurd h
  translate-chat marked [] (chunk ∷ chunks) ctx h = absurd h
  translate-chat marked (event ∷ events) (chunk ∷ chunks) ctx (h, k) =
      let first = emit_chunk fresh chunk (begin ctx) in
      let out = encode to_string first.result in
      let rest = convert_stream (tagged fresh chunks) first.ctx in
      let transformed = transform-Carries event chunk ctx h in
      ap ended (translate-ok chat_setup event events ctx out (ap (λ r. r.1) transformed))
      ∙ ap (λ r. ended (shift out (translate chat_setup events r.0))) transformed
      ∙ ended-shift out (translate chat_setup events first.ctx)
      ∙ ap (after out) (translate-chat marked events chunks first.ctx k)
      ∙ ap some (sym (encode-append to_string first.result (chat_result marked chunks first.ctx)))
      ∙ ap (λ events. some (encode to_string events))
          (sym (append_assoc first.result rest.result _))

  rest_started :
      (b : Block) (chunks : List OpenAiStreamChunk) (ctx : StreamContext)
      → ctx.message_start_sent ≡ true
      → Shows b ctx
      → Announced (tagged fresh chunks) ctx
      → (last_ctx chunks ctx).message_start_sent ≡ true
  rest_started b [] ctx s h k = s
  rest_started b (chunk ∷ chunks) ctx s h k =
      let (next, first) = emit_chunk-Settles (reading b) fresh chunk ctx (s, h) k.0 in
      rest_started next chunks _ first.started first.shows k.1

  all_started :
      (chunk : OpenAiStreamChunk) (chunks : List OpenAiStreamChunk) (ctx : StreamContext)
      → Before waiting ctx
      → Announced (tagged fresh (chunk ∷ chunks)) ctx
      → (last_ctx (chunk ∷ chunks) ctx).message_start_sent ≡ true
  all_started chunk chunks ctx h k =
      let (next, first) = emit_chunk-Settles waiting fresh chunk ctx h k.0 in
      rest_started next chunks _ first.started first.shows k.1

  translate_end-nil :
      (o : Option (StreamContext × List ℕ))
      → (o >>= λ mid. after mid.1 (translate_end chat_setup [] mid.0)) ≡ ended o
  unfolding translate_end translate
  translate_end-nil none = refl
  translate_end-nil (some mid) = refl

  -- The whole stream, when no bytes are left after its last event.
  reference-chat :
      (marked : Bool) (stream : List ℕ) (chunks : List OpenAiStreamChunk) (ctx : StreamContext)
      → (all_events stream).1 ≡ []
      → CarryAll typed marked (all_events stream).0 chunks
      → reference chat_setup stream ctx ≡ some (encode to_string (chat_result marked chunks ctx))
  unfolding reference
  reference-chat marked stream chunks ctx e h =
      ap
        (λ rest. translate chat_setup (all_events stream).0 ctx >>= λ mid.
          after mid.1 (translate_end chat_setup rest mid.0))
        e
      ∙ translate_end-nil (translate chat_setup (all_events stream).0 ctx)
      ∙ translate-chat marked (all_events stream).0 chunks ctx h

  -- However the bytes of an OpenAI chat stream are cut into reads, a Claude client that stays
  -- gets exactly the bytes of one complete message, followed by one more message_stop if the
  -- stream ends with its end marker, and the stream does not fail, if there is a chunk, every
  -- other event carries one, no bytes are left over, the bytes fit the buffer, the relay is
  -- fresh, and tool arguments come in an open tool block or with an id.
  pub relay-finished :
      (marked : Bool) (reads : List (List ℕ)) (chunk : OpenAiStreamChunk)
      (chunks : List OpenAiStreamChunk) (s : Relay)
      → Runs s.stream_ctx [] [] s
      → length (concat reads) ≤ max_sse_pending_bytes
      → (relay chat_setup (map bytes reads) s).downstream_closed ≡ false
      → (all_events (concat reads)).1 ≡ []
      → CarryAll typed marked (all_events (concat reads)).0 (chunk ∷ chunks)
      → Before waiting s.stream_ctx
      → Announced (tagged fresh (chunk ∷ chunks)) s.stream_ctx
      → (events : List ClaudeEvent) × (sent_bytes (relay chat_setup (map bytes reads) s).sent
          ≡ encode to_string (events ++ surplus marked))
        × (read_all waiting events ≡ some finished)
        × ((relay chat_setup (map bytes reads) s).stream_failed ≡ false)
  unfolding all_events stream_requires_sse_event_buffer
  relay-finished marked reads chunk chunks s h fits k e carry before announced =
      let delivers =
        subst (λ o. Delivers o [] (relay chat_setup (map bytes reads) s))
          (reference-chat marked (concat reads) (chunk ∷ chunks) s.stream_ctx e carry)
          (relay-reference chat_setup reads s h refl fits k) in
      let events = (convert_stream (tagged fresh (chunk ∷ chunks)) s.stream_ctx).result in
      (
        events,
        delivers.1
            ∙ ap (λ sent. encode to_string (events ++ surplus (marked && sent)))
                (all_started chunk chunks s.stream_ctx before announced)
            ∙ ap (λ m. encode to_string (events ++ surplus m)) (and_true marked),
        convert_stream-finished fresh chunk (tagged fresh chunks) s.stream_ctx before announced,
        delivers.0,
      )
