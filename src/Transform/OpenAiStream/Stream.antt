-- ===== src/Transform/OpenAiStream/Stream.antt =====
-- A whole OpenAI stream through transformer/convert/claude_openai.rs, as a Claude client reads it.
use ai_open_router.Prelude.{
  String, ◌≡◌, refl, sym, Bool, true, false, some, List, [], ◌∷◌, ◌++◌, ◌∙◌, Bool-cases,
  Option-cases, inl, inr, arith,
}
use ai_open_router.Text.{is_empty}
use ai_open_router.Transform.Context.{OpenAiStreamChunk, StreamContext}
use ai_open_router.Transform.Events.{ClaudeEvent, message_delta, message_stop}
use ai_open_router.Transform.OpenAiStream.{
  Output, begin, close_all, start_message, emit_chunk, finalize, finalize_openai_stream_to_claude,
}
use ai_open_router.Transform.OpenAiStream.Reader.{
  Block, closed, in_text, in_thinking, in_tool, Reader, waiting, reading, finished, read, read_all,
  read_all-push,
}
use ai_open_router.Transform.OpenAiStream.Blocks.{IsSound, Shows, close_all-IsSound}
use ai_open_router.Transform.OpenAiStream.Deltas.{is_tool, Lands}
use ai_open_router.Transform.OpenAiStream.Laws.{choices_announced, emit_choices-Settles, Settles}

-- The chunks of a stream, each with the identifier that is fresh for it, and its end: the events
-- of each call come one after the other.
unfoldable pub convert_stream : List (String × OpenAiStreamChunk) → StreamContext → Output
unfolding emit_chunk finalize_openai_stream_to_claude
convert_stream [] ctx = finalize_openai_stream_to_claude ctx
convert_stream ((fresh, chunk) ∷ chunks) ctx =
    let first = emit_chunk fresh chunk (begin ctx) in
    let rest = convert_stream chunks first.ctx in
    record rest { result = first.result ++ rest.result }

-- Every call's tool arguments belong to a block that is open, or come with an id.
abbrev pub Announced : List (String × OpenAiStreamChunk) → StreamContext → Type 0
Announced [] ctx = Unit
Announced ((fresh, chunk) ∷ chunks) ctx =
    (choices_announced ctx.tool_block_started chunk.choices ≡ true)
    × Announced chunks (emit_chunk fresh chunk (begin ctx)).ctx

-- What a reader has seen when a context is as it is.
abbrev pub Before : Reader → StreamContext → Type 0
Before waiting ctx = (ctx.message_start_sent ≡ false) × Shows closed ctx
Before finished ctx = ⊥
Before (reading b) ctx = (ctx.message_start_sent ≡ true) × Shows b ctx

tool_of_Shows : (b : Block) (ctx : StreamContext) → Shows b ctx → is_tool b ≡ ctx.tool_block_started
tool_of_Shows closed ctx h = sym h.2
tool_of_Shows (in_text i) ctx h = sym h.2
tool_of_Shows (in_thinking i) ctx h = sym h.2
tool_of_Shows (in_tool i) ctx h = sym h.2

Shows-renamed :
    (b : Block) (ctx : StreamContext) (sent : Bool) (id : String)
    → Shows b ctx
    → Shows b (record ctx { message_start_sent = sent; message_id = id })
Shows-renamed closed ctx sent id h = h
Shows-renamed (in_text i) ctx sent id h = h
Shows-renamed (in_thinking i) ctx sent id h = h
Shows-renamed (in_tool i) ctx sent id h = h

start_message-Lands :
    (from : Reader) (fresh : String) (chunk : OpenAiStreamChunk) (ctx : StreamContext)
    → Before from ctx
    → Lands from ctx.tool_block_started (start_message fresh chunk (begin ctx))
unfolding start_message read read_all
start_message-Lands waiting fresh chunk ctx (s, h) = elim (Bool-cases (is_empty chunk.id)) [
  | inl e ↦
      rw (e, s)
        (record {
          block = closed;
          sound = record { reads = refl; started = refl; shows = h };
          open_tool = sym h.2;
        })
  | inr e ↦
      rw (e, s)
        (record {
          block = closed;
          sound = record { reads = refl; started = refl; shows = h };
          open_tool = sym h.2;
        })
]
start_message-Lands finished fresh chunk ctx h = absurd h
start_message-Lands (reading b) fresh chunk ctx (s, h) = elim (Bool-cases (is_empty chunk.id)) [
  | inl e ↦
      rw (e, s)
        (record {
          block = b;
          sound = record { reads = refl; started = refl; shows = Shows-renamed b ctx true _ h };
          open_tool = tool_of_Shows b ctx h;
        })
  | inr e ↦
      rw (e, s)
        (record {
          block = b;
          sound = record {
            reads = refl;
            started = refl;
            shows = Shows-renamed b ctx true ctx.message_id h;
          };
          open_tool = tool_of_Shows b ctx h;
        })
]

-- The events of a chunk.
pub emit_chunk-Settles :
    (from : Reader) (fresh : String) (chunk : OpenAiStreamChunk) (ctx : StreamContext)
    → Before from ctx
    → choices_announced ctx.tool_block_started chunk.choices ≡ true
    → Settles from (emit_chunk fresh chunk (begin ctx))
unfolding emit_chunk
emit_chunk-Settles from fresh chunk ctx h k =
    emit_choices-Settles from chunk.choices chunk.usage ctx.tool_block_started _
      (start_message-Lands from fresh chunk ctx h) k

-- Events that are read to the end, and not over it.
read_all-append :
    (from to : Reader) (events more : List ClaudeEvent)
    → read_all from events ≡ some to
    → read_all from (events ++ more) ≡ read_all to more
unfolding read_all
read_all-append from to [] more h = ground arith
read_all-append from to (first ∷ events) more h = elim (Option-cases (read from first)) [
  | inl e ↦ absurd (ground arith)
  | inr (mid, e) ↦ rw (read_all, e) (read_all-append mid to events more (ground arith))
]

finalize-finished :
    (from : Reader) (b : Block) (o : Output)
    → IsSound from b o
    → read_all from (finalize o).result ≡ some finished
unfolding finalize read
finalize-finished from b o h =
    let shut = close_all-IsSound from b o h in
    elim (Bool-cases (close_all o).ctx.finish_reason_sent) [
      | inl e ↦
          rw (shut.started, e, shut.started)
            (read_all-push from (reading closed) finished (close_all o).result message_stop
              shut.reads refl)
      | inr e ↦
          let told =
            read_all-push from (reading closed) (reading closed) (close_all o).result
              (message_delta "end_turn") shut.reads refl in
          rw (shut.started, e)
            (read_all-push from (reading closed) finished _ message_stop told refl)
    ]

-- From a block on, what comes is read to the end of the message.
convert_stream-rest :
    (chunks : List (String × OpenAiStreamChunk)) (b : Block) (ctx : StreamContext)
    → ctx.message_start_sent ≡ true
    → Shows b ctx
    → Announced chunks ctx
    → read_all (reading b) (convert_stream chunks ctx).result ≡ some finished
unfolding convert_stream finalize_openai_stream_to_claude read_all
convert_stream-rest [] b ctx s h k =
    finalize-finished (reading b) b (begin ctx) (record { reads = refl; started = s; shows = h })
convert_stream-rest ((fresh, chunk) ∷ chunks) b ctx s h k =
    let (next, first) = emit_chunk-Settles (reading b) fresh chunk ctx (s, h) k.0 in
    read_all-append (reading b) (reading next) (emit_chunk fresh chunk (begin ctx)).result
      (convert_stream chunks (emit_chunk fresh chunk (begin ctx)).ctx).result first.reads
    ∙ convert_stream-rest chunks next _ first.started first.shows k.1

-- The events of an OpenAI stream with at least one chunk, and of its end, are a complete Claude
-- message: it starts once, its blocks are opened and closed one at a time at the index that is
-- open, and it is stopped at the end, provided that tool arguments come in an open tool block or
-- with an id.
pub convert_stream-finished :
    (fresh : String) (chunk : OpenAiStreamChunk) (chunks : List (String × OpenAiStreamChunk))
    (ctx : StreamContext)
    → Before waiting ctx
    → Announced ((fresh, chunk) ∷ chunks) ctx
    → read_all waiting (convert_stream ((fresh, chunk) ∷ chunks) ctx).result ≡ some finished
unfolding convert_stream
convert_stream-finished fresh chunk chunks ctx h k =
    let (next, first) = emit_chunk-Settles waiting fresh chunk ctx h k.0 in
    read_all-append waiting (reading next) (emit_chunk fresh chunk (begin ctx)).result
      (convert_stream chunks (emit_chunk fresh chunk (begin ctx)).ctx).result first.reads
    ∙ convert_stream-rest chunks next _ first.started first.shows k.1
