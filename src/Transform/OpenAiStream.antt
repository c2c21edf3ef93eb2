-- ===== src/Transform/OpenAiStream.antt =====
-- transformer/convert/claude_openai.rs: an OpenAI chat stream as the events of a Claude stream.
pub mod Reader
pub mod Blocks
pub mod Deltas
pub mod Laws
pub mod Stream
pub mod Finalizer
use ai_open_router.Prelude.{
  ℕ, String, Bool, true, false, not, ◌&&◌, ◌||◌, Option, none, some, is_some, List, [], ◌∷◌, ◌++◌,
  ◌==◌, if◌then◌else◌, get_or, is_nil,
}
use ai_open_router.Text.{is_empty}
use ai_open_router.Transform.Common.{parse_sse}
use ai_open_router.Transform.Context.{
  add_one, OpenAiToolCall, OpenAiUsage, OpenAiDelta, OpenAiStreamChoice, OpenAiStreamChunk,
  StreamContext,
}
use ai_open_router.Transform.Formats.{tool_id, push_str}
use ai_open_router.Transform.Events.{
  ClaudeEvent, text, thinking, tool_use, text_delta, thinking_delta, input_json_delta,
  message_start, content_block_start, content_block_delta, content_block_stop, message_delta,
  usage_delta, message_stop,
}

-- The context and the events so far: `ctx` and `result` of the source.
pub record Output : Type 0 where
  pub ctx : StreamContext
  pub result : List ClaudeEvent

abbrev pub emit : ClaudeEvent → Output → Output
emit event o = record o { result = o.result ++ event ∷ [] }

abbrev pub set : StreamContext → Output → Output
set ctx o = record o { ctx = ctx }

unfoldable pub close_text_block : Output → Output
close_text_block o =
    if not o.ctx.content_block_started
    then o
    else emit (content_block_stop o.ctx.content_index)
        (set (record o.ctx { content_block_started = false }) o)

unfoldable pub close_thinking_block : Output → Output
close_thinking_block o =
    if not o.ctx.thinking_block_started
    then o
    else emit (content_block_stop o.ctx.thinking_index) (
        set
          (record o.ctx {
            thinking_block_started = false;
            content_index = add_one o.ctx.thinking_index;
          })
          o)

unfoldable pub close_tool_block : Output → Output
close_tool_block o =
    if not o.ctx.tool_block_started
    then o
    else emit (content_block_stop o.ctx.tool_index)
        (set (record o.ctx { tool_block_started = false }) o)

-- `ctx.content_index += 1`.
abbrev pub next_index : Output → Output
next_index o = set (record o.ctx { content_index = add_one o.ctx.content_index }) o

-- A text block that is open is closed, and its index left behind; so for a tool block.
unfoldable pub leave_text_block : Output → Output
unfolding close_text_block
leave_text_block o = if o.ctx.content_block_started then next_index (close_text_block o) else o

unfoldable pub leave_tool_block : Output → Output
unfolding close_tool_block
leave_tool_block o = if o.ctx.tool_block_started then next_index (close_tool_block o) else o

unfoldable pub open_text_block : Output → Output
open_text_block o =
    if o.ctx.content_block_started
    then o
    else emit (content_block_start o.ctx.content_index text)
        (set (record o.ctx { content_block_started = true }) o)

unfoldable pub open_thinking_block : Output → Output
open_thinking_block o =
    if o.ctx.thinking_block_started
    then o
    else emit (content_block_start o.ctx.content_index thinking) (
        set (record o.ctx { thinking_block_started = true; thinking_index = o.ctx.content_index })
          o)

unfoldable pub emit_text_delta : String → Output → Output
unfolding close_thinking_block leave_tool_block open_text_block
emit_text_delta s o =
    if is_empty s
    then o
    else let opened = open_text_block (leave_tool_block (close_thinking_block o)) in
      emit (content_block_delta opened.ctx.content_index (text_delta s)) opened

unfoldable pub emit_thinking_delta : String → Output → Output
unfolding leave_text_block leave_tool_block open_thinking_block
emit_thinking_delta s o =
    if is_empty s
    then o
    else let opened = open_thinking_block (leave_tool_block (leave_text_block o)) in
      emit (content_block_delta opened.ctx.thinking_index (thinking_delta s)) opened

-- A tool call that comes with an id: its block starts.
unfoldable pub start_tool_call : OpenAiToolCall → Output → Output
unfolding close_thinking_block leave_text_block leave_tool_block
start_tool_call tool_call o =
    let left = leave_tool_block (leave_text_block (close_thinking_block o)) in
    emit
      (content_block_start left.ctx.content_index (tool_use tool_call.id tool_call.function.name))
      (set
        (record left.ctx {
          tool_block_started = true;
          tool_index = left.ctx.content_index;
          current_tool_id = tool_call.id;
          current_tool_name = tool_call.function.name;
          tool_arguments = "";
        })
        left)

abbrev default_to : String → String → String
default_to fallback s = if is_empty s then fallback else s

-- Arguments without an open tool block: one starts.
unfoldable pub open_tool_block : OpenAiToolCall → Output → Output
unfolding tool_id
open_tool_block tool_call o =
    if o.ctx.tool_block_started
    then o
    else let id = default_to (tool_id o.ctx.content_index) o.ctx.current_tool_id in
      let name =
        default_to (default_to "unknown" tool_call.function.name) o.ctx.current_tool_name in
      emit (content_block_start o.ctx.content_index (tool_use id name)) (
        set
          (record o.ctx {
            tool_block_started = true;
            tool_index = o.ctx.content_index;
            current_tool_id = id;
            current_tool_name = name;
          })
          o)

unfoldable pub add_arguments : OpenAiToolCall → Output → Output
unfolding open_tool_block
add_arguments tool_call o =
    if is_empty tool_call.function.arguments
    then o
    else let opened = open_tool_block tool_call o in
      emit
        (content_block_delta opened.ctx.tool_index (input_json_delta tool_call.function.arguments))
        (set
          (record opened.ctx {
            tool_arguments = push_str opened.ctx.tool_arguments tool_call.function.arguments;
          })
          opened)

-- One round of the loop over the tool calls.
unfoldable pub emit_tool_call : OpenAiToolCall → Output → Output
unfolding start_tool_call add_arguments
emit_tool_call tool_call o =
    add_arguments tool_call (if is_empty tool_call.id then o else start_tool_call tool_call o)

unfoldable pub emit_tool_calls : List OpenAiToolCall → Output → Output
unfolding emit_tool_call
emit_tool_calls [] o = o
emit_tool_calls (tool_call ∷ tool_calls) o = emit_tool_calls tool_calls (emit_tool_call tool_call o)

unfoldable pub map_openai_finish_reason : String → String
map_openai_finish_reason reason =
    if reason == "tool_calls"
    then "tool_use"
    else if reason == "length"
    then "max_tokens"
    else "end_turn"

unfoldable pub close_all : Output → Output
unfolding close_text_block close_thinking_block close_tool_block
close_all o = close_tool_block (close_text_block (close_thinking_block o))

unfoldable pub finish : String → Output → Output
unfolding close_all map_openai_finish_reason
finish finish_reason o =
    if is_empty finish_reason || o.ctx.finish_reason_sent
    then o
    else let closed = close_all o in
      emit (message_delta (map_openai_finish_reason finish_reason))
        (set (record closed.ctx { finish_reason_sent = true }) closed)

abbrev finish_if : Option String → Output → Output
finish_if none o = o
finish_if (some finish_reason) o = finish finish_reason o

abbrev emit_usage : Option OpenAiUsage → Output → Output
emit_usage none o = o
emit_usage (some usage) o = emit (usage_delta usage.prompt_tokens usage.completion_tokens) o

abbrev with_text : (String → Output → Output) → Option String → Output → Output
with_text f none o = o
with_text f (some s) o = f s o

abbrev tool_calls_of : OpenAiDelta → List OpenAiToolCall
tool_calls_of delta = get_or delta.tool_calls []

-- `message_id` and the `message_start` event, on the first chunk. A fresh id is given.
unfoldable pub start_message : String → OpenAiStreamChunk → Output → Output
start_message fresh chunk o =
    let named = default_to fresh o.ctx.message_id in
    let ctx = if is_empty chunk.id then record o.ctx { message_id = named } else o.ctx in
    let message_id = if is_empty chunk.id then named else chunk.id in
    if ctx.message_start_sent
    then set ctx o
    else emit (message_start message_id (default_to ctx.model_name chunk.model))
        (set (record ctx { message_start_sent = true; message_id = message_id }) o)

-- `has_payload`: nothing but usage.
unfoldable pub is_usage_only : OpenAiStreamChoice → Bool
is_usage_only choice =
    let delta = choice.delta in
    is_empty (get_or delta.role "")
    && is_empty (get_or delta.content "")
    && is_empty (get_or delta.reasoning_content "")
    && is_nil (tool_calls_of delta)
    && not (is_some choice.finish_reason)

unfoldable pub emit_choice : OpenAiStreamChoice → Output → Output
unfolding emit_thinking_delta emit_text_delta emit_tool_calls finish
emit_choice choice o =
    let delta = choice.delta in
    finish_if choice.finish_reason (
      emit_tool_calls (tool_calls_of delta) (
        with_text emit_text_delta delta.content
          (with_text emit_thinking_delta delta.reasoning_content o)))

abbrev emit_choices : List OpenAiStreamChoice → Option OpenAiUsage → Output → Output
emit_choices [] usage o = emit_usage usage o
emit_choices (choice ∷ choices) usage o =
    if is_some usage && is_usage_only choice
    then emit_usage usage o
    else emit_usage usage (emit_choice choice o)

-- `openai_stream_to_claude` after its JSON is parsed.
unfoldable pub emit_chunk : String → OpenAiStreamChunk → Output → Output
unfolding start_message is_usage_only emit_choice
emit_chunk fresh chunk o = emit_choices chunk.choices chunk.usage (start_message fresh chunk o)

unfoldable pub finalize : Output → Output
unfolding close_all
finalize o =
    let closed = close_all o in
    let finished =
      if closed.ctx.message_start_sent && not closed.ctx.finish_reason_sent
      then emit (message_delta "end_turn")
          (set (record closed.ctx { finish_reason_sent = true }) closed)
      else closed in
    if finished.ctx.message_start_sent then emit message_stop finished else finished

abbrev pub begin : StreamContext → Output
begin ctx = record { ctx = ctx; result = [] }

unfoldable pub finalize_openai_stream_to_claude : StreamContext → Output
unfolding finalize
finalize_openai_stream_to_claude ctx = finalize (begin ctx)

abbrev converted : String → StreamContext → Option OpenAiStreamChunk → Output × Bool
converted fresh ctx none = (begin ctx, false)
converted fresh ctx (some chunk) = (emit_chunk fresh chunk (begin ctx), true)

-- `false` is the error of a chunk that is not JSON of its type. The typed `serde_json::from_str` is
-- a parameter.
unfoldable pub openai_stream_to_claude :
    (String → Option OpenAiStreamChunk) → String → List ℕ → StreamContext → Output × Bool
unfolding parse_sse emit_chunk finalize_openai_stream_to_claude
openai_stream_to_claude from_str fresh event ctx =
    let json_data = (parse_sse event).1 in
    if is_empty json_data
    then (begin ctx, true)
    else if json_data == "[DONE]"
    then (finalize_openai_stream_to_claude ctx, true)
    else converted fresh ctx (from_str json_data)
