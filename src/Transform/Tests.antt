-- ===== src/Transform/Tests.antt =====
-- The conversion of a stream at concrete chunks.
use ai_open_router.Prelude.{
  String, ◌≡◌, refl, true, none, some, List, Option, ◌==◌, [], ◌∷◌, if◌then◌else◌,
}
use ai_open_router.Text.{to_ascii_lowercase, trim}
use ai_open_router.Dict.{HashSet}
use ai_open_router.Json.{Value, object, field, end, array, cons, nil, string}
use ai_open_router.Transform.Reasoning.{high, claude_thinking_to_openai_reasoning_effort}
use ai_open_router.Transform.Reasoning.Laws.{
  IsSupported, thinking_of, claude_thinking_to_openai_reasoning_effort-IsSupported,
}
use ai_open_router.Transform.ToolCalls.{
  ParsedTextToolCall, names_of, find_json_object_end, normalize_bash_command_array_arguments,
  parse_text_tool_call_fallback,
}
use ai_open_router.Transform.ToolCalls.Strict.{IsCall}
use ai_open_router.Transform.ToolCalls.Laws.{parse_text_tool_call_fallback-IsCall}
use ai_open_router.Transform.Context.{OpenAiDelta, OpenAiStreamChunk, StreamContext, pos}
use ai_open_router.Transform.Context
use ai_open_router.Transform.Events.{message_stop}
use ai_open_router.Transform.OpenAiStream.{finalize_openai_stream_to_claude}
use ai_open_router.Transform.OpenAiStream.Finalizer.{finalize_openai_stream_to_claude-again}
use ai_open_router.Transform.OpenAiStream.Reader.{waiting, finished, read_all}
use ai_open_router.Transform.OpenAiStream.Stream.{
  convert_stream, Announced, Before, convert_stream-finished,
}

abbrev bare : OpenAiDelta
bare = record { role = none; content = none; reasoning_content = none; tool_calls = none }

abbrev chunk_of : OpenAiDelta → OpenAiStreamChunk
chunk_of delta = record {
  id = "chatcmpl-1";
  object = "chat.completion.chunk";
  created = pos 0;
  model = "gpt";
  choices = (record { index = pos 0; delta = delta; finish_reason = none }) ∷ [];
  usage = none;
}

abbrev thinks : OpenAiStreamChunk
thinks = chunk_of (record bare { reasoning_content = some "Hm." })

abbrev says : OpenAiStreamChunk
says = chunk_of (record bare { content = some "Hi" })

abbrev calls : OpenAiStreamChunk
calls = chunk_of (record bare {
  tool_calls = some (
      (record {
        index = none;
        id = "call_1";
        call_type = "function";
        function = record { name = "ls"; arguments = "{}" };
      })
      ∷ []);
})

abbrev more : List (String × OpenAiStreamChunk)
more = ("m2", says) ∷ ("m3", calls) ∷ []

starts_fresh : Before waiting Context.new
unfolding Context.new
starts_fresh = (refl, (refl, refl, refl))

all-Announced : Announced (("m1", thinks) ∷ more) Context.new
all-Announced = (refl, (refl, (refl, tt)))

convert_stream-finished_example :
    read_all waiting (convert_stream (("m1", thinks) ∷ more) Context.new).result ≡ some finished
convert_stream-finished_example =
    convert_stream-finished "m1" thinks more Context.new starts_fresh all-Announced

abbrev started : StreamContext
started = record Context.new { message_start_sent = true }

finalize_openai_stream_to_claude-again_example :
    (finalize_openai_stream_to_claude (finalize_openai_stream_to_claude started).ctx).result
    ≡ (if started.message_start_sent then message_stop ∷ [] else [])
finalize_openai_stream_to_claude-again_example = finalize_openai_stream_to_claude-again started

abbrev says_call : String
says_call = "I run [Tool Call: Bash({})]"

abbrev shell : HashSet
shell = ("Bash", tt) ∷ ("Ba", tt) ∷ []

abbrev empty_object : String → Option Value
empty_object s = if s == "{}" then some (object end) else none

abbrev bash_call : ParsedTextToolCall
bash_call = record { name = "Bash"; arguments = object end }

reads_call : parse_text_tool_call_fallback empty_object says_call shell ≡ some bash_call
unfolding parse_text_tool_call_fallback
reads_call = refl

parse_text_tool_call_fallback-IsCall_example : IsCall (names_of shell) bash_call
parse_text_tool_call_fallback-IsCall_example =
    parse_text_tool_call_fallback-IsCall empty_object says_call shell bash_call reads_call

abbrev command : Value
command = object (
    field "command" (array (cons (string "bash") (cons (string "-lc") (cons (string "ls") nil))))
      end)

runs_command :
    normalize_bash_command_array_arguments command
    ≡ some (object (field "command" (string "ls") end))
unfolding normalize_bash_command_array_arguments
runs_command = refl

finds_object : find_json_object_end "{\"a\":\"}\"} rest" ≡ some "{\"a\":\"}\"}"
unfolding find_json_object_end
finds_object = refl

clamps :
    claude_thinking_to_openai_reasoning_effort (some (thinking_of 50000)) " GPT-5.1-mini "
    ≡ some high
unfolding claude_thinking_to_openai_reasoning_effort
clamps = refl

claude_thinking_to_openai_reasoning_effort-IsSupported_example :
    IsSupported (to_ascii_lowercase (trim " GPT-5.1-mini ")) high
claude_thinking_to_openai_reasoning_effort-IsSupported_example =
    claude_thinking_to_openai_reasoning_effort-IsSupported (some (thinking_of 50000))
      " GPT-5.1-mini " high clamps
