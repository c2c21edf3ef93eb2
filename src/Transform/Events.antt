-- ===== src/Transform/Events.antt =====
-- The events of a Claude stream that the converters build, each with the JSON that the source
-- gives `build_claude_event` for it (transformer/convert/common.rs and claude_openai.rs).
use ai_open_router.Prelude.{ℕ, String, List, [], ◌∷◌, ◌++◌}
use ai_open_router.Text.Utf8.{as_bytes}
use ai_open_router.Json.{
  Value, Fields, null, number, string, object, array, end, field, pos_int, neg_int, nil,
  insert_field,
}
use ai_open_router.Transform.Formats.{sse_text}
use ai_open_router.Transform.Context.{ℤ, pos, negsuc}

pub data BlockKind : Type 0 where
  text thinking : BlockKind
  tool_use : (id : String) → (name : String) → BlockKind

-- What a delta adds to a block.
pub data Payload : Type 0 where
  text_delta thinking_delta input_json_delta : String → Payload

pub data ClaudeEvent : Type 0 where
  message_start : (id : String) → (model : String) → ClaudeEvent
  content_block_start : ℤ → BlockKind → ClaudeEvent
  content_block_delta : ℤ → Payload → ClaudeEvent
  content_block_stop : ℤ → ClaudeEvent
  message_delta : (stop_reason : String) → ClaudeEvent
  usage_delta : (input_tokens : ℤ) → (output_tokens : ℤ) → ClaudeEvent
  message_stop : ClaudeEvent

abbrev integer : ℤ → Value
integer (pos n) = number (pos_int n)
integer (negsuc n) = number (neg_int n)

abbrev block_json : BlockKind → Value
block_json text = object (field "type" (string "text") (field "text" (string "") end))
block_json thinking = object (field "type" (string "thinking") (field "thinking" (string "") end))
block_json (tool_use id name) = object (
    field "type" (string "tool_use")
      (field "id" (string id) (field "name" (string name) (field "input" (object end) end))))

abbrev payload_json : Payload → Value
payload_json (text_delta s) =
    object (field "type" (string "text_delta") (field "text" (string s) end))
payload_json (thinking_delta s) =
    object (field "type" (string "thinking_delta") (field "thinking" (string s) end))
payload_json (input_json_delta s) =
    object (field "type" (string "input_json_delta") (field "partial_json" (string s) end))

abbrev usage_json : ℤ → ℤ → Value
usage_json input output =
    object (field "input_tokens" (integer input) (field "output_tokens" (integer output) end))

unfoldable pub event_type : ClaudeEvent → String
event_type (message_start id model) = "message_start"
event_type (content_block_start index kind) = "content_block_start"
event_type (content_block_delta index payload) = "content_block_delta"
event_type (content_block_stop index) = "content_block_stop"
event_type (message_delta stop_reason) = "message_delta"
event_type (usage_delta input output) = "message_delta"
event_type message_stop = "message_stop"

unfoldable pub event_json : ClaudeEvent → Fields
event_json (message_start id model) =
    field "message"
      (object (
        field "id" (string id) (
          field "type" (string "message") (
            field "role" (string "assistant") (
              field "content" (array nil) (
                field "model" (string model) (
                  field "stop_reason" null (
                    field "stop_sequence" null
                      (field "usage" (usage_json (pos 0) (pos 0)) end)))))))))
      end
event_json (content_block_start index kind) =
    field "index" (integer index) (field "content_block" (block_json kind) end)
event_json (content_block_delta index payload) =
    field "index" (integer index) (field "delta" (payload_json payload) end)
event_json (content_block_stop index) = field "index" (integer index) end
event_json (message_delta stop_reason) =
    field "delta"
      (object (field "stop_reason" (string stop_reason) (field "stop_sequence" null end)))
      (field "usage" (object (field "output_tokens" (number (pos_int 0)) end)) end)
event_json (usage_delta input output) =
    field "delta" (object end) (field "usage" (usage_json input output) end)
event_json message_stop = end

module _ (to_string : Value → String) where
  -- `build_claude_event`, whose data is an object in every call.
  unfoldable pub build_claude_event : String → Fields → List ℕ
  unfolding as_bytes insert_field sse_text
  build_claude_event event_type map =
      let json_str = to_string (object (insert_field "type" (string event_type) map)) in
      as_bytes (sse_text event_type json_str)

  -- The bytes of the events.
  unfoldable pub encode : List ClaudeEvent → List ℕ
  unfolding build_claude_event event_type event_json
  encode [] = []
  encode (event ∷ events) =
      build_claude_event (event_type event) (event_json event) ++ encode events
