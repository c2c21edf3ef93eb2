-- ===== src/Transform/Context.antt =====
-- transformer/types.rs: what the conversion of a stream remembers, and the chunks of an OpenAI
-- stream.
use ai_open_router.Prelude.{
  ℕ, zero, suc, String, ◌+◌, Bool, true, false, Option, none, List, [], eqb, leb, if◌then◌else◌,
}
use ai_open_router.Dict.{Dict, HashSet}

-- An `i32`: `negsuc n` is -(n + 1).
pub data ℤ : Type 0 where
  pos negsuc : ℕ → ℤ

-- `+ 1`, which wraps at 32 bits.
unfoldable pub add_one : ℤ → ℤ
add_one (pos n) = if eqb n 0x7fffffff then negsuc 0x7fffffff else pos (n + 1)
add_one (negsuc zero) = pos 0
add_one (negsuc (suc n)) = negsuc n

unfoldable pub eq_int : ℤ → ℤ → Bool
eq_int (pos a) (pos b) = eqb a b
eq_int (pos a) (negsuc b) = false
eq_int (negsuc a) (pos b) = false
eq_int (negsuc a) (negsuc b) = eqb a b

unfoldable pub le_int : ℤ → ℤ → Bool
le_int (pos a) (pos b) = leb a b
le_int (pos a) (negsuc b) = false
le_int (negsuc a) (pos b) = true
le_int (negsuc a) (negsuc b) = leb b a

pub record OpenAiFunction : Type 0 where
  pub name : String
  pub arguments : String

pub record OpenAiToolCall : Type 0 where
  pub index : Option ℤ
  pub id : String
  pub call_type : String
  pub function : OpenAiFunction

pub record OpenAiUsage : Type 0 where
  pub prompt_tokens : ℤ
  pub completion_tokens : ℤ
  pub total_tokens : ℤ

pub record OpenAiDelta : Type 0 where
  pub role : Option String
  pub content : Option String
  pub reasoning_content : Option String
  pub tool_calls : Option (List OpenAiToolCall)

pub record OpenAiStreamChoice : Type 0 where
  pub index : ℤ
  pub delta : OpenAiDelta
  pub finish_reason : Option String

pub record OpenAiStreamChunk : Type 0 where
  pub id : String
  pub object : String
  pub created : ℤ
  pub model : String
  pub choices : List OpenAiStreamChoice
  pub usage : Option OpenAiUsage

pub record StreamContext : Type 0 where
  pub message_start_sent : Bool
  pub content_block_started : Bool
  pub thinking_block_started : Bool
  pub tool_block_started : Bool
  pub tool_block_pending : Bool
  pub message_id : String
  pub model_name : String
  pub input_tokens : ℤ
  pub output_tokens : ℤ
  pub content_index : ℤ
  pub thinking_index : ℤ
  pub tool_index : ℤ
  pub finish_reason_sent : Bool
  pub current_tool_call : Option OpenAiToolCall
  pub tool_call_buffer : String
  pub current_tool_id : String
  pub current_tool_name : String
  pub tool_arguments : String
  pub text_tool_call_fallback_enabled : Bool
  pub allowed_tool_names : HashSet
  pub buffered_output_text : String
  pub buffered_output_index : Option ℤ
  pub fallback_tool_call_counter : ℤ
  pub assistant_payload_emitted : Bool
  pub in_thinking_tag : Bool
  pub thinking_buffer : String
  pub responses_has_tool_use : Bool
  pub responses_next_content_index : ℤ
  pub responses_index_by_key : Dict ℤ
  pub responses_open_indices : List ℤ
  pub responses_fallback_open_index : Option ℤ
  pub responses_tool_index_by_item_id : Dict ℤ
  pub responses_last_tool_index : Option ℤ

-- `StreamContext::new`.
unfoldable pub new : StreamContext
new = record {
  message_start_sent = false;
  content_block_started = false;
  thinking_block_started = false;
  tool_block_started = false;
  tool_block_pending = false;
  message_id = "";
  model_name = "";
  input_tokens = pos 0;
  output_tokens = pos 0;
  content_index = pos 0;
  thinking_index = pos 0;
  tool_index = pos 0;
  finish_reason_sent = false;
  current_tool_call = none;
  tool_call_buffer = "";
  current_tool_id = "";
  current_tool_name = "";
  tool_arguments = "";
  text_tool_call_fallback_enabled = false;
  allowed_tool_names = [];
  buffered_output_text = "";
  buffered_output_index = none;
  fallback_tool_call_counter = pos 0;
  assistant_payload_emitted = false;
  in_thinking_tag = false;
  thinking_buffer = "";
  responses_has_tool_use = false;
  responses_next_content_index = pos 0;
  responses_index_by_key = [];
  responses_open_indices = [];
  responses_fallback_open_index = none;
  responses_tool_index_by_item_id = [];
  responses_last_tool_index = none;
}
