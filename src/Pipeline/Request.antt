-- ===== src/Pipeline/Request.antt =====
-- proxy/pipeline.rs: the body that goes upstream, the tools it declares, its transformer and its
-- timeout, and the usage of its answer.
pub mod Laws
use ai_open_router.Prelude.{
  ℕ, String, Bool, true, false, not, ◌&&◌, ◌||◌, Option, none, some, List, [], ◌∷◌, ◌==◌, ltb,
  if◌then◌else◌, ◌>>=◌, any, get_or,
}
use ai_open_router.Text.{trim, is_empty, is_blank}
use ai_open_router.Dict.{HashSet, insert}
use ai_open_router.Json.{
  Value, Fields, object, string, field, end, get, get_field, insert_field, as_object, as_array,
  as_str, is_null, to_list,
}
use ai_open_router.Entities.{RuleProtocol, TokenUsage}
use ai_open_router.Routing.Types.{EntryProtocol, EntryEndpoint, PathEntry}

-- `request_model` in `handle_proxy_request`: a blank or missing model is "default".
unfoldable pub request_model : Value → String
unfolding get is_blank
request_model request_body = elim (get "model" request_body >>= λ v. as_str v) [
  | none ↦ "default"
  | some model ↦ if is_blank model then "default" else model
]

-- `json!({ "type": "enabled" })`.
abbrev pub enabled_thinking : Value
enabled_thinking = object (field "type" (string "enabled") end)

unfoldable pub has_explicit_thinking : Fields → Bool
unfolding get_field
has_explicit_thinking root = elim (get_field "thinking" root) [
  | none ↦ false
  | some value ↦ not (is_null value)
]

unfoldable pub maybe_inject_default_thinking : Value → Bool → Value
unfolding has_explicit_thinking insert_field
maybe_inject_default_thinking (object root) should_inject =
    if not should_inject || has_explicit_thinking root
    then object root
    else object (insert_field "thinking" enabled_thinking root)
maybe_inject_default_thinking request_body should_inject = request_body

-- api/dto.rs: the integrations that `should_inject_claude_thinking` reads, with their fields in use.
pub data IntegrationClientKind : Type 0 where
  claude codex openclaw opencode : IntegrationClientKind

pub record AgentConfig : Type 0 where
  pub always_thinking_enabled : Option Bool

pub record IntegrationTarget : Type 0 where
  pub kind : IntegrationClientKind
  pub group_id : Option String
  pub config : Option AgentConfig

abbrev pub is_claude : IntegrationClientKind → Bool
is_claude IntegrationClientKind.claude = true
is_claude _ = false

abbrev pub is_group : String → Option String → Bool
is_group id none = false
is_group id (some group_id) = group_id == id

abbrev pub enables_thinking : String → IntegrationTarget → Bool
enables_thinking group_id target =
    is_claude target.kind
    && is_group group_id target.group_id
    && get_or (target.config >>= λ config. config.always_thinking_enabled) false

abbrev is_messages : PathEntry → Bool
is_messages entry = elim entry.protocol [
  | EntryProtocol.openai ↦ false
  | EntryProtocol.anthropic ↦ elim entry.endpoint [ EntryEndpoint.messages ↦ true | _ ↦ false ]
]

-- The store's targets, none without a shared state. All three protocols pass the `matches!`.
unfoldable pub should_inject_claude_thinking :
    Option (List IntegrationTarget) → String → PathEntry → RuleProtocol → Bool
unfolding any
should_inject_claude_thinking none group_id entry target_protocol = false
should_inject_claude_thinking (some targets) group_id entry target_protocol =
    is_messages entry && any (enables_thinking group_id) targets

abbrev non_empty : String → Option String
non_empty s = if is_empty s then none else some s

-- The name that a tool declares: its own, or that of its function.
unfoldable pub tool_name : Value → Option String
unfolding get trim
tool_name tool = elim (get "name" tool >>= λ v. as_str v) [
  | some name ↦ non_empty (trim name)
  | none ↦
      get "function" tool >>= λ f. get "name" f >>= λ v. as_str v >>= λ name. non_empty (trim name)
]

unfoldable pub tool_names : List Value → HashSet
unfolding tool_name insert
tool_names [] = []
tool_names (tool ∷ tools) =
    let names = tool_names tools in
    elim (tool_name tool) [ none ↦ names | some name ↦ insert name tt names ]

abbrev pub declared_tools : Value → List Value
declared_tools request_body = elim (get "tools" request_body >>= λ v. as_array v) [
  | none ↦ []
  | some tools ↦ to_list tools
]

unfoldable pub extract_declared_tool_names : Value → HashSet
unfolding get to_list tool_names
extract_declared_tool_names request_body = tool_names (declared_tools request_body)

-- The transformers of transformer/cc and transformer/cx, with their target model.
pub data Transformer : Type 0 where
  cc_claude cc_openai : String → Transformer
  cc_openai2 :
      (model : String)
      → (text_tool_call_fallback_enabled : Bool) → (allowed_tool_names : HashSet) → Transformer
  cx_chat_claude cx_chat_openai cx_chat_openai2 : String → Transformer
  cx_resp_claude cx_resp_openai cx_resp_openai2 : String → Transformer

-- `Transformer::name`.
unfoldable pub name : Transformer → String
name (cc_claude model) = "cc_claude"
name (cc_openai model) = "cc_openai"
name (cc_openai2 model fallback allowed) = "cc_openai2"
name (cx_chat_claude model) = "cx_chat_claude"
name (cx_chat_openai model) = "cx_chat_openai"
name (cx_chat_openai2 model) = "cx_chat_openai2"
name (cx_resp_claude model) = "cx_resp_claude"
name (cx_resp_openai model) = "cx_resp_openai"
name (cx_resp_openai2 model) = "cx_resp_openai2"

-- It returns no error.
unfoldable pub prepare_transformer_for_route :
    EntryEndpoint → RuleProtocol → String → Bool → HashSet → Transformer
prepare_transformer_for_route EntryEndpoint.messages RuleProtocol.anthropic model b tools =
    cc_claude model
prepare_transformer_for_route EntryEndpoint.messages RuleProtocol.openai_completion model b tools =
    cc_openai model
prepare_transformer_for_route EntryEndpoint.messages RuleProtocol.openai model b tools =
    cc_openai2 model b tools
prepare_transformer_for_route EntryEndpoint.chat_completions RuleProtocol.anthropic model b tools =
    cx_chat_claude model
prepare_transformer_for_route EntryEndpoint.chat_completions RuleProtocol.openai_completion model b
      tools =
    cx_chat_openai model
prepare_transformer_for_route EntryEndpoint.chat_completions RuleProtocol.openai model b tools =
    cx_chat_openai2 model
prepare_transformer_for_route EntryEndpoint.responses RuleProtocol.anthropic model b tools =
    cx_resp_claude model
prepare_transformer_for_route EntryEndpoint.responses RuleProtocol.openai_completion model b tools =
    cx_resp_openai model
prepare_transformer_for_route EntryEndpoint.responses RuleProtocol.openai model b tools =
    cx_resp_openai2 model

unfoldable pub stream_requires_sse_event_buffer : String → Bool
stream_requires_sse_event_buffer transformer_name = not (
    (transformer_name == "cc_claude")
    || (transformer_name == "cx_chat_openai")
    || (transformer_name == "cx_resp_openai2"))

-- In milliseconds; proxy.rs.
unfoldable pub resolve_request_timeout_ms : Bool → String → ℕ
resolve_request_timeout_ms stream transformer_name =
    if stream then 600000 else if transformer_name == "cc_openai2" then 300000 else 60000

abbrev prefer : ℕ → ℕ → ℕ
prefer upstream output = if ltb 0 upstream then upstream else output

unfoldable pub merge_token_usage : Option TokenUsage → Option TokenUsage → Option TokenUsage
merge_token_usage none none = none
merge_token_usage (some upstream) none = some upstream
merge_token_usage none (some output) = some output
merge_token_usage (some upstream) (some output) = some (record {
  input_tokens = prefer upstream.input_tokens output.input_tokens;
  output_tokens = prefer upstream.output_tokens output.output_tokens;
  cache_read_tokens = prefer upstream.cache_read_tokens output.cache_read_tokens;
  cache_write_tokens = prefer upstream.cache_write_tokens output.cache_write_tokens;
})
