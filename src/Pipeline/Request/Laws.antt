-- ===== src/Pipeline/Request/Laws.antt =====
-- What the preparation of a request keeps, adds and selects.
use ai_open_router.Prelude.{
  String, ◌≡◌, ◌≢◌, refl, Bool, true, false, Option, none, some, List, [], ◌∷◌, arith, eq_iff,
  Option-cases, Bool-cases, inl, inr, ◌⊎◌, ◌↔◌, Occurs, map,
}
use ai_open_router.Dict.{HashSet, lookup, contains_key, lookup-insert}
use ai_open_router.Json.{Value, Fields, object, get, get_field, is_null}
use ai_open_router.Json.Laws.{get_field-insert_field}
use ai_open_router.Entities.{RuleProtocol, TokenUsage}
use ai_open_router.Routing.Types.{EntryEndpoint}
use ai_open_router.Pipeline.Request.{
  enabled_thinking, has_explicit_thinking, maybe_inject_default_thinking, tool_name, tool_names,
  declared_tools, extract_declared_tool_names, name, prepare_transformer_for_route,
  stream_requires_sse_event_buffer, merge_token_usage,
}

-- Injecting the default thinking touches no other field, and keeps a setting of the request that
-- is not null.
pub maybe_inject_default_thinking-fields :
    (root : Fields)
    → ((key : String)
        → key ≢ "thinking"
        → get key (maybe_inject_default_thinking (object root) true) ≡ get_field key root)
      × ((get "thinking" (maybe_inject_default_thinking (object root) true) ≡ some enabled_thinking)
          ⊎ ((value : Value) × (get_field "thinking" root ≡ some value)
              × (is_null value ≡ false)
              × (maybe_inject_default_thinking (object root) true ≡ object root)))
unfolding maybe_inject_default_thinking get has_explicit_thinking
maybe_inject_default_thinking-fields root = (
  λ key other.
      ground
        (arith, eq_iff "thinking" key, get_field-insert_field "thinking" key enabled_thinking root),
  elim (Option-cases (get_field "thinking" root)) [
    | inl missing ↦ inl (
        ground (
          arith,
          get_field-insert_field "thinking" "thinking" enabled_thinking root,
          eq_iff "thinking" "thinking",
        ))
    | inr (value, found) ↦ elim (Bool-cases (is_null value)) [
      | inl empty ↦ inl (
          ground (
            arith,
            get_field-insert_field "thinking" "thinking" enabled_thinking root,
            eq_iff "thinking" "thinking",
          ))
      | inr full ↦ inr (
        value,
        found,
        full,
        rw (maybe_inject_default_thinking, has_explicit_thinking, found, full),
      )
    ]
  ],
)

tool_names-declared :
    (tools : List Value) (n : String)
    → (contains_key n (tool_names tools) ≡ true) ↔ Occurs (some n) (map tool_name tools)
unfolding tool_names contains_key lookup
tool_names-declared [] n = ground arith
tool_names-declared (tool ∷ tools) n = elim (Option-cases (tool_name tool)) [
  | inl nameless ↦ ground (arith, tool_names-declared tools n)
  | inr (m, named) ↦
      ground
        (arith, tool_names-declared tools n, eq_iff m n, lookup-insert m n tt (tool_names tools))
]

-- The declared tool names are the trimmed names that the tools of the request give, and no
-- others.
pub extract_declared_tool_names-declared :
    (request_body : Value) (n : String)
    → (contains_key n (extract_declared_tool_names request_body) ≡ true)
      ↔ Occurs (some n) (map tool_name (declared_tools request_body))
unfolding extract_declared_tool_names
extract_declared_tool_names-declared request_body n =
    tool_names-declared (declared_tools request_body) n

-- The surface that a protocol's upstream speaks.
abbrev pub own_endpoint : RuleProtocol → EntryEndpoint
own_endpoint RuleProtocol.openai = EntryEndpoint.responses
own_endpoint RuleProtocol.openai_completion = EntryEndpoint.chat_completions
own_endpoint RuleProtocol.anthropic = EntryEndpoint.messages

-- A stream goes through unbuffered exactly when the request and the upstream speak the same
-- surface.
pub stream_requires_sse_event_buffer-own_endpoint :
    (endpoint : EntryEndpoint) (protocol : RuleProtocol) (model : String) (b : Bool)
    (tools : HashSet)
    → (stream_requires_sse_event_buffer
          (name (prepare_transformer_for_route endpoint protocol model b tools))
        ≡ false)
      ↔ (endpoint ≡ own_endpoint protocol)
unfolding stream_requires_sse_event_buffer name prepare_transformer_for_route
stream_requires_sse_event_buffer-own_endpoint EntryEndpoint.messages RuleProtocol.anthropic model b
      tools =
    ground arith
stream_requires_sse_event_buffer-own_endpoint EntryEndpoint.messages RuleProtocol.openai model b
      tools =
    ground arith
stream_requires_sse_event_buffer-own_endpoint EntryEndpoint.messages RuleProtocol.openai_completion
      model b tools =
    ground arith
stream_requires_sse_event_buffer-own_endpoint EntryEndpoint.chat_completions RuleProtocol.anthropic
      model b tools =
    ground arith
stream_requires_sse_event_buffer-own_endpoint EntryEndpoint.chat_completions RuleProtocol.openai
      model b tools =
    ground arith
stream_requires_sse_event_buffer-own_endpoint EntryEndpoint.chat_completions
      RuleProtocol.openai_completion model b tools =
    ground arith
stream_requires_sse_event_buffer-own_endpoint EntryEndpoint.responses RuleProtocol.anthropic model b
      tools =
    ground arith
stream_requires_sse_event_buffer-own_endpoint EntryEndpoint.responses RuleProtocol.openai model b
      tools =
    ground arith
stream_requires_sse_event_buffer-own_endpoint EntryEndpoint.responses RuleProtocol.openai_completion
      model b tools =
    ground arith

-- Merging reported usages is associative, with no report as its unit.
pub merge_token_usage_assoc :
    (a b c : Option TokenUsage)
    → merge_token_usage (merge_token_usage a b) c ≡ merge_token_usage a (merge_token_usage b c)
unfolding merge_token_usage
merge_token_usage_assoc none none none = refl
merge_token_usage_assoc none none (some c) = refl
merge_token_usage_assoc none (some b) none = refl
merge_token_usage_assoc none (some b) (some c) = refl
merge_token_usage_assoc (some a) none none = refl
merge_token_usage_assoc (some a) none (some c) = refl
merge_token_usage_assoc (some a) (some b) none = refl
merge_token_usage_assoc (some a) (some b) (some c) = ground arith
