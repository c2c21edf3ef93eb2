-- ===== src/Transform/Reasoning.antt =====
-- transformer/convert/common.rs: the reasoning effort that stands for a thinking budget.
pub mod Laws
use ai_open_router.Prelude.{
  ℕ, String, Bool, ◌&&◌, ◌||◌, not, Option, none, some, ◌==◌, ltb, leb, eqb, if◌then◌else◌, ◌>>=◌,
}
use ai_open_router.Text.{trim, to_ascii_lowercase, starts_with}
use ai_open_router.Json.{Value, number, string, object, end, field, pos_int, get, as_str}

-- The texts "low", "medium", "high" and "xhigh", which no other joins.
pub data Effort : Type 0 where
  low medium high xhigh : Effort

unfoldable pub effort_text : Effort → String
effort_text low = "low"
effort_text medium = "medium"
effort_text high = "high"
effort_text xhigh = "xhigh"

unfoldable pub model_supports_xhigh : String → Bool
unfolding starts_with
model_supports_xhigh normalized_model =
    starts_with "gpt-5.2" normalized_model
    || (starts_with "gpt-5.2-codex" normalized_model
        || (starts_with "gpt-5.2-chat" normalized_model
            || starts_with "gpt-5.2-pro" normalized_model))

abbrev at_least_medium : Effort → Effort
at_least_medium low = medium
at_least_medium desired = desired

abbrev at_most_high : Effort → Effort
at_most_high xhigh = high
at_most_high desired = desired

-- For a model in lower case and without white space around it.
unfoldable pub clamp_normalized : Effort → String → Effort
unfolding starts_with model_supports_xhigh
clamp_normalized desired normalized =
    if starts_with "gpt-5-pro" normalized
    then high
    else if starts_with "gpt-5.2-pro" normalized
    then at_least_medium desired
    else if starts_with "gpt-5.1" normalized
    then at_most_high desired
    else if model_supports_xhigh normalized
    then desired
    else at_most_high desired

unfoldable pub clamp_openai_reasoning_effort_for_model : Effort → String → Effort
unfolding clamp_normalized trim to_ascii_lowercase
clamp_openai_reasoning_effort_for_model desired model =
    clamp_normalized desired (to_ascii_lowercase (trim model))

-- `as_i64` with the test for a positive number: the integers below 2^63.
abbrev pub positive_i64 : Value → Option ℕ
positive_i64 (number (pos_int n)) =
    if not (eqb n 0) && ltb n 0x8000000000000000 then some n else none
positive_i64 _ = none

unfoldable pub effort_of_budget : Option ℕ → Effort
effort_of_budget none = medium
effort_of_budget (some budget) =
    if leb budget 2048
    then low
    else if leb budget 8192
    then medium
    else if leb budget 24576
    then high
    else xhigh

abbrev pub is_enabled : Option String → Bool
is_enabled none = Bool.false
is_enabled (some thinking_type) = thinking_type == "enabled"

unfoldable pub claude_thinking_to_openai_reasoning_effort : Option Value → String → Option Effort
unfolding get effort_of_budget clamp_openai_reasoning_effort_for_model
claude_thinking_to_openai_reasoning_effort thinking model =
    let thinking_type = thinking >>= λ value. get "type" value >>= λ t. as_str t in
    let budget = thinking >>= λ value. get "budget_tokens" value >>= λ b. positive_i64 b in
    if not (is_enabled thinking_type)
    then none
    else some (clamp_openai_reasoning_effort_for_model (effort_of_budget budget) model)

unfoldable pub claude_thinking_to_openai_reasoning : Option Value → String → Option Value
unfolding claude_thinking_to_openai_reasoning_effort effort_text
claude_thinking_to_openai_reasoning thinking model =
    claude_thinking_to_openai_reasoning_effort thinking model >>= λ effort.
    some (object (field "effort" (string (effort_text effort)) end))
