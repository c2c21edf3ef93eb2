-- ===== src/Transform/Reasoning/Laws.antt =====
-- The efforts of transformer/convert/common.rs that a model is asked for.
use ai_open_router.Prelude.{
  ℕ, String, ◌≡◌, ◌≤◌, true, some, arith, ◌≢◌, ◌>>=◌, subst, Option, ◌<◌, Bool-cases, inl, inr,
}
use ai_open_router.Text.{starts_with, to_ascii_lowercase, trim}
use ai_open_router.Json.{Value, number, string, object, end, field, pos_int, get, as_str}
use ai_open_router.Transform.Reasoning.{
  Effort, low, medium, high, xhigh, clamp_normalized, clamp_openai_reasoning_effort_for_model,
  effort_of_budget, claude_thinking_to_openai_reasoning_effort, model_supports_xhigh, positive_i64,
  is_enabled,
}

abbrev pub rank : Effort → ℕ
rank low = 0
rank medium = 1
rank high = 2
rank xhigh = 3

-- What a model takes, by its name in lower case.
pub record IsSupported (normalized : String) (effort : Effort) : Type 0 where
  pub xhigh_known : effort ≡ xhigh → model_supports_xhigh normalized ≡ true
  pub not_low : starts_with "gpt-5.2-pro" normalized ≡ true → effort ≢ low
  pub only_high : starts_with "gpt-5-pro" normalized ≡ true → effort ≡ high

clamp-IsSupported :
    (desired : Effort) (normalized : String)
    → IsSupported normalized (clamp_normalized desired normalized)
unfolding clamp_normalized model_supports_xhigh
clamp-IsSupported desired normalized = record {
  xhigh_known = ground arith;
  not_low = ground arith;
  only_high = ground arith;
}

clamp_monotone :
    (a b : Effort) (normalized : String)
    → rank a ≤ rank b
    → rank (clamp_normalized a normalized) ≤ rank (clamp_normalized b normalized)
unfolding clamp_normalized
clamp_monotone a b normalized h = ground arith

effort_of_budget_monotone :
    (a b : ℕ) → a ≤ b → rank (effort_of_budget (some a)) ≤ rank (effort_of_budget (some b))
unfolding effort_of_budget
effort_of_budget_monotone a b h = ground arith

-- The setting of a request with a budget.
abbrev pub thinking_of : ℕ → Value
thinking_of budget =
    object (field "type" (string "enabled") (field "budget_tokens" (number (pos_int budget)) end))

effort_of_positive :
    (model : String) (budget : ℕ)
    → 0 < budget
    → budget < 0x8000000000000000
    → claude_thinking_to_openai_reasoning_effort (some (thinking_of budget)) model
      ≡ some (clamp_openai_reasoning_effort_for_model (effort_of_budget (some budget)) model)
unfolding claude_thinking_to_openai_reasoning_effort get
effort_of_positive model budget h k = ground arith

-- A larger budget asks for at least the effort.
pub claude_thinking_to_openai_reasoning_effort_monotone :
    (model : String) (a b : ℕ)
    → 0 < a
    → a ≤ b
    → b < 0x8000000000000000
    → (x : Effort) × ((y : Effort) × (claude_thinking_to_openai_reasoning_effort
            (some (thinking_of a))
            model
          ≡ some x)
        × (claude_thinking_to_openai_reasoning_effort (some (thinking_of b)) model ≡ some y)
        × (rank x ≤ rank y))
unfolding clamp_openai_reasoning_effort_for_model
claude_thinking_to_openai_reasoning_effort_monotone model a b h k l = (
  _,
  (
    _,
    effort_of_positive model a h (omega arith),
    effort_of_positive model b (omega arith) l,
    clamp_monotone (effort_of_budget (some a)) (effort_of_budget (some b))
        (to_ascii_lowercase (trim model)) (effort_of_budget_monotone a b k),
  ),
)

-- A reasoning effort is one that the model takes: xhigh only for the models that support it,
-- never low for gpt-5.2-pro, and only high for gpt-5-pro.
pub claude_thinking_to_openai_reasoning_effort-IsSupported :
    (thinking : Option Value) (model : String) (effort : Effort)
    → claude_thinking_to_openai_reasoning_effort thinking model ≡ some effort
    → IsSupported (to_ascii_lowercase (trim model)) effort
unfolding claude_thinking_to_openai_reasoning_effort clamp_openai_reasoning_effort_for_model
claude_thinking_to_openai_reasoning_effort-IsSupported thinking model effort h =
    let budget = thinking >>= λ value. get "budget_tokens" value >>= λ b. positive_i64 b in
    let thinking_type = thinking >>= λ value. get "type" value >>= λ t. as_str t in
    elim (Bool-cases (is_enabled thinking_type)) [
      | inl e ↦
          subst (IsSupported (to_ascii_lowercase (trim model))) (ground (arith, e, h))
            (clamp-IsSupported (effort_of_budget budget) _)
      | inr e ↦ absurd (ground (arith, e, h))
    ]
