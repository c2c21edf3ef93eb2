-- ===== src/Observability/Usage.antt =====
-- proxy/observability.rs, `extract_token_usage`: the token counts of a payload of any provider.
pub mod Places
pub mod Laws
use ai_open_router.Prelude.{
  ℕ, String, ◌-◌, Bool, ◌&&◌, ◌||◌, Option, none, some, get_or, List, [], ◌∷◌, ◌++◌, ◌or_else◌,
  ◌>>=◌, is_some, leb, ltb, eqb, if◌then◌else◌,
}
use ai_open_router.Json.{Value, get, as_u64}
use ai_open_router.Entities.{TokenUsage}

-- `obj.get(k).and_then(|v| v.as_u64())`
abbrev pub get_u64 : String → Value → Option ℕ
get_u64 k v = get k v >>= as_u64

-- The places where `first_u64` looks for a field, in order.
unfoldable pub candidates : Value → List String → List (Option ℕ)
unfolding get
candidates obj [] = []
candidates obj (field ∷ fields) =
    get_u64 field obj
    ∷ (get "input_tokens_details" obj >>= get_u64 field)
    ∷ (get "prompt_tokens_details" obj >>= get_u64 field)
    ∷ candidates obj fields

-- The loop of `first_u64` from a fallback on.
unfoldable pub scan : Option ℕ → List (Option ℕ) → ℕ
scan fallback [] = get_or fallback 0
scan fallback (none ∷ cs) = scan fallback cs
scan fallback (some v ∷ cs) =
    let rest = scan (fallback or_else some v) cs in if ltb 0 v then v else rest

unfoldable pub first_u64 : Value → List String → ℕ
unfolding scan candidates
first_u64 obj fields = scan none (candidates obj fields)

unfoldable pub is_openai_usage : Value → Bool
unfolding get
is_openai_usage usage =
    is_some (
      (get "input_tokens_details" usage or_else get "prompt_tokens_details" usage)
      >>= get_u64 "cached_tokens")
    || (is_some (get_u64 "prompt_tokens" usage) || is_some (get_u64 "completion_tokens" usage))

-- `saturating_sub` is the subtraction of natural numbers.
unfoldable pub normalize_input_tokens : Value → ℕ → ℕ → ℕ
unfolding is_openai_usage
normalize_input_tokens usage raw_input_tokens cache_read_tokens =
    if is_openai_usage usage && leb cache_read_tokens raw_input_tokens
    then raw_input_tokens - cache_read_tokens
    else raw_input_tokens

-- Where the usage object of a payload stands.
unfoldable pub usage_of : Value → Option Value
unfolding get
usage_of payload =
    get "usage" payload
    or_else (get "response" payload >>= get "usage")
    or_else (get "message" payload >>= get "usage")
    or_else (get "delta" payload >>= get "usage")

abbrev pub is_zero_usage : TokenUsage → Bool
is_zero_usage u =
    eqb u.input_tokens 0
    && eqb u.output_tokens 0
    && eqb u.cache_read_tokens 0
    && eqb u.cache_write_tokens 0

abbrev pub nonzero_usage : TokenUsage → Option TokenUsage
nonzero_usage u = if is_zero_usage u then none else some u

abbrev pub input_fields : List String
input_fields = "input_tokens" ∷ "prompt_tokens" ∷ "inputTokens" ∷ "promptTokens" ∷ []

abbrev pub output_fields : List String
output_fields = "output_tokens" ∷ "completion_tokens" ∷ "outputTokens" ∷ "completionTokens" ∷ []

abbrev pub cache_read_fields : List String
cache_read_fields =
    "cache_read_input_tokens" ∷ "cache_read_tokens" ∷ "prompt_cache_hit_tokens" ∷ "cached_tokens"
    ∷ []

abbrev pub cache_write_fields : List String
cache_write_fields =
    "cache_creation_input_tokens" ∷ "cache_write_input_tokens" ∷ "prompt_cache_miss_tokens"
    ∷ "cache_creation_tokens" ∷ []

-- The counts of a usage object.
unfoldable pub read_usage : Value → TokenUsage
read_usage usage =
    let cache_read_tokens = first_u64 usage cache_read_fields in
    record {
      input_tokens = normalize_input_tokens usage (first_u64 usage input_fields) cache_read_tokens;
      output_tokens = first_u64 usage output_fields;
      cache_read_tokens = cache_read_tokens;
      cache_write_tokens = first_u64 usage cache_write_fields;
    }

unfoldable pub extract_token_usage : Value → Option TokenUsage
extract_token_usage payload = usage_of payload >>= λ usage. nonzero_usage (read_usage usage)
