-- ===== src/Observability/Usage/Laws.antt =====
-- What the extracted counts are.
use mathlib.Core.Option.{none-ne-some, some-injective}
use ai_open_router.Observability.Usage.Places.{
  counts, paths_of, IsOpenai, first_value, usage_paths, candidates-counts, is_openai_usage_iff,
  usage_of-first_value,
}
use ai_open_router.Prelude.{
  ◌≤◌, ◌⊎◌, true, false, ap, ◌∙◌, suc, zero, subst, Bool-cases, inl, inr, ℕ, String, ◌+◌, ◌<◌, ◌≡◌,
  ◌↔◌, refl, Option, none, some, get_or, List, [], ◌∷◌, arith, All, Option-cases,
}
use ai_open_router.Json.{Value}
use ai_open_router.Entities.{TokenUsage}
use ai_open_router.Observability.Usage.{
  is_zero_usage, candidates, scan, first_u64, is_openai_usage, normalize_input_tokens, usage_of,
  nonzero_usage, read_usage, extract_token_usage, input_fields, cache_read_fields, output_fields,
  cache_write_fields,
}

-- The first count that is not zero, or zero.
abbrev pub first_nonzero : List (Option ℕ) → ℕ
first_nonzero [] = 0
first_nonzero (none ∷ cs) = first_nonzero cs
first_nonzero (some zero ∷ cs) = first_nonzero cs
first_nonzero (some (suc n) ∷ cs) = suc n

scan-first_nonzero :
    (fallback : Option ℕ) (cs : List (Option ℕ))
    → get_or fallback 0 ≡ 0
    → scan fallback cs ≡ first_nonzero cs
unfolding scan
scan-first_nonzero fallback [] h = h
scan-first_nonzero fallback (none ∷ cs) h = scan-first_nonzero fallback cs h
scan-first_nonzero none (some zero ∷ cs) h = scan-first_nonzero (some 0) cs refl
scan-first_nonzero (some n) (some zero ∷ cs) h = scan-first_nonzero (some n) cs h
scan-first_nonzero fallback (some (suc n) ∷ cs) h = ground arith

-- A count is the first one that is not zero over the fields and the places where it can stand,
-- or zero.
pub first_u64-first_nonzero :
    (obj : Value) (fields : List String)
    → first_u64 obj fields ≡ first_nonzero (candidates obj fields)
unfolding first_u64
first_u64-first_nonzero obj fields = scan-first_nonzero none (candidates obj fields) refl

first_nonzero-zero_iff :
    (cs : List (Option ℕ)) → (first_nonzero cs ≡ 0) ↔ All (λ c. get_or c 0 ≡ 0) cs
first_nonzero-zero_iff [] = (λ _. tt, λ _. refl)
first_nonzero-zero_iff (none ∷ cs) =
    let (to, from) = first_nonzero-zero_iff cs in (λ e. (refl, to e), λ h. from h.1)
first_nonzero-zero_iff (some zero ∷ cs) =
    let (to, from) = first_nonzero-zero_iff cs in (λ e. (refl, to e), λ h. from h.1)
first_nonzero-zero_iff (some (suc n) ∷ cs) = (λ e. cc, λ h. absurd (omega arith))

-- A count is zero exactly when no place holds a count that is not.
pub first_u64-zero_iff :
    (obj : Value) (fields : List String)
    → (first_u64 obj fields ≡ 0) ↔ All (λ c. get_or c 0 ≡ 0) (candidates obj fields)
first_u64-zero_iff obj fields =
    rw first_u64-first_nonzero (first_nonzero-zero_iff (candidates obj fields))

nonzero_usage-eq-some :
    (v u : TokenUsage)
    → nonzero_usage v ≡ some u
    → (v ≡ u) × (0 < u.input_tokens + u.output_tokens + u.cache_read_tokens + u.cache_write_tokens)
nonzero_usage-eq-some v u h = elim (Bool-cases (is_zero_usage v)) [
  | inl zeros ↦ absurd (none-ne-some u (rw zeros at h))
  | inr positive ↦
      let same : v ≡ u = some-injective _ _ (rw positive at h) in (same, rw (← same) (ground arith))
]

-- The first count that is not zero among some fields of a usage, or zero.
abbrev pub count_of : Value → List String → ℕ
count_of usage fields = first_nonzero (counts (paths_of fields) usage)

abbrev pub count_of_input : Value → ℕ
count_of_input usage =
    count_of usage ("input_tokens" ∷ "prompt_tokens" ∷ "inputTokens" ∷ "promptTokens" ∷ [])

-- The counts are those of the usage: tokens from the cache, which the input count of an OpenAI
-- usage includes, are taken out of it.
pub record Split (usage : Value) (u : TokenUsage) : Type 0 where
  pub output :
      u.output_tokens
      ≡ count_of usage
          ("output_tokens" ∷ "completion_tokens" ∷ "outputTokens" ∷ "completionTokens" ∷ [])
  pub cache_read :
      u.cache_read_tokens
      ≡ count_of usage (
          "cache_read_input_tokens" ∷ "cache_read_tokens" ∷ "prompt_cache_hit_tokens"
          ∷ "cached_tokens" ∷ [])
  pub cache_write :
      u.cache_write_tokens
      ≡ count_of usage (
          "cache_creation_input_tokens" ∷ "cache_write_input_tokens" ∷ "prompt_cache_miss_tokens"
          ∷ "cache_creation_tokens" ∷ [])
  pub split :
      IsOpenai usage
      → u.cache_read_tokens ≤ count_of_input usage
      → u.input_tokens + u.cache_read_tokens ≡ count_of_input usage
  pub kept :
      ((IsOpenai usage → ⊥) ⊎ (count_of_input usage < u.cache_read_tokens))
      → u.input_tokens ≡ count_of_input usage

first_u64-count_of :
    (usage : Value) (fields : List String) → first_u64 usage fields ≡ count_of usage fields
first_u64-count_of usage fields =
    first_u64-first_nonzero usage fields ∙ ap first_nonzero (candidates-counts usage fields)

normalize-split :
    (usage : Value) (raw cache : ℕ)
    → is_openai_usage usage ≡ true
    → cache ≤ raw
    → normalize_input_tokens usage raw cache + cache ≡ raw
unfolding normalize_input_tokens
normalize-split usage raw cache h low = ground arith

normalize-kept :
    (usage : Value) (raw cache : ℕ)
    → (is_openai_usage usage ≡ false) ⊎ (raw < cache)
    → normalize_input_tokens usage raw cache ≡ raw
unfolding normalize_input_tokens
normalize-kept usage raw cache h = ground arith

other_style : (usage : Value) → (IsOpenai usage → ⊥) → is_openai_usage usage ≡ false
other_style usage h = elim (Bool-cases (is_openai_usage usage)) [
  | inl openai ↦ absurd (h ((is_openai_usage_iff usage).0 openai))
  | inr other ↦ other
]

abbrev InputOf : Value → ℕ → TokenUsage → Type 0
InputOf usage raw u =
    (IsOpenai usage → u.cache_read_tokens ≤ raw → u.input_tokens + u.cache_read_tokens ≡ raw)
    × (((IsOpenai usage → ⊥) ⊎ (raw < u.cache_read_tokens)) → u.input_tokens ≡ raw)

-- The input counts of a usage, with the raw count and the count of cached tokens as such.
normalize_input_tokens-counts :
    (usage : Value) (raw cache : ℕ)
    → (IsOpenai usage → cache ≤ raw → normalize_input_tokens usage raw cache + cache ≡ raw)
      × (((IsOpenai usage → ⊥) ⊎ (raw < cache)) → normalize_input_tokens usage raw cache ≡ raw)
normalize_input_tokens-counts usage raw cache = (
  λ openai low. normalize-split usage raw cache ((is_openai_usage_iff usage).1 openai) low,
  λ h.
      normalize-kept usage raw cache
        (elim h [ inl other ↦ inl (other_style usage other) | inr high ↦ inr high ]),
)

read_usage-Split : (usage : Value) → Split usage (read_usage usage)
unfolding read_usage
read_usage-Split usage =
    let raw = first_u64 usage input_fields in
    let raw_is : raw ≡ count_of_input usage = first_u64-count_of usage input_fields in
    let (split, kept) =
      subst (λ n. InputOf usage n (read_usage usage)) raw_is
        (normalize_input_tokens-counts usage raw (first_u64 usage cache_read_fields)) in
    record {
      output = first_u64-count_of usage output_fields;
      cache_read = first_u64-count_of usage cache_read_fields;
      cache_write = first_u64-count_of usage cache_write_fields;
      split = split;
      kept = kept;
    }

-- Extracted usage is never all zero and has the counts of the first usage object among four
-- places: each is the first one that is not zero among its fields and their places, and the
-- input count of an OpenAI usage loses the cached tokens where it is not smaller than them.
pub extract_token_usage-Split :
    (payload : Value) (u : TokenUsage)
    → extract_token_usage payload ≡ some u
    → (usage : Value) × (first_value usage_paths payload ≡ some usage)
      × (0 < u.input_tokens + u.output_tokens + u.cache_read_tokens + u.cache_write_tokens)
      × Split usage u
unfolding extract_token_usage
extract_token_usage-Split payload u h = elim (Option-cases (usage_of payload)) [
  | inl e ↦ absurd (none-ne-some u (rw (e, extract_token_usage) at h))
  | inr (usage, e) ↦
      let (same, positive) =
        nonzero_usage-eq-some (read_usage usage) u (rw (e, extract_token_usage) at h) in
      (
        usage,
        usage_of-first_value payload ∙ e,
        positive,
        subst (Split usage) same (read_usage-Split usage),
      )
]
