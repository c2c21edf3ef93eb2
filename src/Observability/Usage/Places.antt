-- ===== src/Observability/Usage/Places.antt =====
-- Where the counts of a payload stand, as paths of keys.
use mathlib.Core.Option.{none-ne-some, some-injective}
use ai_open_router.Prelude.{
  ℕ, String, ◌≡◌, ◌⊎◌, ◌↔◌, refl, ap, inl, inr, true, Option, Option-cases, none, some, List, [],
  ◌∷◌, ◌>>=◌, ◌or_else◌, is_some, arith,
}
use ai_open_router.Json.{Value, get, as_u64}
use ai_open_router.Observability.Usage.{candidates, is_openai_usage, usage_of, get_u64}

abbrev pub value_at : List String → Value → Option Value
value_at [] v = some v
value_at (key ∷ path) v = get key v >>= λ w. value_at path w

abbrev pub count_at : List String → Value → Option ℕ
count_at path v = value_at path v >>= as_u64

abbrev pub counts : List (List String) → Value → List (Option ℕ)
counts [] v = []
counts (path ∷ paths) v = count_at path v ∷ counts paths v

-- A count is kept in the usage object, or in an object of details.
abbrev pub paths_of : List String → List (List String)
paths_of [] = []
paths_of (field ∷ fields) =
    (field ∷ [])
    ∷ ("input_tokens_details" ∷ field ∷ [])
    ∷ ("prompt_tokens_details" ∷ field ∷ [])
    ∷ paths_of fields

bind_some : (o : Option Value) → (o >>= λ w. some w) ≡ o
bind_some none = refl
bind_some (some v) = refl

count_at-field : (field : String) (v : Value) → count_at (field ∷ []) v ≡ get_u64 field v
count_at-field field v = ap (λ o. o >>= as_u64) (bind_some (get field v))

count_at-details :
    (details field : String) (v : Value)
    → count_at (details ∷ field ∷ []) v ≡ (get details v >>= get_u64 field)
count_at-details details field v = elim (Option-cases (get details v)) [
  | inl e ↦ rw e
  | inr (w, e) ↦ rw e (count_at-field field w)
]

pub candidates-counts :
    (v : Value) (fields : List String) → candidates v fields ≡ counts (paths_of fields) v
unfolding candidates
candidates-counts v [] = refl
candidates-counts v (field ∷ fields) =
    rw
      (
        candidates,
        count_at-field field v,
        count_at-details "input_tokens_details" field v,
        count_at-details "prompt_tokens_details" field v,
        candidates-counts v fields,
      )
      refl

-- The first of the places that holds a value.
abbrev pub first_value : List (List String) → Value → Option Value
first_value [] v = none
first_value (path ∷ paths) v = value_at path v or_else first_value paths v

-- The places of a usage object in a payload.
abbrev pub usage_paths : List (List String)
usage_paths =
    ("usage" ∷ [])
    ∷ ("response" ∷ "usage" ∷ [])
    ∷ ("message" ∷ "usage" ∷ [])
    ∷ ("delta" ∷ "usage" ∷ [])
    ∷ []

or_else-none : (o : Option Value) → o or_else none ≡ o
or_else-none none = refl
or_else-none (some v) = refl

value_at-field : (field : String) (v : Value) → value_at (field ∷ []) v ≡ get field v
value_at-field field v = bind_some (get field v)

value_at-inner :
    (outer field : String) (v : Value)
    → value_at (outer ∷ field ∷ []) v ≡ (get outer v >>= get field)
value_at-inner outer field v = elim (Option-cases (get outer v)) [
  | inl e ↦ rw e
  | inr (w, e) ↦ rw e (value_at-field field w)
]

pub usage_of-first_value : (payload : Value) → first_value usage_paths payload ≡ usage_of payload
unfolding usage_of
usage_of-first_value payload =
    rw
      (
        usage_of,
        value_at-field "usage" payload,
        value_at-inner "response" "usage" payload,
        value_at-inner "message" "usage" payload,
        value_at-inner "delta" "usage" payload,
        or_else-none (get "delta" payload >>= get "usage"),
      )
      refl

-- A count stands at the place.
abbrev pub HasCount : List String → Value → Type 0
HasCount path v = (n : ℕ) × (count_at path v ≡ some n)

-- The usage is in the style of OpenAI: its details count the cached tokens, or it counts
-- the tokens of the prompt or of the completion.
abbrev pub IsOpenai : Value → Type 0
IsOpenai usage =
    ((details : Value) × HasCount ("cached_tokens" ∷ []) details
      × (first_value (("input_tokens_details" ∷ []) ∷ ("prompt_tokens_details" ∷ []) ∷ []) usage
          ≡ some details))
    ⊎ (HasCount ("prompt_tokens" ∷ []) usage ⊎ HasCount ("completion_tokens" ∷ []) usage)

is_some_iff : (o : Option ℕ) → (is_some o ≡ true) ↔ ((n : ℕ) × (o ≡ some n))
is_some_iff none = (λ h. cc, λ h. absurd (none-ne-some h.0 h.1))
is_some_iff (some n) = (λ _. (n, refl), λ _. refl)

HasCount-iff :
    (field : String) (v : Value) → (is_some (get_u64 field v) ≡ true) ↔ HasCount (field ∷ []) v
HasCount-iff field v = rw (count_at-field field v) (is_some_iff (get_u64 field v))

bind_iff :
    (o : Option Value) (field : String)
    → (is_some (o >>= get_u64 field) ≡ true)
      ↔ ((v : Value) × HasCount (field ∷ []) v × (o ≡ some v))
bind_iff none field = (λ h. cc, λ h. absurd (none-ne-some h.0 h.2))
bind_iff (some v) field =
    let (to, from) = HasCount-iff field v in
    (λ h. (v, to h, refl), λ h. rw (some-injective v h.0 h.2) ((HasCount-iff field h.0).1 h.1))

details_of :
    (usage : Value)
    → first_value (("input_tokens_details" ∷ []) ∷ ("prompt_tokens_details" ∷ []) ∷ []) usage
      ≡ (get "input_tokens_details" usage or_else get "prompt_tokens_details" usage)
details_of usage =
    rw
      (
        value_at-field "input_tokens_details" usage,
        value_at-field "prompt_tokens_details" usage,
        or_else-none (get "prompt_tokens_details" usage),
      )
      refl

pub is_openai_usage_iff : (usage : Value) → (is_openai_usage usage ≡ true) ↔ IsOpenai usage
unfolding is_openai_usage
is_openai_usage_iff usage =
    let details = get "input_tokens_details" usage or_else get "prompt_tokens_details" usage in
    let cached = bind_iff details "cached_tokens" in
    rw (details_of usage) (
      ground
        (arith, cached, HasCount-iff "prompt_tokens" usage, HasCount-iff "completion_tokens" usage))
