-- ===== src/Config/Migrator/Costs.antt =====
-- config/migrator.rs: the cost of a provider, copied to each of its models.
use ai_open_router.Prelude.{
  String, Bool, false, not, ◌||◌, Option, none, some, List, [], ◌∷◌, ◌==◌, if◌then◌else◌, ◌>>=◌,
  is_nil, get_or,
}
use ai_open_router.Text.{trim, is_empty}
use ai_open_router.Json.{
  Value, Fields, end, object, get_field, insert_field, or_insert, has_field, as_array, as_bool,
  as_str, is_nonzero_f64, is_null, to_list,
}

-- `.get(key).and_then(Value::as_f64).unwrap_or(0.0) != 0.0`.
abbrev nonzero : String → Fields → Bool
nonzero key cost = elim (get_field key cost) [ none ↦ false | some v ↦ is_nonzero_f64 v ]

abbrev has_template : Fields → Bool
has_template cost = elim (get_field "template" cost) [ none ↦ false | some v ↦ not (is_null v) ]

unfoldable pub is_meaningfully_configured_legacy_cost : Value → Bool
unfolding get_field is_nonzero_f64
is_meaningfully_configured_legacy_cost (object cost) =
    get_or (get_field "enabled" cost >>= λ v. as_bool v) false
    || nonzero "inputPricePerM" cost
    || nonzero "outputPricePerM" cost
    || nonzero "cacheInputPricePerM" cost
    || nonzero "cacheOutputPricePerM" cost
    || not (get_or (get_field "currency" cost >>= λ v. as_str v) "USD" == "USD")
    || has_template cost
is_meaningfully_configured_legacy_cost _ = false

unfoldable pub declared_models : List Value → List String
unfolding trim
declared_models [] = []
declared_models (model ∷ models) =
    let rest = declared_models models in
    elim (as_str model) [ none ↦ rest | some m ↦ if is_empty (trim m) then rest else trim m ∷ rest ]

-- `entry(model).or_insert_with(…)` for each model in turn.
unfoldable pub cost_each : Value → List String → Fields → Fields
unfolding or_insert
cost_each cost [] costs = costs
cost_each cost (model ∷ models) costs = cost_each cost models (or_insert model cost costs)

-- The change to a provider that has a cost and an array of models. Its `modelCosts` is absent when
-- it is reached, so the `let else` on the inserted object is never taken.
unfoldable pub spread_cost : Fields → Value → List String → Fields
unfolding has_field cost_each insert_field
spread_cost provider cost models =
    if is_nil models || has_field "modelCosts" provider
    then provider
    else insert_field "modelCosts" (object (cost_each cost models end)) provider

abbrev cost_and_models : Fields → Option (Value × List String)
cost_and_models provider = get_field "cost" provider >>= λ cost.
    if is_meaningfully_configured_legacy_cost cost
    then (get_field "models" provider >>= λ v.
        as_array v >>= λ models. some (cost, declared_models (to_list models)))
    else none

unfoldable pub migrate_legacy_provider_cost : Value → Value
unfolding get_field is_meaningfully_configured_legacy_cost declared_models spread_cost to_list
migrate_legacy_provider_cost (object provider) = elim (cost_and_models provider) [
  | none ↦ object provider
  | some (cost, models) ↦ object (spread_cost provider cost models)
]
migrate_legacy_provider_cost provider = provider
