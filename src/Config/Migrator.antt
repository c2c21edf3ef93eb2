-- ===== src/Config/Migrator.antt =====
-- config/migrator.rs: old configuration files brought to the current version.
pub mod Costs
pub mod Changes
pub mod Laws
pub mod Idempotence
pub mod Settings
use ai_open_router.Prelude.{
  ℕ, zero, suc, String, Bool, true, false, not, ◌&&◌, ◌||◌, Option, none, some, List, [], ◌∷◌, map,
  ◌==◌, ◌+◌, ◌-◌, ◌^◌, ltb, eqb, if◌then◌else◌, ◌>>=◌, is_some, get_or, retain, Result, ok, err,
  and_then,
}
use ai_open_router.Text.{is_blank}
use ai_open_router.Json.{
  Value, Fields, end, object, array, string, boolean, number, Number, get, get_field, insert_field,
  or_insert, as_object, as_str, as_u64, to_list, of_list,
}
use ai_open_router.Entities.{current_config_version}
use ai_open_router.Config.Migrator.Costs.{migrate_legacy_provider_cost}
use ai_open_router.Config.Migrator.Changes.{modify_object, modify_array, modify_array_of}

-- The errors, which the source words as texts.
pub data MigrationError : Type 0 where
  newer_than_supported missing_migrator : ℕ → MigrationError

unfoldable pub ensure_object_root : Value → Fields
ensure_object_root (object m) = m
ensure_object_root _ = end

-- `u32::try_from`.
abbrev to_u32 : ℕ → Option ℕ
to_u32 n = if ltb n (2 ^ 32) then some n else none

-- The roots are objects from here on: `ensure_object_root` makes them so.
unfoldable pub detect_config_version : Fields → ℕ
unfolding get_field
detect_config_version root =
    get_or (get_field "configVersion" root >>= λ v. as_u64 v >>= λ n. to_u32 n) 1

abbrev pub version : ℕ → Value
version n = number (Number.pos_int n)

abbrev text : String → Fields → String
text key m = get_or (get_field key m >>= λ v. as_str v) ""

abbrev locale_of : Fields → String
locale_of root =
    get_or
      (get_field "ui" root >>= λ ui. as_object ui >>= λ m. get_field "locale" m >>= λ v. as_str v)
      "en-US"

unfoldable pub fill_remote_git : Fields → Fields
unfolding get_field or_insert insert_field is_blank
fill_remote_git remote =
    let enabled = not (is_blank (text "repoUrl" remote)) || not (is_blank (text "token" remote)) in
    let filled = or_insert "enabled" (boolean enabled) remote in
    if is_blank (text "branch" filled) then insert_field "branch" (string "main") filled else filled

-- `obj.entry(key).or_insert_with(…)`, and a change of the object that is there.
abbrev in_object : String → (Fields → Fields) → Fields → Fields
in_object key f root = modify_object key f (or_insert key (object end) root)

unfoldable pub migrate_v1_to_v2 : Fields → Fields
unfolding modify_object or_insert insert_field fill_remote_git get_field
migrate_v1_to_v2 root =
    let default_locale_mode = if locale_of root == "zh-CN" then "manual" else "auto" in
    let with_ui = in_object "ui" (or_insert "localeMode" (string default_locale_mode)) root in
    insert_field "configVersion" (version 2) (in_object "remoteGit" fill_remote_git with_ui)

unfoldable pub migrate_v2_to_v3 : Fields → Fields
unfolding modify_object or_insert insert_field
migrate_v2_to_v3 root =
    insert_field "configVersion" (version 3)
      (in_object "ui" (or_insert "autoStartServer" (boolean true)) root)

-- It writes version 5.
unfoldable pub migrate_v3_to_v4 : Fields → Fields
unfolding modify_object or_insert insert_field
migrate_v3_to_v4 root =
    insert_field "configVersion" (version 5)
      (in_object "ui" (or_insert "autoUpdateEnabled" (boolean true)) root)

abbrev pub has_routing_table : Value → Bool
has_routing_table g = is_some (get "routingTable" g) || is_some (get "routing_table" g)

abbrev pub has_models : Value → Bool
has_models p = is_some (get "models" p)

abbrev pub price_all : List Value → List Value
price_all providers = map migrate_legacy_provider_cost providers

abbrev pub price_groups : List Value → List Value
price_groups groups = map (λ group. modify_array_of "providers" price_all group) groups

-- The providers that are priced first, less those without models.
abbrev pub price_and_filter : List Value → List Value
price_and_filter providers = retain has_models (price_all providers)

-- The groups with a routing table.
abbrev pub routed : List Value → List Value
routed groups = retain has_routing_table groups

-- It writes version 4.
unfoldable pub migrate_v4_to_v5 : Fields → Fields
unfolding modify_array insert_field
migrate_v4_to_v5 root =
    let filtered = modify_array "groups" routed root in
    let priced = modify_array "providers" price_and_filter filtered in
    insert_field "configVersion" (version 4) (modify_array "groups" price_groups priced)

-- The `match` of the loop.
unfoldable pub migrate_step : ℕ → Fields → Result MigrationError Fields
unfolding migrate_v1_to_v2 migrate_v2_to_v3 migrate_v3_to_v4 migrate_v4_to_v5
migrate_step n root =
    if eqb n 1
    then ok (migrate_v1_to_v2 root)
    else if eqb n 2
    then ok (migrate_v2_to_v3 root)
    else if eqb n 3
    then ok (migrate_v3_to_v4 root)
    else if eqb n 4
    then ok (migrate_v4_to_v5 root)
    else err (missing_migrator n)

-- The `while` loop, on the versions that are left to the current one.
unfoldable pub migrate_loop : ℕ → ℕ → Fields → Result MigrationError Fields
unfolding migrate_step
migrate_loop zero n root = ok root
migrate_loop (suc left) n root =
    and_then (migrate_step n root) λ next. migrate_loop left (n + 1) next

unfoldable pub migrate_config : Value → Result MigrationError Value
unfolding ensure_object_root detect_config_version migrate_loop insert_field
migrate_config input =
    let root = ensure_object_root input in
    let n = detect_config_version root in
    if ltb current_config_version n
    then err (newer_than_supported n)
    else and_then (migrate_loop (current_config_version - n) n root) λ migrated.
      ok (object (insert_field "configVersion" (version current_config_version) migrated))
