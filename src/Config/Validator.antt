-- ===== src/Config/Validator.antt =====
-- config/validator.rs, `validate_config`.
pub mod Laws
pub mod Groups
use Prim.Native.Char.{code}
use Prim.Native.String.{[], ◌∷◌, ◌++◌}
use ai_open_router.Prelude.{
  ℕ, String, Bool, true, false, not, ◌&&◌, ◌||◌, Option, none, some, List, [], ◌∷◌, map, ◌==◌, ltb,
  leb, eqb, if◌then◌else◌, any, is_nil, Result, ok, err, and_then,
}
use ai_open_router.Text.{is_blank}
use ai_open_router.Text.Utf8.{is_ascii_digit}
use ai_open_router.Dict.{HashSet, insert, contains_key}
use ai_open_router.Entities.{Rule, Group, ProxyConfig, current_config_version}

-- The checks on the settings, up to `remote_git`.
unfoldable pub validate_settings : ProxyConfig → Result String (Unit {0})
unfolding is_blank
validate_settings config =
    if not (eqb config.config_version current_config_version)
    then err "configVersion must be 5"
    else if is_blank config.server.host
    then err "server.host must be non-empty"
    else if eqb config.server.port 0
    then err "server.port must be between 1 and 65535"
    else if config.server.auth_enabled && is_blank config.server.local_bearer_token
    then err "server.localBearerToken must be set when authEnabled=true"
    else if not (config.ui.theme == "light") && not (config.ui.theme == "dark")
    then err "ui.theme must be light|dark"
    else if not (config.ui.locale == "en-US") && not (config.ui.locale == "zh-CN")
    then err "ui.locale must be en-US|zh-CN"
    else if not (config.ui.locale_mode == "auto") && not (config.ui.locale_mode == "manual")
    then err "ui.localeMode must be auto|manual"
    else if ltb config.ui.quota_auto_refresh_minutes 1
        || ltb 1440 config.ui.quota_auto_refresh_minutes
    then err "ui.quotaAutoRefreshMinutes must be between 1 and 1440"
    else if is_blank config.remote_git.branch
    then err "remoteGit.branch must be non-empty"
    else ok tt

abbrev pub has_no_text : Option String → Bool
has_no_text none = true
has_no_text (some m) = is_blank m

-- The loop over the providers, with the ids seen so far.
unfoldable pub validate_providers : HashSet → List Rule → Result String (Unit {0})
unfolding is_blank contains_key insert
validate_providers provider_ids [] = ok tt
validate_providers provider_ids (provider ∷ providers) =
    let rest = validate_providers (insert provider.id tt provider_ids) providers in
    if is_blank provider.id
    then err "provider.id is required"
    else if has_no_text provider.default_model
    then err ("provider.defaultModel required for " ++ provider.id)
    else if contains_key provider.id provider_ids
    then err ("duplicate provider.id: " ++ provider.id)
    else rest

abbrev pub is_id_char : ℕ → Bool
is_id_char c =
    is_ascii_digit c
    || (leb b'A' c && leb c b'Z')
    || (leb b'a' c && leb c b'z')
    || eqb c b'_'
    || eqb c b'-'

-- `.chars().all(…)`.
unfoldable pub has_id_chars : String → Bool
has_id_chars [] = true
has_id_chars (c ∷ s) = is_id_char (code c) && has_id_chars s

-- `group.providers.iter().flatten()`.
abbrev pub providers_of : Group → List Rule
providers_of group = elim group.providers [ none ↦ [] | some providers ↦ providers ]

abbrev own_ids : Group → List String
own_ids group = map (λ p. p.id) (providers_of group)

abbrev pub effective_provider_ids : Group → List String
effective_provider_ids group = elim group.provider_ids [
  | none ↦ own_ids group
  | some ids ↦ if is_nil ids then own_ids group else ids
]

abbrev pub has_provider : String → List Rule → Bool
has_provider id providers = any (λ p. p.id == id) providers

-- The loop over a group's provider ids.
unfoldable pub validate_provider_ids : ProxyConfig → Group → List String → Result String (Unit {0})
unfolding is_blank any
validate_provider_ids config group [] = ok tt
validate_provider_ids config group (id ∷ ids) =
    let rest = validate_provider_ids config group ids in
    if is_blank id
    then err ("group.providerIds contains empty id in " ++ group.id)
    else if not (has_provider id config.providers) && not (has_provider id (providers_of group))
    then err ("group.providerIds not found in providers for " ++ group.id ++ ": " ++ id)
    else rest

abbrev is_active_listed : Group → Bool
is_active_listed group = elim group.active_provider_id [
  | none ↦ true
  | some active ↦ any (λ id. id == active) (effective_provider_ids group)
]

unfoldable pub validate_group : ProxyConfig → Group → Result String (Unit {0})
unfolding is_blank has_id_chars validate_provider_ids any
validate_group config group =
    if is_blank group.id
    then err "group.id is required"
    else if not (has_id_chars group.id)
    then err ("group.id invalid: " ++ group.id)
    else if is_blank group.name
    then err ("group.name is required for " ++ group.id)
    else and_then (validate_provider_ids config group (effective_provider_ids group)) λ u.
      if is_active_listed group
      then ok tt
      else err ("group.activeProviderId not found in providers for " ++ group.id)

unfoldable pub validate_groups : ProxyConfig → List Group → Result String (Unit {0})
unfolding validate_group
validate_groups config [] = ok tt
validate_groups config (group ∷ groups) =
    and_then (validate_group config group) λ u. validate_groups config groups

unfoldable pub validate_config : ProxyConfig → Result String (Unit {0})
unfolding validate_settings validate_providers validate_groups
validate_config config =
    and_then (validate_settings config) λ u.
      and_then (validate_providers [] config.providers) λ v. validate_groups config config.groups
