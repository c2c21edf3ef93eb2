-- ===== src/Config/Validator/Laws.antt =====
-- The checks on the settings and the providers.
use ai_open_router.Prelude.{
  refl, String, ◌≡◌, ◌≢◌, ◌≤◌, Bool, true, false, List, [], ◌∷◌, eq_iff, arith, if◌then◌else◌,
  Result, ok, err, and_then, ◌⊎◌, ◌↔◌, All,
}
use ai_open_router.Text.{is_blank}
use ai_open_router.Dict.{HashSet, insert, contains_key, lookup-insert, lookup}
use ai_open_router.Entities.{Rule, ProxyConfig, current_config_version}
use ai_open_router.Config.Validator.{validate_settings, has_no_text, validate_providers}

-- A check and the rest pass exactly when neither fails.
pub guard_iff :
    (b : Bool) (m : String) (r : Result String (Unit {0}))
    → ((if b then err m else r) ≡ ok tt) ↔ ((b ≡ false) × (r ≡ ok tt))
guard_iff true m r = ground arith
guard_iff false m r = ground arith

pub and_then_iff :
    (m r : Result String (Unit {0})) → (and_then m (λ u. r) ≡ ok tt) ↔ ((m ≡ ok tt) × (r ≡ ok tt))
and_then_iff (ok tt) r = ground arith
and_then_iff (err e) r = ground arith

pub record HasValidSettings (config : ProxyConfig) : Type 0 where
  pub version : config.config_version ≡ current_config_version
  pub host : is_blank config.server.host ≡ false
  pub port : config.server.port ≢ 0
  pub token : config.server.auth_enabled ≡ true → is_blank config.server.local_bearer_token ≡ false
  pub theme : (config.ui.theme ≡ "light") ⊎ (config.ui.theme ≡ "dark")
  pub locale : (config.ui.locale ≡ "en-US") ⊎ (config.ui.locale ≡ "zh-CN")
  pub locale_mode : (config.ui.locale_mode ≡ "auto") ⊎ (config.ui.locale_mode ≡ "manual")
  pub minutes_low : 1 ≤ config.ui.quota_auto_refresh_minutes
  pub minutes_high : config.ui.quota_auto_refresh_minutes ≤ 1440
  pub branch : is_blank config.remote_git.branch ≡ false

pub validate_settings_iff :
    (config : ProxyConfig) → (validate_settings config ≡ ok tt) ↔ HasValidSettings config
unfolding validate_settings
validate_settings_iff config = ground (
  arith,
  eq_iff config.ui.theme "light",
  eq_iff config.ui.theme "dark",
  eq_iff config.ui.locale "en-US",
  eq_iff config.ui.locale "zh-CN",
  eq_iff config.ui.locale_mode "auto",
  eq_iff config.ui.locale_mode "manual",
)

-- Each provider has an id of its own and a default model.
abbrev pub HasValidProviders : List Rule → Type 0
HasValidProviders [] = Unit
HasValidProviders (provider ∷ providers) =
    (is_blank provider.id ≡ false)
    × (has_no_text provider.default_model ≡ false)
    × All (λ q. q.id ≢ provider.id) providers
    × HasValidProviders providers

abbrev Unseen : HashSet → List Rule → Type 0
Unseen seen providers = All (λ q. contains_key q.id seen ≡ false) providers

Unseen-insert :
    (id : String) (seen : HashSet) (providers : List Rule)
    → Unseen (insert id tt seen) providers
      ↔ (Unseen seen providers × All (λ q. q.id ≢ id) providers)
unfolding contains_key
Unseen-insert id seen [] = ground arith
Unseen-insert id seen (q ∷ providers) =
    ground (arith, Unseen-insert id seen providers, lookup-insert id q.id tt seen, eq_iff id q.id)

pub validate_providers_iff :
    (seen : HashSet) (providers : List Rule)
    → (validate_providers seen providers ≡ ok tt)
      ↔ (Unseen seen providers × HasValidProviders providers)
unfolding validate_providers
validate_providers_iff seen [] = ground arith
validate_providers_iff seen (provider ∷ providers) = ground (
  arith,
  validate_providers_iff (insert provider.id tt seen) providers,
  Unseen-insert provider.id seen providers,
)

pub Unseen-start : (providers : List Rule) → Unseen [] providers
unfolding contains_key lookup
Unseen-start [] = tt
Unseen-start (q ∷ providers) = (refl, Unseen-start providers)
