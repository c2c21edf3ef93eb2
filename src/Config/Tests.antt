-- ===== src/Config/Tests.antt =====
-- The theorems on the configuration at concrete files.
use ai_open_router.Prelude.{inl, inr, arith, ◌≡◌, refl, true, false, some, ok, ◌↔◌, All}
use mathlib.Core.Option.{none-ne-some}
use ai_open_router.Json.{Fields, object, string, boolean, field, end, get_field}
use ai_open_router.Entities.{default_config}
use ai_open_router.Config.Validator.{validate_config}
use ai_open_router.Config.Validator.Laws.{HasValidSettings, HasValidProviders}
use ai_open_router.Config.Validator.Groups.{IsValidGroup, validate_config-valid}
use ai_open_router.Config.Migrator.{ensure_object_root, migrate_config, version}
use ai_open_router.Config.Migrator.Laws.{HasVersion, OutcomeOf, migrate_config-outcome}
use ai_open_router.Config.Migrator.Idempotence.{migrate_config_idem}
use ai_open_router.Config.Migrator.Settings.{KeepsUi, migrate_config-KeepsUi}

default_passes : validate_config default_config ≡ ok tt
unfolding validate_config default_config
default_passes = refl

validate_config-valid_example : (validate_config default_config ≡ ok tt) ↔ (
    HasValidSettings default_config
    × HasValidProviders default_config.providers
    × All (IsValidGroup default_config) default_config.groups)
validate_config-valid_example = validate_config-valid default_config

abbrev old_ui : Fields
old_ui = field "locale" (string "zh-CN") (field "autoStartServer" (boolean false) end)

-- A file of version 3, which lacks `autoUpdateEnabled`.
abbrev old_root : Fields
old_root = field "configVersion" (version 3) (field "ui" (object old_ui) end)

abbrev new_root : Fields
new_root = field "configVersion" (version 5) (
    field "ui"
      (object (
        field "locale" (string "zh-CN")
          (field "autoStartServer" (boolean false) (field "autoUpdateEnabled" (boolean true) end))))
      end)

old_migrates : migrate_config (object old_root) ≡ ok (object new_root)
unfolding migrate_config
old_migrates = refl

old_version : HasVersion (ensure_object_root (object old_root)) 3
unfolding ensure_object_root get_field
old_version = inl (record { value = version 3; stands = refl; reads = refl; fits = omega arith })

migrate_config-outcome_example : OutcomeOf (object old_root) 3
migrate_config-outcome_example = migrate_config-outcome (object old_root) 3 old_version

-- A file without a version is of version 1.
unversioned : HasVersion (ensure_object_root (object end)) 1
unfolding ensure_object_root get_field
unversioned = inr (λ m h. absurd (none-ne-some h.value h.stands), refl)

migrate_config_idem_example : migrate_config (object new_root) ≡ ok (object new_root)
migrate_config_idem_example = migrate_config_idem (object old_root) (object new_root) old_migrates

ui_found : get_field "ui" old_root ≡ some (object old_ui)
unfolding get_field
ui_found = refl

migrate_config-KeepsUi_example : KeepsUi old_ui new_root
migrate_config-KeepsUi_example =
    migrate_config-KeepsUi old_root old_ui new_root ui_found old_migrates
