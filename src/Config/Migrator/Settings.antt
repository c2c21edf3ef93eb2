-- ===== src/Config/Migrator/Settings.antt =====
-- The settings of the user interface in a migration.
use ai_open_router.Prelude.{
  zero, suc, List, String, ◌≡◌, ◌≢◌, ◌∙◌, some, arith, ≢→==, eq_iff, Bool-cases, inl, subst, inr,
  and_then-eq-ok, ◌+◌, sym,
}
use ai_open_router.Json.{Value, Fields, object, get_field, insert_field, or_insert, end}
use ai_open_router.Json.Laws.{get_field-or_insert}
use ai_open_router.Config.Migrator.{
  in_object, List, ok, migrate_v1_to_v2, migrate_v2_to_v3, migrate_v3_to_v4, migrate_v4_to_v5,
  migrate_step, MigrationError, version, ℕ, fill_remote_git, eqb, Result, migrate_loop,
  ensure_object_root, suc, migrate_config, current_config_version, price_groups, price_and_filter,
  routed,
}
use ai_open_router.Config.Migrator.Idempotence.{migrate_config-run}
use ai_open_router.Config.Migrator.Changes.{
  modify_array, get_field-modify_object, get_field-modify_object_other,
  get_field-modify_array_other, get_field-insert_field_other,
}

-- Every field of `a` stands in `b` with its value.
abbrev pub Extends : Fields → Fields → Type 0
Extends a b = (key : String) (v : Value) → get_field key a ≡ some v → get_field key b ≡ some v

-- The root has a `ui` object that extends the given one.
pub record KeepsUi (ui root : Fields) : Type 0 where
  pub now : Fields
  pub found : get_field "ui" root ≡ some (object now)
  pub ext : Extends ui now

or_insert-Extends : (key : String) (v : Value) (m : Fields) → Extends m (or_insert key v m)
or_insert-Extends key v m k w h = ground (arith, get_field-or_insert key k v m)

KeepsUi-insert :
    (ui root : Fields) (key : String) (v : Value)
    → key ≢ "ui"
    → KeepsUi ui root
    → KeepsUi ui (insert_field key v root)
KeepsUi-insert ui root key v apart k = record {
  now = k.now;
  found = get_field-insert_field_other key "ui" v root apart ∙ k.found;
  ext = k.ext;
}

KeepsUi-in_ui :
    (ui root : Fields) (key : String) (v : Value)
    → KeepsUi ui root
    → KeepsUi ui (in_object "ui" (or_insert key v) root)
KeepsUi-in_ui ui root key v k =
    let there : get_field "ui" (or_insert "ui" (object end) root) ≡ some (object k.now) =
      ground (arith, get_field-or_insert "ui" "ui" (object end) root, k.found) in
    record {
      now = or_insert key v k.now;
      found =
          get_field-modify_object "ui" (or_insert key v) (or_insert "ui" (object end) root) k.now
            there;
      ext = λ j w h. or_insert-Extends key v k.now j w (k.ext j w h);
    }

KeepsUi-in_other :
    (ui root : Fields) (key : String) (f : Fields → Fields)
    → key ≢ "ui"
    → KeepsUi ui root
    → KeepsUi ui (in_object key f root)
KeepsUi-in_other ui root key f apart k = record {
  now = k.now;
  found =
      get_field-modify_object_other key "ui" f (or_insert key (object end) root) apart
      ∙ ground
          (arith, get_field-or_insert key "ui" (object end) root, ≢→== key "ui" apart, k.found);
  ext = k.ext;
}

KeepsUi-modify_array :
    (ui root : Fields) (key : String) (f : List Value → List Value)
    → key ≢ "ui"
    → KeepsUi ui root
    → KeepsUi ui (modify_array key f root)
KeepsUi-modify_array ui root key f apart k = record {
  now = k.now;
  found = get_field-modify_array_other key "ui" f root apart ∙ k.found;
  ext = k.ext;
}

apart_remote : ◌≢◌ {A = String} "remoteGit" "ui"
apart_remote = ground (arith, eq_iff "remoteGit" "ui")

apart_groups : ◌≢◌ {A = String} "groups" "ui"
apart_groups = ground (arith, eq_iff "groups" "ui")

apart_providers : ◌≢◌ {A = String} "providers" "ui"
apart_providers = ground (arith, eq_iff "providers" "ui")

apart_version : ◌≢◌ {A = String} "configVersion" "ui"
apart_version = ground (arith, eq_iff "configVersion" "ui")

ok-injective : (a b : Fields) → ◌≡◌ {A = Result MigrationError Fields} (ok a) (ok b) → a ≡ b
ok-injective a b h = cc

module _ (ui : Fields) where
  first : (root : Fields) → KeepsUi ui root → KeepsUi ui (migrate_v1_to_v2 root)
  unfolding migrate_v1_to_v2
  first root k = KeepsUi-insert ui _ "configVersion" (version 2) apart_version (
      KeepsUi-in_other ui _ "remoteGit" fill_remote_git apart_remote
        (KeepsUi-in_ui ui root "localeMode" _ k))

  second : (root : Fields) → KeepsUi ui root → KeepsUi ui (migrate_v2_to_v3 root)
  unfolding migrate_v2_to_v3
  second root k =
      KeepsUi-insert ui _ "configVersion" (version 3) apart_version
        (KeepsUi-in_ui ui root "autoStartServer" _ k)

  third : (root : Fields) → KeepsUi ui root → KeepsUi ui (migrate_v3_to_v4 root)
  unfolding migrate_v3_to_v4
  third root k =
      KeepsUi-insert ui _ "configVersion" (version 5) apart_version
        (KeepsUi-in_ui ui root "autoUpdateEnabled" _ k)

  fourth : (root : Fields) → KeepsUi ui root → KeepsUi ui (migrate_v4_to_v5 root)
  unfolding migrate_v4_to_v5
  fourth root k = KeepsUi-insert ui _ "configVersion" (version 4) apart_version (
      KeepsUi-modify_array ui _ "groups" price_groups apart_groups (
        KeepsUi-modify_array ui _ "providers" price_and_filter apart_providers
          (KeepsUi-modify_array ui root "groups" routed apart_groups k)))

KeepsUi-step :
    (n : ℕ) (ui root next : Fields)
    → migrate_step n root ≡ ok next
    → KeepsUi ui root
    → KeepsUi ui next
unfolding migrate_step migrate_v1_to_v2 migrate_v2_to_v3 migrate_v3_to_v4 migrate_v4_to_v5
KeepsUi-step n ui root next h k = elim (Bool-cases (eqb n 1)) [
  | inl one ↦
      subst (KeepsUi ui) (ok-injective _ next (rw (migrate_step, one) at h)) (first ui root k)
  | inr a ↦ elim (Bool-cases (eqb n 2)) [
    | inl two ↦
        subst (KeepsUi ui) (ok-injective _ next (rw (migrate_step, a, two) at h)) (second ui root k)
    | inr b ↦ elim (Bool-cases (eqb n 3)) [
      | inl three ↦
          subst (KeepsUi ui) (ok-injective _ next (rw (migrate_step, a, b, three) at h))
            (third ui root k)
      | inr c ↦ elim (Bool-cases (eqb n 4)) [
        | inl four ↦
            subst (KeepsUi ui) (ok-injective _ next (rw (migrate_step, a, b, c, four) at h))
              (fourth ui root k)
        | inr d ↦ absurd (ground (arith, rw (migrate_step, a, b, c, d) at h))
      ]
    ]
  ]
]

object-injective : (a b : Fields) → object a ≡ object b → a ≡ b
object-injective a b h = cc

KeepsUi-loop :
    (left n : ℕ) (ui root migrated : Fields)
    → migrate_loop left n root ≡ ok migrated
    → KeepsUi ui root
    → KeepsUi ui migrated
unfolding migrate_loop
KeepsUi-loop zero n ui root migrated h k = subst (KeepsUi ui) (ok-injective root migrated h) k
KeepsUi-loop (suc left) n ui root migrated h k =
    let (next, step, rest) =
      and_then-eq-ok (migrate_step n root) (λ m. migrate_loop left (n + 1) m) migrated h in
    KeepsUi-loop left (n + 1) ui next migrated rest (KeepsUi-step n ui root next step k)

-- A migration of a file with a ui object keeps every setting of that object.
pub migrate_config-KeepsUi :
    (root ui result : Fields)
    → get_field "ui" root ≡ some (object ui)
    → migrate_config (object root) ≡ ok (object result)
    → KeepsUi ui result
unfolding ensure_object_root
migrate_config-KeepsUi root ui result found h =
    let (m, done, made) = migrate_config-run (object root) (object result) h in
    let kept =
      KeepsUi-loop _ _ ui root m done (record { now = ui; found = found; ext = λ key v e. e }) in
    subst (KeepsUi ui) (object-injective _ result (sym made))
      (KeepsUi-insert ui m "configVersion" (version current_config_version) apart_version kept)
