-- ===== src/Config/Migrator/Idempotence.antt =====
-- A second migration of a file.
use ai_open_router.Prelude.{
  String, ◌≡◌, refl, ap, ◌∙◌, ◌-◌, Bool-cases, inl, inr, ◌==◌, eq_refl, arith, ltb, Result, ok,
  and_then-eq-ok,
}
use ai_open_router.Json.{Value, Fields, object, insert_field, end, field}
use ai_open_router.Json.Laws.{get_field-insert_field_self}
use ai_open_router.Entities.{current_config_version}
use ai_open_router.Config.Migrator.{
  MigrationError, ensure_object_root, detect_config_version, migrate_loop, migrate_config, version,
}
use ai_open_router.Config.Migrator.Laws.{version_of, migrate_config-old}

insert_field_idem :
    (k : String) (v : Value) (m : Fields)
    → insert_field k v (insert_field k v m) ≡ insert_field k v m
unfolding insert_field
insert_field_idem k v end = rw (eq_refl k)
insert_field_idem k v (field j w m) = elim (Bool-cases (j == k)) [
  | inl same ↦ rw (insert_field, same, eq_refl k)
  | inr other ↦ rw (insert_field, other, other) (ap (field j w) (insert_field_idem k v m))
]

abbrev pub stamp : Fields → Fields
stamp m = insert_field "configVersion" (version current_config_version) m

-- A migration is a run of the loop, stamped with the current version.
pub migrate_config-run :
    (input r : Value)
    → migrate_config input ≡ ok r
    → (m : Fields) × (migrate_loop
          (current_config_version - version_of input)
          (version_of input)
          (ensure_object_root input)
        ≡ ok m)
      × (r ≡ object (stamp m))
unfolding migrate_config
migrate_config-run input r h = elim (Bool-cases (ltb current_config_version (version_of input))) [
  | inl newer ↦ absurd (ground (arith, rw (migrate_config, newer) at h))
  | inr old ↦
      let run : Result MigrationError Fields =
        migrate_loop (current_config_version - version_of input) (version_of input)
          (ensure_object_root input) in
      let finish : Fields → Result MigrationError Value = λ m. ok (object (stamp m)) in
      let (m, done, made) = and_then-eq-ok run finish r (rw (migrate_config, old) at h) in
      (m, done, cc)
]

version_of-stamped : (m : Fields) → version_of (object (stamp m)) ≡ current_config_version
unfolding ensure_object_root detect_config_version
version_of-stamped m = rw (
  ensure_object_root,
  detect_config_version,
  get_field-insert_field_self "configVersion" (version current_config_version) m,
)

-- Migrating a migrated file changes nothing.
pub migrate_config_idem : (input r : Value) → migrate_config input ≡ ok r → migrate_config r ≡ ok r
unfolding migrate_loop ensure_object_root
migrate_config_idem input r h =
    let (m, done, made) = migrate_config-run input r h in
    let now = version_of-stamped m in
    rw made (
      migrate_config-old (object (stamp m)) (stamp m) (omega (arith, now)) (rw now refl)
      ∙ ap (λ t. ok (object t))
          (insert_field_idem "configVersion" (version current_config_version) m))
