-- ===== src/Config/Migrator/Laws.antt =====
-- Which files migrate, and to what.
use mathlib.Core.Option.{none-ne-some, some-injective}
use ai_open_router.Prelude.{
  ◌⊎◌, Option-cases, sym, ap, subst, ℕ, zero, suc, ◌≡◌, refl, ◌∙◌, ◌≤◌, ◌<◌, ◌+◌, ◌-◌, true, false,
  some, Bool-cases, inl, inr, arith, ltb, eqb, ok, err, ◌^◌,
}
use ai_open_router.Json.{as_u64, Value, Fields, object, get_field, insert_field}
use ai_open_router.Json.Laws.{get_field-insert_field_self}
use ai_open_router.Entities.{current_config_version}
use ai_open_router.Config.Migrator.{
  newer_than_supported, missing_migrator, ensure_object_root, detect_config_version,
  migrate_v1_to_v2, migrate_v2_to_v3, migrate_v3_to_v4, migrate_v4_to_v5, migrate_step,
  migrate_loop, migrate_config, version,
}

pub migrate_step-ok :
    (n : ℕ) (root : Fields) → 1 ≤ n → n ≤ 4 → (next : Fields) × (migrate_step n root ≡ ok next)
unfolding migrate_step
migrate_step-ok n root low high = elim (Bool-cases (eqb n 1)) [
  | inl one ↦ (migrate_v1_to_v2 root, rw (migrate_step, one))
  | inr a ↦ elim (Bool-cases (eqb n 2)) [
    | inl two ↦ (migrate_v2_to_v3 root, rw (migrate_step, a, two))
    | inr b ↦ elim (Bool-cases (eqb n 3)) [
      | inl three ↦ (migrate_v3_to_v4 root, rw (migrate_step, a, b, three))
      | inr c ↦
          let four : eqb n 4 ≡ true = ground arith in
          (migrate_v4_to_v5 root, rw (migrate_step, a, b, c, four))
    ]
  ]
]

migrate_loop-more :
    (left n : ℕ) (root next : Fields)
    → migrate_step n root ≡ ok next
    → migrate_loop (suc left) n root ≡ migrate_loop left (n + 1) next
unfolding migrate_loop
migrate_loop-more left n root next h = rw (migrate_loop, h)

migrate_loop-ok :
    (left n : ℕ) (root : Fields)
    → 1 ≤ n
    → n + left ≤ 5
    → (migrated : Fields) × (migrate_loop left n root ≡ ok migrated)
unfolding migrate_loop
migrate_loop-ok zero n root low high = (root, refl)
migrate_loop-ok (suc left) n root low high =
    let (next, step) = migrate_step-ok n root low (omega arith) in
    let (migrated, done) = migrate_loop-ok left (n + 1) next (omega arith) (omega arith) in
    (migrated, migrate_loop-more left n root next step ∙ done)

abbrev pub version_of : Value → ℕ
version_of input = detect_config_version (ensure_object_root input)

migrate_config-new :
    (input : Value)
    → current_config_version < version_of input
    → migrate_config input ≡ err (newer_than_supported (version_of input))
unfolding migrate_config
migrate_config-new input h =
    let newer : ltb current_config_version (version_of input) ≡ true = ground arith in
    rw (migrate_config, newer)

pub migrate_config-old :
    (input : Value) (migrated : Fields)
    → version_of input ≤ current_config_version
    → migrate_loop
        (current_config_version - version_of input)
        (version_of input)
        (ensure_object_root input)
      ≡ ok migrated
    → migrate_config input
      ≡ ok (object (insert_field "configVersion" (version current_config_version) migrated))
unfolding migrate_config
migrate_config-old input migrated h e =
    let old : ltb current_config_version (version_of input) ≡ false = ground arith in
    rw (migrate_config, old, e)

abbrev pub Migrates : Value → Type 0
Migrates input =
    (root : Fields) × (migrate_config input ≡ ok (object root))
    × (get_field "configVersion" root ≡ some (version current_config_version))

migrate_config-zero :
    (input : Value) → version_of input ≡ 0 → migrate_config input ≡ err (missing_migrator 0)
unfolding migrate_config migrate_loop migrate_step
migrate_config-zero input h = rw (migrate_config, h)

-- The root says that its version is the number.
pub record IsVersion (root : Fields) (n : ℕ) : Type 0 where
  pub value : Value
  pub stands : get_field "configVersion" root ≡ some value
  pub reads : as_u64 value ≡ some n
  pub fits : n < 2 ^ 32

-- The version of a root: what it says, and 1 where it says none.
abbrev pub HasVersion : Fields → ℕ → Type 0
HasVersion root n = IsVersion root n ⊎ (((m : ℕ) → IsVersion root m → ⊥) × (n ≡ 1))

read_version-HasVersion :
    (root : Fields) (value : Value) (n : ℕ)
    → get_field "configVersion" root ≡ some value
    → as_u64 value ≡ some n
    → HasVersion root (detect_config_version root)
unfolding detect_config_version
read_version-HasVersion root value n e f = elim (Bool-cases (ltb n (2 ^ 32))) [
  | inl small ↦
      rw (detect_config_version, e, f, small)
        (inl (record { value = value; stands = e; reads = f; fits = ground arith }))
  | inr large ↦ inr (
    λ m h.
        let same : value ≡ h.value = some-injective value h.value (sym e ∙ h.stands) in
        let number_is : n ≡ m = some-injective n m (sym f ∙ ap as_u64 same ∙ h.reads) in
        let small = h.fits in absurd (ground arith),
    rw (detect_config_version, e, f, large) refl,
  )
]

detect_config_version-HasVersion : (root : Fields) → HasVersion root (detect_config_version root)
unfolding detect_config_version
detect_config_version-HasVersion root = elim (Option-cases (get_field "configVersion" root)) [
  | inl e ↦
      inr (
        λ m h. absurd (none-ne-some h.value (sym e ∙ h.stands)),
        rw (detect_config_version, e) refl,
      )
  | inr (value, e) ↦ elim (Option-cases (as_u64 value)) [
    | inl f ↦ inr (
      λ m h.
          let same : value ≡ h.value = some-injective value h.value (sym e ∙ h.stands) in
          absurd (none-ne-some m (sym f ∙ ap as_u64 same ∙ h.reads)),
      rw (detect_config_version, e, f) refl,
    )
    | inr (n, f) ↦ read_version-HasVersion root value n e f
  ]
]

-- What becomes of a file of a version.
abbrev pub OutcomeOf : Value → ℕ → Type 0
OutcomeOf input n =
    (1 ≤ n → n ≤ current_config_version → Migrates input)
    × (current_config_version < n → migrate_config input ≡ err (newer_than_supported n))
    × (n ≡ 0 → migrate_config input ≡ err (missing_migrator 0))

version_of-OutcomeOf : (input : Value) → OutcomeOf input (version_of input)
version_of-OutcomeOf input = (
  λ low high.
      let n = version_of input in
      let (migrated, done) =
        migrate_loop-ok (current_config_version - n) n (ensure_object_root input) low
          (omega arith) in
      (
        insert_field "configVersion" (version current_config_version) migrated,
        migrate_config-old input migrated high done,
        get_field-insert_field_self "configVersion" (version current_config_version) migrated,
      ),
  migrate_config-new input,
  migrate_config-zero input,
)

IsVersion-unique : (root : Fields) (n m : ℕ) → IsVersion root n → IsVersion root m → n ≡ m
IsVersion-unique root n m h k =
    let same : h.value ≡ k.value = some-injective h.value k.value (sym h.stands ∙ k.stands) in
    some-injective n m (sym h.reads ∙ ap as_u64 same ∙ k.reads)

HasVersion-unique : (root : Fields) (n m : ℕ) → HasVersion root n → HasVersion root m → n ≡ m
HasVersion-unique root n m h k = elim h [
  | inl said ↦ elim k [
    | inl again ↦ IsVersion-unique root n m said again
    | inr (silent, one) ↦ absurd (silent n said)
  ]
  | inr (silent, one) ↦ elim k [
    | inl said ↦ absurd (silent m said)
    | inr (_, also_one) ↦ one ∙ sym also_one
  ]
]

-- A file of version 1 to 5 migrates to an object of the current version; a newer one and version
-- 0 are refused. The version is the number that the file says, and 1 if it says none below 2^32.
pub migrate_config-outcome :
    (input : Value) (n : ℕ) → HasVersion (ensure_object_root input) n → OutcomeOf input n
migrate_config-outcome input n h =
    subst (OutcomeOf input)
      (HasVersion-unique (ensure_object_root input) (version_of input) n
        (detect_config_version-HasVersion (ensure_object_root input)) h)
      (version_of-OutcomeOf input)
