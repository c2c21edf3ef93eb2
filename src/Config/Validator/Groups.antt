-- ===== src/Config/Validator/Groups.antt =====
-- The checks on the groups.
use ai_open_router.Prelude.{
  none, some, Option, String, ◌≡◌, refl, sym, true, false, not, ◌&&◌, some, List, [], ◌∷◌, ◌==◌,
  eq_iff, arith, any, ok, ◌⊎◌, ◌↔◌, inl, inr, Occurs, All, Bool-cases, Absent-elim, ap, ◌∙◌, subst,
}
use ai_open_router.Text.{is_blank}
use ai_open_router.Entities.{Rule, Group, ProxyConfig}
use ai_open_router.Config.Validator.{
  has_id_chars, providers_of, effective_provider_ids, has_provider, validate_provider_ids, Option,
  validate_group, validate_groups, validate_config, is_active_listed,
}
use ai_open_router.Config.Validator.Laws.{
  guard_iff, and_then_iff, HasValidSettings, HasValidProviders, validate_settings_iff,
  validate_providers_iff, Unseen-start,
}

-- A provider of the list has the id.
abbrev pub Offers : String → List Rule → Type 0
Offers id providers = (p : Rule) × Occurs p providers × (p.id ≡ id)

has_provider_sound :
    (id : String) (providers : List Rule) → has_provider id providers ≡ true → Offers id providers
unfolding any
has_provider_sound id [] h = absurd (ground arith)
has_provider_sound id (p ∷ providers) h = elim (Bool-cases (p.id == id)) [
  | inl hit ↦ (p, inl refl, (eq_iff p.id id).0 hit)
  | inr miss ↦
      let (q, listed, same) = has_provider_sound id providers (ground arith) in
      (q, inr listed, same)
]

has_provider_complete :
    (id : String) (providers : List Rule) (p : Rule)
    → Occurs p providers
    → p.id ≡ id
    → has_provider id providers ≡ true
unfolding any
has_provider_complete id [] p m e = absurd (Absent-elim m)
has_provider_complete id (q ∷ providers) p (inl same) e =
    let named : (q.id == id) ≡ true = (eq_iff q.id id).1 (ap (λ r. r.id) (sym same) ∙ e) in
    ground arith
has_provider_complete id (q ∷ providers) p (inr m) e =
    ground (arith, has_provider_complete id providers p m e)

-- The id is not blank, and a provider of the configuration or of the group has it.
abbrev pub IsKnownId : ProxyConfig → Group → String → Type 0
IsKnownId config group id =
    (is_blank id ≡ false) × (Offers id config.providers ⊎ Offers id (providers_of group))

known_iff :
    (config : ProxyConfig) (group : Group) (id : String)
    → ((not (has_provider id config.providers) && not (has_provider id (providers_of group)))
        ≡ false)
      ↔ (Offers id config.providers ⊎ Offers id (providers_of group))
known_iff config group id = (
  λ h. elim (Bool-cases (has_provider id config.providers)) [
    | inl global ↦ inl (has_provider_sound id config.providers global)
    | inr missing ↦ inr (has_provider_sound id (providers_of group) (ground arith))
  ],
  λ offers. elim offers [
    | inl (p, m, e) ↦ ground (arith, has_provider_complete id config.providers p m e)
    | inr (p, m, e) ↦ ground (arith, has_provider_complete id (providers_of group) p m e)
  ],
)

validate_provider_ids_iff :
    (config : ProxyConfig) (group : Group) (ids : List String)
    → (validate_provider_ids config group ids ≡ ok tt) ↔ All (IsKnownId config group) ids
unfolding validate_provider_ids
validate_provider_ids_iff config group [] = ground arith
validate_provider_ids_iff config group (id ∷ ids) =
    let ih = validate_provider_ids_iff config group ids in
    let known = known_iff config group id in
    (
      λ h.
          let (full, h1) = (guard_iff _ _ _).0 h in
          let (found, h2) = (guard_iff _ _ _).0 h1 in ((full, known.0 found), ih.0 h2),
      λ h. (guard_iff _ _ _).1 (h.0.0, (guard_iff _ _ _).1 (known.1 h.0.1, ih.1 h.1)),
    )

listed_iff :
    (active : String) (ids : List String)
    → (any (λ id. id == active) ids ≡ true) ↔ Occurs active ids
unfolding any
listed_iff active [] = (λ h. absurd (ground arith), λ m. absurd (Absent-elim m))
listed_iff active (id ∷ ids) = ground (arith, eq_iff id active, listed_iff active ids)

pub record IsValidGroup (config : ProxyConfig) (group : Group) : Type 0 where
  pub id : is_blank group.id ≡ false
  pub chars : has_id_chars group.id ≡ true
  pub named : is_blank group.name ≡ false
  pub ids : All (IsKnownId config group) (effective_provider_ids group)
  pub active :
      (active : String)
      → group.active_provider_id ≡ some active
      → Occurs active (effective_provider_ids group)

ActiveListed : ProxyConfig → Group → Type 0
ActiveListed config group =
    (active : String)
    → group.active_provider_id ≡ some active
    → Occurs active (effective_provider_ids group)

active_iff :
    (config : ProxyConfig) (group : Group) (active : Option String)
    → group.active_provider_id ≡ active
    → (is_active_listed group ≡ true) ↔ ActiveListed config group
unfolding ActiveListed
active_iff config group none e = (λ h. λ a f. absurd (ground arith), λ h. rw e refl)
active_iff config group (some active) e =
    let listed = listed_iff active (effective_provider_ids group) in
    (
      λ h. λ a f.
          subst (λ x. Occurs x (effective_provider_ids group)) (ground arith)
            (listed.0 (rw e at h)),
      λ h. rw e (listed.1 (h active e)),
    )

validate_group_iff :
    (config : ProxyConfig) (group : Group)
    → (validate_group config group ≡ ok tt) ↔ IsValidGroup config group
unfolding validate_group ActiveListed
validate_group_iff config group =
    let ids = validate_provider_ids_iff config group (effective_provider_ids group) in
    let active = active_iff config group group.active_provider_id refl in
    (
      λ h.
          let (full, h1) = (guard_iff _ _ _).0 h in
          let (chars, h2) = (guard_iff _ _ _).0 h1 in
          let (named, h3) = (guard_iff _ _ _).0 h2 in
          let (known, h4) = (and_then_iff _ _).0 h3 in
          record {
            id = full;
            chars = ground arith;
            named = named;
            ids = ids.0 known;
            active = active.0 (ground arith);
          },
      λ v.
          let listed = active.1 v.active in
          let known = ids.1 v.ids in
          (guard_iff _ _ _).1 (
            v.id,
            (guard_iff _ _ _).1 (
              ground (arith, v.chars),
              (guard_iff _ _ _).1 (v.named, (and_then_iff _ _).1 (known, ground arith)),
            ),
          ),
    )

validate_groups_iff :
    (config : ProxyConfig) (groups : List Group)
    → (validate_groups config groups ≡ ok tt) ↔ All (IsValidGroup config) groups
unfolding validate_groups
validate_groups_iff config [] = ground arith
validate_groups_iff config (group ∷ groups) =
    let one = validate_group_iff config group in
    let more = validate_groups_iff config groups in
    (
      λ h. let (first, rest) = (and_then_iff _ _).0 h in (one.0 first, more.0 rest),
      λ h. (and_then_iff _ _).1 (one.1 h.0, more.1 h.1),
    )

-- A configuration passes the checks exactly when its settings are in range, its providers have
-- distinct non-blank ids and default models, and its groups are well formed and name providers
-- that exist.
pub validate_config-valid :
    (config : ProxyConfig)
    → (validate_config config ≡ ok tt) ↔ (
        HasValidSettings config
        × HasValidProviders config.providers
        × All (IsValidGroup config) config.groups)
unfolding validate_config
validate_config-valid config =
    let settings = validate_settings_iff config in
    let providers = validate_providers_iff [] config.providers in
    let groups = validate_groups_iff config config.groups in
    (
      λ h.
          let (first, h1) = (and_then_iff _ _).0 h in
          let (second, third) = (and_then_iff _ _).0 h1 in
          (settings.0 first, (providers.0 second).1, groups.0 third),
      λ h. (and_then_iff _ _).1 (
        settings.1 h.0,
        (and_then_iff _ _).1 (providers.1 (Unseen-start config.providers, h.1), groups.1 h.2),
      ),
    )
