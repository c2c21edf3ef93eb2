-- ===== src/Routing/Resolve/Laws.antt =====
-- What a resolved route is, and when resolution fails.
use ai_open_router.Prelude.{
  eq_iff, subst, String, ◌≡◌, ◌⊎◌, inl, inr, refl, Bool, true, false, none, some, [], ◌∷◌, arith,
  Option-cases, Occurs, find?, find?_sound, Result, ok, err,
}
use ai_open_router.Dict.{lookup}
use ai_open_router.Entities.{RouteEntry, ProxyConfig}
use ai_open_router.Routing.Types.{ActiveRoute, ready}
use ai_open_router.Routing.Index.{build_route_index}
use ai_open_router.Routing.Index.Laws.{ready_route}
use ai_open_router.Routing.Resolve.{
  config_lock_poisoned, provider_not_found, select_entry, has_id, resolve_provider,
  resolve_runtime_active_route,
}
use ai_open_router.Routing.Resolve.Choice.{IsChosen, select_entry-IsChosen, select_entry_total}

-- A resolved route: it keeps the group, holds the one chosen entry, and the provider of that
-- entry's id.
pub record IsResolved (config : ProxyConfig) (route resolved : ActiveRoute) (model : String)
    : Type 0 where
  pub entry : RouteEntry
  pub chosen : IsChosen route.routing_table model entry
  pub isolated : resolved.routing_table ≡ entry ∷ []
  pub same_group : resolved.group_id ≡ route.group_id
  pub provider : Occurs resolved.rule config.providers
  pub provider_id : resolved.rule.id ≡ entry.provider_id

pub ok-injective {ℓ κ} :
    {E : Type κ} {A : Type ℓ} (a b : A) → ◌≡◌ {A = Result E A} (ok a) (ok b) → a ≡ b
ok-injective a b h = cc

module _ (config : ProxyConfig) (route : ActiveRoute) (model : String) where
  resolve_provider-IsResolved :
      (poisoned : Bool) (entry : RouteEntry) (resolved : ActiveRoute)
      → IsChosen route.routing_table model entry
      → resolve_provider config poisoned route entry ≡ ok resolved
      → IsResolved config route resolved model
  unfolding resolve_provider
  resolve_provider-IsResolved true entry resolved c h = cc
  resolve_provider-IsResolved false entry resolved c h =
      elim (Option-cases (find? (has_id entry.provider_id) config.providers)) [
        | inl e ↦ absurd (ground arith)
        | inr (p, e) ↦
            let (listed, named) = find?_sound (has_id entry.provider_id) config.providers p e in
            let made : record route { routing_table = entry ∷ []; rule = p } ≡ resolved =
              ok-injective _ _ (rw (e, resolve_provider) at h) in
            subst (λ r. IsResolved config route r model) made
              (record {
                entry = entry;
                chosen = c;
                isolated = refl;
                same_group = refl;
                provider = listed;
                provider_id = (eq_iff p.id entry.provider_id).0 named;
              })
      ]

  -- When a request model resolves, the result keeps the group, holds one best entry of the
  -- routing table (the longest pattern that the model contains, or else the default entry), and
  -- the provider of that entry's id.
  pub resolve_runtime_active_route-IsResolved :
      (poisoned : Bool) (resolved : ActiveRoute)
      → resolve_runtime_active_route config poisoned route model ≡ ok resolved
      → IsResolved config route resolved model
  unfolding resolve_runtime_active_route
  resolve_runtime_active_route-IsResolved poisoned resolved h =
      elim (Option-cases (select_entry route.routing_table model)) [
        | inl e ↦ absurd (ground arith)
        | inr (entry, e) ↦
            resolve_provider-IsResolved poisoned entry resolved
              (select_entry-IsChosen route.routing_table model entry e)
              (rw (e, resolve_runtime_active_route) at h)
      ]

  -- Success, a missing provider or a poisoned lock.
  abbrev pub Outcome : Bool → Type 0
  Outcome true = resolve_runtime_active_route config true route model ≡ err config_lock_poisoned
  Outcome false =
      ((resolved : ActiveRoute) × (resolve_runtime_active_route config false route model
          ≡ ok resolved))
      ⊎ ((entry : RouteEntry) × Occurs entry route.routing_table
          × (find? (has_id entry.provider_id) config.providers ≡ none)
          × (resolve_runtime_active_route config false route model
              ≡ err (provider_not_found entry.provider_id)))

  outcome_of_entry :
      (poisoned : Bool) (entry : RouteEntry)
      → select_entry route.routing_table model ≡ some entry
      → Outcome poisoned
  unfolding resolve_runtime_active_route resolve_provider
  outcome_of_entry true entry e = rw e
  outcome_of_entry false entry e =
      elim (Option-cases (find? (has_id entry.provider_id) config.providers)) [
        | inl f ↦
            inr (
              entry,
              (select_entry-IsChosen route.routing_table model entry e).listed,
              f,
              rw (e, f),
            )
        | inr (p, f) ↦ inl (record route { routing_table = entry ∷ []; rule = p }, rw (e, f))
      ]

-- For a route that the index calls ready, resolution succeeds for every model, or fails naming a
-- provider that an entry of the table wants and the configuration lacks; with a poisoned lock it
-- fails with the error that says so.
pub ready_route_resolves :
    (config : ProxyConfig) (id : String) (route : ActiveRoute) (model : String) (poisoned : Bool)
    → lookup id (build_route_index config) ≡ some (ready route)
    → Outcome config route model poisoned
ready_route_resolves config id route model poisoned h =
    let (_, _, _, _, defaulted) = ready_route id config route h in
    let (entry, e) = select_entry_total route.routing_table model defaulted in
    outcome_of_entry config route model poisoned entry e
