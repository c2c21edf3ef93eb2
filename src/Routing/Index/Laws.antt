-- ===== src/Routing/Index/Laws.antt =====
-- What the index holds for a group id.
use ai_open_router.Prelude.{
  String, ◌≡◌, refl, true, Option, none, some, List, [], ◌∷◌, ◌==◌, arith, eq_iff, if◌then◌else◌,
  ◌or_else◌, Occurs, inl, inr, any, Option-cases, sym, ◌∙◌, Bool-cases,
}
use mathlib.Core.Option
use mathlib.Core.Option.{some-injective, none-ne-some}
use ai_open_router.Dict.{lookup, lookup-insert, insert}
use ai_open_router.Entities.{Group, ProxyConfig}
use ai_open_router.Routing.Types.{ActiveRoute, ready, RouteIndex}
use ai_open_router.Routing.Index.{
  is_default, route_of, resolution_of, index_groups, build_route_index, ServiceState,
  refresh_route_index_if_needed,
}

-- The last group with an id.
abbrev pub last_group : String → List Group → Option Group
last_group id [] = none
last_group id (group ∷ groups) =
    last_group id groups or_else (if group.id == id then some group else none)

or_else-none {ℓ} : {A : Type ℓ} (o : Option A) → (o or_else none) ≡ o
or_else-none none = refl
or_else-none (some a) = refl

lookup-index_groups :
    (id : String) (groups : List Group) (index : RouteIndex)
    → lookup id (index_groups index groups)
      ≡ (Option.map resolution_of (last_group id groups) or_else lookup id index)
unfolding index_groups
lookup-index_groups id [] index = refl
lookup-index_groups id (group ∷ groups) index = ground (
  arith,
  lookup-index_groups id groups (insert group.id (resolution_of group) index),
  lookup-insert group.id id (resolution_of group) index,
)

-- A group id is found in the index exactly when a group has it, with the resolution of the last
-- such group.
pub lookup-build_route_index :
    (id : String) (config : ProxyConfig)
    → lookup id (build_route_index config) ≡ Option.map resolution_of (last_group id config.groups)
unfolding build_route_index lookup
lookup-build_route_index id config =
    lookup-index_groups id config.groups []
    ∙ or_else-none (Option.map resolution_of (last_group id config.groups))

last_group-Occurs :
    (id : String) (groups : List Group) (group : Group)
    → last_group id groups ≡ some group
    → Occurs group groups × (group.id ≡ id)
last_group-Occurs id [] group h = cc
last_group-Occurs id (g ∷ groups) group h = elim (Option-cases (last_group id groups)) [
  | inl e ↦ elim (Bool-cases (g.id == id)) [
    | inl same ↦
        let k : g ≡ group = some-injective _ _ (rw (e, same) at h) in
        (inl (sym k), rw (← k) ((eq_iff g.id id).0 same))
    | inr other ↦ absurd (none-ne-some group (rw (e, other) at h))
  ]
  | inr (found, e) ↦
      let (m, same) = last_group-Occurs id groups group (e ∙ (rw e at h)) in (inr m, same)
]

resolution_of-ready :
    (group : Group) (route : ActiveRoute)
    → resolution_of group ≡ ready route
    → (route ≡ route_of group) × (any is_default route.routing_table ≡ true)
unfolding resolution_of
resolution_of-ready group route h = ground arith

-- A route that the index calls ready is the routing table of a group of the configuration with
-- that id, and has a default entry.
pub ready_route :
    (id : String) (config : ProxyConfig) (route : ActiveRoute)
    → lookup id (build_route_index config) ≡ some (ready route)
    → (group : Group) × Occurs group config.groups
      × (group.id ≡ id)
      × (route ≡ route_of group)
      × (any is_default route.routing_table ≡ true)
ready_route id config route h =
    let (group, found, same) =
      (Option.map-eq-some_iff resolution_of (last_group id config.groups)).0
        (sym (lookup-build_route_index id config) ∙ h) in
    let (listed, named) = last_group-Occurs id config.groups group found in
    let (made, defaulted) = resolution_of-ready group route same in
    (group, listed, named, made, defaulted)

-- After a refresh without error the index is that of the current configuration, if it was so
-- before whenever the revisions agreed.
pub refresh_route_index_if_needed-current :
    (s : ServiceState)
    → (s.config_revision ≡ s.route_index_revision → s.route_index ≡ build_route_index s.config)
    → (refresh_route_index_if_needed s).1 ≡ none
    → ((refresh_route_index_if_needed s).0.route_index ≡ build_route_index s.config)
      × ((refresh_route_index_if_needed s).0.route_index_revision ≡ s.config_revision)
unfolding refresh_route_index_if_needed
refresh_route_index_if_needed-current s h e = ground arith
