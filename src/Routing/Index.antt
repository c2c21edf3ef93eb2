-- ===== src/Routing/Index.antt =====
-- proxy/routing.rs, `build_route_index` and `refresh_route_index_if_needed`.
mod Tests
pub mod Laws
pub mod Coherence
use ai_open_router.Prelude.{
  ℕ, String, Bool, true, false, Option, none, some, List, [], ◌∷◌, ◌==◌, eqb, if◌then◌else◌, any,
  is_nil,
}
use ai_open_router.Dict.{insert}
use ai_open_router.Entities.{RouteEntry, Group, ProxyConfig}
use ai_open_router.Routing.Types.{
  ActiveRoute, RouteResolution, ready, no_routing_table, no_default_route, RouteIndex,
  placeholder_rule,
}

abbrev pub is_default : RouteEntry → Bool
is_default e = e.request_model == "default"

abbrev pub route_of : Group → ActiveRoute
route_of group = record {
  group_id = group.id;
  group_name = group.name;
  routing_table = group.routing_table;
  rule = placeholder_rule;
}

-- One round of the loop: what is stored for a group.
unfoldable pub resolution_of : Group → RouteResolution
unfolding any
resolution_of group =
    if is_nil group.routing_table
    then no_routing_table group.name
    else if any is_default group.routing_table
    then ready (route_of group)
    else no_default_route group.name

index_groups : RouteIndex → List Group → RouteIndex
index_groups index [] = index
index_groups index (group ∷ groups) =
    index_groups (insert group.id (resolution_of group) index) groups

unfoldable pub build_route_index : ProxyConfig → RouteIndex
unfolding index_groups resolution_of insert
build_route_index config = index_groups [] config.groups

-- The part of `ServiceState` that routing uses. A poisoned lock is one that a thread held when it
-- panicked.
pub record ServiceState : Type 0 where
  pub config : ProxyConfig
  pub config_poisoned : Bool
  pub config_revision : ℕ
  pub route_index : RouteIndex
  pub route_index_poisoned : Bool
  pub route_index_revision : ℕ

-- The state after the call, with the error that it returns.
unfoldable pub refresh_route_index_if_needed : ServiceState → ServiceState × Option String
refresh_route_index_if_needed s =
    if eqb s.config_revision s.route_index_revision
    then (s, none)
    else if s.config_poisoned
    then (s, some "config lock poisoned")
    else if s.route_index_poisoned
    then (s, some "route index lock poisoned")
    else (
      record s {
        route_index = build_route_index s.config;
        route_index_revision = s.config_revision;
      },
      none,
    )
