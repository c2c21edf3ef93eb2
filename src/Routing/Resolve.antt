-- ===== src/Routing/Resolve.antt =====
-- proxy/routing.rs, `resolve_runtime_active_route`, `assert_rule_ready` and `resolve_target_model`:
-- the provider that serves a request model.
pub mod Choice
pub mod Laws
use Prim.Native.String.{len}
use ai_open_router.Prelude.{
  ℕ, String, Bool, Option, none, some, List, [], ◌∷◌, ◌==◌, leb, if◌then◌else◌, find?, retain,
  Result, ok, err, and_then, ok_or,
}
use ai_open_router.Text.{contains, is_blank}
use ai_open_router.Entities.{Rule, RouteEntry, ProxyConfig}
use ai_open_router.Routing.Types.{ActiveRoute}
use ai_open_router.Routing.Index.{is_default}

-- The errors, which the source words as texts.
pub data RouteError : Type 0 where
  no_default_route config_lock_poisoned : RouteError
  provider_not_found : String → RouteError

abbrev pub fits : String → RouteEntry → Bool
fits request_model e = contains e.request_model request_model

-- `max_by_key(|e| e.request_model.len())` from its first element on: of equal ones the last.
unfoldable pub longest_from : RouteEntry → List RouteEntry → RouteEntry
longest_from best [] = best
longest_from best (e ∷ es) =
    longest_from (if leb (len best.request_model) (len e.request_model) then e else best) es

-- The entry: the longest that the model contains, or else the first "default".
unfoldable pub select_from : List RouteEntry → List RouteEntry → Option RouteEntry
unfolding find? longest_from
select_from table [] = find? is_default table
select_from table (e ∷ es) = some (longest_from e es)

unfoldable pub select_entry : List RouteEntry → String → Option RouteEntry
unfolding select_from retain
select_entry table request_model = select_from table (retain (fits request_model) table)

abbrev pub has_id : String → Rule → Bool
has_id id p = p.id == id

-- The lookup of the provider, on the configuration under its lock.
unfoldable pub resolve_provider :
    ProxyConfig → Bool → ActiveRoute → RouteEntry → Result RouteError ActiveRoute
unfolding find?
resolve_provider config poisoned route entry =
    if poisoned
    then err config_lock_poisoned
    else and_then
        (ok_or (provider_not_found entry.provider_id)
          (find? (has_id entry.provider_id) config.providers))
        λ provider. ok (record route { routing_table = entry ∷ []; rule = provider })

unfoldable pub resolve_runtime_active_route :
    ProxyConfig → Bool → ActiveRoute → String → Result RouteError ActiveRoute
unfolding select_entry resolve_provider
resolve_runtime_active_route config poisoned route request_model =
    and_then (ok_or no_default_route (select_entry route.routing_table request_model))
      λ entry. resolve_provider config poisoned route entry

-- The status code and message of a rule that cannot be used.
unfoldable pub assert_rule_ready : Rule → Option (ℕ × String)
unfolding is_blank
assert_rule_ready rule =
    if is_blank rule.name
    then some (409, "Active rule name is empty")
    else if is_blank rule.api_address
    then some (409, "Active rule apiAddress is empty")
    else none

abbrev pub resolve_target_model : RouteEntry → String
resolve_target_model entry = entry.target_model
