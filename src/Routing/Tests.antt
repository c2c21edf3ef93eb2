-- ===== src/Routing/Tests.antt =====
-- Tests of the routing modules, and their theorems at concrete routes and requests.
use Prim.Native.String.{◌++◌}
use ai_open_router.Prelude.{
  ◌++◌ as append, String, ◌≡◌, refl, true, false, none, some, [], ◌∷◌, ok, arith, eq_iff, ◌||◌, any,
}
use ai_open_router.Text.{starts_with, strip_prefix}
use ai_open_router.Dict.{lookup, contains_key}
use ai_open_router.Entities.{Rule, RuleProtocol, RouteEntry, Group, ProxyConfig, default_config}
use ai_open_router.Routing.Types.{
  EntryProtocol, EntryEndpoint, ActiveRoute, ready, placeholder_rule,
}
use ai_open_router.Routing.Entry.{detect_entry_protocol}
use ai_open_router.Routing.Url.{UrlLibrary, resolve_upstream_url}
use ai_open_router.Routing.Url.Laws.{IsUpstream, resolve_upstream_url-IsUpstream}
use ai_open_router.Routing.Headers.{
  Header, build_forward_headers, build_rule_headers, normalized_header_set,
}
use ai_open_router.Routing.Headers.Laws.{withheld_header, credentials_of_rule}
use ai_open_router.Routing.Headers.Blocked.{is_hard_blocked_passthrough_header}
use ai_open_router.Routing.Index.{
  route_of, build_route_index, ServiceState, refresh_route_index_if_needed, is_default,
}
use ai_open_router.Routing.Resolve.{select_entry, resolve_runtime_active_route}
use ai_open_router.Routing.Resolve.Choice.{chosen_pattern_is_literal}
use ai_open_router.Routing.Resolve.Laws.{
  IsResolved, Outcome, resolve_runtime_active_route-IsResolved, ready_route_resolves,
}

abbrev provider : Rule
provider = record placeholder_rule {
  id = "p1";
  name = "Main";
  token = "secret";
  api_address = "https://api.example.com/v1";
  protocol = RuleProtocol.anthropic;
}

abbrev sonnet : RouteEntry
sonnet = record { request_model = "sonnet"; provider_id = "p1"; target_model = "claude-x" }

abbrev fallback : RouteEntry
fallback = record { request_model = "default"; provider_id = "p1"; target_model = "claude-y" }

abbrev group : Group
group = record {
  id = "dev";
  name = "Dev";
  routing_table = fallback ∷ sonnet ∷ [];
  models = none;
  provider_ids = none;
  active_provider_id = none;
  providers = none;
  failover = none;
}

abbrev config : ProxyConfig
config = record default_config { providers = provider ∷ []; groups = group ∷ [] }

abbrev resolved : ActiveRoute
resolved = record {
  group_id = "dev";
  group_name = "Dev";
  routing_table = sonnet ∷ [];
  rule = provider;
}

detect_messages :
    detect_entry_protocol "/v1/messages"
    ≡ some (record { protocol = EntryProtocol.anthropic; endpoint = EntryEndpoint.messages })
unfolding detect_entry_protocol
detect_messages = refl

resolve_sonnet :
    resolve_runtime_active_route config false (route_of group) "claude-sonnet-4" ≡ ok resolved
unfolding resolve_runtime_active_route ai_open_router.Text.contains
resolve_sonnet = refl

resolve_runtime_active_route-IsResolved_example :
    IsResolved config (route_of group) resolved "claude-sonnet-4"
resolve_runtime_active_route-IsResolved_example =
    resolve_runtime_active_route-IsResolved config (route_of group) "claude-sonnet-4" false resolved
      resolve_sonnet

lookup_dev : lookup "dev" (build_route_index config) ≡ some (ready (route_of group))
unfolding build_route_index default_config lookup
lookup_dev = refl

ready_route_resolves_example : Outcome config (route_of group) "gpt-5" false
ready_route_resolves_example =
    ready_route_resolves config "dev" (route_of group) "gpt-5" false lookup_dev

abbrev idempotency : Header
idempotency = ("idempotency-key", some " tools ")

abbrev key : Header
key = ("x-api-key", some "stolen")

abbrev one_host : UrlLibrary
one_host = record {
  Url = String;
  parse = λ address. strip_prefix "https://api.example.com" address;
  path = λ url. url;
  set_path = λ url path. path;
  to_string = λ url. "https://api.example.com" ++ url;
}

upstream_of_prefix :
    resolve_upstream_url one_host "https://api.example.com/proxy/" "/v1/messages"
    ≡ some "https://api.example.com/proxy/v1/messages"
unfolding resolve_upstream_url
upstream_of_prefix = refl

resolve_upstream_url-IsUpstream_example :
    IsUpstream one_host "https://api.example.com/proxy/" "/v1/messages"
      "https://api.example.com/proxy/v1/messages"
resolve_upstream_url-IsUpstream_example =
    resolve_upstream_url-IsUpstream one_host "https://api.example.com/proxy/" "/v1/messages"
      "https://api.example.com/proxy/v1/messages" upstream_of_prefix

key_blocked :
    (is_hard_blocked_passthrough_header "x-api-key" || contains_key {V = Unit {0}} "x-api-key" [])
    ≡ true
unfolding is_hard_blocked_passthrough_header
key_blocked = refl

withheld_header_example :
    lookup "x-api-key"
      (build_forward_headers EntryProtocol.anthropic RuleProtocol.openai provider (key ∷ []) true)
    ≡ lookup "x-api-key" (build_rule_headers RuleProtocol.openai provider)
unfolding normalized_header_set placeholder_rule
withheld_header_example =
    withheld_header EntryProtocol.anthropic RuleProtocol.openai provider (key ∷ []) true "x-api-key"
      key_blocked

credentials_of_rule_example :
    (lookup "authorization" (
        build_forward_headers EntryProtocol.anthropic RuleProtocol.anthropic provider
          (key ∷ [])
          true)
      ≡ none)
    × (lookup "x-api-key" (
          build_forward_headers EntryProtocol.anthropic RuleProtocol.anthropic provider
            (key ∷ [])
            true)
        ≡ some "secret")
credentials_of_rule_example =
    credentials_of_rule EntryProtocol.anthropic RuleProtocol.anthropic provider (key ∷ []) true

abbrev stale : ServiceState
stale = record {
  config = config;
  config_poisoned = false;
  config_revision = 2;
  route_index = [];
  route_index_poisoned = false;
  route_index_revision = 1;
}

stale_refreshes : (refresh_route_index_if_needed stale).1 ≡ none
unfolding refresh_route_index_if_needed
stale_refreshes = refl

select_sonnet : select_entry group.routing_table "claude-sonnet-4" ≡ some sonnet
unfolding select_entry ai_open_router.Text.contains
select_sonnet = refl

default_listed : any is_default group.routing_table ≡ true
unfolding any
default_listed = refl

chosen_pattern_is_literal_example :
    (a : String) × (b : String) × ("claude-sonnet-4" ≡ a ++ ("sonnet" ++ b))
chosen_pattern_is_literal_example =
    chosen_pattern_is_literal group.routing_table "claude-sonnet-4" sonnet select_sonnet
      (ground (arith, eq_iff "sonnet" "default"))
