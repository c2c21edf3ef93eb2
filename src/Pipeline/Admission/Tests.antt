-- ===== src/Pipeline/Admission/Tests.antt =====
-- Requests to the proxy at a concrete configuration.
use Prim.Native.String.{◌++◌}
use ai_open_router.Prelude.{
  ℕ, String, ◌≡◌, refl, true, false, none, some, List, [], ◌∷◌, Option, Result, ok,
}
use ai_open_router.Text.{strip_prefix}
use ai_open_router.Json.{Value, object, end}
use ai_open_router.Entities.{Rule, RuleProtocol, RouteEntry, Group, ServerConfig, default_config}
use ai_open_router.Routing.Types.{ActiveRoute, placeholder_rule}
use ai_open_router.Routing.Types
use ai_open_router.Routing.Url.{UrlLibrary}
use ai_open_router.Routing.Index.{ServiceState}
use ai_open_router.Pipeline.Request.{Transformer}
use ai_open_router.Pipeline.Admission.{Request, Forward}
use ai_open_router.Pipeline.Admission.Handler.{forward_of, handle_proxy_request}
use ai_open_router.Pipeline.Admission.Laws.{IsAnswered, handle_proxy_request-IsAnswered}
use ai_open_router.Pipeline.Admission.Forwarded.{IsForwarded, handle_proxy_request-IsForwarded}

abbrev provider : Rule
provider = record placeholder_rule {
  id = "p1";
  name = "Main";
  token = "secret";
  api_address = "https://api.example.com";
  protocol = RuleProtocol.anthropic;
}

abbrev fallback : RouteEntry
fallback = record { request_model = "default"; provider_id = "p1"; target_model = "claude-y" }

abbrev group : Group
group = record {
  id = "dev";
  name = "Dev";
  routing_table = fallback ∷ [];
  models = none;
  provider_ids = none;
  active_provider_id = none;
  providers = none;
  failover = none;
}

abbrev locked : ServerConfig
locked = record default_config.server { auth_enabled = true; local_bearer_token = "let-me-in" }

abbrev state : ServiceState
state = record {
  config = record default_config {
    server = locked;
    providers = provider ∷ [];
    groups = group ∷ [];
  };
  config_poisoned = false;
  config_revision = 2;
  route_index = [];
  route_index_poisoned = false;
  route_index_revision = 1;
}

abbrev request : Request
request = record {
  method = "POST";
  headers = ("x-api-key", some "let-me-in") ∷ [];
  body = [];
  group_id = "dev";
  suffix = "/v1/messages";
}

abbrev one_host : UrlLibrary
one_host = record {
  Url = String;
  parse = λ address. strip_prefix "https://api.example.com" address;
  path = λ url. url;
  set_path = λ url path. path;
  to_string = λ url. "https://api.example.com" ++ url;
}

abbrev no_json : List ℕ → Option Value
no_json body = none

abbrev unchanged : Transformer → Value → Result String Value
unchanged transformer body = ok body

abbrev dev_forward : Forward
dev_forward =
    forward_of state (record { protocol = Types.anthropic; endpoint = Types.messages }) request
      (object end)
      (record {
        group_id = "dev";
        group_name = "Dev";
        routing_table = fallback ∷ [];
        rule = provider;
      })
      fallback "https://api.example.com/v1/messages" (object end)

forwards : (handle_proxy_request one_host no_json unchanged state none request).1 ≡ ok dev_forward
unfolding handle_proxy_request ai_open_router.Routing.Index.build_route_index
    ai_open_router.Text.contains
forwards = refl

handle_proxy_request-IsForwarded_example :
    IsForwarded one_host
      (handle_proxy_request one_host no_json unchanged state none request).0
      request
      dev_forward
handle_proxy_request-IsForwarded_example =
    handle_proxy_request-IsForwarded one_host no_json unchanged state none request dev_forward
      forwards

handle_proxy_request-IsAnswered_example :
    IsAnswered (handle_proxy_request one_host no_json unchanged state none request).1
handle_proxy_request-IsAnswered_example =
    handle_proxy_request-IsAnswered one_host no_json unchanged state none request
