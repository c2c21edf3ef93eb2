-- ===== src/Routing/Types.antt =====
-- The types of proxy/routing.rs.
use ai_open_router.Prelude.{String, List, none, []}
use ai_open_router.Dict.{Dict}
use ai_open_router.Entities.{
  Rule, RouteEntry, RuleProtocol, default_rule_quota_config, default_rule_cost_config,
}

pub data EntryProtocol : Type 0 where
  openai anthropic : EntryProtocol

pub data EntryEndpoint : Type 0 where
  chat_completions responses messages : EntryEndpoint

pub record PathEntry : Type 0 where
  pub protocol : EntryProtocol
  pub endpoint : EntryEndpoint

pub record ActiveRoute : Type 0 where
  pub group_id : String
  pub group_name : String
  pub routing_table : List RouteEntry
  pub rule : Rule

pub data RouteResolution : Type 0 where
  ready : ActiveRoute → RouteResolution
  no_routing_table no_default_route : String → RouteResolution

abbrev pub RouteIndex : Type 0
RouteIndex = Dict RouteResolution

-- The rule that an index entry holds until a request selects one.
unfoldable pub placeholder_rule : Rule
placeholder_rule = record {
  id = "";
  name = "";
  protocol = RuleProtocol.anthropic;
  token = "";
  api_address = "";
  website = "";
  models = [];
  default_model = none;
  model_mappings = none;
  header_passthrough_allow = [];
  header_passthrough_deny = [];
  quota = default_rule_quota_config;
  cost = default_rule_cost_config;
  model_costs = [];
}
