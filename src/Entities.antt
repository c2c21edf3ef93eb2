-- ===== src/Entities.antt =====
-- domain/entities.rs: the configuration, the rules (providers) and the groups, with their defaults
-- (domain/entities.rs and config/schema.rs). Prices and thresholds are `f64` bit patterns.
use ai_open_router.Prelude.{ℕ, String, Bool, true, false, Option, none, List, []}
use ai_open_router.Dict.{Dict}
use ai_open_router.Json.{F64, Value, null}

pub record ServerConfig : Type 0 where
  pub host : String
  pub port : ℕ
  pub auth_enabled : Bool
  pub local_bearer_token : String

pub record CompatConfig : Type 0 where
  pub strict_mode : Bool
  pub text_tool_call_fallback_enabled : Bool
  pub header_passthrough_enabled : Bool

pub record LoggingConfig : Type 0 where
  pub capture_body : Bool

pub record UiConfig : Type 0 where
  pub theme : String
  pub locale : String
  pub locale_mode : String
  pub launch_on_startup : Bool
  pub auto_start_server : Bool
  pub close_to_tray : Bool
  pub quota_auto_refresh_minutes : ℕ
  pub auto_update_enabled : Bool

pub record RemoteGitConfig : Type 0 where
  pub enabled : Bool
  pub repo_url : String
  pub token : String
  pub branch : String

pub data RuleProtocol : Type 0 where
  openai openai_completion anthropic : RuleProtocol

pub record RuleQuotaResponseMapping : Type 0 where
  pub remaining : Value
  pub unit : Value
  pub total : Value
  pub reset_at : Value

pub data QuotaUnitType : Type 0 where
  percentage amount tokens : QuotaUnitType

pub record RuleQuotaConfig : Type 0 where
  pub enabled : Bool
  pub provider : String
  pub endpoint : String
  pub method : String
  pub use_rule_token : Bool
  pub custom_token : String
  pub auth_header : String
  pub auth_scheme : String
  pub custom_headers : Dict String
  pub unit_type : QuotaUnitType
  pub low_threshold_percent : F64
  pub response : RuleQuotaResponseMapping

pub record BillingTemplateAttribution : Type 0 where
  pub vendor_id : String
  pub vendor_label : String
  pub model_id : String
  pub model_label : String
  pub source_url : String
  pub verified_at : String
  pub applied_at : String
  pub modified_after_apply : Bool

pub record RuleCostConfig : Type 0 where
  pub enabled : Bool
  pub input_price_per_m : F64
  pub output_price_per_m : F64
  pub cache_input_price_per_m : F64
  pub cache_output_price_per_m : F64
  pub currency : String
  pub template : Option BillingTemplateAttribution

pub record Rule : Type 0 where
  pub id : String
  pub name : String
  pub protocol : RuleProtocol
  pub token : String
  pub api_address : String
  pub website : String
  pub models : List String
  pub default_model : Option String
  pub model_mappings : Option (Dict String)
  pub header_passthrough_allow : List String
  pub header_passthrough_deny : List String
  pub quota : RuleQuotaConfig
  pub cost : RuleCostConfig
  pub model_costs : Dict RuleCostConfig

pub record RouteEntry : Type 0 where
  pub request_model : String
  pub provider_id : String
  pub target_model : String

pub record GroupFailoverConfig : Type 0 where
  pub enabled : Bool
  pub failure_threshold : ℕ
  pub cooldown_seconds : ℕ

pub record Group : Type 0 where
  pub id : String
  pub name : String
  pub routing_table : List RouteEntry
  pub models : Option (List String)
  pub provider_ids : Option (List String)
  pub active_provider_id : Option String
  pub providers : Option (List Rule)
  pub failover : Option GroupFailoverConfig

pub record ProxyConfig : Type 0 where
  pub config_version : ℕ
  pub server : ServerConfig
  pub compat : CompatConfig
  pub logging : LoggingConfig
  pub ui : UiConfig
  pub remote_git : RemoteGitConfig
  pub providers : List Rule
  pub groups : List Group

pub record TokenUsage : Type 0 where
  pub input_tokens : ℕ
  pub output_tokens : ℕ
  pub cache_read_tokens : ℕ
  pub cache_write_tokens : ℕ

pub record ProxyMetrics : Type 0 where
  pub requests : ℕ
  pub stream_requests : ℕ
  pub errors : ℕ
  pub avg_latency_ms : ℕ
  pub input_tokens : ℕ
  pub output_tokens : ℕ
  pub cache_read_tokens : ℕ
  pub cache_write_tokens : ℕ
  pub uptime_started_at : Option String

-- 10.0 is the bit pattern 0x4024000000000000.
unfoldable pub default_rule_quota_config : RuleQuotaConfig
default_rule_quota_config = record {
  enabled = false;
  provider = "custom";
  endpoint = "";
  method = "GET";
  use_rule_token = true;
  custom_token = "";
  auth_header = "Authorization";
  auth_scheme = "Bearer";
  custom_headers = [];
  unit_type = percentage;
  low_threshold_percent = 0x4024000000000000;
  response = record { remaining = null; unit = null; total = null; reset_at = null };
}

unfoldable pub default_rule_cost_config : RuleCostConfig
default_rule_cost_config = record {
  enabled = false;
  input_price_per_m = 0;
  output_price_per_m = 0;
  cache_input_price_per_m = 0;
  cache_output_price_per_m = 0;
  currency = "USD";
  template = none;
}

abbrev pub current_config_version : ℕ
current_config_version = 5

-- config/schema.rs, `default_config`.
unfoldable pub default_config : ProxyConfig
default_config = record {
  config_version = current_config_version;
  server = record { host = "0.0.0.0"; port = 8899; auth_enabled = false; local_bearer_token = "" };
  compat = record {
    strict_mode = false;
    text_tool_call_fallback_enabled = true;
    header_passthrough_enabled = true;
  };
  logging = record { capture_body = false };
  ui = record {
    theme = "light";
    locale = "en-US";
    locale_mode = "auto";
    launch_on_startup = false;
    auto_start_server = true;
    close_to_tray = true;
    quota_auto_refresh_minutes = 5;
    auto_update_enabled = true;
  };
  remote_git = record { enabled = false; repo_url = ""; token = ""; branch = "main" };
  providers = [];
  groups = [];
}
