-- ===== src/Routing/Headers/Passthrough.antt =====
-- A header of the client that may be forwarded, with passthrough enabled.
use ai_open_router.Prelude.{String, ◌≡◌, false, none, ◌==◌}
use ai_open_router.Text.{is_empty}
use ai_open_router.Dict.{lookup, contains_key}
use ai_open_router.Entities.{Rule, RuleProtocol}
use ai_open_router.Routing.Headers.Blocked.{is_hard_blocked_passthrough_header}
use ai_open_router.Routing.Headers.{normalized_header_set, build_rule_headers}

-- The name may be forwarded: it is not withheld, and no header of the rule takes its place.
pub record IsForwardable (target : RuleProtocol) (rule : Rule) (name : String) : Type 0 where
  pub named : is_empty name ≡ false
  pub undenied : contains_key name (normalized_header_set rule.header_passthrough_deny) ≡ false
  pub unversioned : ("anthropic-version" == name) ≡ false
  pub unblocked : is_hard_blocked_passthrough_header name ≡ false
  pub unset : lookup name (build_rule_headers target rule) ≡ none
