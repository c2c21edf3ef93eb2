-- ===== src/Pipeline/Admission/Handler.antt =====
-- proxy/pipeline.rs, `handle_proxy_request`: the stages of a request in their order.
use ai_open_router.Prelude.{
  [], ◌∷◌, ℕ, String, Bool, true, false, not, ◌&&◌, Option, none, some, List, is_nil, if◌then◌else◌,
  ◌>>=◌, get_or, Result, ok, err, and_then,
}
use ai_open_router.Json.{Value, get, as_bool}
use ai_open_router.Entities.{RuleProtocol, RouteEntry}
use ai_open_router.Routing.Types.{EntryEndpoint, PathEntry, ActiveRoute}
use ai_open_router.Routing.Entry.{resolve_upstream_path}
use ai_open_router.Routing.Url.{UrlLibrary, resolve_upstream_url}
use ai_open_router.Routing.Headers.{build_forward_headers}
use ai_open_router.Routing.Index.{ServiceState, refresh_route_index_if_needed}
use ai_open_router.Routing.Resolve.{resolve_target_model}
use ai_open_router.Observability.Metrics.{Event, increment_error, increment_request}
use ai_open_router.Pipeline.Request.{
  request_model, maybe_inject_default_thinking, IntegrationTarget, should_inject_claude_thinking,
  extract_declared_tool_names, Transformer, name, prepare_transformer_for_route,
  resolve_request_timeout_ms,
}
use ai_open_router.Pipeline.Admission.{
  Request, Failure, rejected, panicked, Forward, proxy_error, logged_error, check_entry, authorize,
  look_up_route, read_body, resolve_route, check_rule, first_entry,
}

abbrev is_messages : EntryEndpoint → Bool
is_messages EntryEndpoint.messages = true
is_messages _ = false

abbrev is_openai : RuleProtocol → Bool
is_openai RuleProtocol.openai = true
is_openai _ = false

-- `upstream_body.get("stream")`.
abbrev stream_of : Value → Bool
stream_of upstream_body = get_or (get "stream" upstream_body >>= λ v. as_bool v) false

abbrev pub url_or_400 : Option String → Result Failure String
url_or_400 (some url) = ok url
url_or_400 none = err (rejected (logged_error 400 "rule.apiAddress must be a valid absolute URL"))

abbrev pub body_or_422 : Result String Value → Result Failure Value
body_or_422 (ok body) = ok body
body_or_422 (err message) = err (rejected (logged_error 422 message))

-- `enable_text_tool_call_fallback`.
abbrev pub fallback_enabled_for : ServiceState → PathEntry → Value → ActiveRoute → Bool
fallback_enabled_for state entry body route =
    state.config.compat.text_tool_call_fallback_enabled
    && (is_messages entry.endpoint
        && (is_openai route.rule.protocol && not (is_nil (extract_declared_tool_names body))))

abbrev pub transformer_for :
    ServiceState → PathEntry → Value → ActiveRoute → RouteEntry → Transformer
transformer_for state entry body route first =
    prepare_transformer_for_route entry.endpoint route.rule.protocol (resolve_target_model first)
      (fallback_enabled_for state entry body route) (extract_declared_tool_names body)

abbrev pub forward_of :
    ServiceState → PathEntry → Request → Value → ActiveRoute → RouteEntry → String → Value → Forward
forward_of state entry request body route first upstream_url upstream_body = record {
  entry = entry;
  route = route;
  requested_model = request_model body;
  target_model = resolve_target_model first;
  fallback_enabled = fallback_enabled_for state entry body route;
  transformer = transformer_for state entry body route first;
  upstream_url = upstream_url;
  upstream_body = upstream_body;
  upstream_headers =
      build_forward_headers entry.protocol route.rule.protocol route.rule request.headers
        state.config.compat.header_passthrough_enabled;
  stream = stream_of upstream_body;
  request_timeout_ms =
      resolve_request_timeout_ms (stream_of upstream_body)
        (name (transformer_for state entry body route first));
}

-- The libraries and the converter: `url`, `serde_json::from_slice`, and `transform_request` of the
-- transformer between `to_vec` and `from_slice` (`build_upstream_body`).
module _ (url : UrlLibrary) (from_slice : List ℕ → Option Value)
    (build_upstream_body : Transformer → Value → Result String Value) where
  abbrev pub upstream_url_of : ActiveRoute → Result Failure String
  upstream_url_of route =
      url_or_400 (
        resolve_upstream_url url route.rule.api_address (resolve_upstream_path route.rule.protocol))

  -- `effective_request_body`, converted.
  abbrev pub upstream_body_of :
      ServiceState
      → Option (List IntegrationTarget)
      → PathEntry
      → Request
      → Value
      → ActiveRoute
      → RouteEntry
      → Result Failure Value
  upstream_body_of state targets entry request body route first =
      let inject =
        should_inject_claude_thinking targets request.group_id entry route.rule.protocol in
      body_or_422 (
        build_upstream_body (transformer_for state entry body route first)
          (maybe_inject_default_thinking body inject))

  -- From the resolved route on: what goes upstream.
  unfoldable pub prepare :
      ServiceState
      → Option (List IntegrationTarget)
      → PathEntry
      → Request
      → Value
      → ActiveRoute
      → Result Failure Forward
  unfolding check_rule extract_declared_tool_names prepare_transformer_for_route
      resolve_upstream_url resolve_upstream_path maybe_inject_default_thinking
      should_inject_claude_thinking build_forward_headers resolve_request_timeout_ms name get
      request_model
  prepare state targets entry request body route = and_then (check_rule route.rule) λ ready.
      and_then (first_entry route.routing_table) λ first.
        and_then (upstream_url_of route) λ upstream_url.
          and_then (upstream_body_of state targets entry request body route first) λ upstream_body.
            ok (forward_of state entry request body route first upstream_url upstream_body)

  -- With the route index up to date.
  unfoldable pub admit :
      ServiceState → Option (List IntegrationTarget) → PathEntry → Request → Result Failure Forward
  unfolding authorize look_up_route read_body resolve_route prepare request_model
  admit state targets entry request = and_then (authorize state entry request) λ allowed.
      and_then (look_up_route state request) λ indexed.
        and_then (read_body from_slice request.body) λ body.
          and_then (resolve_route state indexed (request_model body))
            λ route. prepare state targets entry request body route

  abbrev pub admit_refreshed :
      Option (List IntegrationTarget)
      → PathEntry
      → Request
      → ServiceState × Option String
      → ServiceState × Result Failure Forward
  admit_refreshed targets entry request (state, none) = (state, admit state targets entry request)
  admit_refreshed targets entry request (state, some message) =
      (state, err (rejected (proxy_error 500 message)))

  abbrev pub handle_entry :
      ServiceState
      → Option (List IntegrationTarget)
      → Request
      → Result Failure PathEntry
      → ServiceState × Result Failure Forward
  handle_entry state targets request (err failure) = (state, err failure)
  handle_entry state targets request (ok entry) =
      admit_refreshed targets entry request (refresh_route_index_if_needed state)

  -- The state after the request, and what becomes of it.
  unfoldable pub handle_proxy_request :
      ServiceState
      → Option (List IntegrationTarget)
      → Request
      → ServiceState × Result Failure Forward
  unfolding check_entry admit refresh_route_index_if_needed
  handle_proxy_request state targets request =
      handle_entry state targets request (check_entry request)

-- The calls on the metrics before the upstream is called.
unfoldable pub metrics_of : Result Failure Forward → List Event
metrics_of (ok forward) = increment_request forward.stream ∷ []
metrics_of (err panicked) = []
metrics_of (err (rejected rejection)) = if rejection.counted then increment_error ∷ [] else []
