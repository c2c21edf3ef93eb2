-- ===== src/Pipeline/Admission/Forwarded.antt =====
-- The requests that proxy/pipeline.rs forwards.
use ai_open_router.Prelude.{
  ℕ, String, ◌≡◌, refl, ap, Option, none, some, List, Result, ok, err, and_then-eq-ok, arith, subst,
}
use ai_open_router.Dict.{lookup}
use ai_open_router.Json.{Value}
use ai_open_router.Entities.{RouteEntry}
use ai_open_router.Routing.Types.{PathEntry, ActiveRoute, ready}
use ai_open_router.Routing.Entry.{detect_entry_protocol, resolve_upstream_path}
use ai_open_router.Routing.Url.{UrlLibrary, resolve_upstream_url}
use ai_open_router.Routing.Headers.{build_forward_headers}
use ai_open_router.Routing.Index.{ServiceState, refresh_route_index_if_needed}
use ai_open_router.Routing.Resolve.{assert_rule_ready}
use ai_open_router.Routing.Resolve.Laws.{IsResolved, ok-injective}
use ai_open_router.Pipeline.Request.{IntegrationTarget, Transformer, request_model}
use ai_open_router.Pipeline.Admission.{
  Request, Failure, Forward, check_entry, authorize, look_up_route, read_body, resolve_route,
  check_rule, first_entry,
}
use ai_open_router.Pipeline.Admission.Handler.{
  upstream_url_of, upstream_body_of, forward_of, prepare, admit, admit_refreshed, handle_entry,
  handle_proxy_request,
}
use ai_open_router.Pipeline.Admission.Laws.{resolve_route-IsResolved}
use ai_open_router.Pipeline.Admission.Stages.{
  MayPass, check_entry-ok, authorize-ok, look_up_route-ok, check_rule-ok, url_or_400-ok,
  first_entry-only,
}

-- A request that goes upstream, and how: under the configuration and the index of `state`.
pub record IsForwarded (url : UrlLibrary) (state : ServiceState) (request : Request)
    (forward : Forward) : Type 0 where
  pub method_is : request.method ≡ "POST"
  pub entry_is : detect_entry_protocol request.suffix ≡ some forward.entry
  pub may_pass : MayPass state forward.entry request
  pub indexed : ActiveRoute
  pub indexed_is : lookup request.group_id state.route_index ≡ some (ready indexed)
  pub resolved : IsResolved state.config indexed forward.route forward.requested_model
  pub rule_ready : assert_rule_ready forward.route.rule ≡ none
  pub target_is : forward.target_model ≡ resolved.entry.target_model
  pub url_is :
      resolve_upstream_url url forward.route.rule.api_address
        (resolve_upstream_path forward.route.rule.protocol)
      ≡ some forward.upstream_url
  pub headers_are :
      forward.upstream_headers
      ≡ build_forward_headers forward.entry.protocol forward.route.rule.protocol forward.route.rule
          request.headers state.config.compat.header_passthrough_enabled

module _ (url : UrlLibrary) (from_slice : List ℕ → Option Value)
    (build_upstream_body : Transformer → Value → Result String Value) where
  -- What the last stages make of a route that has resolved.
  record IsPrepared (state : ServiceState) (entry : PathEntry) (request : Request) (body : Value)
      (route : ActiveRoute) (forward : Forward) : Type 0 where
    rule_ready : assert_rule_ready route.rule ≡ none
    first : RouteEntry
    first_is : first_entry route.routing_table ≡ ok first
    upstream_url : String
    url_is :
        resolve_upstream_url url route.rule.api_address (resolve_upstream_path route.rule.protocol)
        ≡ some upstream_url
    upstream_body : Value
    made : forward_of state entry request body route first upstream_url upstream_body ≡ forward

  prepare-IsPrepared :
      (state : ServiceState) (targets : Option (List IntegrationTarget)) (entry : PathEntry)
      (request : Request) (body : Value) (route : ActiveRoute) (forward : Forward)
      → prepare url from_slice build_upstream_body state targets entry request body route
        ≡ ok forward
      → IsPrepared state entry request body route forward
  unfolding prepare
  prepare-IsPrepared state targets entry request body route forward h =
      let (u, checked, h1) = and_then-eq-ok (check_rule route.rule) _ forward h in
      let (first, first_is, h2) = and_then-eq-ok (first_entry route.routing_table) _ forward h1 in
      let (upstream_url, found, h3) =
        and_then-eq-ok (upstream_url_of url from_slice build_upstream_body route) _ forward h2 in
      let (upstream_body, built, h4) =
        and_then-eq-ok
          (upstream_body_of url from_slice build_upstream_body state targets entry request body
            route first)
          _ forward h3 in
      record {
        rule_ready = check_rule-ok route.rule u checked;
        first = first;
        first_is = first_is;
        upstream_url = upstream_url;
        url_is = url_or_400-ok _ upstream_url found;
        upstream_body = upstream_body;
        made = ok-injective _ forward h4;
      }

  admit-IsForwarded :
      (state : ServiceState) (targets : Option (List IntegrationTarget)) (entry : PathEntry)
      (request : Request) (forward : Forward)
      → check_entry request ≡ ok entry
      → admit url from_slice build_upstream_body state targets entry request ≡ ok forward
      → IsForwarded url state request forward
  unfolding admit
  admit-IsForwarded state targets entry request forward c h =
      let (u, allowed, h1) = and_then-eq-ok (authorize state entry request) _ forward h in
      let (indexed, found, h2) = and_then-eq-ok (look_up_route state request) _ forward h1 in
      let (body, given, h3) = and_then-eq-ok (read_body from_slice request.body) _ forward h2 in
      let (route, resolves, h4) =
        and_then-eq-ok (resolve_route state indexed (request_model body)) _ forward h3 in
      let resolved = resolve_route-IsResolved state indexed route (request_model body) resolves in
      let p = prepare-IsPrepared state targets entry request body route forward h4 in
      let (method_is, entry_is) = check_entry-ok request entry c in
      subst (IsForwarded url state request) p.made (record {
        method_is = method_is;
        entry_is = entry_is;
        may_pass = authorize-ok state entry request u allowed;
        indexed = indexed;
        indexed_is = look_up_route-ok state request indexed found;
        resolved = resolved;
        rule_ready = p.rule_ready;
        target_is =
            ap (λ e. e.target_model)
              (first_entry-only route.routing_table resolved.entry p.first resolved.isolated
                p.first_is);
        url_is = p.url_is;
        headers_are = refl;
      })

  refreshed-IsForwarded :
      (targets : Option (List IntegrationTarget)) (entry : PathEntry) (request : Request)
      (forward : Forward) (r : ServiceState × Option String)
      → check_entry request ≡ ok entry
      → (admit_refreshed url from_slice build_upstream_body targets entry request r).1 ≡ ok forward
      → IsForwarded url
          (admit_refreshed url from_slice build_upstream_body targets entry request r).0
          request
          forward
  refreshed-IsForwarded targets entry request forward (state, none) c h =
      admit-IsForwarded state targets entry request forward c h
  refreshed-IsForwarded targets entry request forward (state, some message) c h =
      absurd (ground arith)

  entry-IsForwarded :
      (state : ServiceState) (targets : Option (List IntegrationTarget)) (request : Request)
      (forward : Forward) (checked : Result Failure PathEntry)
      → check_entry request ≡ checked
      → (handle_entry url from_slice build_upstream_body state targets request checked).1
        ≡ ok forward
      → IsForwarded url
          (handle_entry url from_slice build_upstream_body state targets request checked).0
          request
          forward
  entry-IsForwarded state targets request forward (err failure) c h = absurd (ground arith)
  entry-IsForwarded state targets request forward (ok entry) c h =
      refreshed-IsForwarded targets entry request forward (refresh_route_index_if_needed state) c h

  -- A request that is forwarded is a POST on a known entry that presents the access token if one
  -- is required; its group is in the index, its provider resolved and ready, and its model, URL
  -- and headers are those of the route under the configuration in force.
  pub handle_proxy_request-IsForwarded :
      (state : ServiceState) (targets : Option (List IntegrationTarget)) (request : Request)
      (forward : Forward)
      → (handle_proxy_request url from_slice build_upstream_body state targets request).1
        ≡ ok forward
      → IsForwarded url
          (handle_proxy_request url from_slice build_upstream_body state targets request).0
          request
          forward
  unfolding handle_proxy_request
  handle_proxy_request-IsForwarded state targets request forward h =
      entry-IsForwarded state targets request forward (check_entry request) refl h
