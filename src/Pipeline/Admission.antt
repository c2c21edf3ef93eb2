-- ===== src/Pipeline/Admission.antt =====
-- proxy/pipeline.rs, `handle_proxy_request` up to the call of the upstream: which requests are
-- forwarded, and with what.
mod Tests
pub mod Handler
pub mod Laws
pub mod Stages
pub mod Forwarded
use Prim.Native.String.{[], ◌++◌}
use ai_open_router.Prelude.{
  ℕ, String, ◌*◌, Bool, true, false, not, ◌&&◌, Option, none, some, List, [], ◌∷◌, ◌==◌, ltb,
  if◌then◌else◌, is_nil, length, Result, ok, err,
}
use ai_open_router.Text.{trim_start_by}
use ai_open_router.Dict.{Dict, lookup}
use ai_open_router.Json.{Value, object, end}
use ai_open_router.Entities.{Rule, RouteEntry}
use ai_open_router.Routing.Types.{
  PathEntry, ActiveRoute, RouteResolution, ready, no_routing_table, no_default_route,
}
use ai_open_router.Routing.Entry.{detect_entry_protocol, is_slash}
use ai_open_router.Routing.Headers.{Header}
use ai_open_router.Routing.Index.{ServiceState}
use ai_open_router.Routing.Resolve.{
  RouteError, config_lock_poisoned, provider_not_found, resolve_runtime_active_route,
  assert_rule_ready, resolve_target_model,
}
use ai_open_router.Routing.Resolve
use ai_open_router.Pipeline.Access.{request_matches_local_access_token}
use ai_open_router.Pipeline.Request.{Transformer}

-- The request, with its path split into a group and a suffix.
pub record Request : Type 0 where
  pub method : String
  pub headers : List Header
  pub body : List ℕ
  pub group_id : String
  pub suffix : String

-- `handle_proxy_root` and `handle_proxy_suffix`: the suffix of the path of a request.
unfoldable pub suffix_of_path : Option String → String
unfolding trim_start_by
suffix_of_path none = "/chat/completions"
suffix_of_path (some suffix) = "/" ++ trim_start_by is_slash suffix

-- Where a rejection is logged: by `log_simple`, by `finalize_log`, or nowhere.
pub data Logged : Type 0 where
  simple finalized not_logged : Logged

-- An answer of the proxy itself; `counted` is a call of `increment_error`.
pub record Rejection : Type 0 where
  pub status : ℕ
  pub code : String
  pub message : String
  pub counted : Bool
  pub logged : Logged

-- `reject_and_log` counts an error for every status from 400 on.
abbrev pub reject_and_log : ℕ → String → String → Rejection
reject_and_log status code message = record {
  status = status;
  code = code;
  message = message;
  counted = not (ltb status 400);
  logged = simple;
}

-- `increment_error` with `proxy_error_response`.
abbrev pub proxy_error : ℕ → String → Rejection
proxy_error status message = record {
  status = status;
  code = "proxy_error";
  message = message;
  counted = true;
  logged = not_logged;
}

-- The same with `finalize_log`.
abbrev pub logged_error : ℕ → String → Rejection
logged_error status message = record (proxy_error status message) { logged = finalized }

-- How a request ends before its forwarding: `table[0]` of an empty table is a panic.
pub data Failure : Type 0 where
  rejected : Rejection → Failure
  panicked : Failure

-- What goes upstream.
pub record Forward : Type 0 where
  pub entry : PathEntry
  pub route : ActiveRoute
  pub requested_model : String
  pub target_model : String
  pub fallback_enabled : Bool
  pub transformer : Transformer
  pub upstream_url : String
  pub upstream_body : Value
  pub upstream_headers : Dict String
  pub stream : Bool
  pub request_timeout_ms : ℕ

-- proxy.rs.
abbrev pub max_request_body_bytes : ℕ
max_request_body_bytes = 1000 * 1024 * 1024

abbrev route_error_text : RouteError → String
route_error_text Resolve.no_default_route = "No default route found in routing table"
route_error_text config_lock_poisoned = "config lock poisoned"
route_error_text (provider_not_found id) = "Provider " ++ (id ++ " not found")

unfoldable pub check_entry : Request → Result Failure PathEntry
unfolding detect_entry_protocol
check_entry request =
    if not (request.method == "POST")
    then err (
        rejected (
          reject_and_log 404 "not_found"
            "Use POST /oc/:groupId/:endpoint (messages/chat/completions/responses)"))
    else elim (detect_entry_protocol request.suffix) [
      | some entry ↦ ok entry
      | none ↦ err (
          rejected (
            reject_and_log 404 "not_found"
              ("Unsupported entry path: /oc/" ++ (request.group_id ++ request.suffix))))
    ]

-- The configuration is read under its lock, and the access token checked.
unfoldable pub authorize : ServiceState → PathEntry → Request → Result Failure (Unit {0})
unfolding request_matches_local_access_token
authorize state entry request =
    let server = state.config.server in
    if state.config_poisoned
    then err (rejected (proxy_error 500 "Failed to acquire config lock"))
    else if server.auth_enabled
        && not (request_matches_local_access_token request.headers entry server.local_bearer_token)
    then err (rejected (reject_and_log 401 "unauthorized" "Missing or invalid access token"))
    else ok tt

abbrev pub route_of_resolution : String → Option RouteResolution → Result Failure ActiveRoute
route_of_resolution group_id (some (ready route)) = ok route
route_of_resolution group_id (some (no_routing_table group_name)) =
    err (rejected (proxy_error 409 ("Group " ++ (group_name ++ " has no routing table"))))
route_of_resolution group_id (some (no_default_route group_name)) =
    err (
      rejected
        (proxy_error 409 ("Group " ++ (group_name ++ " routing table has no default route"))))
route_of_resolution group_id none =
    err (rejected (proxy_error 404 ("Group not found for id: " ++ group_id)))

unfoldable pub look_up_route : ServiceState → Request → Result Failure ActiveRoute
unfolding lookup
look_up_route state request =
    if state.route_index_poisoned
    then err (rejected (proxy_error 500 "Failed to acquire route index lock"))
    else route_of_resolution request.group_id (lookup request.group_id state.route_index)

abbrev pub parsed_body : Option Value → Result Failure Value
parsed_body (some v) = ok v
parsed_body none = err (rejected (proxy_error 400 "Request body must be valid JSON"))

-- The rejection of a body that is too large is not counted.
unfoldable pub read_body : (List ℕ → Option Value) → List ℕ → Result Failure Value
read_body from_slice body =
    if ltb max_request_body_bytes (length body)
    then err (
        rejected (record (proxy_error 413 "Request body too large (max 1048576000 bytes)") {
          counted = false;
        }))
    else if is_nil body
    then ok (object end)
    else parsed_body (from_slice body)

unfoldable pub resolve_route : ServiceState → ActiveRoute → String → Result Failure ActiveRoute
unfolding resolve_runtime_active_route
resolve_route state route model =
    elim (resolve_runtime_active_route state.config state.config_poisoned route model) [
      | ok resolved ↦ ok resolved
      | err e ↦ err (rejected (proxy_error 500 (route_error_text e)))
    ]

unfoldable pub check_rule : Rule → Result Failure (Unit {0})
unfolding assert_rule_ready
check_rule rule = elim (assert_rule_ready rule) [
  | none ↦ ok tt
  | some (status, message) ↦ err (rejected (proxy_error status message))
]

-- `active_route.routing_table[0]`.
abbrev pub first_entry : List RouteEntry → Result Failure RouteEntry
first_entry [] = err panicked
first_entry (entry ∷ entries) = ok entry
