-- ===== src/Pipeline/Admission/Laws.antt =====
-- The requests that proxy/pipeline.rs does not forward.
use ai_open_router.Prelude.{
  ℕ, String, ◌≡◌, refl, ap, ◌∙◌, ◌≤◌, Bool, true, false, not, ◌&&◌, Option, none, some, List, [],
  ◌∷◌, ◌==◌, ◌⊎◌, eqb, ltb, is_nil, length, Result, ok, err, and_then, Bool-cases, Option-cases,
  inl, inr, arith, if◌then◌else◌,
}
use ai_open_router.Dict.{lookup}
use ai_open_router.Json.{Value, object, end}
use ai_open_router.Routing.Types.{
  RouteResolution, ready, no_routing_table, no_default_route, PathEntry, ActiveRoute,
}
use ai_open_router.Routing.Entry.{detect_entry_protocol}
use ai_open_router.Routing.Url.{UrlLibrary}
use ai_open_router.Routing.Index.{ServiceState, refresh_route_index_if_needed}
use ai_open_router.Routing.Resolve.{resolve_runtime_active_route, assert_rule_ready}
use ai_open_router.Routing.Resolve.Laws.{
  IsResolved, ok-injective, resolve_runtime_active_route-IsResolved,
}
use ai_open_router.Entities.{Rule, RouteEntry}
use ai_open_router.Pipeline.Access.{request_matches_local_access_token}
use ai_open_router.Pipeline.Request.{IntegrationTarget, Transformer, request_model}
use ai_open_router.Pipeline.Admission.{
  parsed_body, Request, Failure, rejected, panicked, check_entry, authorize, look_up_route,
  read_body, resolve_route, check_rule, first_entry, max_request_body_bytes, route_of_resolution,
}
use ai_open_router.Pipeline.Admission.Handler.{
  upstream_url_of, upstream_body_of, forward_of, admit_refreshed, handle_entry, prepare, admit,
  handle_proxy_request, url_or_400, body_or_422,
}

-- An answer with an error status, which the metrics count unless the body was too large.
abbrev pub IsAnswer : Failure → Type 0
IsAnswer panicked = ⊥
IsAnswer (rejected r) = (400 ≤ r.status) × (r.counted ≡ not (eqb r.status 413))

abbrev pub IsAnswered {ℓ} : {A : Type ℓ} → Result Failure A → Type 0
IsAnswered (ok a) = Unit {0}
IsAnswered (err failure) = IsAnswer failure

and_then-IsAnswered {ℓ κ} :
    {A : Type ℓ} {B : Type κ} (m : Result Failure A) (f : A → Result Failure B)
    → IsAnswered m
    → ((a : A) → m ≡ ok a → IsAnswered (f a))
    → IsAnswered (and_then m f)
and_then-IsAnswered (ok a) f h k = k a refl
and_then-IsAnswered (err failure) f h k = h

check_entry-IsAnswered : (request : Request) → IsAnswered (check_entry request)
unfolding check_entry
check_entry-IsAnswered request = elim (Bool-cases (request.method == "POST")) [
  | inr other ↦ rw other (ground arith)
  | inl post ↦ elim (Option-cases (detect_entry_protocol request.suffix)) [
    | inl e ↦ rw (post, e) (ground arith)
    | inr (entry, e) ↦ rw (post, e) tt
  ]
]

if-IsAnswered {ℓ} :
    {A : Type ℓ} (b : Bool) (m n : Result Failure A)
    → IsAnswered m
    → IsAnswered n
    → IsAnswered (if b then m else n)
if-IsAnswered true m n h k = h
if-IsAnswered false m n h k = k

authorize-IsAnswered :
    (state : ServiceState) (entry : PathEntry) (request : Request)
    → IsAnswered (authorize state entry request)
unfolding authorize
authorize-IsAnswered state entry request = if-IsAnswered state.config_poisoned _ _ (ground arith) (
    if-IsAnswered
      (state.config.server.auth_enabled
        && not (
            request_matches_local_access_token request.headers entry
              state.config.server.local_bearer_token))
      _ _ (ground arith) tt)

resolution-IsAnswered :
    (group_id : String) (found : Option RouteResolution)
    → IsAnswered (route_of_resolution group_id found)
resolution-IsAnswered group_id none = ground arith
resolution-IsAnswered group_id (some (ready route)) = tt
resolution-IsAnswered group_id (some (no_routing_table group_name)) = ground arith
resolution-IsAnswered group_id (some (no_default_route group_name)) = ground arith

look_up_route-IsAnswered :
    (state : ServiceState) (request : Request) → IsAnswered (look_up_route state request)
unfolding look_up_route
look_up_route-IsAnswered state request =
    if-IsAnswered state.route_index_poisoned _ _ (ground arith)
      (resolution-IsAnswered request.group_id (lookup request.group_id state.route_index))

parsed_body-IsAnswered : (parsed : Option Value) → IsAnswered (parsed_body parsed)
parsed_body-IsAnswered none = ground arith
parsed_body-IsAnswered (some v) = tt

read_body-IsAnswered :
    (from_slice : List ℕ → Option Value) (body : List ℕ) → IsAnswered (read_body from_slice body)
unfolding read_body
read_body-IsAnswered from_slice body =
    if-IsAnswered (ltb max_request_body_bytes (length body)) _ _ (ground arith) (
      if-IsAnswered (is_nil body) (ok (object end)) (parsed_body (from_slice body)) tt
        (parsed_body-IsAnswered (from_slice body)))

Result-cases {ℓ κ} :
    {E : Type κ} {A : Type ℓ} (r : Result E A) → ((a : A) × (r ≡ ok a)) ⊎ ((e : E) × (r ≡ err e))
Result-cases (ok a) = inl (a, refl)
Result-cases (err e) = inr (e, refl)

resolve_route-IsAnswered :
    (state : ServiceState) (route : ActiveRoute) (model : String)
    → IsAnswered (resolve_route state route model)
unfolding resolve_route
resolve_route-IsAnswered state route model =
    elim (Result-cases
      (resolve_runtime_active_route state.config state.config_poisoned route model)) [
        | inl (resolved, e) ↦ rw (IsAnswered, resolve_route, e) tt
        | inr (failure, e) ↦ rw (IsAnswered, resolve_route, e) (ground arith)
      ]

-- A route that resolves has one entry, so that its first one is there.
pub resolve_route-IsResolved :
    (state : ServiceState) (route resolved : ActiveRoute) (model : String)
    → resolve_route state route model ≡ ok resolved
    → IsResolved state.config route resolved model
unfolding resolve_route
resolve_route-IsResolved state route resolved model h =
    elim (Result-cases
      (resolve_runtime_active_route state.config state.config_poisoned route model)) [
        | inl (found, e) ↦
            resolve_runtime_active_route-IsResolved state.config route model state.config_poisoned
              resolved
              (e ∙ ap (λ r. ok r) (ok-injective found resolved (rw (resolve_route, e) at h)))
        | inr (failure, e) ↦ absurd (ground arith)
      ]

check_rule-IsAnswered : (rule : Rule) → IsAnswered (check_rule rule)
unfolding check_rule assert_rule_ready
check_rule-IsAnswered rule = ground arith

url-IsAnswered : (found : Option String) → IsAnswered (url_or_400 found)
url-IsAnswered none = ground arith
url-IsAnswered (some url) = tt

body-IsAnswered : (built : Result String Value) → IsAnswered (body_or_422 built)
body-IsAnswered (ok v) = tt
body-IsAnswered (err message) = ground arith

first_entry-IsAnswered :
    (table : List RouteEntry) (entry : RouteEntry)
    → table ≡ entry ∷ []
    → IsAnswered (first_entry table)
first_entry-IsAnswered table entry h = rw h tt

module _ (url : UrlLibrary) (from_slice : List ℕ → Option Value)
    (build_upstream_body : Transformer → Value → Result String Value) where
  prepare-IsAnswered :
      (state : ServiceState) (targets : Option (List IntegrationTarget)) (entry : PathEntry)
      (request : Request) (body : Value) (route : ActiveRoute) (only : RouteEntry)
      → route.routing_table ≡ only ∷ []
      → IsAnswered
          (prepare url from_slice build_upstream_body state targets entry request body route)
  unfolding prepare
  prepare-IsAnswered state targets entry request body route only h =
      and_then-IsAnswered (check_rule route.rule) _ (check_rule-IsAnswered route.rule) λ ready e.
        and_then-IsAnswered (first_entry route.routing_table) _
          (first_entry-IsAnswered route.routing_table only h)
          λ first f.
            and_then-IsAnswered (upstream_url_of url from_slice build_upstream_body route) _
              (url-IsAnswered _)
              λ upstream_url g.
                and_then-IsAnswered
                  (upstream_body_of url from_slice build_upstream_body state targets entry request
                    body route first)
                  (λ upstream_body.
                    ok (forward_of state entry request body route first upstream_url upstream_body))
                  (body-IsAnswered _) λ upstream_body k. tt

  admit-IsAnswered :
      (state : ServiceState) (targets : Option (List IntegrationTarget)) (entry : PathEntry)
      (request : Request)
      → IsAnswered (admit url from_slice build_upstream_body state targets entry request)
  unfolding admit
  admit-IsAnswered state targets entry request =
      and_then-IsAnswered (authorize state entry request) _
        (authorize-IsAnswered state entry request)
        λ allowed e.
          and_then-IsAnswered (look_up_route state request) _
            (look_up_route-IsAnswered state request)
            λ indexed f.
              and_then-IsAnswered (read_body from_slice request.body) _
                (read_body-IsAnswered from_slice request.body)
                λ body g.
                  and_then-IsAnswered (resolve_route state indexed (request_model body)) _
                    (resolve_route-IsAnswered state indexed (request_model body))
                    λ route k.
                      let resolved =
                        resolve_route-IsResolved state indexed route (request_model body) k in
                      prepare-IsAnswered state targets entry request body route resolved.entry
                        resolved.isolated

  refreshed-IsAnswered :
      (targets : Option (List IntegrationTarget)) (entry : PathEntry) (request : Request)
      (r : ServiceState × Option String)
      → IsAnswered (admit_refreshed url from_slice build_upstream_body targets entry request r).1
  refreshed-IsAnswered targets entry request (state, none) =
      admit-IsAnswered state targets entry request
  refreshed-IsAnswered targets entry request (state, some message) = ground arith

  entry-IsAnswered :
      (state : ServiceState) (targets : Option (List IntegrationTarget)) (request : Request)
      (checked : Result Failure PathEntry)
      → IsAnswered checked
      → IsAnswered (handle_entry url from_slice build_upstream_body state targets request checked).1
  entry-IsAnswered state targets request (err failure) h = h
  entry-IsAnswered state targets request (ok entry) h =
      refreshed-IsAnswered targets entry request (refresh_route_index_if_needed state)

  -- No request panics on an empty routing table: each is forwarded, or rejected with a status of
  -- 400 or above, which is counted as an error unless it is 413.
  pub handle_proxy_request-IsAnswered :
      (state : ServiceState) (targets : Option (List IntegrationTarget)) (request : Request)
      → IsAnswered (handle_proxy_request url from_slice build_upstream_body state targets request).1
  unfolding handle_proxy_request
  handle_proxy_request-IsAnswered state targets request =
      entry-IsAnswered state targets request (check_entry request) (check_entry-IsAnswered request)
