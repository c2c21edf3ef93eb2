-- ===== src/Pipeline/Admission/Stages.antt =====
-- What the stages of proxy/pipeline.rs let pass.
use ai_open_router.Prelude.{
  String, ◌≡◌, refl, ap, sym, ◌∙◌, Bool, true, false, not, ◌&&◌, Option, none, some, List, [], ◌∷◌,
  ◌==◌, Result, ok, err, Bool-cases, Option-cases, inl, inr, arith, eq_iff, if◌then◌else◌,
}
use ai_open_router.Text.{trim, is_empty}
use ai_open_router.Dict.{lookup}
use ai_open_router.Entities.{Rule, RouteEntry}
use ai_open_router.Routing.Types.{
  PathEntry, ActiveRoute, RouteResolution, ready, no_routing_table, no_default_route,
}
use ai_open_router.Routing.Entry.{detect_entry_protocol}
use ai_open_router.Routing.Index.{ServiceState}
use ai_open_router.Routing.Resolve.{assert_rule_ready}
use ai_open_router.Routing.Resolve.Laws.{ok-injective}
use ai_open_router.Pipeline.Access.{
  request_matches_local_access_token, Presents, request_matches-Presents,
}
use ai_open_router.Pipeline.Admission.{
  Request, Failure, check_entry, authorize, look_up_route, check_rule, first_entry,
  route_of_resolution,
}
use ai_open_router.Pipeline.Admission.Handler.{url_or_400}

-- Who may pass: the configured token is presented, if the check is on.
abbrev pub MayPass : ServiceState → PathEntry → Request → Type 0
MayPass state entry request =
    let token = trim state.config.server.local_bearer_token in
    state.config.server.auth_enabled ≡ true
    → (is_empty token ≡ false) × Presents entry.protocol request.headers token

-- A stage that went on.
pub if_err-ok {ℓ} :
    {A : Type ℓ} (b : Bool) (failure : Failure) (m : Result Failure A) (a : A)
    → (if b then err failure else m) ≡ ok a
    → (b ≡ false) × (m ≡ ok a)
if_err-ok true failure m a h = absurd (ground arith)
if_err-ok false failure m a h = (refl, h)

pub check_entry-ok :
    (request : Request) (entry : PathEntry)
    → check_entry request ≡ ok entry
    → (request.method ≡ "POST") × (detect_entry_protocol request.suffix ≡ some entry)
unfolding check_entry
check_entry-ok request entry h = elim (Bool-cases (request.method == "POST")) [
  | inr other ↦ let k = rw other at h in absurd (ground arith)
  | inl post ↦ elim (Option-cases (detect_entry_protocol request.suffix)) [
    | inl e ↦ let k = rw (post, e) at h in absurd (ground arith)
    | inr (found, e) ↦ (
      (eq_iff request.method "POST").0 post,
      e ∙ ap some (ok-injective found entry (rw (post, e) at h)),
    )
  ]
]

pub authorize-ok :
    (state : ServiceState) (entry : PathEntry) (request : Request) (u : Unit {0})
    → authorize state entry request ≡ ok u
    → MayPass state entry request
unfolding authorize
authorize-ok state entry request u h on =
    let token = state.config.server.local_bearer_token in
    let matches = request_matches_local_access_token request.headers entry token in
    let (open_lock, later) = if_err-ok state.config_poisoned _ _ u h in
    let (passed, done) = if_err-ok (state.config.server.auth_enabled && not matches) _ _ u later in
    (request_matches-Presents request.headers entry token).0
      (both state.config.server.auth_enabled matches on passed)
  where
    both : (a b : Bool) → a ≡ true → (a && not b) ≡ false → b ≡ true
    both true true h k = refl
    both true false h k = absurd (ground arith)
    both false b h k = absurd (ground arith)

pub resolution-ready :
    (group_id : String) (found : Option RouteResolution) (route : ActiveRoute)
    → route_of_resolution group_id found ≡ ok route
    → found ≡ some (ready route)
resolution-ready group_id none route h = absurd (ground arith)
resolution-ready group_id (some (ready indexed)) route h =
    ap (λ r. some (ready r)) (ok-injective indexed route h)
resolution-ready group_id (some (no_routing_table group_name)) route h = absurd (ground arith)
resolution-ready group_id (some (no_default_route group_name)) route h = absurd (ground arith)

pub look_up_route-ok :
    (state : ServiceState) (request : Request) (route : ActiveRoute)
    → look_up_route state request ≡ ok route
    → lookup request.group_id state.route_index ≡ some (ready route)
unfolding look_up_route
look_up_route-ok state request route h =
    resolution-ready request.group_id (lookup request.group_id state.route_index) route
      (if_err-ok state.route_index_poisoned _ _ route h).1

pub check_rule-ok :
    (rule : Rule) (u : Unit {0}) → check_rule rule ≡ ok u → assert_rule_ready rule ≡ none
unfolding check_rule
check_rule-ok rule u h = elim (Option-cases (assert_rule_ready rule)) [
  | inl e ↦ e
  | inr (r, e) ↦ let k = rw (check_rule, e) at h in absurd (ground arith)
]

pub url_or_400-ok :
    (found : Option String) (url : String) → url_or_400 found ≡ ok url → found ≡ some url
url_or_400-ok none url h = absurd (ground arith)
url_or_400-ok (some found) url h = ap some (ok-injective found url h)

pub first_entry-only :
    (table : List RouteEntry) (only first : RouteEntry)
    → table ≡ only ∷ []
    → first_entry table ≡ ok first
    → first ≡ only
first_entry-only table only first h k = ok-injective first only (sym k ∙ ap first_entry h)
