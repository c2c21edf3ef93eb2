-- ===== src/Routing/Index/Tests.antt =====
-- Runs of the refresh of the route index, with and without overlap.
use ai_open_router.Prelude.{ℕ, ◌≡◌, ◌≢◌, refl, Bool, true, false, none, List, [], ◌∷◌, arith}
use ai_open_router.Entities.{Group, ProxyConfig, default_config}
use ai_open_router.Routing.Types.{RouteIndex}
use ai_open_router.Routing.Index.{build_route_index}
use ai_open_router.Routing.Index.Coherence.{
  Thread, observed, stale, built, written, Shared, Step, Run, route_index-current,
}

abbrev group : Group
group = record {
  id = "dev";
  name = "Dev";
  routing_table = [];
  models = none;
  provider_ids = none;
  active_provider_id = none;
  providers = none;
  failover = none;
}

abbrev config : ProxyConfig
config = record default_config { groups = group ∷ [] }

abbrev old_index : RouteIndex
old_index = build_route_index default_config

abbrev new_index : RouteIndex
new_index = build_route_index config

abbrev state : ProxyConfig → ℕ → Bool → RouteIndex → ℕ → List Thread → Shared
state config revision writing index seen threads = record {
  config = config;
  config_revision = revision;
  writing = writing;
  route_index = index;
  route_index_revision = seen;
  threads = threads;
}

abbrev initial : Shared
initial = state default_config 1 false old_index 1 []

-- A refresh that has built an index, when the configuration is saved again.
abbrev slow : Thread
slow = built 2 new_index

abbrev saved_again : Shared
saved_again = state default_config 3 false old_index 1 (slow ∷ [])

slow_refresh : Run initial saved_again
slow_refresh =
    let s1 = state config 1 true old_index 1 [] in
    let s2 = state config 2 false old_index 1 [] in
    let s3 = state config 2 false old_index 1 (observed 2 ∷ []) in
    let s4 = state config 2 false old_index 1 (stale 2 ∷ []) in
    let s5 = state config 2 false old_index 1 (slow ∷ []) in
    let s6 = state default_config 2 true old_index 1 (slow ∷ []) in
    let r1 : Run initial s1 =
      Run.next Run.here (Step.swap_config initial config refl) (omega arith) in
    let r2 : Run initial s2 = Run.next r1 (Step.count_revision s1 refl) (omega arith) in
    let r3 : Run initial s3 = Run.next r2 (Step.observe s2) (omega arith) in
    let r4 : Run initial s4 =
      Run.next r3 (Step.compare s3 [] [] 2 refl (λ e. absurd (omega arith))) (omega arith) in
    let r5 : Run initial s5 = Run.next r4 (Step.build s4 [] [] 2 refl refl) (omega arith) in
    let r6 : Run initial s6 = Run.next r5 (Step.swap_config s5 default_config refl) (omega arith) in
    Run.next r6 (Step.count_revision s6 refl) (omega arith)

abbrev refreshed : Shared
refreshed = state default_config 3 false old_index 3 (slow ∷ [])

-- A second refresh overtakes the slow one.
overtaken : Run initial refreshed
overtaken =
    let s8 = state default_config 3 false old_index 1 (observed 3 ∷ slow ∷ []) in
    let s9 = state default_config 3 false old_index 1 (stale 3 ∷ slow ∷ []) in
    let s10 = state default_config 3 false old_index 1 (built 3 old_index ∷ slow ∷ []) in
    let s11 = state default_config 3 false old_index 1 (written 3 ∷ slow ∷ []) in
    let r8 : Run initial s8 = Run.next slow_refresh (Step.observe saved_again) (omega arith) in
    let r9 : Run initial s9 =
      Run.next r8 (Step.compare s8 [] (slow ∷ []) 3 refl (λ e. absurd (omega arith)))
        (omega arith) in
    let r10 : Run initial s10 =
      Run.next r9 (Step.build s9 [] (slow ∷ []) 3 refl refl) (omega arith) in
    let r11 : Run initial s11 =
      Run.next r10 (Step.write s10 [] (slow ∷ []) 3 old_index refl (tt, (tt, tt))) (omega arith) in
    Run.next r11 (Step.store s11 [] (slow ∷ []) 3 refl) (omega arith)

route_index-current_example : refreshed.route_index ≡ build_route_index refreshed.config
route_index-current_example = route_index-current default_config 1 overtaken (tt, tt) refl refl

-- Then the slow one writes the index of the configuration before, while the revision is still
-- that of the present one, and stores its own revision.
abbrev outdated : Shared
outdated = state default_config 3 false new_index 3 (written 2 ∷ [])

overwritten : Run initial outdated
overwritten =
    Run.next overtaken (Step.write refreshed [] [] 2 new_index refl (tt, tt)) (omega arith)

stored : Run initial (state default_config 3 false new_index 2 [])
stored = Run.next overwritten (Step.store outdated [] [] 2 refl) (omega arith)

-- The two indices differ.
indices_differ : new_index ≢ old_index
unfolding build_route_index default_config
indices_differ e = absurd (ground arith)
