-- ===== src/Network/Tests.antt =====
-- Binding at concrete hosts.
use ai_open_router.Prelude.{ℕ, String, ◌≡◌, refl, [], ◌∷◌, Result, ok, err, ◌==◌, if◌then◌else◌}
use ai_open_router.Network.{bind_candidates, bind_proxy_listener, public_host_for_status}
use ai_open_router.Network.Laws.{Outcome, bind_proxy_listener-Outcome}

-- A machine without IPv4.
abbrev only_v6 : String → Result String ℕ
only_v6 target = if target == "[::1]:8899" then ok 7 else err "refused"

falls_back : bind_proxy_listener only_v6 8899 " localhost " ≡ ok (7, "::1")
unfolding bind_proxy_listener
falls_back = refl

shown :
    (public_host_for_status "0.0.0.0" ≡ "127.0.0.1")
    × (public_host_for_status "fe80::1" ≡ "[fe80::1]")
    × (bind_candidates "[::1]" ≡ "::1" ∷ [])
unfolding public_host_for_status bind_candidates
shown = (refl, refl, refl)

bind_proxy_listener-Outcome_example :
    Outcome only_v6 8899
      (bind_candidates "localhost")
      (bind_proxy_listener only_v6 8899 "localhost")
bind_proxy_listener-Outcome_example = bind_proxy_listener-Outcome only_v6 8899 "localhost"
