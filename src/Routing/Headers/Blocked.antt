-- ===== src/Routing/Headers/Blocked.antt =====
-- proxy/routing.rs, `is_hard_blocked_passthrough_header`.
use ai_open_router.Prelude.{String, Bool, ◌||◌, List, [], ◌∷◌, ◌==◌, any}
use ai_open_router.Text.{starts_with}

-- The names of the `matches!`.
unfoldable pub hard_blocked_names : List String
hard_blocked_names =
    "accept" ∷ "accept-encoding" ∷ "anthropic-beta" ∷ "anthropic-dangerous-direct-browser-access"
    ∷ "api-key" ∷ "authorization" ∷ "connection" ∷ "content-encoding" ∷ "content-length" ∷ "cookie"
    ∷ "forwarded" ∷ "host" ∷ "keep-alive" ∷ "openai-organization" ∷ "openai-project" ∷ "origin"
    ∷ "proxy-authorization" ∷ "proxy-connection" ∷ "referer" ∷ "set-cookie" ∷ "te" ∷ "trailer"
    ∷ "transfer-encoding" ∷ "upgrade" ∷ "via" ∷ "x-api-key" ∷ "x-real-ip" ∷ []

unfoldable pub is_hard_blocked_passthrough_header : String → Bool
unfolding any hard_blocked_names starts_with
is_hard_blocked_passthrough_header name =
    any (λ blocked. name == blocked) hard_blocked_names
    || starts_with "cf-" name
    || starts_with "sec-" name
    || starts_with "x-forwarded-" name
