-- ===== src/Auth/Cookie.antt =====
-- auth.rs: the values of `Set-Cookie` for a session.
use Prim.Native.String.{◌++◌}
use ai_open_router.Prelude.{String, ◌≡◌, refl, ◌/◌}
use ai_open_router.Transform.Context.{pos}
use ai_open_router.Transform.Formats.{show}
use ai_open_router.Auth.{session_ttl, session_cookie_name}

-- `Duration::hours(SESSION_TTL_HOURS).num_seconds()`.
abbrev max_age : String
max_age = show (pos (session_ttl / 1000000000))

unfoldable pub build_session_cookie : String → String
unfolding show
build_session_cookie token =
    session_cookie_name
    ++ ("=" ++ (token ++ ("; Path=/; HttpOnly; SameSite=Lax; Max-Age=" ++ max_age)))

unfoldable pub build_clear_session_cookie : String
build_clear_session_cookie =
    session_cookie_name
    ++ "=; Path=/; HttpOnly; SameSite=Lax; Max-Age=0; Expires=Thu, 01 Jan 1970 00:00:00 GMT"

lasts_twelve_hours :
    build_session_cookie "t"
    ≡ (session_cookie_name ++ "=t; Path=/; HttpOnly; SameSite=Lax; Max-Age=43200")
unfolding build_session_cookie
lasts_twelve_hours = refl
