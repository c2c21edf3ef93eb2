-- ===== src/Auth/Tokens.antt =====
-- auth.rs and proxy/pipeline.rs: the credentials in a request's headers.
use ai_open_router.Prelude.{
  String, not, ◌&&◌, Option, none, some, List, [], ◌∷◌, ◌==◌, if◌then◌else◌, ◌>>=◌,
}
use ai_open_router.Text.{is_empty, trim, strip_prefix, split_on, split_once}
use ai_open_router.Dict.{lookup}
use ai_open_router.Routing.Headers.{Header}

-- `headers.get(name)?.to_str().ok()?`: the first value of the name. Names are in lower case.
unfoldable pub header_text : String → List Header → Option String
unfolding lookup
header_text name headers = lookup name headers >>= λ value. value

abbrev pub non_empty : String → Option String
non_empty s = if is_empty s then none else some s

unfoldable pub extract_bearer_token : List Header → Option String
unfolding header_text trim strip_prefix
extract_bearer_token headers = header_text "authorization" headers >>= λ raw.
    strip_prefix "Bearer " (trim raw) >>= λ token. non_empty (trim token)

-- proxy/pipeline.rs.
unfoldable pub extract_header_token : List Header → String → Option String
unfolding header_text trim
extract_header_token headers header_name =
    header_text header_name headers >>= λ raw. non_empty (trim raw)

-- The loop over the cookies. The `?` on `split_once` leaves the function.
unfoldable pub find_cookie : String → List String → Option String
unfolding trim split_once
find_cookie key [] = none
find_cookie key (cookie ∷ cookies) =
    let rest = find_cookie key cookies in
    split_once b'=' (trim cookie) >>= λ pair.
    if (trim pair.0 == key) && not (is_empty (trim pair.1)) then some (trim pair.1) else rest

unfoldable pub extract_cookie_value : List Header → String → Option String
unfolding header_text split_on find_cookie
extract_cookie_value headers key =
    header_text "cookie" headers >>= λ cookies. find_cookie key (split_on b';' cookies)
