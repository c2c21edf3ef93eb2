-- ===== src/Network.antt =====
-- proxy/net.rs: the addresses that the proxy listens on.
mod Tests
pub mod Laws
use Prim.Native.Char.{code}
use Prim.Native.String.{[], ◌∷◌, ◌++◌}
use ai_open_router.Prelude.{
  ℕ, zero, suc, String, ◌+◌, ◌/◌, ◌%◌, Bool, List, [], ◌∷◌, ◌++◌ as append, ◌==◌, eqb,
  if◌then◌else◌, Result, ok, err,
}
use ai_open_router.Text.{trim, trim_start_by, trim_end_by, contains}
use ai_open_router.Transform.Common.{join}
use ai_open_router.Transform.Context.{pos}
use ai_open_router.Transform.Formats.{show}

unfoldable pub normalized_host : String → String
unfolding trim trim_start_by trim_end_by
normalized_host host = trim_end_by (eqb 93) (trim_start_by (eqb 91) (trim host))

-- A port is a `u16`.
unfoldable pub format_bind_target : String → ℕ → String
unfolding contains show
format_bind_target host port =
    if contains ":" host
    then "[" ++ (host ++ ("]:" ++ show (pos port)))
    else host ++ (":" ++ show (pos port))

-- `dedup` changes none of these lists.
unfoldable pub bind_candidates : String → List String
unfolding normalized_host
bind_candidates host =
    let name = normalized_host host in
    if name == "0.0.0.0"
    then "0.0.0.0" ∷ "::" ∷ []
    else if name == "::"
    then "::" ∷ "0.0.0.0" ∷ []
    else if name == "localhost"
    then "127.0.0.1" ∷ "::1" ∷ []
    else name ∷ []

unfoldable pub public_host_for_status : String → String
unfolding contains
public_host_for_status bound_host =
    if bound_host == "0.0.0.0"
    then "127.0.0.1"
    else if bound_host == "::"
    then "[::1]"
    else if contains ":" bound_host
    then "[" ++ (bound_host ++ "]")
    else bound_host

-- `TcpListener::bind` is a parameter: what it returns for a target, with the text of its error.
module _ {L : Type 0} (bind : String → Result String L) (port : ℕ) where
  abbrev error_line : String → String → String
  error_line candidate e = format_bind_target candidate port ++ (": " ++ e)

  -- The loop over the candidates, with `errors`.
  unfoldable pub try_candidates : List String → List String → Result (List String) (L × String)
  unfolding format_bind_target
  try_candidates errors [] = err errors
  try_candidates errors (candidate ∷ rest) = elim (bind (format_bind_target candidate port)) [
    | ok listener ↦ ok (listener, candidate)
    | err e ↦ try_candidates (append errors (error_line candidate e ∷ [])) rest
  ]

  abbrev bound : Result (List String) (L × String) → Result String (L × String)
  bound (ok found) = ok found
  bound (err errors) = err ("bind proxy server failed: " ++ join " | " errors)

  unfoldable pub bind_proxy_listener : String → Result String (L × String)
  unfolding try_candidates bind_candidates join
  bind_proxy_listener host = bound (try_candidates [] (bind_candidates host))
