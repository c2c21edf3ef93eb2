-- ===== src/Routing/Url.antt =====
-- proxy/routing.rs, `resolve_upstream_url`. The crate `url` is a parameter.
pub mod Laws
use Prim.Native.String.{◌++◌}
use ai_open_router.Prelude.{String, ◌≡◌, Bool, true, ◌||◌, Option, none, some, ◌==◌, if◌then◌else◌}
use ai_open_router.Text.{is_empty, starts_with, trim_end_by}
use ai_open_router.Routing.Entry.{is_slash}

-- What the source uses of `url::Url`.
pub record UrlLibrary : Type 1 where
  pub Url : Type 0
  pub parse : String → Option Url
  pub path : Url → String
  pub set_path : Url → String → Url
  pub to_string : Url → String

-- The path that the upstream request goes to: `base_path` is the path of the configured address
-- without slashes at its end.
unfoldable pub upstream_path : String → String → String
unfolding starts_with
upstream_path base_path default_path =
    if is_empty base_path
    then default_path
    else if default_path == base_path || starts_with (base_path ++ "/") default_path
    then default_path
    else base_path ++ default_path

unfoldable pub base_path_of : String → String
unfolding trim_end_by
base_path_of path = if is_empty path || path == "/" then "" else trim_end_by is_slash path

module _ (lib : UrlLibrary) where
  open lib use {Url, parse, path, set_path, to_string}

  -- `none` is the error "rule.apiAddress must be a valid absolute URL".
  unfoldable pub resolve_upstream_url : String → String → Option String
  unfolding upstream_path base_path_of
  resolve_upstream_url api_address default_path = elim (parse api_address) [
    | none ↦ none
    | some url ↦
        some (to_string (set_path url (upstream_path (base_path_of (path url)) default_path)))
  ]
