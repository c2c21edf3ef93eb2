-- ===== src/Routing/Headers.antt =====
-- proxy/routing.rs: the headers of the upstream request.
pub mod Blocked
pub mod Laws
pub mod Passthrough
use Prim.Native.String.{◌++◌}
use ai_open_router.Prelude.{
  ℕ, zero, suc, String, Bool, true, false, not, ◌&&◌, ◌||◌, Option, none, some, List, [], ◌∷◌, ◌==◌,
  eqb, if◌then◌else◌, length, any, suc,
}
use ai_open_router.Text.{is_empty, trim, starts_with, to_ascii_lowercase}
use ai_open_router.Text.Utf8.{as_bytes, is_ascii_digit}
use ai_open_router.Dict.{Dict, HashSet, insert, contains_key, extend}
use ai_open_router.Entities.{Rule, RuleProtocol}
use ai_open_router.Routing.Types.{EntryProtocol}
use ai_open_router.Routing.Headers.Blocked.{is_hard_blocked_passthrough_header}

-- A header of the request, with what `HeaderValue::to_str` returns for its value.
abbrev pub Header : Type 0
Header = String × Option String

unfoldable pub normalize_header_name : String → String
unfolding trim to_ascii_lowercase
normalize_header_name value = to_ascii_lowercase (trim value)

unfoldable pub normalized_header_set : List String → HashSet
unfolding normalize_header_name insert
normalized_header_set [] = []
normalized_header_set (value ∷ values) =
    let name = normalize_header_name value in
    let rest = normalized_header_set values in if is_empty name then rest else insert name tt rest

unfoldable pub build_rule_headers : RuleProtocol → Rule → Dict String
unfolding insert
build_rule_headers RuleProtocol.anthropic rule =
    insert "anthropic-version" "2023-06-01"
      (insert "x-api-key" rule.token (insert "content-type" "application/json" []))
build_rule_headers _ rule =
    insert "authorization" ("Bearer " ++ rule.token) (insert "content-type" "application/json" [])

-- The test of `.enumerate().all(…)`, from an index on.
digits_but_dashes : ℕ → List ℕ → Bool
digits_but_dashes i [] = true
digits_but_dashes i (b ∷ bytes) =
    (eqb i 4 || eqb i 7 || is_ascii_digit b) && digits_but_dashes (suc i) bytes

abbrev byte_is : ℕ → ℕ → List ℕ → Bool
byte_is b i [] = false
byte_is b zero (x ∷ xs) = eqb x b
byte_is b (suc i) (x ∷ xs) = byte_is b i xs

unfoldable pub is_valid_anthropic_version : String → Bool
unfolding as_bytes digits_but_dashes
is_valid_anthropic_version value =
    let bytes = as_bytes value in
    eqb (length bytes) 10
    && byte_is b'-' 4 bytes
    && byte_is b'-' 7 bytes
    && digits_but_dashes 0 bytes

abbrev is_anthropic_entry : EntryProtocol → Bool
is_anthropic_entry EntryProtocol.anthropic = true
is_anthropic_entry EntryProtocol.openai = false

abbrev pub is_anthropic : RuleProtocol → Bool
is_anthropic RuleProtocol.anthropic = true
is_anthropic _ = false

unfoldable pub should_passthrough_anthropic_version :
    EntryProtocol → RuleProtocol → HashSet → String → Bool
unfolding contains_key is_valid_anthropic_version
should_passthrough_anthropic_version entry target allow_set value =
    is_anthropic_entry entry
    && is_anthropic target
    && contains_key "anthropic-version" allow_set
    && is_valid_anthropic_version value

-- The variables of the loop over the downstream headers.
pub record Forwarded : Type 0 where
  pub headers : Dict String
  pub passthrough_anthropic_version : Option String

module _ (entry : EntryProtocol) (target : RuleProtocol) (allow_set deny_set : HashSet) where
  -- The end of one round of the loop, on the trimmed value.
  forward_value : String → String → Forwarded → Forwarded
  forward_value name value acc =
      if is_empty value
      then acc
      else if name == "anthropic-version"
      then if should_passthrough_anthropic_version entry target allow_set value
        then record acc { passthrough_anthropic_version = some value }
        else acc
      else if is_hard_blocked_passthrough_header name
      then acc
      else record acc { headers = insert name value acc.headers }

  -- One round of the loop.
  pub forward_header : Header → Forwarded → Forwarded
  unfolding forward_value
  forward_header (raw_name, none) acc = acc
  forward_header (raw_name, some raw) acc =
      let name = normalize_header_name raw_name in
      if is_empty name || contains_key name deny_set then acc else forward_value name (trim raw) acc

  forward_headers : List Header → Forwarded → Forwarded
  forward_headers [] acc = acc
  forward_headers (h ∷ hs) acc = forward_headers hs (forward_header h acc)

abbrev pub set_version : Option String → Dict String → Dict String
set_version none headers = headers
set_version (some version) headers = insert "anthropic-version" version headers

-- The headers that the loop leaves.
passed_through : EntryProtocol → RuleProtocol → Rule → List Header → Bool → Forwarded
unfolding forward_headers
passed_through entry target rule downstream false = record {
  headers = [];
  passthrough_anthropic_version = none;
}
passed_through entry target rule downstream true =
    forward_headers entry target (normalized_header_set rule.header_passthrough_allow)
      (normalized_header_set rule.header_passthrough_deny) downstream
      (record { headers = []; passthrough_anthropic_version = none })

unfoldable pub build_forward_headers :
    EntryProtocol → RuleProtocol → Rule → List Header → Bool → Dict String
unfolding passed_through extend build_rule_headers
build_forward_headers entry target rule downstream header_passthrough_enabled =
    let acc = passed_through entry target rule downstream header_passthrough_enabled in
    extend acc.headers
      (set_version acc.passthrough_anthropic_version (build_rule_headers target rule))
