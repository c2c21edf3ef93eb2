-- ===== src/Pipeline/Access.antt =====
-- proxy/pipeline.rs, `request_matches_local_access_token`: who may use the proxy.
use ai_open_router.Prelude.{
  String, ◌≡◌, Bool, true, false, ◌||◌, Option, none, some, List, ◌==◌, arith, eq_iff, Bool-cases,
  Option-cases, inl, inr, subst, refl, ap, ◌∙◌, if◌then◌else◌, ◌⊎◌, ◌↔◌,
}
use mathlib.Core.Option.{some-injective}
use Prim.Native.String.{◌++◌}
use ai_open_router.Dict.{lookup}
use ai_open_router.Text.Search.{strip_prefix_sound, strip_prefix-append}
use ai_open_router.Text.{strip_prefix, trim, is_empty}
use ai_open_router.Routing.Types.{EntryProtocol, PathEntry}
use ai_open_router.Routing.Headers.{Header}
use ai_open_router.Auth.Tokens.{extract_bearer_token, extract_header_token, header_text, non_empty}

-- `.map(|token| token == expected).unwrap_or(false)`.
abbrev token_is : String → Option String → Bool
token_is expected none = false
token_is expected (some token) = token == expected

abbrev matches_for : EntryProtocol → Bool → Bool → Bool
matches_for EntryProtocol.anthropic api_key_matches bearer_matches =
    api_key_matches || bearer_matches
matches_for EntryProtocol.openai api_key_matches bearer_matches = bearer_matches

unfoldable pub request_matches_local_access_token : List Header → PathEntry → String → Bool
unfolding trim extract_bearer_token extract_header_token
request_matches_local_access_token headers entry expected_token =
    let expected = trim expected_token in
    let bearer_matches = token_is expected (extract_bearer_token headers) in
    let api_key_matches = token_is expected (extract_header_token headers "x-api-key") in
    if is_empty expected then false else matches_for entry.protocol api_key_matches bearer_matches

token_is_iff :
    (expected : String) (token : Option String)
    → (token_is expected token ≡ true) ↔ (token ≡ some expected)
token_is_iff expected none = ground arith
token_is_iff expected (some token) = ground (arith, eq_iff token expected)

-- The token stands in the authorization header, behind its prefix.
pub record IsBearer (headers : List Header) (token : String) : Type 0 where
  pub raw : String
  pub rest : String
  pub first : lookup "authorization" headers ≡ some (some raw)
  pub prefixed : trim raw ≡ "Bearer " ++ rest
  pub trimmed : trim rest ≡ token
  pub not_empty : is_empty token ≡ false

-- The token is the value of the x-api-key header.
pub record IsApiKey (headers : List Header) (token : String) : Type 0 where
  pub raw : String
  pub first : lookup "x-api-key" headers ≡ some (some raw)
  pub trimmed : trim raw ≡ token
  pub not_empty : is_empty token ≡ false

non_empty-eq-some :
    (s token : String) → non_empty s ≡ some token → (s ≡ token) × (is_empty token ≡ false)
non_empty-eq-some s token h = elim (Bool-cases (is_empty s)) [
  | inl e ↦ absurd (ground (arith, e, h))
  | inr e ↦
      let same : s ≡ token = some-injective s token (rw e at h) in
      (same, subst (λ t. is_empty t ≡ false) same e)
]

header_text-eq-some :
    (name : String) (headers : List Header) (raw : String)
    → header_text name headers ≡ some raw
    → lookup name headers ≡ some (some raw)
unfolding header_text
header_text-eq-some name headers raw h = elim (Option-cases (lookup name headers)) [
  | inl e ↦ absurd (ground (arith, e, h))
  | inr (value, e) ↦ e ∙ ap some (rw (header_text, e) at h)
]

extract_bearer_token-IsBearer :
    (headers : List Header) (token : String)
    → extract_bearer_token headers ≡ some token
    → IsBearer headers token
unfolding extract_bearer_token
extract_bearer_token-IsBearer headers token h =
    elim (Option-cases (header_text "authorization" headers)) [
      | inl e ↦ absurd (ground (arith, e, h))
      | inr (raw, e) ↦ elim (Option-cases (strip_prefix "Bearer " (trim raw))) [
        | inl f ↦ absurd (ground (arith, e, f, h))
        | inr (rest, f) ↦
            let (same, filled) =
              non_empty-eq-some (trim rest) token (rw (extract_bearer_token, e, f) at h) in
            record {
              raw = raw;
              rest = rest;
              first = header_text-eq-some "authorization" headers raw e;
              prefixed = strip_prefix_sound "Bearer " (trim raw) rest f;
              trimmed = same;
              not_empty = filled;
            }
      ]
    ]

IsBearer-extract_bearer_token :
    (headers : List Header) (token : String)
    → IsBearer headers token
    → extract_bearer_token headers ≡ some token
unfolding extract_bearer_token header_text
IsBearer-extract_bearer_token headers token h =
    let stripped : strip_prefix "Bearer " (trim h.raw) ≡ some h.rest =
      rw h.prefixed (strip_prefix-append "Bearer " h.rest) in
    rw (extract_bearer_token, header_text, h.first, stripped, h.trimmed, h.not_empty) refl

extract_header_token_iff :
    (headers : List Header) (token : String)
    → (extract_header_token headers "x-api-key" ≡ some token) ↔ IsApiKey headers token
unfolding extract_header_token header_text
extract_header_token_iff headers token = (
  λ h. elim (Option-cases (header_text "x-api-key" headers)) [
    | inl e ↦ absurd (ground (arith, e, h))
    | inr (raw, e) ↦
        let (same, filled) =
          non_empty-eq-some (trim raw) token (rw (extract_header_token, e) at h) in
        record {
          raw = raw;
          first = header_text-eq-some "x-api-key" headers raw e;
          trimmed = same;
          not_empty = filled;
        }
  ],
  λ h. rw (extract_header_token, header_text, h.first, h.trimmed, h.not_empty) refl,
)

-- The credentials that an entry takes.
abbrev pub Presents : EntryProtocol → List Header → String → Type 0
Presents EntryProtocol.anthropic headers token = IsApiKey headers token ⊎ IsBearer headers token
Presents EntryProtocol.openai headers token = IsBearer headers token

token_is-IsBearer :
    (headers : List Header) (token : String)
    → (token_is token (extract_bearer_token headers) ≡ true) ↔ IsBearer headers token
token_is-IsBearer headers token =
    let (to, from) = token_is_iff token (extract_bearer_token headers) in
    (
      λ h. extract_bearer_token-IsBearer headers token (to h),
      λ h. from (IsBearer-extract_bearer_token headers token h),
    )

token_is-IsApiKey :
    (headers : List Header) (token : String)
    → (token_is token (extract_header_token headers "x-api-key") ≡ true) ↔ IsApiKey headers token
token_is-IsApiKey headers token =
    let (to, from) = token_is_iff token (extract_header_token headers "x-api-key") in
    let (key_to, key_from) = extract_header_token_iff headers token in
    (λ h. key_to (to h), λ h. from (key_from h))

matches_for_iff :
    (protocol : EntryProtocol) (headers : List Header) (token : String)
    → (matches_for protocol
          (token_is token (extract_header_token headers "x-api-key"))
          (token_is token (extract_bearer_token headers))
        ≡ true)
      ↔ Presents protocol headers token
matches_for_iff EntryProtocol.anthropic headers token =
    ground (arith, token_is-IsBearer headers token, token_is-IsApiKey headers token)
matches_for_iff EntryProtocol.openai headers token = token_is-IsBearer headers token

-- A request passes the local access check exactly when the configured token is not blank and the
-- request presents it, trimmed, behind `Bearer ` in the first authorization header or, for an
-- Anthropic entry, as the first x-api-key header.
pub request_matches-Presents :
    (headers : List Header) (entry : PathEntry) (expected_token : String)
    → (request_matches_local_access_token headers entry expected_token ≡ true) ↔ (
        (is_empty (trim expected_token) ≡ false)
        × Presents entry.protocol headers (trim expected_token))
unfolding request_matches_local_access_token
request_matches-Presents headers entry expected_token =
    ground (arith, matches_for_iff entry.protocol headers (trim expected_token))
