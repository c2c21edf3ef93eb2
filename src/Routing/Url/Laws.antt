-- ===== src/Routing/Url/Laws.antt =====
-- The path of the upstream request against the configured one and the default one.
use mathlib.Core.Option.{none-ne-some, some-injective}
use Prim.Native.Char.{code}
use ai_open_router.Text.{is_empty, trim_end_by}
use ai_open_router.Text.Trim.{IsEndTrimmed, trim_end_by-IsEndTrimmed}
use ai_open_router.Routing.Entry.{is_slash}
use ai_open_router.Prelude.{
  ◌&&◌, ap, subst, false, Bool-cases, inl, Option-cases, sym, inr, ◌==◌, ◌↔◌, ◌||◌, eq_iff, ◌∙◌,
  ◌⊎◌, String, ◌≡◌, refl, true, some, none, arith,
}
use Prim.Native.String.{◌++◌, [], ◌∷◌}
use text.Mathlib.TextLemmas.{append_assoc, cons-append, nil-append}
use ai_open_router.Routing.Url.{UrlLibrary, upstream_path, base_path_of, resolve_upstream_url}
use ai_open_router.Text.Search.{starts_with, starts_with-append, starts_with_sound}

empty_of_is_empty : (s : String) → is_empty s ≡ true → s ≡ ""
empty_of_is_empty [] h = refl
empty_of_is_empty (c ∷ s) h = cc

-- The default path starts with the configured one, up to the end of a segment.
abbrev pub IsPrefix : String → String → Type 0
IsPrefix base_path default_path =
    (base_path ≡ "")
    ⊎ ((default_path ≡ base_path) ⊎ ((rest : String) × (default_path ≡ base_path ++ ("/" ++ rest))))

-- The path of the upstream: the configured prefix is not duplicated.
abbrev pub IsJoined : String → String → String → Type 0
IsJoined base_path default_path upstream =
    (IsPrefix base_path default_path × (upstream ≡ default_path))
    ⊎ ((IsPrefix base_path default_path → ⊥) × (upstream ≡ base_path ++ default_path))

extends_iff :
    (base_path default_path : String)
    → ((default_path == base_path || starts_with (base_path ++ "/") default_path) ≡ true) ↔ (
        (default_path ≡ base_path)
        ⊎ ((rest : String) × (default_path ≡ base_path ++ ("/" ++ rest))))
extends_iff base_path default_path = (
  λ h. elim (Bool-cases (default_path == base_path)) [
    | inl same ↦ inl ((eq_iff default_path base_path).0 same)
    | inr other ↦
        let (r, e) = starts_with_sound (base_path ++ "/") default_path (rw other at h) in
        inr (r, e ∙ append_assoc base_path "/" r)
  ],
  λ h. elim h [
    | inl same ↦ ground (arith, (eq_iff default_path base_path).1 same)
    | inr (r, e) ↦
        let starts : starts_with (base_path ++ "/") default_path ≡ true =
          rw (e, ← append_assoc base_path "/" r) (starts_with-append (base_path ++ "/") r) in
        ground (arith, starts)
  ],
)

pub upstream_path-IsJoined :
    (base_path default_path : String)
    → IsJoined base_path default_path (upstream_path base_path default_path)
unfolding upstream_path
upstream_path-IsJoined base_path default_path = elim (Bool-cases (is_empty base_path)) [
  | inl e ↦ inl (inl (empty_of_is_empty base_path e), rw (upstream_path, e) refl)
  | inr long ↦
      let (to, from) = extends_iff base_path default_path in
      elim (Bool-cases (default_path == base_path || starts_with (base_path ++ "/") default_path)) [
        | inl e ↦ inl (inr (to e), rw (upstream_path, long, e) refl)
        | inr e ↦ inr (
          λ h. elim h [
            | inl none_left ↦
                let filled : is_empty "" ≡ false = subst (λ s. is_empty s ≡ false) none_left long in
                cc
            | inr longer ↦ let extended = from longer in cc
          ],
          rw (upstream_path, long, e) refl,
        )
      ]
]

-- A path that already starts with the configured prefix does not get it twice.
pub upstream_path_no_duplicate :
    (base_path rest : String)
    → upstream_path base_path (base_path ++ ("/" ++ rest)) ≡ base_path ++ ("/" ++ rest)
unfolding upstream_path
upstream_path_no_duplicate base_path rest =
    let starts : starts_with (base_path ++ "/") (base_path ++ ("/" ++ rest)) ≡ true =
      rw (← append_assoc base_path "/" rest) (starts_with-append (base_path ++ "/") rest) in
    rw starts (ground arith)

abbrev AreSlashes : String → Type 0
AreSlashes [] = Unit
AreSlashes (c ∷ s) = (is_slash (code c) ≡ true) × AreSlashes s

trim_end_by-slashes :
    (s : String) → (slashes : String) × AreSlashes slashes × (s ≡ trim_end_by is_slash s ++ slashes)
unfolding trim_end_by
trim_end_by-slashes [] = ("", tt, refl)
trim_end_by-slashes (c ∷ s) =
    let (slashes, all, e) = trim_end_by-slashes s in
    let rest = trim_end_by is_slash s in
    elim (Bool-cases (is_empty rest && is_slash (code c))) [
      | inl h ↦
          let no_rest : rest ≡ "" = empty_of_is_empty rest (ground (arith, h)) in
          let only : s ≡ slashes = e ∙ ap (λ t. t ++ slashes) no_rest ∙ nil-append slashes in
          (
            c ∷ slashes,
            (ground (arith, h), all),
            rw (trim_end_by, h) (ap (◌∷◌ c) only ∙ sym (nil-append (c ∷ slashes))),
          )
      | inr h ↦ (slashes, all, rw (trim_end_by, h, cons-append) (ap (◌∷◌ c) e))
    ]

-- The configured path without the slashes at its end.
pub record IsBase (path base : String) : Type 0 where
  pub slashes : String
  pub all_slashes : AreSlashes slashes
  pub path_is : path ≡ base ++ slashes
  pub trimmed : IsEndTrimmed is_slash base

base_path_of-IsBase : (path : String) → IsBase path (base_path_of path)
unfolding base_path_of
base_path_of-IsBase path = elim (Bool-cases (is_empty path)) [
  | inl e ↦
      let empty = empty_of_is_empty path e in
      rw (base_path_of, e)
        (record { slashes = ""; all_slashes = tt; path_is = empty; trimmed = tt })
  | inr long ↦ elim (Bool-cases (path == "/")) [
    | inl e ↦
        let root : path ≡ "/" = (eq_iff path "/").0 e in
        rw (base_path_of, long, e)
          (record { slashes = "/"; all_slashes = (refl, tt); path_is = root; trimmed = tt })
    | inr e ↦
        let (slashes, all, cut) = trim_end_by-slashes path in
        rw (base_path_of, long, e)
          (record {
            slashes = slashes;
            all_slashes = all;
            path_is = cut;
            trimmed = trim_end_by-IsEndTrimmed is_slash path;
          })
  ]
]

module _ (lib : UrlLibrary) where
  open lib use {Url, parse, path, set_path, to_string}

  -- What an upstream URL is: the configured one with the joined path.
  abbrev pub IsUpstream : String → String → String → Type 0
  IsUpstream api_address default_path result =
      (url : Url) × (parse api_address ≡ some url)
      × ((base : String) × (upstream : String) × IsBase (path url) base
          × IsJoined base default_path upstream
          × (result ≡ to_string (set_path url upstream)))

  -- A resolved upstream URL is the configured one with another path. With the configured path
  -- taken without the slashes at its end, that is the protocol's default path, if the configured
  -- one is empty, equal to it or a prefix of it up to a slash, and else the configured path
  -- followed by the default one.
  pub resolve_upstream_url-IsUpstream :
      (api_address default_path result : String)
      → resolve_upstream_url lib api_address default_path ≡ some result
      → IsUpstream api_address default_path result
  unfolding resolve_upstream_url
  resolve_upstream_url-IsUpstream api_address default_path result h =
      elim (Option-cases (parse api_address)) [
        | inl e ↦ absurd (none-ne-some result (rw (e, resolve_upstream_url) at h))
        | inr (url, e) ↦ (
          url,
          e,
          (
            base_path_of (path url),
            upstream_path (base_path_of (path url)) default_path,
            base_path_of-IsBase (path url),
            upstream_path-IsJoined (base_path_of (path url)) default_path,
            some-injective _ _ (sym (rw (e, resolve_upstream_url) at h)),
          ),
        )
      ]

  -- It fails exactly when the address is no URL.
  pub resolve_upstream_url-eq-none_iff :
      (api_address default_path : String)
      → (resolve_upstream_url lib api_address default_path ≡ none) ↔ (parse api_address ≡ none)
  unfolding resolve_upstream_url
  resolve_upstream_url-eq-none_iff api_address default_path = ground arith
