-- ===== src/Auth/Cookies.antt =====
-- Which cookie `extract_cookie_value` finds.
use ai_open_router.Prelude.{
  String, ◌≡◌, refl, true, false, not, ◌&&◌, none, some, List, [], ◌∷◌, ◌++◌, ◌==◌, arith, eq_iff,
  Bool-cases, Option-cases, inl, inr, All, ◌∙◌, ◌↔◌, ap,
}
use ai_open_router.Text.{is_empty, trim, split_once}
use ai_open_router.Auth.Tokens.{find_cookie}

module _ (key : String) where
  -- The cookie is a pair that carries the value under the key.
  abbrev pub Carries : String → String → Type 0
  Carries value cookie =
      (pair : String × String) × (split_once b'=' (trim cookie) ≡ some pair)
      × (trim pair.0 ≡ key)
      × (trim pair.1 ≡ value)

  -- It is a pair, of another name or of an empty value.
  abbrev pub IsPassedOver : String → Type 0
  IsPassedOver cookie =
      (pair : String × String) × (split_once b'=' (trim cookie) ≡ some pair)
      × (((trim pair.0 == key) && not (is_empty (trim pair.1))) ≡ false)

  find_cookie-hit :
      (cookie : String) (cookies : List String) (pair : String × String)
      → split_once b'=' (trim cookie) ≡ some pair
      → ((trim pair.0 == key) && not (is_empty (trim pair.1))) ≡ true
      → find_cookie key (cookie ∷ cookies) ≡ some (trim pair.1)
  unfolding find_cookie
  find_cookie-hit cookie cookies pair e h = rw (find_cookie, e, h)

  find_cookie-over :
      (cookie : String) (cookies : List String)
      → IsPassedOver cookie
      → find_cookie key (cookie ∷ cookies) ≡ find_cookie key cookies
  unfolding find_cookie
  find_cookie-over cookie cookies (pair, e, h) = rw (find_cookie, e, h)

  find_cookie-malformed :
      (cookie : String) (cookies : List String)
      → split_once b'=' (trim cookie) ≡ none
      → find_cookie key (cookie ∷ cookies) ≡ none
  unfolding find_cookie
  find_cookie-malformed cookie cookies e = rw (find_cookie, e)

  -- A value is found when, and only when, a cookie carries it, it is not empty, and all the
  -- cookies before that one are pairs that are passed over.
  abbrev pub IsFirst : String → List String → Type 0
  IsFirst value cookies =
      (before : List String) × (cookie : String) × (after : List String) × (cookies
        ≡ before ++ cookie ∷ after)
      × All IsPassedOver before
      × Carries value cookie
      × (is_empty value ≡ false)

  find_cookie_sound :
      (cookies : List String) (value : String)
      → find_cookie key cookies ≡ some value
      → IsFirst value cookies
  unfolding find_cookie
  find_cookie_sound [] value h = absurd (ground arith)
  find_cookie_sound (cookie ∷ cookies) value h =
      elim (Option-cases (split_once b'=' (trim cookie))) [
        | inl bad ↦ absurd (ground (arith, find_cookie-malformed cookie cookies bad))
        | inr (pair, e) ↦ elim (Bool-cases ((trim pair.0 == key) && not (is_empty (trim pair.1)))) [
          | inl hit ↦ (
            [],
            cookie,
            cookies,
            refl,
            tt,
            (
              pair,
              e,
              ground (arith, eq_iff (trim pair.0) key),
              ground (arith, find_cookie-hit cookie cookies pair e hit),
            ),
            ground (arith, find_cookie-hit cookie cookies pair e hit),
          )
          | inr miss ↦
              let over : IsPassedOver cookie = (pair, e, miss) in
              let (before, found, after, split, others, carries, full) =
                find_cookie_sound cookies value (rw (find_cookie-over cookie cookies over) at h) in
              (cookie ∷ before, found, after, rw split, (over, others), carries, full)
        ]
      ]

  find_cookie_complete :
      (before : List String) (cookie : String) (after : List String) (value : String)
      → All IsPassedOver before
      → Carries value cookie
      → is_empty value ≡ false
      → find_cookie key (before ++ cookie ∷ after) ≡ some value
  find_cookie_complete [] cookie after value h (pair, e, name, text) full =
      find_cookie-hit cookie after pair e (ground (arith, eq_iff (trim pair.0) key)) ∙ ap some text
  find_cookie_complete (b ∷ before) cookie after value h c full =
      find_cookie-over b (before ++ cookie ∷ after) h.0
      ∙ find_cookie_complete before cookie after value h.1 c full

  -- A cookie value is found exactly when a cookie carries it under the key, it is not empty, and
  -- all cookies before are name-value pairs that do not carry a value under that key.
  pub find_cookie-IsFirst :
      (cookies : List String) (value : String)
      → (find_cookie key cookies ≡ some value) ↔ IsFirst value cookies
  find_cookie-IsFirst cookies value = (
    find_cookie_sound cookies value,
    λ f.
        let (before, cookie, after, split, others, carries, full) = f in
        rw split (find_cookie_complete before cookie after value others carries full),
  )
