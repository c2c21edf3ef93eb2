-- ===== src/Auth/Sessions.antt =====
-- When a session and a request are accepted.
use ai_open_router.Prelude.{
  refl, ℕ, String, ◌≡◌, ◌<◌, true, false, Option, none, some, arith, eq_iff, Option-cases, inl, inr,
  ◌↔◌, ◌≢◌, ◌⊎◌,
}
use ai_open_router.Dict.{lookup}
use ai_open_router.Auth.{
  AuthSession, RemoteAdminAuthStore, verify_session, password_configured, same_revision, is_blank,
  Library, List, Header, extract_bearer_token, extract_cookie_value, authenticate_cookie,
  authenticate_request, verify_password, ok, session_cookie_name, Result, Bool, err,
}

same_revision_iff : (a b : Option String) → (same_revision a b ≡ true) ↔ (a ≡ b)
same_revision_iff none none = ground arith
same_revision_iff none (some b) = ground arith
same_revision_iff (some a) none = ground arith
same_revision_iff (some a) (some b) = ground (arith, eq_iff a b)

-- The session is in the table, has not expired, and belongs to the password in force.
abbrev pub IsLive : String → ℕ → RemoteAdminAuthStore → Type 0
IsLive token now s =
    (session : AuthSession) × (lookup token s.sessions ≡ some session)
    × (now < session.expires_at)
    × (session.password_updated_at ≡ s.persisted.updated_at)
    × (password_configured s ≡ true)

verify_session-missing :
    (token : String) (now : ℕ) (s : RemoteAdminAuthStore)
    → lookup token s.sessions ≡ none
    → verify_session token now s ≡ (s, false)
unfolding verify_session
verify_session-missing token now s h = rw (verify_session, h) (ground arith)

verify_session_sound :
    (token : String) (now : ℕ) (s : RemoteAdminAuthStore)
    → (verify_session token now s).1 ≡ true
    → IsLive token now s × (verify_session token now s ≡ (s, true))
unfolding verify_session
verify_session_sound token now s h = elim (Option-cases (lookup token s.sessions)) [
  | inl gone ↦ absurd (ground (arith, verify_session-missing token now s gone))
  | inr (session, found) ↦
      ground (arith, same_revision_iff session.password_updated_at s.persisted.updated_at)
]

-- A token is accepted exactly when it is not blank and names a session that has not expired,
-- belongs to the password in force, and a password is configured.
pub verify_session-IsLive :
    (token : String) (now : ℕ) (s : RemoteAdminAuthStore)
    → ((verify_session token now s).1 ≡ true) ↔ ((is_blank token ≡ false) × IsLive token now s)
unfolding verify_session
verify_session-IsLive token now s = elim (Option-cases (lookup token s.sessions)) [
  | inl gone ↦ ground (arith, verify_session-missing token now s gone)
  | inr (session, found) ↦
      ground (arith, same_revision_iff session.password_updated_at s.persisted.updated_at)
]

module _ (lib : Library) (headers : List Header) (now : ℕ) (s : RemoteAdminAuthStore) where
  abbrev pub HasPassword : Type 0
  HasPassword =
      (password : String) × (extract_bearer_token headers ≡ some password)
      × (verify_password lib password s ≡ ok true)

  abbrev pub HasLiveCookie : Type 0
  HasLiveCookie =
      (token : String) × (extract_cookie_value headers session_cookie_name ≡ some token)
      × (is_blank token ≡ false)
      × IsLive token now s

  authenticate_cookie_sound : (authenticate_cookie lib headers now s).1 ≡ ok true → HasLiveCookie
  unfolding authenticate_cookie
  authenticate_cookie_sound h =
      elim (Option-cases (extract_cookie_value headers session_cookie_name)) [
        | inl none_sent ↦ absurd (ground (arith, rw (authenticate_cookie, none_sent) at h))
        | inr (token, sent) ↦
            let (full, live) =
              (verify_session-IsLive token now s).0
                (ground (arith, rw (authenticate_cookie, sent) at h)) in
            (token, sent, full, live)
      ]

  after_password :
      (password : String) (r : Result String Bool)
      → extract_bearer_token headers ≡ some password
      → verify_password lib password s ≡ r
      → (authenticate_request lib headers now s).1 ≡ ok true
      → HasPassword ⊎ HasLiveCookie
  unfolding authenticate_request
  after_password password (err e) sent v h =
      absurd (ground (arith, rw (authenticate_request, sent, v) at h))
  after_password password (ok true) sent v h = inl (password, sent, v)
  after_password password (ok false) sent v h =
      inr (authenticate_cookie_sound (rw (authenticate_request, sent, v) at h))

  -- A remote request is accepted only with the password as its bearer token or with the cookie
  -- of a live session.
  pub authenticate_request_sound :
      (authenticate_request lib headers now s).1 ≡ ok true → HasPassword ⊎ HasLiveCookie
  unfolding authenticate_request
  authenticate_request_sound h = elim (Option-cases (extract_bearer_token headers)) [
    | inl none_sent ↦ inr (authenticate_cookie_sound (rw (authenticate_request, none_sent) at h))
    | inr (password, sent) ↦ after_password password (verify_password lib password s) sent refl h
  ]

  -- Without a configured password no remote request is accepted.
  pub authenticate_request_unconfigured :
      password_configured s ≡ false → (authenticate_request lib headers now s).1 ≢ ok true
  unfolding verify_password
  authenticate_request_unconfigured bare h = elim (authenticate_request_sound h) [
    | inl (password, sent, accepted) ↦
        absurd (ground (arith, rw (verify_password, bare) at accepted))
    | inr (token, sent, full, (session, found, live, same, configured)) ↦ ground arith
  ]
