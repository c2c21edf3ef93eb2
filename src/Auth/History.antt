-- ===== src/Auth/History.antt =====
-- The sessions over a run of the store: whom a session was issued to, and when.
use ai_open_router.Prelude.{
  ℕ, String, ◌≡◌, ◌≢◌, ◌+◌, true, List, [], ◌∷◌, ◌⊎◌, err, Absent, ◌<◌, arith, Option-cases, inl,
  inr, eq_iff, Bool-cases, ◌==◌,
}
use ai_open_router.Routing.Headers.{Header}
use ai_open_router.Dict.{lookup, lookup-insert, lookup-remove}
use ai_open_router.Auth.{
  AuthSession, RemoteAdminAuthStore, WriteOutcome, set_password, clear_password, issue_session,
  verify_session, revoke_session, authenticate_request, password_configured, session_ttl, lookup,
  some,
}
use ai_open_router.Auth.Crates.{Library}
use ai_open_router.Auth.{authenticate_cookie, session_cookie_name}
use ai_open_router.Auth.Tokens.{extract_cookie_value}
use ai_open_router.Auth.Sessions.{verify_session-IsLive}
use ai_open_router.Auth.Password.{
  set_password-IsReplaced_or_IsKept, clear_password-IsReplaced_or_IsKept,
}

pub data Operation : Type 0 where
  set : String → List ℕ → ℕ → WriteOutcome → Operation
  clear : WriteOutcome → Operation
  issue : (token : String) (now : ℕ) → Operation
  verify : (token : String) (now : ℕ) → Operation
  revoke : String → Operation
  authenticate : List Header → ℕ → Operation

module _ (lib : Library) where
  unfoldable pub perform : Operation → RemoteAdminAuthStore → RemoteAdminAuthStore
  unfolding set_password clear_password issue_session verify_session revoke_session
      authenticate_request
  perform (set password uuid now outcome) s = (set_password lib password uuid now outcome s).0
  perform (clear outcome) s = (clear_password lib outcome s).0
  perform (issue token now) s = (issue_session token now s).0
  perform (verify token now) s = (verify_session token now s).0
  perform (revoke token) s = revoke_session token s
  perform (authenticate headers now) s = (authenticate_request lib headers now s).0

  -- The operations since the start, the latest first.
  unfoldable pub run : List Operation → RemoteAdminAuthStore → RemoteAdminAuthStore
  unfolding perform
  run [] s = s
  run (op ∷ ops) s = perform op (run ops s)

  -- The session was issued by this operation.
  abbrev IssuedBy : String → AuthSession → RemoteAdminAuthStore → Operation → Type 0
  IssuedBy token session s (issue t now) =
      (t ≡ token)
      × (password_configured s ≡ true)
      × (session
          ≡ record { expires_at = now + session_ttl; password_updated_at = s.persisted.updated_at })
  IssuedBy token session s _ = Absent

  -- The operation neither revokes the session nor changes the password.
  abbrev Spares : String → RemoteAdminAuthStore → Operation → Type 0
  Spares token s (set password uuid now outcome) =
      (e : String) × ((set_password lib password uuid now outcome s).1 ≡ err e)
  Spares token s (clear outcome) = (e : String) × ((clear_password lib outcome s).1 ≡ err e)
  Spares token s (revoke t) = t ≢ token
  Spares token s _ = Unit

  -- Some operation issued the session, and all later ones spare it.
  abbrev pub Issued : String → AuthSession → RemoteAdminAuthStore → List Operation → Type 0
  Issued token session s [] = Absent
  Issued token session s (op ∷ ops) =
      IssuedBy token session (run ops s) op
      ⊎ (Spares token (run ops s) op × Issued token session s ops)

  -- An operation leaves no session that it does not spare, and adds only what it issues.
  abbrev Explains : String → AuthSession → RemoteAdminAuthStore → Operation → Type 0
  Explains token session s op =
      IssuedBy token session s op ⊎ (Spares token s op × (lookup token s.sessions ≡ some session))

  verify_session_shrinks :
      (token t : String) (now : ℕ) (s : RemoteAdminAuthStore) (session : AuthSession)
      → lookup token (verify_session t now s).0.sessions ≡ some session
      → lookup token s.sessions ≡ some session
  unfolding verify_session
  verify_session_shrinks token t now s session h = ground (arith, lookup-remove t token s.sessions)

  authenticate_cookie_shrinks :
      (token : String) (headers : List Header) (now : ℕ) (s : RemoteAdminAuthStore)
      (session : AuthSession)
      → lookup token (authenticate_cookie lib headers now s).0.sessions ≡ some session
      → lookup token s.sessions ≡ some session
  unfolding authenticate_cookie
  authenticate_cookie_shrinks token headers now s session h =
      elim (Option-cases (extract_cookie_value headers session_cookie_name)) [
        | inl absent ↦ ground arith
        | inr (t, found) ↦
            verify_session_shrinks token t now s session (rw (authenticate_cookie, found) at h)
      ]

  authenticate_request_shrinks :
      (token : String) (headers : List Header) (now : ℕ) (s : RemoteAdminAuthStore)
      (session : AuthSession)
      → lookup token (authenticate_request lib headers now s).0.sessions ≡ some session
      → lookup token s.sessions ≡ some session
  unfolding authenticate_request
  authenticate_request_shrinks token headers now s session h =
      ground (arith, authenticate_cookie_shrinks token headers now s session)

  issue_explained :
      (t : String) (now : ℕ) (token : String) (s : RemoteAdminAuthStore) (session : AuthSession)
      → lookup token (issue_session t now s).0.sessions ≡ some session
      → Explains token session s (issue t now)
  unfolding issue_session
  issue_explained t now token s session h = elim (Bool-cases (password_configured s)) [
    | inl configured ↦
        let k = rw (issue_session, configured, lookup-insert) at h in
        elim (Bool-cases (t == token)) [
          | inl mine ↦ inl ((eq_iff t token).0 mine, configured, ground arith)
          | inr other ↦ inr (tt, rw other at k)
        ]
    | inr bare ↦ inr (tt, rw (issue_session, bare) at h)
  ]

  perform_explained :
      (op : Operation) (token : String) (s : RemoteAdminAuthStore) (session : AuthSession)
      → lookup token (perform op s).sessions ≡ some session
      → Explains token session s op
  unfolding perform issue_session revoke_session lookup
  perform_explained (set password uuid now outcome) token s session h =
      elim (set_password-IsReplaced_or_IsKept lib password uuid now outcome s) [
        | inl (next, made, (done, force, gone, stored)) ↦
            absurd (ground (arith, rw (perform, gone, lookup) at h))
        | inr (failed, force, same) ↦ inr (failed, rw (perform, same) at h)
      ]
  perform_explained (clear outcome) token s session h =
      elim (clear_password-IsReplaced_or_IsKept lib outcome s) [
        | inl (done, force, gone, stored) ↦ absurd (ground (arith, rw (perform, gone, lookup) at h))
        | inr (failed, force, same) ↦ inr (failed, rw (perform, same) at h)
      ]
  perform_explained (issue t now) token s session h = issue_explained t now token s session h
  perform_explained (verify t now) token s session h =
      inr (tt, verify_session_shrinks token t now s session h)
  perform_explained (revoke t) token s session h =
      ground (arith, eq_iff t token, lookup-remove t token s.sessions)
  perform_explained (authenticate headers now) token s session h =
      inr (tt, authenticate_request_shrinks token headers now s session h)

  run_explained :
      (ops : List Operation) (token : String) (s : RemoteAdminAuthStore) (session : AuthSession)
      → s.sessions ≡ []
      → lookup token (run ops s).sessions ≡ some session
      → Issued token session s ops
  unfolding run lookup
  run_explained [] token s session e h = absurd (ground arith)
  run_explained (op ∷ ops) token s session e h =
      elim (perform_explained op token (run ops s) session h) [
        | inl issued ↦ inl issued
        | inr (spared, found) ↦ inr (spared, run_explained ops token s session e found)
      ]

  -- From a store without sessions, a token that is accepted after any run of operations was
  -- issued by the store for a configured password that is still in force, has not expired, and
  -- was neither revoked nor outlived by a successful password change.
  pub verify_session-Issued :
      (ops : List Operation) (token : String) (now : ℕ) (s : RemoteAdminAuthStore)
      → s.sessions ≡ []
      → (verify_session token now (run ops s)).1 ≡ true
      → (session : AuthSession) × Issued token session s ops
        × (now < session.expires_at)
        × (session.password_updated_at ≡ (run ops s).persisted.updated_at)
        × (password_configured (run ops s) ≡ true)
  verify_session-Issued ops token now s e h =
      let (full, (session, found, live, same, configured)) =
        (verify_session-IsLive token now (run ops s)).0 h in
      (session, run_explained ops token s session e found, live, same, configured)
