-- ===== src/Auth.antt =====
-- auth.rs: the remote management password and the browser sessions.
-- The file system's answers, the clock and the fresh identifiers are arguments. Times are in
-- nanoseconds. Lock poisoning is left out: no code that can panic runs under a lock. So are the
-- errors of `initialize` in creating the directory and in reading the file.
mod Tests
pub mod Tokens
pub mod Remote
pub mod Cookie
pub mod Cookies
pub mod Crates
pub mod Password
pub mod Sessions
pub mod History
use Prim.Native.String.{◌++◌, len}
use ai_open_router.Prelude.{
  ℕ, String, ◌+◌, ◌*◌, Bool, true, false, not, ◌||◌, Option, none, some, List, [], ◌==◌, ltb, leb,
  if◌then◌else◌, Result, ok, err, and_then, map_err,
}
use ai_open_router.Text.{trim, is_blank}
use ai_open_router.Dict.{Dict, lookup, insert, remove}
use ai_open_router.Routing.Headers.{Header}
use ai_open_router.Auth.Tokens.{extract_bearer_token, extract_cookie_value}
use ai_open_router.Auth.Crates.{StoredRemoteAdminAuth, Library}

pub record AuthSession : Type 0 where
  pub expires_at : ℕ
  pub password_updated_at : Option String

-- With the file at `file_path`, none when it does not exist.
pub record RemoteAdminAuthStore : Type 0 where
  pub file : Option String
  pub persisted : StoredRemoteAdminAuth
  pub sessions : Dict AuthSession

-- What `std::fs::write` does. On an error the file can hold anything.
pub data WriteOutcome : Type 0 where
  written : WriteOutcome
  refused : (error : String) → (left : Option String) → WriteOutcome

-- 12 hours.
abbrev pub session_ttl : ℕ
session_ttl = 12 * 3600 * 1000000000

abbrev pub min_password_len : ℕ
min_password_len = 8

abbrev pub session_cookie_name : String
session_cookie_name = "aor_session"

-- `StoredRemoteAdminAuth::default()`.
abbrev pub no_password : StoredRemoteAdminAuth
no_password = record { password_hash = ""; updated_at = none }

-- `RemoteAdminAuthStore::new`, on a file.
abbrev pub new : Option String → RemoteAdminAuthStore
new file = record { file = file; persisted = no_password; sessions = [] }

unfoldable pub password_configured : RemoteAdminAuthStore → Bool
unfolding is_blank
password_configured s = not (is_blank s.persisted.password_hash)

unfoldable pub revoke_session : String → RemoteAdminAuthStore → RemoteAdminAuthStore
unfolding remove
revoke_session token s = record s { sessions = remove token s.sessions }

unfoldable pub revoke_all_sessions : RemoteAdminAuthStore → RemoteAdminAuthStore
revoke_all_sessions s = record s { sessions = [] }

-- `Option<String>` equality.
abbrev pub same_revision : Option String → Option String → Bool
same_revision none none = true
same_revision (some a) (some b) = a == b
same_revision _ _ = false

unfoldable pub verify_session : String → ℕ → RemoteAdminAuthStore → RemoteAdminAuthStore × Bool
unfolding is_blank lookup remove password_configured
verify_session token now s = if is_blank token then (s, false) else elim (lookup token s.sessions) [
  | none ↦ (s, false)
  | some session ↦
      if leb session.expires_at now
        || not (same_revision session.password_updated_at s.persisted.updated_at)
        || not (password_configured s)
      then (record s { sessions = remove token s.sessions }, false)
      else (s, true)
]

-- `token` is the text of the fresh UUID.
unfoldable pub issue_session :
    String → ℕ → RemoteAdminAuthStore → RemoteAdminAuthStore × Result String String
unfolding password_configured insert
issue_session token now s =
    if password_configured s
    then (
      record s {
        sessions =
            insert token
              (record {
                expires_at = now + session_ttl;
                password_updated_at = s.persisted.updated_at;
              })
              s.sessions;
      },
      ok token,
    )
    else (s, err "remote admin password is not configured")

module _ (lib : Library) where
  unfoldable pub write_persisted :
      StoredRemoteAdminAuth
      → WriteOutcome
      → RemoteAdminAuthStore
      → RemoteAdminAuthStore × Result String (Unit {0})
  write_persisted next outcome s = elim (lib.to_string_pretty next) [
    | err e ↦ (s, err ("serialize remote admin auth failed: " ++ e))
    | ok text ↦ elim outcome [
      | written ↦ (record s { file = some text; persisted = next }, ok tt)
      | refused e left ↦ (record s { file = left }, err ("write remote admin auth failed: " ++ e))
    ]
  ]

  unfoldable pub initialize :
      WriteOutcome → RemoteAdminAuthStore → RemoteAdminAuthStore × Result String (Unit {0})
  unfolding write_persisted
  initialize outcome s = elim s.file [
    | none ↦ write_persisted no_password outcome s
    | some raw ↦ elim (lib.from_str raw) [
      | err e ↦ (s, err ("parse remote admin auth failed: " ++ e))
      | ok parsed ↦ (record s { persisted = parsed }, ok tt)
    ]
  ]

  -- The end of `set_password` and `clear_password`: `?` on the write, then the revocation.
  unfoldable pub replace_password :
      StoredRemoteAdminAuth
      → WriteOutcome
      → RemoteAdminAuthStore
      → RemoteAdminAuthStore × Result String (Unit {0})
  unfolding write_persisted revoke_all_sessions
  replace_password next outcome s =
      let (t, result) = write_persisted next outcome s in
      elim result [ err e ↦ (t, err e) | ok u ↦ (revoke_all_sessions t, ok u) ]

  -- The hash of a trimmed password, salted with the bytes of a fresh UUID.
  unfoldable pub new_hash : String → List ℕ → Result String String
  new_hash trimmed uuid =
      if ltb (len trimmed) min_password_len
      then err "remote admin password must be at least 8 characters"
      else and_then
          (map_err (λ e. "generate remote admin password salt failed: " ++ e) (lib.encode_b64 uuid))
          (λ salt.
            map_err (λ e. "hash remote admin password failed: " ++ e)
              (lib.hash_password trimmed salt))

  unfoldable pub set_password :
      String
      → List ℕ
      → ℕ
      → WriteOutcome
      → RemoteAdminAuthStore
      → RemoteAdminAuthStore × Result String (Unit {0})
  unfolding trim new_hash replace_password
  set_password password uuid now outcome s = elim (new_hash (trim password) uuid) [
    | err e ↦ (s, err e)
    | ok hash ↦
        replace_password (record { password_hash = hash; updated_at = some (lib.to_rfc3339 now) })
          outcome s
  ]

  unfoldable pub clear_password :
      WriteOutcome → RemoteAdminAuthStore → RemoteAdminAuthStore × Result String (Unit {0})
  unfolding replace_password
  clear_password outcome s = replace_password no_password outcome s

  unfoldable pub verify_password : String → RemoteAdminAuthStore → Result String Bool
  unfolding trim password_configured
  verify_password password s =
      if password_configured s
      then elim (lib.parse_hash (trim s.persisted.password_hash)) [
        | err e ↦ err ("parse remote admin password hash failed: " ++ e)
        | ok parsed ↦ ok (lib.verify (trim password) parsed)
      ]
      else ok false

  -- The second half of `authenticate_request`.
  unfoldable pub authenticate_cookie :
      List Header → ℕ → RemoteAdminAuthStore → RemoteAdminAuthStore × Result String Bool
  unfolding extract_cookie_value verify_session
  authenticate_cookie headers now s = elim (extract_cookie_value headers session_cookie_name) [
    | none ↦ (s, ok false)
    | some token ↦ let (t, valid) = verify_session token now s in (t, ok valid)
  ]

  unfoldable pub authenticate_request :
      List Header → ℕ → RemoteAdminAuthStore → RemoteAdminAuthStore × Result String Bool
  unfolding extract_bearer_token verify_password authenticate_cookie
  authenticate_request headers now s = elim (extract_bearer_token headers) [
    | none ↦ authenticate_cookie headers now s
    | some password ↦ elim (verify_password password s) [
      | err e ↦ (s, err e)
      | ok accepted ↦ if accepted then (s, ok true) else authenticate_cookie headers now s
    ]
  ]
