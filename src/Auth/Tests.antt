-- ===== src/Auth/Tests.antt =====
-- The theorems on the sessions at a concrete store and a library of plain passwords.
use Prim.Native.String.{◌∷◌, char_at}
use ai_open_router.Prelude.{
  subst, String, ◌≡◌, ◌<◌, refl, true, false, Option, none, some, List, [], ◌∷◌, Result, ok, err,
  arith, ◌↔◌, ◌⊎◌, if◌then◌else◌, ◌==◌, eq_iff, eq_refl, ◌+◌, Bool-cases, inl, inr,
}
use ai_open_router.Text.{is_blank, trim, strip_prefix, trim_start_by, trim_end_by, is_whitespace}
use ai_open_router.Routing.Headers.{Header}
use ai_open_router.Auth.Crates.{
  StoredRemoteAdminAuth, Library, VerifiesWhatItHashed, ReadsWhatItWrote,
}
use ai_open_router.Auth.{
  AuthSession, RemoteAdminAuthStore, written, new, set_password, verify_session, verify_password,
  authenticate_request, password_configured, session_ttl,
}
use ai_open_router.Auth.Remote.{IpLibrary, forwarded_client_ip, is_remote_request_with_headers}
use ai_open_router.Auth.Remote.Laws.{IsClient, clients, is_remote_request_with_headers_iff}
use ai_open_router.Text.{contains}
use ai_open_router.Auth.Cookies.{IsFirst, find_cookie-IsFirst}
use ai_open_router.Auth.Tokens.{find_cookie}
use ai_open_router.Auth.Sessions.{IsLive, verify_session-IsLive}
use ai_open_router.Auth.Password.{
  IsHashOf, IsReplaced, IsKept, set_password-IsReplaced_or_IsKept, set_password-verify_password,
}
use ai_open_router.Auth.History.{Operation, set, issue, run, Issued, verify_session-Issued}

abbrev configured : StoredRemoteAdminAuth
configured = record { password_hash = "#correct horse"; updated_at = some "now" }

abbrev mark : String → String → String
mark letter rest = char_at letter 0 ∷ rest

-- The text of a value: a letter for its date, and the hash.
abbrev text_of : String → Option String → Result String String
text_of hash none = ok (mark "n" hash)
text_of hash (some date) = if date == "now" then ok (mark "s" hash) else err "unknown date"

abbrev with_date : Option String → Option String → Result String StoredRemoteAdminAuth
with_date (some hash) dated = ok (record { password_hash = hash; updated_at = none })
with_date none (some hash) = ok (record { password_hash = hash; updated_at = some "now" })
with_date none none = err "unknown text"

-- A hash is the password after "#".
unfoldable plain : Library
unfolding trim strip_prefix
plain = record {
  PasswordHash = String;
  to_string_pretty = λ value. text_of value.password_hash value.updated_at;
  from_str = λ text. with_date (strip_prefix "n" text) (strip_prefix "s" text);
  encode_b64 = λ uuid. ok "salt";
  hash_password = λ password salt. ok (mark "#" password);
  parse_hash = λ hash. ok hash;
  verify = λ password hash. trim (mark "#" password) == hash;
  to_rfc3339 = λ now. "now";
}

verifies_law : (password : String) → is_blank (mark "#" password) ≡ false
unfolding is_blank trim trim_start_by trim_end_by is_whitespace
verifies_law password = ground arith

plain-VerifiesWhatItHashed : VerifiesWhatItHashed plain
unfolding plain
plain-VerifiesWhatItHashed password salt hash h =
    let made : mark "#" password ≡ hash = cc in
    subst
      (λ t.
        (is_blank t ≡ false)
        × ((parsed : String) × (◌≡◌ {A = Result String String} (ok (trim t)) (ok parsed))
            × ((trim (mark "#" password) == parsed) ≡ true)))
      made
      (verifies_law password, (trim (mark "#" password), refl, eq_refl (trim (mark "#" password))))

reads_law :
    (hash : String) (date : Option String) (text : String)
    → text_of hash date ≡ ok text
    → with_date (strip_prefix "n" text) (strip_prefix "s" text)
      ≡ ok (record { password_hash = hash; updated_at = date })
unfolding strip_prefix
reads_law hash none text h =
    let made : mark "n" hash ≡ text = cc in
    subst
      (λ t.
        with_date (strip_prefix "n" t) (strip_prefix "s" t)
        ≡ ok (record { password_hash = hash; updated_at = none }))
      made refl
reads_law hash (some date) text h = elim (Bool-cases (date == "now")) [
  | inl now ↦
      let made : mark "s" hash ≡ text = ground arith in
      subst
        (λ t.
          with_date (strip_prefix "n" t) (strip_prefix "s" t)
          ≡ ok (record { password_hash = hash; updated_at = some date }))
        made (rw ((eq_iff date "now").0 now) refl)
  | inr other ↦ absurd (ground arith)
]

plain-ReadsWhatItWrote : ReadsWhatItWrote plain
unfolding plain
plain-ReadsWhatItWrote value text h = reads_law value.password_hash value.updated_at text h

abbrev session : AuthSession
session = record { expires_at = 5 + session_ttl; password_updated_at = some "now" }

abbrev store : RemoteAdminAuthStore
store = record {
  file = some "#correct horse";
  persisted = configured;
  sessions = ("token", session) ∷ [];
}

token_accepted : (verify_session "token" 10 store).1 ≡ true
unfolding verify_session
token_accepted = refl

verify_session-IsLive_example :
    ((verify_session "token" 10 store).1 ≡ true)
    ↔ ((is_blank "token" ≡ false) × IsLive "token" 10 store)
verify_session-IsLive_example = verify_session-IsLive "token" 10 store

abbrev with_cookie : List Header
with_cookie = ("cookie", some "theme=dark; aor_session=token") ∷ []

cookie_accepted : (authenticate_request plain with_cookie 10 store).1 ≡ ok true
unfolding authenticate_request plain
cookie_accepted = refl

bare : password_configured (new none) ≡ false
unfolding password_configured
bare = refl

set_password-IsReplaced_or_IsKept_example :
    ((next : StoredRemoteAdminAuth) × IsHashOf plain " correct horse" [] 5 next
      × IsReplaced plain next (set_password plain " correct horse" [] 5 written store))
    ⊎ IsKept plain store (set_password plain " correct horse" [] 5 written store)
set_password-IsReplaced_or_IsKept_example =
    set_password-IsReplaced_or_IsKept plain " correct horse" [] 5 written store

password_set : (set_password plain " correct horse" [] 5 written store).1 ≡ ok tt
unfolding set_password plain
password_set = refl

set_password-verify_password_example :
    verify_password plain " correct horse"
      (set_password plain " correct horse" [] 5 written store).0
    ≡ ok true
set_password-verify_password_example =
    set_password-verify_password plain plain-VerifiesWhatItHashed " correct horse" [] 5 written
      store password_set

-- A password that was set, and a token issued for it.
abbrev operations : List Operation
operations = issue "token" 5 ∷ set " correct horse" [] 5 written ∷ []

issued_accepted : (verify_session "token" 10 (run plain operations (new none))).1 ≡ true
unfolding run verify_session plain
issued_accepted = refl

verify_session-Issued_example :
    (s : AuthSession) × Issued plain "token" s (new none) operations
    × (10 < s.expires_at)
    × (s.password_updated_at ≡ (run plain operations (new none)).persisted.updated_at)
    × (password_configured (run plain operations (new none)) ≡ true)
verify_session-Issued_example =
    verify_session-Issued plain operations "token" 10 (new none) refl issued_accepted

find_cookie-IsFirst_example :
    (find_cookie "aor_session" ("theme=dark" ∷ " aor_session=token" ∷ []) ≡ some "token")
    ↔ IsFirst "aor_session" "token" ("theme=dark" ∷ " aor_session=token" ∷ [])
find_cookie-IsFirst_example =
    find_cookie-IsFirst "aor_session" ("theme=dark" ∷ " aor_session=token" ∷ []) "token"

-- Addresses by their text; one is this machine.
abbrev addresses : IpLibrary
addresses = record {
  IpAddr = String;
  parse = λ s. if contains "." s then some s else none;
  is_loopback = λ ip. ip == "127.0.0.1";
}

abbrev forwarded : List Header
forwarded =
    ("forwarded", some "proto=https;for=unknown, for=\"10.0.0.7:4711\"")
    ∷ ("x-forwarded-for", some "127.0.0.1")
    ∷ []

names_client : forwarded_client_ip addresses forwarded ≡ some "10.0.0.7"
unfolding forwarded_client_ip contains
names_client = refl

is_remote_request_with_headers_iff_example :
    (is_remote_request_with_headers addresses (some "127.0.0.1") forwarded ≡ true) ↔ (
      ((ip : String) × (◌≡◌ {A = Option String} (some "127.0.0.1") (some ip))
        × (addresses.is_loopback ip ≡ false))
      ⊎ ((ip : String) × IsClient addresses (clients forwarded) ip
          × (addresses.is_loopback ip ≡ false)))
is_remote_request_with_headers_iff_example =
    is_remote_request_with_headers_iff addresses (some "127.0.0.1") forwarded
