-- ===== src/Auth/Crates.antt =====
-- What auth.rs uses of its libraries: `serde_json`, `argon2` and `chrono`.
use ai_open_router.Prelude.{ℕ, String, ◌≡◌, Bool, true, false, Option, List, Result, ok}
use ai_open_router.Text.{trim, is_blank}

pub record StoredRemoteAdminAuth : Type 0 where
  pub password_hash : String
  pub updated_at : Option String

pub record Library : Type 1 where
  pub PasswordHash : Type 0
  pub to_string_pretty : StoredRemoteAdminAuth → Result String String
  pub from_str : String → Result String StoredRemoteAdminAuth
  pub encode_b64 : List ℕ → Result String String
  pub hash_password : String → String → Result String String
  pub parse_hash : String → Result String PasswordHash
  pub verify : String → PasswordHash → Bool
  pub to_rfc3339 : ℕ → String

-- A PHC string of `argon2` is parsed back, and verifies the password that it was made of.
abbrev pub VerifiesWhatItHashed : Library → Type 0
VerifiesWhatItHashed lib =
    (password salt hash : String)
    → lib.hash_password password salt ≡ ok hash
    → (is_blank hash ≡ false)
      × ((parsed : lib.PasswordHash) × (lib.parse_hash (trim hash) ≡ ok parsed)
          × (lib.verify password parsed ≡ true))

-- `serde_json` reads what it wrote.
abbrev pub ReadsWhatItWrote : Library → Type 0
ReadsWhatItWrote lib =
    (value : StoredRemoteAdminAuth) (text : String)
    → lib.to_string_pretty value ≡ ok text
    → lib.from_str text ≡ ok value
