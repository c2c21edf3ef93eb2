-- ===== src/Auth/Password.antt =====
-- What a change of the password achieves, and what a failed one leaves.
use Prim.Native.String.{◌++◌, len}
use ai_open_router.Prelude.{
  ℕ, String, ◌≡◌, refl, ◌≤◌, true, Option, some, List, [], arith, ltb, Bool-cases, inl, inr, ◌⊎◌,
  Result, ok, err, and_then-eq-ok, map_err-eq-ok,
}
use ai_open_router.Text.{trim}
use ai_open_router.Auth.{
  RemoteAdminAuthStore, WriteOutcome, written, refused, write_persisted, initialize,
  replace_password, new_hash, set_password, clear_password, verify_password, password_configured,
  no_password, revoke_all_sessions, min_password_len, new,
}
use ai_open_router.Auth.Crates.{
  StoredRemoteAdminAuth, Library, VerifiesWhatItHashed, ReadsWhatItWrote,
}

module _ (lib : Library) where
  -- The file holds what is in force.
  abbrev pub IsStored : RemoteAdminAuthStore → Type 0
  IsStored s = (text : String) × (s.file ≡ some text) × (lib.to_string_pretty s.persisted ≡ ok text)

  abbrev pub Outcome : Type 0
  Outcome = RemoteAdminAuthStore × Result String (Unit {0})

  -- The password is in force and in the file, and no session is left.
  abbrev pub IsReplaced : StoredRemoteAdminAuth → Outcome → Type 0
  IsReplaced next r = (r.1 ≡ ok tt) × (r.0.persisted ≡ next) × (r.0.sessions ≡ []) × IsStored r.0

  -- An error, and the password and the sessions are as they were.
  abbrev pub IsKept : RemoteAdminAuthStore → Outcome → Type 0
  IsKept s r =
      ((e : String) × (r.1 ≡ err e)) × (r.0.persisted ≡ s.persisted) × (r.0.sessions ≡ s.sessions)

  write_persisted-written :
      (next : StoredRemoteAdminAuth) (s : RemoteAdminAuthStore) (text : String)
      → lib.to_string_pretty next ≡ ok text
      → write_persisted lib next written s
        ≡ (record s { file = some text; persisted = next }, ok tt)
  unfolding write_persisted
  write_persisted-written next s text h = rw (write_persisted, h)

  write_persisted-refused :
      (next : StoredRemoteAdminAuth) (s : RemoteAdminAuthStore) (text e : String)
      (left : Option String)
      → lib.to_string_pretty next ≡ ok text
      → write_persisted lib next (refused e left) s
        ≡ (record s { file = left }, err ("write remote admin auth failed: " ++ e))
  unfolding write_persisted
  write_persisted-refused next s text e left h = rw (write_persisted, h)

  write_persisted-unwritable :
      (next : StoredRemoteAdminAuth) (s : RemoteAdminAuthStore) (outcome : WriteOutcome)
      (e : String)
      → lib.to_string_pretty next ≡ err e
      → write_persisted lib next outcome s ≡ (s, err ("serialize remote admin auth failed: " ++ e))
  unfolding write_persisted
  write_persisted-unwritable next s outcome e h = rw (write_persisted, h)

  replace_password-written :
      (next : StoredRemoteAdminAuth) (s : RemoteAdminAuthStore) (text : String)
      → lib.to_string_pretty next ≡ ok text
      → replace_password lib next written s
        ≡ (record s { file = some text; persisted = next; sessions = [] }, ok tt)
  unfolding replace_password revoke_all_sessions
  replace_password-written next s text h = rw (
    replace_password,
    write_persisted-written next s text h,
    write_persisted-written next s text h,
  )

  replace_password-refused :
      (next : StoredRemoteAdminAuth) (s : RemoteAdminAuthStore) (text e : String)
      (left : Option String)
      → lib.to_string_pretty next ≡ ok text
      → replace_password lib next (refused e left) s
        ≡ (record s { file = left }, err ("write remote admin auth failed: " ++ e))
  unfolding replace_password
  replace_password-refused next s text e left h = rw (
    replace_password,
    write_persisted-refused next s text e left h,
    write_persisted-refused next s text e left h,
  )

  replace_password-unwritable :
      (next : StoredRemoteAdminAuth) (s : RemoteAdminAuthStore) (outcome : WriteOutcome)
      (e : String)
      → lib.to_string_pretty next ≡ err e
      → replace_password lib next outcome s ≡ (s, err ("serialize remote admin auth failed: " ++ e))
  unfolding replace_password
  replace_password-unwritable next s outcome e h = rw (
    replace_password,
    write_persisted-unwritable next s outcome e h,
    write_persisted-unwritable next s outcome e h,
  )

  replace_password_cases :
      (next : StoredRemoteAdminAuth) (s : RemoteAdminAuthStore) (text : Result String String)
      (outcome : WriteOutcome)
      → lib.to_string_pretty next ≡ text
      → IsReplaced next (replace_password lib next outcome s)
        ⊎ IsKept s (replace_password lib next outcome s)
  replace_password_cases next s (err e) outcome h =
      rw (replace_password-unwritable next s outcome e h) (inr ((_, refl), refl, refl))
  replace_password_cases next s (ok text) written h =
      rw (replace_password-written next s text h) (inl (refl, refl, refl, (text, refl, h)))
  replace_password_cases next s (ok text) (refused e left) h =
      rw (replace_password-refused next s text e left h) (inr ((_, refl), refl, refl))

  pub clear_password-IsReplaced_or_IsKept :
      (outcome : WriteOutcome) (s : RemoteAdminAuthStore)
      → IsReplaced no_password (clear_password lib outcome s)
        ⊎ IsKept s (clear_password lib outcome s)
  unfolding clear_password
  clear_password-IsReplaced_or_IsKept outcome s =
      replace_password_cases no_password s (lib.to_string_pretty no_password) outcome refl

  -- What `set_password` puts in force when it succeeds.
  abbrev pub IsHashOf : String → List ℕ → ℕ → StoredRemoteAdminAuth → Type 0
  IsHashOf password uuid now next =
      (min_password_len ≤ len (trim password))
      × ((salt : String) × (lib.encode_b64 uuid ≡ ok salt)
          × (lib.hash_password (trim password) salt ≡ ok next.password_hash))
      × (next.updated_at ≡ some (lib.to_rfc3339 now))

  new_hash-ok :
      (trimmed : String) (uuid : List ℕ) (hash : String)
      → new_hash lib trimmed uuid ≡ ok hash
      → (min_password_len ≤ len trimmed)
        × ((salt : String) × (lib.encode_b64 uuid ≡ ok salt)
            × (lib.hash_password trimmed salt ≡ ok hash))
  unfolding new_hash
  new_hash-ok trimmed uuid hash h = elim (Bool-cases (ltb (len trimmed) min_password_len)) [
    | inl short ↦ absurd (ground arith)
    | inr long ↦
        let (salt, salted, hashed) = and_then-eq-ok _ _ hash (rw (new_hash, long) at h) in
        (ground arith, (salt, map_err-eq-ok _ _ salt salted, map_err-eq-ok _ _ hash hashed))
  ]

  set_password-err :
      (password : String) (uuid : List ℕ) (now : ℕ) (outcome : WriteOutcome)
      (s : RemoteAdminAuthStore) (e : String)
      → new_hash lib (trim password) uuid ≡ err e
      → set_password lib password uuid now outcome s ≡ (s, err e)
  unfolding set_password
  set_password-err password uuid now outcome s e h = rw (set_password, h)

  set_password-ok :
      (password : String) (uuid : List ℕ) (now : ℕ) (outcome : WriteOutcome)
      (s : RemoteAdminAuthStore) (hash : String)
      → new_hash lib (trim password) uuid ≡ ok hash
      → set_password lib password uuid now outcome s
        ≡ replace_password lib
            (record { password_hash = hash; updated_at = some (lib.to_rfc3339 now) })
            outcome
            s
  unfolding set_password
  set_password-ok password uuid now outcome s hash h = rw (set_password, h)

  -- Setting a password either puts a hash of the trimmed password in force and in the file and
  -- ends all sessions, or returns an error and changes neither the password nor the sessions.
  pub set_password-IsReplaced_or_IsKept :
      (password : String) (uuid : List ℕ) (now : ℕ) (outcome : WriteOutcome)
      (s : RemoteAdminAuthStore)
      → ((next : StoredRemoteAdminAuth) × IsHashOf password uuid now next
          × IsReplaced next (set_password lib password uuid now outcome s))
        ⊎ IsKept s (set_password lib password uuid now outcome s)
  set_password-IsReplaced_or_IsKept password uuid now outcome s =
      go (new_hash lib (trim password) uuid) refl
    where
      go :
          (r : Result String String)
          → new_hash lib (trim password) uuid ≡ r
          → ((next : StoredRemoteAdminAuth) × IsHashOf password uuid now next
              × IsReplaced next (set_password lib password uuid now outcome s))
            ⊎ IsKept s (set_password lib password uuid now outcome s)
      go (err e) h =
          rw (set_password-err password uuid now outcome s e h) (inr ((e, refl), refl, refl))
      go (ok hash) h =
          let next : StoredRemoteAdminAuth = record {
            password_hash = hash;
            updated_at = some (lib.to_rfc3339 now);
          } in
          let (long, salted) = new_hash-ok (trim password) uuid hash h in
          rw (set_password-ok password uuid now outcome s hash h)
            (elim (replace_password_cases next s (lib.to_string_pretty next) outcome refl) [
              | inl done ↦ inl (next, (long, salted, refl), done)
              | inr kept ↦ inr kept
            ])

  -- With a hash library that verifies what it hashed, a password that was set successfully is
  -- accepted.
  pub set_password-verify_password :
      VerifiesWhatItHashed lib
      → (password : String) (uuid : List ℕ) (now : ℕ) (outcome : WriteOutcome)
        (s : RemoteAdminAuthStore)
      → (set_password lib password uuid now outcome s).1 ≡ ok tt
      → verify_password lib password (set_password lib password uuid now outcome s).0 ≡ ok true
  unfolding verify_password password_configured
  set_password-verify_password law password uuid now outcome s h =
      elim (set_password-IsReplaced_or_IsKept password uuid now outcome s) [
        | inl (next, (long, (salt, salted, hashed), dated), (done, force, gone, stored)) ↦
            let (full, (parsed, parses, verifies)) =
              law (trim password) salt next.password_hash hashed in
            rw (verify_password, password_configured, force, full, parses, verifies)
        | inr ((e, failed), force, gone) ↦ absurd (ground arith)
      ]

  -- With a serializer that reads what it wrote, a store that starts on the file of a successful
  -- change has the same password in force.
  pub set_password-initialize :
      ReadsWhatItWrote lib
      → (password : String) (uuid : List ℕ) (now : ℕ) (outcome restart : WriteOutcome)
        (s : RemoteAdminAuthStore)
      → (set_password lib password uuid now outcome s).1 ≡ ok tt
      → (initialize lib restart
          (new (set_password lib password uuid now outcome s).0.file)).0.persisted
        ≡ (set_password lib password uuid now outcome s).0.persisted
  unfolding initialize
  set_password-initialize law password uuid now outcome restart s h =
      elim (set_password-IsReplaced_or_IsKept password uuid now outcome s) [
        | inl (next, made, (done, force, gone, (text, filed, serialized))) ↦
            rw (initialize, filed, law _ text serialized)
        | inr ((e, failed), force, gone) ↦ absurd (ground arith)
      ]
