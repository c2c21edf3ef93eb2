-- ===== src/Auth/Remote/Laws.antt =====
-- Which address decides in auth.rs whether a request is remote.
use ai_open_router.Prelude.{
  ◌⊎◌, ◌↔◌, ◌≢◌, true, false, Option-cases, Bool-cases, inl, inr, arith, eqb_iff, All, none, some,
  String, ◌≡◌, refl, ap, sym, ◌∙◌, true, ◌↔◌, ◌⊎◌, Option, none, some, List, [], ◌∷◌, ◌++◌, ◌>>=◌,
  ◌or_else◌, arith,
}
use mathlib.Core.Option.{some-injective}
use ai_open_router.Text.{is_empty, eq_ignore_ascii_case, contains, trim, strip_prefix, split_on}
use ai_open_router.Routing.Headers.{Header}
use ai_open_router.Auth.Tokens.{header_text}
use ai_open_router.Auth.Remote.{
  IpLibrary, parse_forwarded_ip, part_ip, parts_ip, entries_ip, unquoted, first_part, count_char,
  forwarded_host, forwarded_for_ip, candidates_ip, x_forwarded_for_ip, forwarded_client_ip,
  is_elsewhere, is_remote_request, is_remote_request_with_headers,
}

-- The texts that can name the client, in the order of the headers.
abbrev named_part : Option String → List String → List String
named_part none rest = rest
named_part (some value) rest = value ∷ rest

abbrev named_parts : List String → List String
named_parts [] = []
named_parts (part ∷ parts) = named_part (strip_prefix "for=" (trim part)) (named_parts parts)

abbrev named_entries : List String → List String
named_entries [] = []
named_entries (entry ∷ entries) = named_parts (split_on b';' entry) ++ named_entries entries

abbrev in_forwarded : Option String → List String
in_forwarded none = []
in_forwarded (some text) = named_entries (split_on b',' text)

abbrev in_x_forwarded_for : Option String → List String
in_x_forwarded_for none = []
in_x_forwarded_for (some text) = split_on b',' text

abbrev pub clients : List Header → List String
clients headers =
    in_forwarded (header_text "forwarded" headers)
    ++ in_x_forwarded_for (header_text "x-forwarded-for" headers)

-- The host of a text: what brackets hold, or what stands before a port, or all of it.
abbrev pub IsHost : String → String → Type 0
IsHost text host =
    ((rest : String) × (strip_prefix "[" text ≡ some rest) × (host ≡ first_part b']' rest))
    ⊎ (((strip_prefix "[" text ≡ none)
          × (count_char b':' text ≡ 1)
          × (contains "." text ≡ true)
          × (host ≡ first_part b':' text))
        ⊎ ((strip_prefix "[" text ≡ none)
            × ((count_char b':' text ≢ 1) ⊎ (contains "." text ≡ false))
            × (host ≡ text)))

forwarded_host_iff : (text host : String) → IsHost text host ↔ (host ≡ forwarded_host text)
unfolding forwarded_host
forwarded_host_iff text host = elim (Option-cases (strip_prefix "[" text)) [
  | inl e ↦ ground (arith, e, eqb_iff (count_char b':' text) 1)
  | inr (rest, e) ↦ ground (arith, e)
]

module _ (lib : IpLibrary) where
  open lib use {IpAddr, parse, is_loopback}

  or_else_assoc : (a b c : Option IpAddr) → (a or_else b) or_else c ≡ a or_else (b or_else c)
  or_else_assoc none b c = refl
  or_else_assoc (some ip) b c = refl

  candidates_ip-append :
      (xs ys : List String)
      → candidates_ip lib (xs ++ ys) ≡ candidates_ip lib xs or_else candidates_ip lib ys
  unfolding candidates_ip
  candidates_ip-append [] ys = refl
  candidates_ip-append (x ∷ xs) ys =
      ap (λ o. parse_forwarded_ip lib x or_else o) (candidates_ip-append xs ys)
      ∙ sym (or_else_assoc (parse_forwarded_ip lib x) (candidates_ip lib xs) (candidates_ip lib ys))

  named_part-ip :
      (value : Option String) (rest : List String)
      → candidates_ip lib (named_part value rest)
        ≡ (value >>= λ v. parse_forwarded_ip lib v) or_else candidates_ip lib rest
  unfolding candidates_ip
  named_part-ip none rest = refl
  named_part-ip (some value) rest = refl

  named_parts-ip :
      (parts : List String) → candidates_ip lib (named_parts parts) ≡ parts_ip lib parts
  unfolding candidates_ip parts_ip part_ip
  named_parts-ip [] = refl
  named_parts-ip (part ∷ parts) =
      named_part-ip (strip_prefix "for=" (trim part)) (named_parts parts)
      ∙ ap (λ o. part_ip lib part or_else o) (named_parts-ip parts)

  named_entries-ip :
      (entries : List String) → candidates_ip lib (named_entries entries) ≡ entries_ip lib entries
  unfolding candidates_ip entries_ip
  named_entries-ip [] = refl
  named_entries-ip (entry ∷ entries) =
      candidates_ip-append (named_parts (split_on b';' entry)) (named_entries entries)
      ∙ ap (λ o. o or_else candidates_ip lib (named_entries entries))
          (named_parts-ip (split_on b';' entry))
      ∙ ap (λ o. parts_ip lib (split_on b';' entry) or_else o) (named_entries-ip entries)

  in_forwarded-ip :
      (header : Option String)
      → candidates_ip lib (in_forwarded header)
        ≡ (header >>= λ text. entries_ip lib (split_on b',' text))
  unfolding candidates_ip
  in_forwarded-ip none = refl
  in_forwarded-ip (some text) = named_entries-ip (split_on b',' text)

  in_x_forwarded_for-ip :
      (header : Option String)
      → candidates_ip lib (in_x_forwarded_for header)
        ≡ (header >>= λ text. candidates_ip lib (split_on b',' text))
  unfolding candidates_ip
  in_x_forwarded_for-ip none = refl
  in_x_forwarded_for-ip (some text) = refl

  -- The client is the first of the texts that is an address.
  clients-ip :
      (headers : List Header)
      → candidates_ip lib (clients headers) ≡ forwarded_client_ip lib headers
  unfolding forwarded_client_ip forwarded_for_ip x_forwarded_for_ip
  clients-ip headers =
      let forwarded = header_text "forwarded" headers in
      let more = header_text "x-forwarded-for" headers in
      candidates_ip-append (in_forwarded forwarded) (in_x_forwarded_for more)
      ∙ ap (λ o. o or_else candidates_ip lib (in_x_forwarded_for more)) (in_forwarded-ip forwarded)
      ∙ ap (λ o. forwarded_for_ip lib headers or_else o) (in_x_forwarded_for-ip more)

  -- The address that a text of a header names.
  pub record Names (text : String) (ip : IpAddr) : Type 0 where
    pub not_empty : is_empty (unquoted (trim text)) ≡ false
    pub known : eq_ignore_ascii_case (unquoted (trim text)) "unknown" ≡ false
    pub host : String
    pub host_is : IsHost (unquoted (trim text)) host
    pub parses : parse host ≡ some ip

  parse_forwarded_ip-Names :
      (text : String) (ip : IpAddr) → parse_forwarded_ip lib text ≡ some ip → Names text ip
  unfolding parse_forwarded_ip
  parse_forwarded_ip-Names text ip h =
      let trimmed = unquoted (trim text) in
      record {
        not_empty = ground (arith, h);
        known = ground (arith, h);
        host = forwarded_host trimmed;
        host_is = (forwarded_host_iff trimmed (forwarded_host trimmed)).1 refl;
        parses = ground (arith, h);
      }

  Names-parse_forwarded_ip :
      (text : String) (ip : IpAddr) → Names text ip → parse_forwarded_ip lib text ≡ some ip
  unfolding parse_forwarded_ip
  Names-parse_forwarded_ip text ip h =
      let host = (forwarded_host_iff (unquoted (trim text)) h.host).0 h.host_is in
      rw (parse_forwarded_ip, h.not_empty, h.known) (ap parse (sym host) ∙ h.parses)

  -- A text that names no address.
  abbrev pub IsSilent : String → Type 0
  IsSilent text = (ip : IpAddr) → Names text ip → ⊥

  -- The first text that names an address, with the address.
  pub record IsClient (texts : List String) (ip : IpAddr) : Type 0 where
    pub before : List String
    pub text : String
    pub after : List String
    pub texts_are : texts ≡ before ++ text ∷ after
    pub silent : All IsSilent before
    pub named : Names text ip

  silent-none : (text : String) → IsSilent text → parse_forwarded_ip lib text ≡ none
  silent-none text h = elim (Option-cases (parse_forwarded_ip lib text)) [
    | inl e ↦ e
    | inr (ip, e) ↦ absurd (h ip (parse_forwarded_ip-Names text ip e))
  ]

  candidates_ip-skip :
      (before after : List String) (text : String) (ip : IpAddr)
      → All IsSilent before
      → parse_forwarded_ip lib text ≡ some ip
      → candidates_ip lib (before ++ text ∷ after) ≡ some ip
  unfolding candidates_ip
  candidates_ip-skip [] after text ip h e = rw (candidates_ip, e) refl
  candidates_ip-skip (first ∷ before) after text ip h e =
      rw (candidates_ip, silent-none first h.0) (candidates_ip-skip before after text ip h.1 e)

  candidates_ip-IsClient :
      (texts : List String) (ip : IpAddr) → candidates_ip lib texts ≡ some ip → IsClient texts ip
  unfolding candidates_ip
  candidates_ip-IsClient [] ip h = absurd (ground arith)
  candidates_ip-IsClient (first ∷ texts) ip h = elim (Option-cases (parse_forwarded_ip lib first)) [
    | inl e ↦
        let rest = candidates_ip-IsClient texts ip (rw (candidates_ip, e) at h) in
        record {
          before = first ∷ rest.before;
          text = rest.text;
          after = rest.after;
          texts_are = ap (λ ts. first ∷ ts) rest.texts_are;
          silent = (
            λ other n. absurd (ground (arith, e, Names-parse_forwarded_ip first other n)),
            rest.silent,
          );
          named = rest.named;
        }
    | inr (found, e) ↦
        let same : found ≡ ip = some-injective found ip (rw (candidates_ip, e) at h) in
        record {
          before = [];
          text = first;
          after = texts;
          texts_are = refl;
          silent = tt;
          named = parse_forwarded_ip-Names first ip (e ∙ ap some same);
        }
  ]

  is_elsewhere_iff :
      (address : Option IpAddr)
      → (is_elsewhere lib address ≡ true)
        ↔ ((ip : IpAddr) × (address ≡ some ip) × (is_loopback ip ≡ false))
  is_elsewhere_iff none = (λ h. absurd (ground arith), λ h. absurd (ground (arith, h.1)))
  is_elsewhere_iff (some ip) = (
    λ h. (ip, refl, ground (arith, h)),
    λ h. rw (some-injective ip h.0 h.1) (ground (arith, h.2)),
  )

  clients-elsewhere :
      (headers : List Header)
      → (is_elsewhere lib (forwarded_client_ip lib headers) ≡ true)
        ↔ ((ip : IpAddr) × IsClient (clients headers) ip × (is_loopback ip ≡ false))
  clients-elsewhere headers =
      let (to, from) = is_elsewhere_iff (forwarded_client_ip lib headers) in
      (
        λ h.
            let (ip, found, away) = to h in
            (ip, candidates_ip-IsClient (clients headers) ip (clients-ip headers ∙ found), away),
        λ h.
            let first = h.1 in
            from (
              h.0,
              sym (clients-ip headers)
                  ∙ ap (candidates_ip lib) first.texts_are
                  ∙ candidates_ip-skip first.before first.after first.text h.0 first.silent
                      (Names-parse_forwarded_ip first.text h.0 first.named),
              h.2,
            ),
      )

  -- A request is remote exactly when its socket's address, if there is one, is no loopback
  -- address, or the first address named in Forwarded (its for= parts) and then X-Forwarded-For,
  -- past the texts that name none, is no loopback address.
  pub is_remote_request_with_headers_iff :
      (socket_addr : Option IpAddr) (headers : List Header)
      → (is_remote_request_with_headers lib socket_addr headers ≡ true) ↔ (
          ((ip : IpAddr) × (socket_addr ≡ some ip) × (is_loopback ip ≡ false))
          ⊎ ((ip : IpAddr) × IsClient (clients headers) ip × (is_loopback ip ≡ false)))
  unfolding is_remote_request_with_headers is_remote_request
  is_remote_request_with_headers_iff socket_addr headers =
      let (to, from) = is_elsewhere_iff socket_addr in
      let (client_to, client_from) = clients-elsewhere headers in
      elim (Bool-cases (is_elsewhere lib socket_addr)) [
        | inl e ↦ (λ h. inl (to e), λ h. rw (is_remote_request_with_headers, e) refl)
        | inr e ↦ (
          λ h. inr (client_to (rw (is_remote_request_with_headers, e) at h)),
          λ h.
              rw (is_remote_request_with_headers, e)
                (elim h [
                  | inl near ↦ absurd (ground (arith, e, from near))
                  | inr client ↦ client_from client
                ]),
        )
      ]
