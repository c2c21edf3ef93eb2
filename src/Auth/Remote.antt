-- ===== src/Auth/Remote.antt =====
-- auth.rs: which requests come from another machine.
pub mod Laws
use Prim.Native.Char.{code}
use Prim.Native.String.{[], ◌∷◌}
use ai_open_router.Prelude.{
  ℕ, zero, suc, String, ◌+◌, Bool, true, false, not, ◌&&◌, ◌||◌, Option, none, some, List, [], ◌∷◌,
  ◌++◌, eqb, if◌then◌else◌, ◌>>=◌, ◌or_else◌, get_or,
}
use ai_open_router.Text.{
  is_empty, trim, trim_start_by, trim_end_by, strip_prefix, contains, split_on,
  eq_ignore_ascii_case,
}
use ai_open_router.Routing.Headers.{Header}
use ai_open_router.Auth.Tokens.{header_text}

-- What the source uses of `std::net::IpAddr`.
pub record IpLibrary : Type 1 where
  pub IpAddr : Type 0
  pub parse : String → Option IpAddr
  pub is_loopback : IpAddr → Bool

-- `matches(c).count()`.
unfoldable pub count_char : ℕ → String → ℕ
count_char sep [] = 0
count_char sep (c ∷ s) = if eqb (code c) sep then suc (count_char sep s) else count_char sep s

-- `split(c).next()`.
abbrev pub first_part : ℕ → String → String
first_part sep s = first_of (split_on sep s)
  where
    first_of : List String → String
    first_of [] = s
    first_of (part ∷ parts) = part

-- The host of an address that may have brackets or a port.
unfoldable pub forwarded_host : String → String
unfolding strip_prefix split_on contains count_char
forwarded_host trimmed = elim (strip_prefix "[" trimmed) [
  | some stripped ↦ first_part 93 stripped
  | none ↦
      if eqb (count_char 58 trimmed) 1 && contains "." trimmed
      then first_part 58 trimmed
      else trimmed
]

-- `trim_matches('"')`.
abbrev pub unquoted : String → String
unquoted s = trim_end_by (eqb 34) (trim_start_by (eqb 34) s)

module _ (lib : IpLibrary) where
  open lib use {IpAddr, parse, is_loopback}

  unfoldable pub parse_forwarded_ip : String → Option IpAddr
  unfolding trim trim_start_by trim_end_by eq_ignore_ascii_case forwarded_host
  parse_forwarded_ip raw =
      let trimmed = unquoted (trim raw) in
      if is_empty trimmed || eq_ignore_ascii_case trimmed "unknown"
      then none
      else parse (forwarded_host trimmed)

  -- A part of an entry of `Forwarded`.
  unfoldable pub part_ip : String → Option IpAddr
  unfolding trim strip_prefix parse_forwarded_ip
  part_ip part = strip_prefix "for=" (trim part) >>= λ value. parse_forwarded_ip value

  unfoldable pub parts_ip : List String → Option IpAddr
  unfolding part_ip
  parts_ip [] = none
  parts_ip (part ∷ parts) = part_ip part or_else parts_ip parts

  -- The loop over the entries of `Forwarded`.
  unfoldable pub entries_ip : List String → Option IpAddr
  unfolding parts_ip split_on
  entries_ip [] = none
  entries_ip (entry ∷ entries) = parts_ip (split_on b';' entry) or_else entries_ip entries

  unfoldable pub forwarded_for_ip : List Header → Option IpAddr
  unfolding header_text split_on entries_ip
  forwarded_for_ip headers =
      header_text "forwarded" headers >>= λ forwarded. entries_ip (split_on b',' forwarded)

  -- The loop over the addresses of `X-Forwarded-For`.
  unfoldable pub candidates_ip : List String → Option IpAddr
  unfolding parse_forwarded_ip
  candidates_ip [] = none
  candidates_ip (candidate ∷ rest) = parse_forwarded_ip candidate or_else candidates_ip rest

  unfoldable pub x_forwarded_for_ip : List Header → Option IpAddr
  unfolding header_text split_on candidates_ip
  x_forwarded_for_ip headers = header_text "x-forwarded-for" headers >>= λ forwarded_for.
      candidates_ip (split_on b',' forwarded_for)

  unfoldable pub forwarded_client_ip : List Header → Option IpAddr
  unfolding forwarded_for_ip x_forwarded_for_ip
  forwarded_client_ip headers = forwarded_for_ip headers or_else x_forwarded_for_ip headers

  abbrev pub is_elsewhere : Option IpAddr → Bool
  is_elsewhere none = false
  is_elsewhere (some ip) = not (is_loopback ip)

  -- The address of the socket, if there is one.
  unfoldable pub is_remote_request : Option IpAddr → Bool
  is_remote_request socket_addr = is_elsewhere socket_addr

  unfoldable pub is_remote_request_with_headers : Option IpAddr → List Header → Bool
  unfolding is_remote_request forwarded_client_ip
  is_remote_request_with_headers socket_addr headers =
      if is_remote_request socket_addr then true else is_elsewhere (forwarded_client_ip headers)
