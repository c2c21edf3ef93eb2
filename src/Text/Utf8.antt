-- ===== src/Text/Utf8.antt =====
-- `str::as_bytes`: the UTF-8 form of a text, and the byte tests of the source.
use Prim.Native.Char.{code}
use Prim.Native.String.{[], ◌∷◌}
use ai_open_router.Prelude.{
  ℕ, String, ◌+◌, ◌/◌, ◌%◌, Bool, ◌&&◌, List, [], ◌∷◌, ◌++◌, ltb, leb, if◌then◌else◌, ◌≡◌, refl,
}

unfoldable pub encode_utf8 : ℕ → List ℕ
encode_utf8 c =
    if ltb c 0x80
    then c ∷ []
    else if ltb c 0x800
    then (0xc0 + c / 64) ∷ (0x80 + c % 64) ∷ []
    else if ltb c 0x10000
    then (0xe0 + c / 4096) ∷ (0x80 + c / 64 % 64) ∷ (0x80 + c % 64) ∷ []
    else (0xf0 + c / 262144) ∷ (0x80 + c / 4096 % 64) ∷ (0x80 + c / 64 % 64) ∷ (0x80 + c % 64) ∷ []

unfoldable pub as_bytes : String → List ℕ
unfolding encode_utf8
as_bytes [] = []
as_bytes (c ∷ s) = encode_utf8 (code c) ++ as_bytes s

-- `u8::is_ascii_digit`.
abbrev pub is_ascii_digit : ℕ → Bool
is_ascii_digit b = leb b'0' b && leb b b'9'

encodes : as_bytes "aé" ≡ b'a' ∷ 0xc3 ∷ 0xa9 ∷ []
unfolding as_bytes
encodes = refl
