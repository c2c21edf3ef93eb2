-- ===== src/Text/Decode/Laws.antt =====
-- Decoding bytes in parts.
use Prim.Native.String.{[], ◌∷◌, ◌++◌}
use text.Mathlib.TextLemmas.{append_assoc, nil-append}
use ai_open_router.Prelude.{
  ℕ, ◌≡◌, sym, ap, ◌∙◌, Option, none, some, List, [], ◌∷◌, ◌++◌ as append, arith,
}
use ai_open_router.Text.Decode.{Partial, next_byte, decode_from, from_utf8_lossy}

-- The character that is under way after the bytes.
unfoldable pub state_after : Option Partial → List ℕ → Option Partial
state_after state [] = state
state_after state (b ∷ bytes) = state_after (next_byte state b).1 bytes

-- The bytes do not end in the middle of a character.
abbrev pub IsWhole : List ℕ → Type 0
IsWhole bytes = state_after none bytes ≡ none

decode_from-append :
    (state : Option Partial) (a b : List ℕ)
    → state_after state a ≡ none
    → decode_from state (append a b) ≡ decode_from state a ++ decode_from none b
unfolding decode_from state_after
decode_from-append none [] b h = sym (nil-append (decode_from none b))
decode_from-append (some p) [] b h = absurd (ground arith)
decode_from-append none (x ∷ a) b h =
    let (out, next) = next_byte none x in
    ap (λ s. out ++ s) (decode_from-append next a b h)
    ∙ sym (append_assoc out (decode_from next a) (decode_from none b))
decode_from-append (some p) (x ∷ a) b h =
    let (out, next) = next_byte (some p) x in
    ap (λ s. out ++ s) (decode_from-append next a b h)
    ∙ sym (append_assoc out (decode_from next a) (decode_from none b))

-- Bytes that are cut between two characters decode in two parts.
pub from_utf8_lossy-append :
    (a b : List ℕ)
    → IsWhole a
    → from_utf8_lossy (append a b) ≡ from_utf8_lossy a ++ from_utf8_lossy b
unfolding from_utf8_lossy
from_utf8_lossy-append a b h = decode_from-append none a b h
