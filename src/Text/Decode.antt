-- ===== src/Text/Decode.antt =====
-- `String::from_utf8_lossy`, which the source applies to the bytes of a stream: a sequence that is
-- not well formed becomes U+FFFD, one for each longest part that could have begun a character.
pub mod Laws
use Prim.Native.Nat.{Ordering, compare}
use Prim.Native.Char.{Char, char, IsLt, IsScalar, nul}
use Prim.Native.String.{[], ◌∷◌, ◌++◌}
use ai_open_router.Prelude.{
  ℕ, zero, suc, String, ◌+◌, ◌-◌, ◌*◌, Bool, ◌&&◌, Option, none, some, List, [], ◌∷◌, leb, ltb, eqb,
  if◌then◌else◌, ◌≡◌, refl,
}

-- `IsScalar` by its three comparisons.
abbrev BothLess : Ordering → Ordering → Type 0
BothLess Ordering.lt o = IsLt o
BothLess Ordering.eq _ = ⊥
BothLess Ordering.gt _ = ⊥

abbrev Scalar : Ordering → Ordering → Ordering → Type 0
Scalar Ordering.lt _ _ = Unit
Scalar Ordering.eq o p = BothLess o p
Scalar Ordering.gt o p = BothLess o p

abbrev both_less? : (o p : Ordering) → Option (BothLess o p)
both_less? Ordering.lt Ordering.lt = some tt
both_less? Ordering.lt Ordering.eq = none
both_less? Ordering.lt Ordering.gt = none
both_less? Ordering.eq _ = none
both_less? Ordering.gt _ = none

abbrev scalar? : (o p q : Ordering) → Option (Scalar o p q)
scalar? Ordering.lt _ _ = some tt
scalar? Ordering.eq o p = both_less? o p
scalar? Ordering.gt o p = both_less? o p

abbrev char_of : (n : ℕ) → Option (IsScalar n) → Char
char_of n none = nul
char_of n (some h) = char n h

-- `char::from_u32`, which the ranges below keep from failing.
unfoldable pub from_u32 : ℕ → Char
from_u32 n = char_of n (scalar? (compare n 55296) (compare 57343 n) (compare n 1114112))

-- A character under way: the bytes that it misses, the range of the next one, and its value so far.
pub record Partial : Type 0 where
  pub missing : ℕ
  pub low : ℕ
  pub high : ℕ
  pub value : ℕ

abbrev replacement : String
replacement = "�"

abbrev within : ℕ → ℕ → ℕ → Bool
within low high b = leb low b && leb b high

abbrev await : ℕ → ℕ → ℕ → ℕ → String × Option Partial
await missing low high value =
    ([], some (record { missing = missing; low = low; high = high; value = value }))

-- The first byte of a character.
unfoldable pub first_byte : ℕ → String × Option Partial
unfolding from_u32
first_byte b =
    if ltb b 0x80
    then (from_u32 b ∷ [], none)
    else if within 0xc2 0xdf b
    then await 0 0x80 0xbf (b - 0xc0)
    else if eqb b 0xe0
    then await 1 0xa0 0xbf 0
    else if eqb b 0xed
    then await 1 0x80 0x9f 13
    else if within 0xe1 0xef b
    then await 1 0x80 0xbf (b - 0xe0)
    else if eqb b 0xf0
    then await 2 0x90 0xbf 0
    else if within 0xf1 0xf3 b
    then await 2 0x80 0xbf (b - 0xf0)
    else if eqb b 0xf4
    then await 2 0x80 0x8f 4
    else (replacement, none)

-- A byte of the right range, the last of its character or not.
abbrev accept : ℕ → ℕ → String × Option Partial
accept zero value = (from_u32 value ∷ [], none)
accept (suc missing) value = await missing 0x80 0xbf value

unfoldable pub next_byte : Option Partial → ℕ → String × Option Partial
unfolding from_u32 first_byte
next_byte none b = first_byte b
next_byte (some p) b =
    if within p.low p.high b
    then accept p.missing (p.value * 64 + (b - 0x80))
    else let (out, next) = first_byte b in (replacement ++ out, next)

unfoldable pub decode_from : Option Partial → List ℕ → String
unfolding next_byte
decode_from none [] = []
decode_from (some p) [] = replacement
decode_from state (b ∷ bytes) = let (out, next) = next_byte state b in out ++ decode_from next bytes

unfoldable pub from_utf8_lossy : List ℕ → String
unfolding decode_from
from_utf8_lossy bytes = decode_from none bytes

decodes :
    (from_utf8_lossy (b'a' ∷ 0xc3 ∷ 0xa9 ∷ 0xf0 ∷ 0x9f ∷ 0x98 ∷ 0x80 ∷ []) ≡ "aé😀")
    × (from_utf8_lossy (0xe2 ∷ 0x82 ∷ b'a' ∷ 0xff ∷ 0xc3 ∷ []) ≡ "�a��")
    × (from_utf8_lossy (0xed ∷ 0xa0 ∷ 0x80 ∷ []) ≡ "���")
unfolding from_utf8_lossy
decodes = (refl, refl, refl)
