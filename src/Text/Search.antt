-- ===== src/Text/Search.antt =====
-- `strip_prefix`, `starts_with`, `contains`, `split`, `split_once` and the ASCII case methods.
use Prim.Native.Char.{Char, code}
use Prim.Native.String.{String, [], ◌∷◌, char_at, ◌++◌, len}
use text.Mathlib.Text.{◌==◌}
use text.Mathlib.TextEquality.{Char-path}
use text.Mathlib.TextLemmas.{nil-append, cons-append, append-nil}
use text.Mathlib.TextPositions.{len-append}
use mathlib.Core.List.{List, [], ◌∷◌}
use ai_open_router.Prelude.{
  ℕ, ◌-◌, ◌≡◌, refl, ap, subst, Bool, true, false, ◌&&◌, ◌||◌, Option, none, some, arith, leb, eqb,
  if◌then◌else◌, Bool-cases, Option-cases, inl, inr, is_some, eqb_iff, ◌≤◌,
}

-- `str::strip_prefix`: what follows the prefix.
unfoldable pub strip_prefix : String → String → Option String
strip_prefix [] s = some s
strip_prefix (c ∷ p) [] = none
strip_prefix (c ∷ p) (d ∷ s) = if eqb (code c) (code d) then strip_prefix p s else none

-- `s.starts_with(p)`, the prefix first.
unfoldable pub starts_with : String → String → Bool
unfolding strip_prefix
starts_with p s = is_some (strip_prefix p s)

-- `s.contains(p)`, the part first.
unfoldable pub contains : String → String → Bool
unfolding starts_with
contains p [] = starts_with p []
contains p (c ∷ s) = starts_with p (c ∷ s) || contains p s

-- Puts a character before the first part.
abbrev pub push_head : Char → List String → List String
push_head c [] = (c ∷ []) ∷ []
push_head c (part ∷ parts) = (c ∷ part) ∷ parts

-- `str::split` at a character: never empty, and the parts hold no such character.
unfoldable pub split_on : ℕ → String → List String
split_on sep [] = [] ∷ []
split_on sep (c ∷ s) =
    let rest = split_on sep s in if eqb (code c) sep then [] ∷ rest else push_head c rest

-- Puts a character before the part in front of the separator.
abbrev push_first : Char → Option (String × String) → Option (String × String)
push_first c none = none
push_first c (some (a, b)) = some (c ∷ a, b)

-- `str::split_once` at a character.
unfoldable pub split_once : ℕ → String → Option (String × String)
split_once sep [] = none
split_once sep (c ∷ s) =
    let rest = split_once sep s in if eqb (code c) sep then some ([], s) else push_first c rest

-- `u8::to_ascii_lowercase` on one character.
unfoldable pub lower : Char → Char
lower c =
    if leb b'A' (code c) && leb (code c) b'Z'
    then char_at "abcdefghijklmnopqrstuvwxyz" (code c - b'A')
    else c

-- `str::to_ascii_lowercase`.
unfoldable pub to_ascii_lowercase : String → String
unfolding lower
to_ascii_lowercase [] = []
to_ascii_lowercase (c ∷ s) = lower c ∷ to_ascii_lowercase s

-- `str::eq_ignore_ascii_case`.
unfoldable pub eq_ignore_ascii_case : String → String → Bool
unfolding to_ascii_lowercase
eq_ignore_ascii_case a b = to_ascii_lowercase a == to_ascii_lowercase b

pub strip_prefix-append : (p s : String) → strip_prefix p (p ++ s) ≡ some s
unfolding strip_prefix
strip_prefix-append [] s = rw nil-append
strip_prefix-append (c ∷ p) s = rw cons-append (ground (arith, strip_prefix-append p s))

-- What is stripped and what is left make up the text.
pub strip_prefix_sound : (p s r : String) → strip_prefix p s ≡ some r → s ≡ p ++ r
unfolding strip_prefix
strip_prefix_sound [] s r h = rw nil-append (ground arith)
strip_prefix_sound (c ∷ p) [] r h = cc
strip_prefix_sound (c ∷ p) (d ∷ s) r h = elim (Bool-cases (eqb (code c) (code d))) [
  | inl e ↦
      let same = Char-path c d ((eqb_iff (code c) (code d)).0 e) in
      rw (cons-append, same) (ap (◌∷◌ d) (strip_prefix_sound p s r (ground arith)))
  | inr e ↦ ground arith
]

pub starts_with-append : (p s : String) → starts_with p (p ++ s) ≡ true
unfolding starts_with
starts_with-append p s = rw (strip_prefix-append p s)

pub starts_with_sound : (p s : String) → starts_with p s ≡ true → (r : String) × (s ≡ p ++ r)
unfolding starts_with
starts_with_sound p s h = elim (Option-cases (strip_prefix p s)) [
  | inl e ↦ absurd (ground arith)
  | inr (r, e) ↦ (r, strip_prefix_sound p s r e)
]

contains_of_starts_with : (p s : String) → starts_with p s ≡ true → contains p s ≡ true
unfolding contains
contains_of_starts_with p [] h = h
contains_of_starts_with p (c ∷ s) h = rw h

-- A text that is cut in three around a part contains the part.
pub contains-append : (a p b : String) → contains p (a ++ (p ++ b)) ≡ true
unfolding contains
contains-append [] p b = rw nil-append (contains_of_starts_with p (p ++ b) (starts_with-append p b))
contains-append (c ∷ a) p b = rw cons-append (ground (arith, contains-append a p b))

-- A text that contains a part is cut in three around it.
pub contains_sound :
    (p s : String) → contains p s ≡ true → (a : String) × (b : String) × (s ≡ a ++ (p ++ b))
unfolding contains
contains_sound p [] h = let (r, e) = starts_with_sound p [] h in ([], r, rw nil-append e)
contains_sound p (c ∷ s) h = elim (Bool-cases (starts_with p (c ∷ s))) [
  | inl here ↦ let (r, e) = starts_with_sound p (c ∷ s) here in ([], r, rw nil-append e)
  | inr later ↦
      let (a, b, e) = contains_sound p s (ground arith) in (c ∷ a, b, rw cons-append (ap (◌∷◌ c) e))
]

pub contains_self : (s : String) → contains s s ≡ true
contains_self s =
    contains_of_starts_with s s
      (subst (λ t. starts_with s t ≡ true) (append-nil s) (starts_with-append s []))

-- A contained text is not longer, in bytes.
pub len_of_contains : (p s : String) → contains p s ≡ true → len p ≤ len s
len_of_contains p s h =
    let (a, b, e) = contains_sound p s h in
    omega (arith, ap len e, len-append a (p ++ b), len-append p b)

searches :
    (contains "claude" "anthropic/claude-3" ≡ true)
    × (contains "gpt" "claude" ≡ false)
    × (split_on b';' "a=1; b" ≡ ("a=1" ∷ " b" ∷ []))
    × (split_once b'=' "k=v=w" ≡ some ("k", "v=w"))
    × (to_ascii_lowercase "X-Api-Key" ≡ "x-api-key")
unfolding contains split_on split_once to_ascii_lowercase
searches = (refl, refl, refl, refl, refl)
