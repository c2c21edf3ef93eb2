-- ===== src/Text/Trim.antt =====
-- `str::is_empty`, `trim`, `trim_start_matches` and `trim_end_matches`, which the source applies to
-- tokens, headers and identifiers.
use Prim.Native.Char.{Char, code}
use Prim.Native.String.{String, [], ◌∷◌}
use ai_open_router.Prelude.{
  ℕ, ◌≡◌, refl, Bool, true, false, ◌&&◌, ◌||◌, arith, leb, eqb, if◌then◌else◌, Bool-cases, inl, inr,
}

-- `char::is_whitespace`: the code points with the property White_Space.
unfoldable pub is_whitespace : ℕ → Bool
is_whitespace c =
    leb 9 c && leb c 13
    || eqb c 32
    || eqb c 0x85
    || eqb c 0xa0
    || eqb c 0x1680
    || leb 0x2000 c && leb c 0x200a
    || eqb c 0x2028
    || eqb c 0x2029
    || eqb c 0x202f
    || eqb c 0x205f
    || eqb c 0x3000

-- `str::is_empty`.
abbrev pub is_empty : String → Bool
is_empty [] = true
is_empty (c ∷ s) = false

-- `str::trim_start_matches` with a predicate on characters.
unfoldable pub trim_start_by : (ℕ → Bool) → String → String
trim_start_by p [] = []
trim_start_by p (c ∷ s) = if p (code c) then trim_start_by p s else c ∷ s

-- `str::trim_end_matches` with a predicate on characters.
unfoldable pub trim_end_by : (ℕ → Bool) → String → String
trim_end_by p [] = []
trim_end_by p (c ∷ s) =
    let rest = trim_end_by p s in if is_empty rest && p (code c) then [] else c ∷ rest

-- `str::trim`.
unfoldable pub trim : String → String
unfolding is_whitespace trim_start_by trim_end_by
trim s = trim_end_by is_whitespace (trim_start_by is_whitespace s)

-- `s.trim().is_empty()`.
unfoldable pub is_blank : String → Bool
unfolding trim
is_blank s = is_empty (trim s)

module _ (p : ℕ → Bool) where
  -- The first character, if there is one, is not in the set.
  abbrev pub IsStartTrimmed : String → Type 0
  IsStartTrimmed [] = Unit
  IsStartTrimmed (c ∷ s) = p (code c) ≡ false

  -- Nor is the last one.
  abbrev pub IsEndTrimmed : String → Type 0
  IsEndTrimmed [] = Unit
  IsEndTrimmed (c ∷ []) = p (code c) ≡ false
  IsEndTrimmed (c ∷ d ∷ s) = IsEndTrimmed (d ∷ s)

  pub trim_start_by-IsStartTrimmed : (s : String) → IsStartTrimmed (trim_start_by p s)
  unfolding trim_start_by
  trim_start_by-IsStartTrimmed [] = tt
  trim_start_by-IsStartTrimmed (c ∷ s) = ground (arith, trim_start_by-IsStartTrimmed s)

  pub trim_start_by_of_IsStartTrimmed : (s : String) → IsStartTrimmed s → trim_start_by p s ≡ s
  unfolding trim_start_by
  trim_start_by_of_IsStartTrimmed [] h = refl
  trim_start_by_of_IsStartTrimmed (c ∷ s) h = rw h

  IsEndTrimmed-cons :
      (c : Char) (s : String)
      → IsEndTrimmed s
      → (is_empty s && p (code c)) ≡ false
      → IsEndTrimmed (c ∷ s)
  IsEndTrimmed-cons c [] h k = k
  IsEndTrimmed-cons c (d ∷ s) h k = h

  pub trim_end_by-IsEndTrimmed : (s : String) → IsEndTrimmed (trim_end_by p s)
  unfolding trim_end_by
  trim_end_by-IsEndTrimmed [] = tt
  trim_end_by-IsEndTrimmed (c ∷ s) = elim (Bool-cases (is_empty (trim_end_by p s) && p (code c))) [
    | inl e ↦ rw e tt
    | inr e ↦ rw e (IsEndTrimmed-cons c (trim_end_by p s) (trim_end_by-IsEndTrimmed s) e)
  ]

  pub trim_end_by_of_IsEndTrimmed : (s : String) → IsEndTrimmed s → trim_end_by p s ≡ s
  unfolding trim_end_by
  trim_end_by_of_IsEndTrimmed [] h = refl
  trim_end_by_of_IsEndTrimmed (c ∷ []) h = rw h
  trim_end_by_of_IsEndTrimmed (c ∷ d ∷ s) h = ground (arith, trim_end_by_of_IsEndTrimmed (d ∷ s) h)

  trim_end_by-keeps_start : (s : String) → IsStartTrimmed s → IsStartTrimmed (trim_end_by p s)
  unfolding trim_end_by
  trim_end_by-keeps_start [] h = tt
  trim_end_by-keeps_start (c ∷ s) h = ground arith

-- Trimming twice is trimming once.
pub trim_idem : (s : String) → trim (trim s) ≡ trim s
unfolding trim
trim_idem s =
    let inner = trim_start_by is_whitespace s in
    let start =
      trim_end_by-keeps_start is_whitespace inner (trim_start_by-IsStartTrimmed is_whitespace s) in
    rw (trim_start_by_of_IsStartTrimmed is_whitespace (trim_end_by is_whitespace inner) start) (
      trim_end_by_of_IsEndTrimmed is_whitespace (trim_end_by is_whitespace inner)
        (trim_end_by-IsEndTrimmed is_whitespace inner))

trims : trim " \t key\u{3000}\n" ≡ "key"
unfolding trim
trims = refl
