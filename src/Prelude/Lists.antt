-- ===== src/Prelude/Lists.antt =====
-- Lists measured by native numbers, and the Boolean traversals of the source's iterators.
use Prim.Native.Nat.{ℕ, zero, suc, ◌+◌, ◌-◌}
use mathlib.Core.Path.{◌≡◌, refl}
use mathlib.Core.Logic.{◌⊎◌, inl, inr}
use mathlib.Core.Bool.{Bool, true, false, ◌||◌}
use mathlib.Core.Option.{Option, none, some}
use mathlib.Core.List.{List, [], ◌∷◌, ◌++◌}
use native.Mathlib.Omega.{arith}
use ai_open_router.Prelude.Tests.{if◌then◌else◌, Bool-cases, is_some}

-- The empty type at a level.
pub data Absent {ℓ} : Type ℓ where

pub Absent-elim {ℓ} : Absent {ℓ} → ⊥
Absent-elim a = elim a [ ]

module _ {ℓ} {A : Type ℓ} where
  abbrev pub length : List A → ℕ
  length [] = 0
  length (x ∷ xs) = suc (length xs)

  pub length-append : (xs ys : List A) → length (xs ++ ys) ≡ length xs + length ys
  length-append [] ys = omega arith
  length-append (x ∷ xs) ys = omega (arith, length-append xs ys)

  abbrev pub drop : ℕ → List A → List A
  drop zero xs = xs
  drop (suc n) [] = []
  drop (suc n) (x ∷ xs) = drop n xs

  abbrev pub take : ℕ → List A → List A
  take zero xs = []
  take (suc n) [] = []
  take (suc n) (x ∷ xs) = x ∷ take n xs

  pub length-drop : (n : ℕ) (xs : List A) → length (drop n xs) ≡ length xs - n
  length-drop zero xs = omega arith
  length-drop (suc n) [] = omega arith
  length-drop (suc n) (x ∷ xs) = omega (arith, length-drop n xs)

  pub drop-nil : (n : ℕ) → drop n [] ≡ []
  drop-nil zero = refl
  drop-nil (suc n) = refl

  -- `Vec::is_empty`.
  abbrev pub is_nil : List A → Bool
  is_nil [] = true
  is_nil (x ∷ xs) = false

  -- `Iterator::any`.
  unfoldable pub any : (A → Bool) → List A → Bool
  any p [] = false
  any p (x ∷ xs) = p x || any p xs

  -- `Iterator::find`.
  unfoldable pub find? : (A → Bool) → List A → Option A
  find? p [] = none
  find? p (x ∷ xs) = if p x then some x else find? p xs

  -- `Vec::retain`, and `filter` on an iterator.
  unfoldable pub retain : (A → Bool) → List A → List A
  retain p [] = []
  retain p (x ∷ xs) = if p x then x ∷ retain p xs else retain p xs

  abbrev pub All {κ} : (A → Type κ) → List A → Type κ
  All P [] = Unit
  All P (x ∷ xs) = P x × All P xs

  pub All-map {κ μ} :
      (P : A → Type κ) (Q : A → Type μ) (xs : List A) → ((a : A) → P a → Q a) → All P xs → All Q xs
  All-map P Q [] f h = tt
  All-map P Q (x ∷ xs) f h = (f x h.0, All-map P Q xs f h.1)

  pub All-append {κ} : (P : A → Type κ) (xs ys : List A) → All P xs → All P ys → All P (xs ++ ys)
  All-append P [] ys h k = k
  All-append P (x ∷ xs) ys h k = (h.0, All-append P xs ys h.1 k)

  pub All-middle {κ} :
      (P : A → Type κ) (xs : List A) (y : A) (ys : List A)
      → All P (xs ++ y ∷ ys)
      → All P xs × P y × All P ys
  All-middle P [] y ys h = (tt, h.0, h.1)
  All-middle P (x ∷ xs) y ys h =
      let (front, here, back) = All-middle P xs y ys h.1 in ((h.0, front), here, back)

  -- `a` stands in the list. It computes, so that tactics take it apart.
  abbrev pub Occurs : A → List A → Type ℓ
  Occurs a [] = Absent
  Occurs a (x ∷ xs) = (a ≡ x) ⊎ Occurs a xs

  pub All-Occurs {κ} : (P : A → Type κ) (xs : List A) (a : A) → All P xs → Occurs a xs → P a
  All-Occurs P [] a h m = elim m [ ]
  All-Occurs P (x ∷ xs) a h (inl e) = rw e h.0
  All-Occurs P (x ∷ xs) a h (inr m) = All-Occurs P xs a h.1 m

  pub All_of_Occurs {κ} : (P : A → Type κ) (xs : List A) → ((a : A) → Occurs a xs → P a) → All P xs
  All_of_Occurs P [] f = tt
  All_of_Occurs P (x ∷ xs) f = (f x (inl refl), All_of_Occurs P xs (λ a m. f a (inr m)))

  pub Occurs-append_left : (xs ys : List A) (a : A) → Occurs a xs → Occurs a (xs ++ ys)
  Occurs-append_left [] ys a m = elim m [ ]
  Occurs-append_left (x ∷ xs) ys a (inl e) = inl e
  Occurs-append_left (x ∷ xs) ys a (inr m) = inr (Occurs-append_left xs ys a m)

  pub Occurs-append_right : (xs ys : List A) (a : A) → Occurs a ys → Occurs a (xs ++ ys)
  Occurs-append_right [] ys a m = m
  Occurs-append_right (x ∷ xs) ys a m = inr (Occurs-append_right xs ys a m)

module _ {ℓ} {A : Type ℓ} (p : A → Bool) where
  -- What `find` returns is listed, and passes the test.
  pub find?_sound : (xs : List A) (a : A) → find? p xs ≡ some a → Occurs a xs × (p a ≡ true)
  unfolding find?
  find?_sound [] a h = cc
  find?_sound (x ∷ xs) a h = elim (Bool-cases (p x)) [
    | inl hit ↦ ground arith
    | inr miss ↦ let (m, e) = find?_sound xs a (rw miss at h) in (inr m, e)
  ]

  -- It misses exactly when no element passes.
  pub find?-none : (xs : List A) → find? p xs ≡ none → All (λ a. p a ≡ false) xs
  unfolding find?
  find?-none [] h = tt
  find?-none (x ∷ xs) h = elim (Bool-cases (p x)) [
    | inl hit ↦ ground arith
    | inr miss ↦ (miss, find?-none xs (rw miss at h))
  ]

  pub find?-any : (xs : List A) → is_some (find? p xs) ≡ any p xs
  unfolding find? any
  find?-any [] = refl
  find?-any (x ∷ xs) = ground (arith, find?-any xs)

  pub retain_sound : (xs : List A) (a : A) → Occurs a (retain p xs) → Occurs a xs × (p a ≡ true)
  unfolding retain
  retain_sound [] a m = elim m [ ]
  retain_sound (x ∷ xs) a m =
      let ih = retain_sound xs a in
      elim (Bool-cases (p x)) [
        | inl hit ↦ elim (rw hit at m) [
          | inl e ↦ (inl e, rw e hit)
          | inr n ↦ (inr (ih n).0, (ih n).1)
        ]
        | inr miss ↦ let n = rw miss at m in (inr (ih n).0, (ih n).1)
      ]

  pub retain_complete : (xs : List A) (a : A) → Occurs a xs → p a ≡ true → Occurs a (retain p xs)
  unfolding retain
  retain_complete [] a m h = elim m [ ]
  retain_complete (x ∷ xs) a (inl e) h = ground arith
  retain_complete (x ∷ xs) a (inr m) h = elim (Bool-cases (p x)) [
    | inl hit ↦ rw hit (inr (retain_complete xs a m h))
    | inr miss ↦ rw miss (retain_complete xs a m h)
  ]

  pub retain-All : (xs : List A) → All (λ a. p a ≡ true) (retain p xs)
  unfolding retain
  retain-All [] = tt
  retain-All (x ∷ xs) = ground (arith, retain-All xs)

  pub retain_of_All : (xs : List A) → All (λ a. p a ≡ true) xs → retain p xs ≡ xs
  unfolding retain
  retain_of_All [] h = refl
  retain_of_All (x ∷ xs) h = ground (arith, retain_of_All xs h.1)
