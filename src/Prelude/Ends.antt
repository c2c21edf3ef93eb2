-- ===== src/Prelude/Ends.antt =====
-- The last elements of a list.
use mathlib.Core.List.{List, [], ◌∷◌, reverse, reverse-reverse, reverse-cons}
use mathlib.Core.Path.{◌≡◌, refl, sym}
use mathlib.Core.Logic.{inl, inr}
use Prim.Native.Nat.{ℕ, zero, suc, ◌-◌, ◌≤◌}
use native.Mathlib.Omega.{arith}
use ai_open_router.Prelude.Tests.{Bool-cases, leb, leb_iff}
use ai_open_router.Prelude.Takes.{take-full, take_of_length}
use ai_open_router.Prelude.Lists.{length, length-append, drop, drop-nil, take}

module _ {ℓ} {A : Type ℓ} where
  pub length-reverse : (xs : List A) → length (reverse xs) ≡ length xs
  length-reverse [] = refl
  length-reverse (x ∷ xs) =
      rw reverse-cons (omega (arith, length-append (reverse xs) (x ∷ []), length-reverse xs))

  -- The last `n` elements, taken from the back.
  pub reverse-take-reverse :
      (n : ℕ) (xs : List A) → reverse (take n (reverse xs)) ≡ drop (length xs - n) xs
  reverse-take-reverse zero [] = refl
  reverse-take-reverse (suc n) [] = sym (drop-nil _)
  reverse-take-reverse n (x ∷ xs) = elim (Bool-cases (leb n (length xs))) [
    | inl short ↦
        let h : n ≤ length xs = (leb_iff _ _).0 short in
        let e : suc (length xs) - n ≡ suc (length xs - n) = omega arith in
        rw (e, reverse-cons, take-full n (reverse xs) (x ∷ []) (rw length-reverse h))
          (reverse-take-reverse n xs)
    | inr long ↦
        let h : suc (length xs) ≤ n = ground arith in
        let e : suc (length xs) - n ≡ 0 = omega arith in
        rw (e, take_of_length n (reverse (x ∷ xs)) (rw length-reverse h)) (reverse-reverse (x ∷ xs))
  ]
