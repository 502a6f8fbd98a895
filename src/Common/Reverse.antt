-- ===== src/Common/Reverse.antt =====
-- `reversed`: the list read from its end.
use Prim.Native.Nat.{◌+◌}
use mathlib.Core.Path.{◌≡◌, refl, ◌∙◌}
use mathlib.Core.Logic.{◌↔◌, ◌⊎◌, inl, inr}
use mathlib.Core.List.{List, [], ◌∷◌, ◌++◌, reverse, reverse_aux, append-nil}
use native.Mathlib.Omega.{arith}
use rom_analyzer.Common.Lists.{length, In}

module _ {A : Type 0} where
  reverse_aux_twice :
      (xs ys zs : List A) → reverse_aux (reverse_aux xs ys) zs ≡ reverse_aux ys (xs ++ zs)
  reverse_aux_twice [] ys zs = refl
  reverse_aux_twice (x ∷ xs) ys zs = reverse_aux_twice xs (x ∷ ys) zs

  pub reverse_twice : (xs : List A) → reverse (reverse xs) ≡ xs
  reverse_twice xs = reverse_aux_twice xs [] [] ∙ append-nil xs

  length-reverse_aux : (xs ys : List A) → length (reverse_aux xs ys) ≡ length xs + length ys
  length-reverse_aux [] ys = omega arith
  length-reverse_aux (x ∷ xs) ys = omega (arith, length-reverse_aux xs (x ∷ ys))

  pub length-reverse : (xs : List A) → length (reverse xs) ≡ length xs
  length-reverse xs = omega (arith, length-reverse_aux xs [])

  In-reverse_aux : (a : A) (xs ys : List A) → In a (reverse_aux xs ys) ↔ (In a xs ⊎ In a ys)
  In-reverse_aux a [] ys = (inr, λ h. elim h [ inl m ↦ absurd m | inr n ↦ n ])
  In-reverse_aux a (x ∷ xs) ys = ground (arith, In-reverse_aux a xs (x ∷ ys))

  pub In-reverse : (a : A) (xs : List A) → In a (reverse xs) ↔ In a xs
  In-reverse a xs = ground (arith, In-reverse_aux a xs [])
