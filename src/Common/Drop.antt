-- ===== src/Common/Drop.antt =====
-- `xs[n:]`: its places, its length, and slices of slices.
use Prim.Native.Nat.{ℕ, zero, suc, ◌+◌, ◌≤◌}
use mathlib.Core.Path.{◌≡◌, refl, sym, ap, ◌∙◌}
use mathlib.Core.List.{List, [], ◌∷◌}
use native.Mathlib.Omega.{arith}
use rom_analyzer.Common.Lists.{length, get_elem?, drop}

module _ {A : Type 0} where
  drop-nil : (n : ℕ) → drop {A = A} n [] ≡ []
  drop-nil zero = refl
  drop-nil (suc n) = refl

  pub get_elem?-drop : (xs : List A) (n i : ℕ) → get_elem? (drop n xs) i ≡ get_elem? xs (n + i)
  get_elem?-drop xs zero i = ap (get_elem? xs) (omega arith)
  get_elem?-drop [] (suc n) i = refl
  get_elem?-drop (x ∷ xs) (suc n) i =
      let e : suc (n + i) ≡ suc n + i = omega arith in
      get_elem?-drop xs n i ∙ ap (get_elem? (x ∷ xs)) e

  pub length-drop : (xs : List A) (n : ℕ) → n ≤ length xs → length (drop n xs) + n ≡ length xs
  length-drop xs zero h = omega arith
  length-drop [] (suc n) h = absurd (omega arith)
  length-drop (x ∷ xs) (suc n) h = omega (arith, length-drop xs n (omega arith))

  pub drop_twice : (xs : List A) (n m : ℕ) → drop m (drop n xs) ≡ drop (n + m) xs
  drop_twice xs zero m = ap (λ t. drop t xs) (omega arith)
  drop_twice [] (suc n) m = drop-nil m ∙ sym (drop-nil (suc n + m))
  drop_twice (x ∷ xs) (suc n) m =
      let e : suc (n + m) ≡ suc n + m = omega arith in
      drop_twice xs n m ∙ ap (λ t. drop t (x ∷ xs)) e
