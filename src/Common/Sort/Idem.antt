-- ===== src/Common/Sort/Idem.antt =====
-- A list that is sorted stays as it is.
use mathlib.Core.Path.{◌≡◌, refl, ap, ◌∙◌}
use mathlib.Core.Bool.{Bool, true}
use mathlib.Core.List.{List, [], ◌∷◌}
use native.Mathlib.Omega.{arith}
use rom_analyzer.Common.Lists.{All}
use rom_analyzer.Common.Sort.{insert, sort, IsSorted}

module _ {A : Type 0} (le : A → A → Bool) where
  insert_least : (x : A) (xs : List A) → All (λ a. le x a ≡ true) xs → insert le x xs ≡ x ∷ xs
  unfolding insert
  insert_least x [] h = refl
  insert_least x (y ∷ ys) h = ground (arith, h.0)

  pub sort_sorted : (xs : List A) → IsSorted le xs → sort le xs ≡ xs
  unfolding sort
  sort_sorted [] h = refl
  sort_sorted (x ∷ xs) h = ap (insert le x) (sort_sorted xs h.1) ∙ insert_least x xs h.0
