-- ===== src/Common/Sets.antt =====
-- Python's `set` as a list of its members, each of which stands in it once; the order is not observed.
use mathlib.Core.Logic.{◌↔◌}
use mathlib.Core.Bool.{not}
use mathlib.Core.List.{List, [], ◌∷◌, ◌++◌}
use native.Mathlib.Omega.{arith}
use rom_analyzer.Common.Tests.{if◌then◌else◌, Eq, Bool-cases}
use mathlib.Core.Logic.{inl, inr}
use rom_analyzer.Common.Lists.{In, Distinct, elem, elem_iff, filter, In-filter, All-of_In}

module _ {A : Type 0} ⦃e : Eq A⦄ where
  -- `set(xs)`
  unfoldable pub members : List A → List A
  members [] = []
  members (x ∷ xs) = if elem x xs then members xs else x ∷ members xs

  -- `s & t`
  unfoldable pub inter : List A → List A → List A
  inter s t = filter (λ a. elem a t) s

  -- `s | t`
  unfoldable pub union : List A → List A → List A
  union s t = s ++ filter (λ a. not (elem a s)) t

  pub In-members : (a : A) (xs : List A) → In a (members xs) ↔ In a xs
  unfolding members
  In-members a [] = (λ m. m, λ m. m)
  In-members a (x ∷ xs) =
      ground (arith, elem_iff x xs, elem_iff a xs, e.beq_iff a x, In-members a xs)

  pub Distinct-members : (xs : List A) → Distinct (members xs)
  unfolding members
  Distinct-members [] = tt
  Distinct-members (x ∷ xs) = elim (Bool-cases (elem x xs)) [
    | inl h ↦ rw h (Distinct-members xs)
    | inr h ↦ rw h (
      All-of_In (members xs)
          (λ a m q. ground (arith, elem_iff a xs, e.beq_iff x a, In-members a xs)),
      Distinct-members xs,
    )
  ]

  pub In-inter : (a : A) (s t : List A) → In a (inter s t) ↔ (In a s × In a t)
  unfolding inter
  In-inter a s t = ground (arith, In-filter (λ b. elem b t) a s, elem_iff a t)
