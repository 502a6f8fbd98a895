-- ===== src/Common/Pick.antt =====
-- The first of a list for which a property holds, and the only one, by what stands in front and behind.
use mathlib.Core.Path.{◌≡◌, refl, sym, ap, ◌∙◌}
use mathlib.Core.Logic.{◌↔◌, inl, inr}
use mathlib.Core.Bool.{Bool, true, ◌&&◌}
use mathlib.Core.Option.{Option, none, some}
use mathlib.Core.List.{List, [], ◌∷◌, ◌++◌}
use native.Mathlib.Omega.{arith}
use rom_analyzer.Common.Tests.{Bool-cases}
use rom_analyzer.Common.Lists.{filter, All}

pub record IsFirst {A : Type 0} (P : A → Type 0) (xs : List A) (x : A) : Type 0 where
  pub front : List A
  pub rest : List A
  pub split : xs ≡ front ++ x ∷ rest
  pub none_before : All (λ a. ¬ P a) front
  pub holds : P x

pub record IsOnly {A : Type 0} (P : A → Type 0) (xs : List A) (x : A) : Type 0 where
  pub first : IsFirst P xs x
  pub none_behind : All (λ a. ¬ P a) first.rest

module _ {A : Type 0} where
  unfoldable pub head : List A → Option A
  head [] = none
  head (x ∷ xs) = some x

  pub filter_twice :
      (q p : A → Bool) (xs : List A) → filter p (filter q xs) ≡ filter (λ a. q a && p a) xs
  filter_twice q p [] = refl
  filter_twice q p (x ∷ xs) = ground (arith, filter_twice q p xs)

module _ {A : Type 0} (p : A → Bool) (P : A → Type 0) (decides : (a : A) → (p a ≡ true) ↔ P a) where
  filter_nil : (xs : List A) → filter p xs ≡ [] → All (λ a. ¬ P a) xs
  filter_nil [] h = tt
  filter_nil (x ∷ xs) h = elim (Bool-cases (p x)) [
    | inl e ↦ absurd (ground arith)
    | inr e ↦ (λ q. cc (e, (decides x).1 q), filter_nil xs (ground arith))
  ]

  pub filter_of_none : (xs : List A) → All (λ a. ¬ P a) xs → filter p xs ≡ []
  filter_of_none [] h = refl
  filter_of_none (x ∷ xs) h = elim (Bool-cases (p x)) [
    | inl e ↦ absurd (h.0 ((decides x).0 e))
    | inr e ↦ rw e (filter_of_none xs h.1)
  ]

  -- The values of the filter are the first and those behind it.
  pub filter_first :
      (xs : List A) (x : A) (more : List A)
      → filter p xs ≡ x ∷ more
      → (v : IsFirst P xs x) × (filter p v.rest ≡ more)
  filter_first [] x more h = cc
  filter_first (y ∷ xs) x more h = elim (Bool-cases (p y)) [
    | inl e ↦
        let same : y ≡ x = ground arith in
        (
          record {
            front = [];
            rest = xs;
            split = ap (λ t. t ∷ xs) same;
            none_before = tt;
            holds = (decides x).0 (ap p (sym same) ∙ e);
          },
          ground arith,
        )
    | inr e ↦
        let (v, q) = filter_first xs x more (ground arith) in
        (
          record {
            front = y ∷ v.front;
            rest = v.rest;
            split = ap (◌∷◌ y) v.split;
            none_before = (λ k. cc (e, (decides y).1 k), v.none_before);
            holds = v.holds;
          },
          q,
        )
  ]

  filter_split :
      (front rest : List A) (x : A)
      → All (λ a. ¬ P a) front
      → P x
      → filter p (front ++ x ∷ rest) ≡ x ∷ filter p rest
  filter_split [] rest x n h = rw ((decides x).1 h) refl
  filter_split (y ∷ front) rest x n h = elim (Bool-cases (p y)) [
    | inl e ↦ absurd (n.0 ((decides y).0 e))
    | inr e ↦ rw e (filter_split front rest x n.1 h)
  ]

  pub filter_of_first :
      (xs : List A) (x : A) (v : IsFirst P xs x) → filter p xs ≡ x ∷ filter p v.rest
  filter_of_first xs x v =
      ap (filter p) v.split ∙ filter_split v.front v.rest x v.none_before v.holds

  pub filter-IsOnly_iff : (xs : List A) (x : A) → (filter p xs ≡ x ∷ []) ↔ IsOnly P xs x
  filter-IsOnly_iff xs x = (
    λ h.
        let (v, q) = filter_first xs x [] h in
        record { first = v; none_behind = filter_nil v.rest q },
    λ v. filter_of_first xs x v.first ∙ ap (◌∷◌ x) (filter_of_none v.first.rest v.none_behind),
  )

  pub first_iff : (xs : List A) (x : A) → (head (filter p xs) ≡ some x) ↔ IsFirst P xs x
  unfolding head
  first_iff xs x = (λ h. first_of (filter p xs) refl h, λ v. rw (filter_of_first xs x v) refl)
    where
      first_of : (ys : List A) → filter p xs ≡ ys → head ys ≡ some x → IsFirst P xs x
      first_of [] e h = cc
      first_of (y ∷ ys) e h =
          let same : y ≡ x = unfold head in ground arith in
          (filter_first xs x ys (e ∙ ap (λ t. t ∷ ys) same)).0
