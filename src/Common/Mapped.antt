-- ===== src/Common/Mapped.antt =====
-- What holds of the values of a function holds of the list it is mapped over, and of its two parts.
use Prim.Native.Nat.{ℕ, zero, suc}
use mathlib.Core.Path.{◌≡◌, refl, ap}
use mathlib.Core.Logic.{inl, inr}
use mathlib.Core.List.{List, [], ◌∷◌, ◌++◌, map}
use rom_analyzer.Common.Lists.{flatten, In-append, length, All, Pairwise, In, In-All, take, drop}

module _ {κ} {A B : Type 0} (f : A → B) where
  pub All-map : (P : B → Type κ) (xs : List A) → All (λ a. P (f a)) xs → All P (map f xs)
  All-map P [] h = tt
  All-map P (x ∷ xs) h = (h.0, All-map P xs h.1)

  pub Pairwise-map :
      (R : B → B → Type κ) (xs : List A)
      → Pairwise (λ a b. R (f a) (f b)) xs
      → Pairwise R (map f xs)
  Pairwise-map R [] h = tt
  Pairwise-map R (x ∷ xs) h = (All-map (R (f x)) xs h.0, Pairwise-map R xs h.1)

module _ {A : Type 0} where
  -- `xs[:k] + xs[k:]`
  pub take-append-drop : (k : ℕ) (xs : List A) → take k xs ++ drop k xs ≡ xs
  take-append-drop zero xs = refl
  take-append-drop (suc k) [] = refl
  take-append-drop (suc k) (x ∷ xs) = ap (λ t. x ∷ t) (take-append-drop k xs)

  In-drop : (k : ℕ) (xs : List A) (a : A) → In a (drop k xs) → In a xs
  In-drop zero xs a m = m
  In-drop (suc k) [] a m = m
  In-drop (suc k) (x ∷ xs) a m = inr (In-drop k xs a m)

  -- In a list where every element is related to those behind it, those in front are related to
  -- those behind.
  pub Pairwise-take-drop {κ} :
      (R : A → A → Type κ) (k : ℕ) (xs : List A) (a b : A)
      → Pairwise R xs
      → In a (take k xs)
      → In b (drop k xs)
      → R a b
  Pairwise-take-drop R zero xs a b h m n = absurd m
  Pairwise-take-drop R (suc k) [] a b h m n = absurd m
  Pairwise-take-drop R (suc k) (x ∷ xs) a b h (inl e) n =
      rw e (In-All (R x) xs h.0 b (In-drop k xs b n))
  Pairwise-take-drop R (suc k) (x ∷ xs) a b h (inr m) n = Pairwise-take-drop R k xs a b h.1 m n

module _ {A B : Type 0} (f : A → B) where
  pub length-map : (xs : List A) → length (map f xs) ≡ length xs
  length-map [] = refl
  length-map (x ∷ xs) = ap suc (length-map xs)

  pub drop-map : (k : ℕ) (xs : List A) → drop k (map f xs) ≡ map f (drop k xs)
  drop-map zero xs = refl
  drop-map (suc k) [] = refl
  drop-map (suc k) (x ∷ xs) = drop-map k xs

module _ {A : Type 0} where
  -- Behind as many values as the first list has, the second stands.
  pub drop-append : (xs ys : List A) → drop (length xs) (xs ++ ys) ≡ ys
  drop-append [] ys = refl
  drop-append (x ∷ xs) ys = drop-append xs ys

module _ {A : Type 0} where
  -- What stands in the concatenation stands in one of the lists.
  pub flatten_In :
      (a : A) (xss : List (List A)) → In a (flatten xss) → (xs : List A) × In xs xss × In a xs
  flatten_In a [] m = absurd m
  flatten_In a (xs ∷ xss) m = elim ((In-append a xs (flatten xss)).0 m) [
    | inl n ↦ (xs, inl refl, n)
    | inr n ↦ let (ys, o, q) = flatten_In a xss n in (ys, inr o, q)
  ]
