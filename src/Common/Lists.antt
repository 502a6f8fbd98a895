-- ===== src/Common/Lists.antt =====
-- Lists indexed and measured by native numbers, membership and predicates by recursion.
use Prim.Native.Nat.{ℕ, zero, suc, ◌+◌, ◌<◌}
use mathlib.Core.Path.{◌≡◌, refl, sym, ap, subst, ◌∙◌}
use mathlib.Core.Logic.{◌≢◌, ◌↔◌, ◌⊎◌, inl, inr}
use mathlib.Core.Bool.{Bool, true, false, ◌&&◌, ◌||◌}
use mathlib.Core.Option.{Option, none, some}
use mathlib.Core.List.{List, [], ◌∷◌, ◌++◌, map}
use native.Mathlib.Omega.{arith}
use rom_analyzer.Common.Tests.{if◌then◌else◌, Eq, ◌==◌, Bool-cases}

module _ {ℓ} {A : Type ℓ} where
  abbrev pub length : List A → ℕ
  length [] = 0
  length (x ∷ xs) = suc (length xs)

  abbrev pub get_elem? : List A → ℕ → Option A
  get_elem? [] i = none
  get_elem? (x ∷ xs) zero = some x
  get_elem? (x ∷ xs) (suc i) = get_elem? xs i

  abbrev pub take : ℕ → List A → List A
  take zero xs = []
  take (suc n) [] = []
  take (suc n) (x ∷ xs) = x ∷ take n xs

  abbrev pub drop : ℕ → List A → List A
  drop zero xs = xs
  drop (suc n) [] = []
  drop (suc n) (x ∷ xs) = drop n xs

  -- The sublist on which the test holds, as a comprehension with `if` builds it.
  abbrev pub filter : (A → Bool) → List A → List A
  filter p [] = []
  filter p (x ∷ xs) = if p x then x ∷ filter p xs else filter p xs

  abbrev pub any : (A → Bool) → List A → Bool
  any p [] = false
  any p (x ∷ xs) = p x || any p xs

  abbrev pub all : (A → Bool) → List A → Bool
  all p [] = true
  all p (x ∷ xs) = p x && all p xs

module _ {A : Type 0} where
  -- `a` stands in the list.
  abbrev pub In : A → List A → Type 0
  In a [] = ⊥
  In a (x ∷ xs) = (a ≡ x) ⊎ In a xs

module _ {ℓ κ} {A : Type ℓ} (P : A → Type κ) where
  abbrev pub All : List A → Type κ
  All [] = Unit
  All (x ∷ xs) = P x × All xs

module _ {ℓ κ} {A : Type ℓ} (R : A → A → Type κ) where
  -- Every element is related to all that stand behind it.
  abbrev pub Pairwise : List A → Type κ
  Pairwise [] = Unit
  Pairwise (x ∷ xs) = All (R x) xs × Pairwise xs

module _ {ℓ} {A : Type ℓ} where
  -- No two positions hold the same value.
  abbrev pub Distinct : List A → Type ℓ
  Distinct = Pairwise ◌≢◌

  pub length-append : (xs ys : List A) → length (xs ++ ys) ≡ length xs + length ys
  length-append [] ys = omega arith
  length-append (x ∷ xs) ys = omega (arith, length-append xs ys)

module _ {A : Type 0} where
  pub In-append : (a : A) (xs ys : List A) → In a (xs ++ ys) ↔ (In a xs ⊎ In a ys)
  In-append a [] ys = (inr, λ h. elim h [ inl e ↦ absurd e | inr m ↦ m ])
  In-append a (x ∷ xs) ys = ground (arith, In-append a xs ys)

  pub In-filter :
      (p : A → Bool) (a : A) (xs : List A) → In a (filter p xs) ↔ (In a xs × (p a ≡ true))
  In-filter p a [] = (λ h. absurd h, λ h. absurd h.0)
  In-filter p a (x ∷ xs) = ground (arith, In-filter p a xs)

module _ {κ} {A : Type 0} {P : A → Type κ} where
  pub All-of_In : (xs : List A) → ((a : A) → In a xs → P a) → All P xs
  All-of_In [] h = tt
  All-of_In (x ∷ xs) h = (h x (inl refl), All-of_In xs (λ a m. h a (inr m)))

module _ {κ} {A : Type 0} (P : A → Type κ) where
  pub In-All : (xs : List A) → All P xs → (a : A) → In a xs → P a
  In-All [] h a m = absurd m
  In-All (x ∷ xs) h a (inl e) = subst P (sym e) h.0
  In-All (x ∷ xs) h a (inr m) = In-All xs h.1 a m

  pub All-append : (xs ys : List A) → All P xs → All P ys → All P (xs ++ ys)
  All-append [] ys h k = k
  All-append (x ∷ xs) ys h k = (h.0, All-append xs ys h.1 k)

module _ {κ} {A : Type 0} {R : A → A → Type κ} where
  pub Pairwise-append :
      (xs ys : List A)
      → Pairwise R xs
      → Pairwise R ys
      → ((a b : A) → In a xs → In b ys → R a b)
      → Pairwise R (xs ++ ys)
  Pairwise-append [] ys h k c = k
  Pairwise-append (x ∷ xs) ys h k c = (
    All-append (R x) xs ys h.0 (All-of_In ys (λ b m. c x b (inl refl) m)),
    Pairwise-append xs ys h.1 k (λ a b m n. c a b (inr m) n),
  )

module _ {κ} {A : Type 0} (R : A → A → Type κ) where
  pub Pairwise-filter : (p : A → Bool) (xs : List A) → Pairwise R xs → Pairwise R (filter p xs)
  Pairwise-filter p [] h = tt
  Pairwise-filter p (x ∷ xs) h = elim (Bool-cases (p x)) [
    | inl e ↦ rw e (
      All-of_In (filter p xs) (λ a m. In-All (R x) xs h.0 a ((In-filter p a xs).0 m).0),
      Pairwise-filter p xs h.1,
    )
    | inr e ↦ rw e (Pairwise-filter p xs h.1)
  ]

module _ {κ} {A : Type 0} (R S : A → A → Type κ) where
  -- A relation may be replaced by a weaker one.
  pub Pairwise-weaken : ((a b : A) → R a b → S a b) → (xs : List A) → Pairwise R xs → Pairwise S xs
  Pairwise-weaken f [] h = tt
  Pairwise-weaken f (x ∷ xs) h =
      (All-of_In xs (λ a m. f x a (In-All (R x) xs h.0 a m)), Pairwise-weaken f xs h.1)

module _ {A B : Type 0} where
  pub In-map : (f : A → B) (b : B) (xs : List A) → In b (map f xs) → (a : A) × In a xs × (f a ≡ b)
  In-map f b [] m = absurd m
  In-map f b (x ∷ xs) (inl e) = (x, inl refl, sym e)
  In-map f b (x ∷ xs) (inr m) = let (a, n, e) = In-map f b xs m in (a, inr n, e)

  pub map-In : (f : A → B) (a : A) (xs : List A) → In a xs → In (f a) (map f xs)
  map-In f a [] m = absurd m
  map-In f a (x ∷ xs) (inl e) = inl (ap f e)
  map-In f a (x ∷ xs) (inr m) = inr (map-In f a xs m)

module _ {A : Type 0} where
  pub any_iff : (p : A → Bool) (xs : List A) → any p xs ≡ true → (a : A) × In a xs × (p a ≡ true)
  any_iff p [] h = cc
  any_iff p (x ∷ xs) h = elim (Bool-cases (p x)) [
    | inl e ↦ (x, inl refl, e)
    | inr e ↦ let (a, m, t) = any_iff p xs (ground arith) in (a, inr m, t)
  ]

  pub any_of_In : (p : A → Bool) (a : A) (xs : List A) → In a xs → p a ≡ true → any p xs ≡ true
  any_of_In p a [] m t = absurd m
  any_of_In p a (x ∷ xs) (inl e) t = let e' : p x ≡ true = ap p (sym e) ∙ t in rw e'
  any_of_In p a (x ∷ xs) (inr m) t = ground (arith, any_of_In p a xs m t)

  pub get_elem?-In : (xs : List A) (i : ℕ) (a : A) → get_elem? xs i ≡ some a → In a xs
  get_elem?-In [] i a h = cc
  get_elem?-In (x ∷ xs) zero a h = inl (ground arith)
  get_elem?-In (x ∷ xs) (suc i) a h = inr (get_elem?-In xs i a h)

  pub get_elem?-lt : (xs : List A) (i : ℕ) (a : A) → get_elem? xs i ≡ some a → i < length xs
  get_elem?-lt [] i a h = cc
  get_elem?-lt (x ∷ xs) zero a h = omega arith
  get_elem?-lt (x ∷ xs) (suc i) a h = omega (arith, get_elem?-lt xs i a h)

  pub get_elem?_of_lt : (xs : List A) (i : ℕ) → i < length xs → (a : A) × (get_elem? xs i ≡ some a)
  get_elem?_of_lt [] i h = absurd (omega arith)
  get_elem?_of_lt (x ∷ xs) zero h = (x, refl)
  get_elem?_of_lt (x ∷ xs) (suc i) h = get_elem?_of_lt xs i (omega arith)

-- Membership as a test, for `x in xs`.
module _ {A : Type 0} ⦃e : Eq A⦄ where
  abbrev pub elem : A → List A → Bool
  elem a [] = false
  elem a (x ∷ xs) = a == x || elem a xs

  pub elem_iff : (a : A) (xs : List A) → (elem a xs ≡ true) ↔ In a xs
  elem_iff a [] = (λ h. cc, λ h. absurd h)
  elem_iff a (x ∷ xs) = ground (arith, e.beq_iff a x, elem_iff a xs)

module _ {A B : Type 0} where
  -- `zip(xs, ys)` stops with the shorter list.
  abbrev pub zip : List A → List B → List (A × B)
  zip (x ∷ xs) (y ∷ ys) = (x, y) ∷ zip xs ys
  zip _ _ = []

module _ {A : Type 0} ⦃e : Eq A⦄ where
  -- How often `a` stands in the list.
  abbrev pub count : A → List A → ℕ
  count a [] = 0
  count a (x ∷ xs) = if x == a then suc (count a xs) else count a xs

module _ {ℓ} {A : Type ℓ} where
  abbrev pub flatten : List (List A) → List A
  flatten [] = []
  flatten (xs ∷ xss) = xs ++ flatten xss

  pub filter-append :
      (p : A → Bool) (xs ys : List A) → filter p (xs ++ ys) ≡ filter p xs ++ filter p ys
  filter-append p [] ys = refl
  filter-append p (x ∷ xs) ys = ground (arith, filter-append p xs ys)

module _ {κ} {A B : Type 0} (R : B → B → Type κ) where
  All-of_map : (f : A → B) (b : B) (xs : List A) → All (R b) (map f xs) → All (λ a. R b (f a)) xs
  All-of_map f b [] h = tt
  All-of_map f b (x ∷ xs) h = (h.0, All-of_map f b xs h.1)

  pub Pairwise-of_map :
      (f : A → B) (xs : List A) → Pairwise R (map f xs) → Pairwise (λ a b. R (f a) (f b)) xs
  Pairwise-of_map f [] h = tt
  Pairwise-of_map f (x ∷ xs) h = (All-of_map f (f x) xs h.0, Pairwise-of_map f xs h.1)

module _ {ℓ κ} {A : Type ℓ} {B : Type κ} (R : A → B → Type 0) where
  -- Two lists of one length, related position by position.
  abbrev pub Pointwise : List A → List B → Type 0
  Pointwise [] [] = Unit
  Pointwise (x ∷ xs) (y ∷ ys) = R x y × Pointwise xs ys
  Pointwise _ _ = ⊥

module _ {A B : Type 0} where
  -- Every pair of an element of each list.
  abbrev pub product : List A → List B → List (A × B)
  product [] ys = []
  product (x ∷ xs) ys = map (λ y. (x, y)) ys ++ product xs ys

  In-row :
      (a x : A) (b : B) (ys : List B)
      → a ≡ x
      → In b ys
      → In {A = A × B} (a, b) (map (λ y. (x, y)) ys)
  In-row a x b [] e n = absurd n
  In-row a x b (y ∷ ys) e (inl q) = inl (cc)
  In-row a x b (y ∷ ys) e (inr m) = inr (In-row a x b ys e m)

  pub In-product :
      (a : A) (b : B) (xs : List A) (ys : List B) → In a xs → In b ys → In (a, b) (product xs ys)
  In-product a b [] ys m n = absurd m
  In-product a b (x ∷ xs) ys (inl e) n =
      (In-append (a, b) (map (λ y. (x, y)) ys) (product xs ys)).1 (inl (In-row a x b ys e n))
  In-product a b (x ∷ xs) ys (inr m) n =
      (In-append (a, b) (map (λ y. (x, y)) ys) (product xs ys)).1 (inr (In-product a b xs ys m n))

pub In-flatten :
    {A : Type 0} (a : A) (xs : List A) (xss : List (List A))
    → In xs xss
    → In a xs
    → In a (flatten xss)
In-flatten a xs [] m i = absurd m
In-flatten a xs (ys ∷ xss) (inl e) i = (In-append a ys (flatten xss)).1 (inl (subst (In a) e i))
In-flatten a xs (ys ∷ xss) (inr m) i =
    (In-append a ys (flatten xss)).1 (inr (In-flatten a xs xss m i))
