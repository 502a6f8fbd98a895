-- ===== src/Common/Sort.antt =====
-- `sorted` and `max`: the stable sort by a test "may stand in front of", and the first greatest.
pub mod Idem
use Prim.Native.Nat.{ℕ, ◌<◌}
use mathlib.Core.Path.{◌≡◌, refl, subst}
use mathlib.Core.Logic.{◌≢◌, ◌↔◌, ◌⊎◌, inl, inr}
use mathlib.Core.Bool.{Bool, true, false}
use mathlib.Core.Option.{Option, none, some}
use mathlib.Core.List.{List, [], ◌∷◌}
use native.Mathlib.Omega.{arith}
use rom_analyzer.Common.Tests.{leb, if◌then◌else◌, Bool-cases}
use rom_analyzer.Common.Lists.{filter, In, All, Pairwise, length, In-All, All-of_In}

-- A test that orders any two values, and is transitive.
pub record IsOrder {A : Type 0} (le : A → A → Bool) : Type 0 where
  pub total : (a b : A) → le a b ≡ false → le b a ≡ true
  pub trans : (a b c : A) → le a b ≡ true → le b c ≡ true → le a c ≡ true

module _ {A : Type 0} (le : A → A → Bool) where
  -- In front of the first value that may stand behind it: equal keys keep their order.
  unfoldable pub insert : A → List A → List A
  insert x [] = x ∷ []
  insert x (y ∷ ys) = if le x y then x ∷ y ∷ ys else y ∷ insert x ys

  unfoldable pub sort : List A → List A
  sort [] = []
  sort (x ∷ xs) = insert x (sort xs)

  abbrev pub IsSorted : List A → Type 0
  IsSorted = Pairwise (λ a b. le a b ≡ true)

  -- `max(x :: xs, key=...)`, `le` being the order of the keys: a later value wins only if greater.
  unfoldable pub max_by : A → List A → A
  max_by x [] = x
  max_by x (y ∷ ys) = max_by (if le y x then x else y) ys

  -- The greatest is one of the values.
  pub In-max_by : (x : A) (xs : List A) → In (max_by x xs) (x ∷ xs)
  unfolding max_by
  In-max_by x [] = inl refl
  In-max_by x (y ∷ ys) = ground (arith, In-max_by x ys, In-max_by y ys)

  In-insert : (x a : A) (xs : List A) → In a (insert x xs) ↔ ((a ≡ x) ⊎ In a xs)
  unfolding insert
  In-insert x a [] = (λ h. h, λ h. h)
  In-insert x a (y ∷ ys) = ground (arith, In-insert x a ys)

  -- Sorting keeps the members.
  pub In-sort : (a : A) (xs : List A) → In a (sort xs) ↔ In a xs
  unfolding sort
  In-sort a [] = (λ h. h, λ h. h)
  In-sort a (x ∷ xs) = ground (arith, In-insert x a (sort xs), In-sort a xs)

  length-insert : (x : A) (xs : List A) → length (insert x xs) ≡ length (x ∷ xs)
  unfolding insert
  length-insert x [] = refl
  length-insert x (y ∷ ys) = ground (arith, length-insert x ys)

  pub length-sort : (xs : List A) → length (sort xs) ≡ length xs
  unfolding sort
  length-sort [] = refl
  length-sort (x ∷ xs) = ground (arith, length-insert x (sort xs), length-sort xs)

  -- Values that may stand in front of each other keep their order.
  filter-insert :
      (p : A → Bool)
      → ((a b : A) → p a ≡ true → p b ≡ true → le a b ≡ true)
      → (x : A) (xs : List A)
      → filter p (insert x xs) ≡ (if p x then x ∷ filter p xs else filter p xs)
  unfolding insert
  filter-insert p tie x [] = refl
  filter-insert p tie x (y ∷ ys) = ground (arith, tie x y, filter-insert p tie x ys)

  pub filter-sort :
      (p : A → Bool)
      → ((a b : A) → p a ≡ true → p b ≡ true → le a b ≡ true)
      → (xs : List A) → filter p (sort xs) ≡ filter p xs
  unfolding sort
  filter-sort p tie [] = refl
  filter-sort p tie (x ∷ xs) = ground (arith, filter-insert p tie x (sort xs), filter-sort p tie xs)

  module _ (o : IsOrder le) where
    insert-IsSorted : (x : A) (xs : List A) → IsSorted xs → IsSorted (insert x xs)
    unfolding insert
    insert-IsSorted x [] h = (tt, tt)
    insert-IsSorted x (y ∷ ys) h = elim (Bool-cases (le x y)) [
      | inl e ↦
          rw e
            ((e, All-of_In ys (λ a m. o.trans x y a e (In-All (λ b. le y b ≡ true) ys h.0 a m))), h)
      | inr e ↦ rw e (
        All-of_In (insert x ys) (λ a m.
            ground (arith, In-insert x a ys, o.total x y e, In-All (λ b. le y b ≡ true) ys h.0 a)),
        insert-IsSorted x ys h.1,
      )
    ]

    pub sort-IsSorted : (xs : List A) → IsSorted (sort xs)
    unfolding sort
    sort-IsSorted [] = tt
    sort-IsSorted (x ∷ xs) = insert-IsSorted x (sort xs) (sort-IsSorted xs)

    refl_le : (a : A) → le a a ≡ true
    refl_le a = elim (Bool-cases (le a a)) [ inl e ↦ e | inr e ↦ o.total a a e ]

    -- No value is greater.
    pub le-max_by : (x : A) (xs : List A) (a : A) → In a (x ∷ xs) → le a (max_by x xs) ≡ true
    unfolding max_by
    le-max_by x [] a m = ground (arith, refl_le x)
    le-max_by x (y ∷ ys) a m = ground (
      arith,
      le-max_by x ys a,
      le-max_by y ys a,
      le-max_by x ys x (inl refl),
      le-max_by y ys y (inl refl),
      o.total y x,
      o.trans y x (max_by x ys),
      o.trans x y (max_by y ys),
    )

-- The order of a numeric key, ascending and descending (`reverse=True` keeps equal keys in order).
module _ {A : Type 0} (key : A → ℕ) where
  abbrev pub by_key : A → A → Bool
  by_key a b = leb (key a) (key b)

  abbrev pub by_key_desc : A → A → Bool
  by_key_desc a b = leb (key b) (key a)

  pub by_key-IsOrder : IsOrder by_key
  by_key-IsOrder = record { total = λ a b h. ground arith; trans = λ a b c h k. ground arith }

  pub by_key_desc-IsOrder : IsOrder by_key_desc
  by_key_desc-IsOrder = record { total = λ a b h. ground arith; trans = λ a b c h k. ground arith }

-- Sorting by a key that no two values share gives strictly ascending keys.
module _ {A : Type 0} (key : A → ℕ) where
  abbrev pub IsAscending : List A → Type 0
  IsAscending = Pairwise (λ a b. key a < key b)

  insert-IsAscending :
      (x : A) (xs : List A)
      → IsAscending xs
      → All (λ a. key x ≢ key a) xs
      → IsAscending (insert (by_key key) x xs)
  unfolding insert
  insert-IsAscending x [] h n = (tt, tt)
  insert-IsAscending x (y ∷ ys) h n = elim (Bool-cases (by_key key x y)) [
    | inl e ↦ rw e (
      (
        ground (arith, n.0),
        All-of_In ys (λ a m. ground (arith, n.0, In-All (λ b. key y < key b) ys h.0 a m)),
      ),
      h,
    )
    | inr e ↦ rw e (
      All-of_In (insert (by_key key) x ys) (λ a m.
          ground (arith, In-insert (by_key key) x a ys, In-All (λ b. key y < key b) ys h.0 a)),
      insert-IsAscending x ys h.1 n.1,
    )
  ]

  pub sort-IsAscending :
      (xs : List A) → Pairwise (λ a b. key a ≢ key b) xs → IsAscending (sort (by_key key) xs)
  unfolding sort
  sort-IsAscending [] h = tt
  sort-IsAscending (x ∷ xs) h =
      insert-IsAscending x (sort (by_key key) xs) (sort-IsAscending xs h.1) (
        All-of_In (sort (by_key key) xs)
          (λ a m. In-All (λ b. key x ≢ key b) xs h.0 a ((In-sort (by_key key) a xs).0 m)))

module _ {A : Type 0} (le : A → A → Bool) where
  -- The first greatest value, if there is a value.
  abbrev pub greatest : List A → Option A
  greatest [] = none
  greatest (x ∷ xs) = some (max_by le x xs)

  -- It is one of the values, and no value is greater.
  pub greatest_lem :
      (o : IsOrder le) (xs : List A) (m : A)
      → greatest xs ≡ some m
      → In m xs × ((a : A) → In a xs → le a m ≡ true)
  greatest_lem o [] m h = cc
  greatest_lem o (x ∷ xs) m h =
      let e : max_by le x xs ≡ m = ground arith in
      (
        subst (λ t. In t (x ∷ xs)) e (In-max_by le x xs),
        λ a i. subst (λ t. le a t ≡ true) e (le-max_by le o x xs a i),
      )
