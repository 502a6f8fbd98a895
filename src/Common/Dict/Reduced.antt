-- ===== src/Common/Dict/Reduced.antt =====
-- Every group of a dictionary of groups reduced to a list: `for group in groups.values(): ...`.
use mathlib.Core.Path.{◌≡◌, refl, sym, ap, subst, ◌∙◌}
use mathlib.Core.Logic.{◌≢◌, inl, inr}
use mathlib.Core.Option.{some}
use mathlib.Core.List.{List, [], ◌∷◌, map}
use native.Mathlib.Omega.{arith}
use rom_analyzer.Common.Tests.{Eq, ◌==◌}
use rom_analyzer.Common.Lists.{
  In, Distinct, Pairwise, Pairwise-append, In-append, In-filter, In-All, flatten,
}
use rom_analyzer.Common.Dict.{Dict, keys, values}
use rom_analyzer.Common.Dict.Group.{
  group_by, with_key, non_empty, non_empty-some, In-group_by, Distinct-group_by,
}

module _ {K A B : Type 0} ⦃eq : Eq K⦄ (key : A → K) (key_of : B → K)
    (reduce : List A → List B) where
  -- What is left of a group has its key, and no two of it are left.
  pub record IsReduction : Type 0 where
    pub keeps : (g : List A) (b : B) → In b (reduce g) → (a : A) × In a g × (key a ≡ key_of b)
    pub alone : (g : List A) → Pairwise (λ b c. key_of b ≢ key_of c) (reduce g)

  abbrev pub reduced : Dict K (List A) → List B
  reduced groups = flatten (map reduce (values groups))

  abbrev HasKeys : Dict K (List A) → Type 0
  HasKeys groups =
      (k : K) (g : List A) → In {A = K × List A} (k, g) groups → (a : A) → In a g → key a ≡ k

  In-reduced :
      (groups : Dict K (List A)) (b : B)
      → In b (reduced groups)
      → (k : K) × (g : List A) × In {A = K × List A} (k, g) groups × In b (reduce g)
  In-reduced [] b m = absurd m
  In-reduced ((k, g) ∷ groups) b m = elim ((In-append b (reduce g) (reduced groups)).0 m) [
    | inl n ↦ (k, g, inl refl, n)
    | inr n ↦ let (j, h, o, p) = In-reduced groups b n in (j, h, inr o, p)
  ]

  reduced_In :
      (groups : Dict K (List A)) (b : B) (k : K) (g : List A)
      → In {A = K × List A} (k, g) groups
      → In b (reduce g)
      → In b (reduced groups)
  reduced_In [] b k g m n = absurd m
  reduced_In ((j, h) ∷ groups) b k g (inl e) n =
      (In-append b (reduce h) (reduced groups)).1
        (inl (subst (λ (t : K × List A). In b (reduce t.1)) e n))
  reduced_In ((j, h) ∷ groups) b k g (inr m) n =
      (In-append b (reduce h) (reduced groups)).1 (inr (reduced_In groups b k g m n))

  key_In :
      (k : K) (g : List A) (groups : Dict K (List A))
      → In {A = K × List A} (k, g) groups
      → In k (keys groups)
  key_In k g [] m = absurd m
  key_In k g ((j, h) ∷ groups) (inl e) = inl (ap (λ (t : K × List A). t.0) e)
  key_In k g ((j, h) ∷ groups) (inr m) = inr (key_In k g groups m)

  group_lem :
      (xs : List A) (k : K) (g : List A)
      → In {A = K × List A} (k, g) (group_by key xs)
      → with_key key k xs ≡ g
  group_lem xs k g m = non_empty-some (with_key key k xs) g ((In-group_by key xs k g).0 m)

  group_by-HasKeys : (xs : List A) → HasKeys (group_by key xs)
  group_by-HasKeys xs k g m a n = ground (
    arith,
    (In-filter (λ c. key c == k) a xs).0 (subst (In a) (sym (group_lem xs k g m)) n),
    eq.beq_iff (key a) k,
  )

  non_empty_lem :
      (xs : List A) (a : A) → In a xs → (g : List A) × (non_empty xs ≡ some g) × (g ≡ xs)
  non_empty_lem [] a m = absurd m
  non_empty_lem (x ∷ xs) a m = (x ∷ xs, refl, refl)

  module _ (r : IsReduction) where
    reduced-Pairwise :
        (groups : Dict K (List A))
        → Distinct (keys groups)
        → HasKeys groups
        → Pairwise (λ b c. key_of b ≢ key_of c) (reduced groups)
    reduced-Pairwise [] h has = tt
    reduced-Pairwise ((k, g) ∷ groups) h has =
        Pairwise-append (reduce g) (reduced groups) (r.alone g)
          (reduced-Pairwise groups h.1 (λ j i m. has j i (inr m)))
          (λ b c m n e.
            let (j, i, o, p) = In-reduced groups c n in
            let (x, s, u) = r.keeps g b m in
            let (y, t, v) = r.keeps i c p in
            In-All (λ (t : K). k ≢ t) (keys groups) h.0 j (key_In j i groups o)
              (sym (has k g (inl refl) x s) ∙ u ∙ e ∙ sym v ∙ has j i (inr o) y t))

    -- No two of those that are left are of one group.
    pub reduced-group_by-Pairwise :
        (xs : List A) → Pairwise (λ b c. key_of b ≢ key_of c) (reduced (group_by key xs))
    reduced-group_by-Pairwise xs =
        reduced-Pairwise (group_by key xs) (Distinct-group_by key xs) (group_by-HasKeys xs)

    -- Each is what its group is reduced to.
    pub In-reduced-group_by :
        (xs : List A) (b : B)
        → In b (reduced (group_by key xs))
        → In b (reduce (with_key key (key_of b) xs))
    In-reduced-group_by xs b m =
        let (k, g, n, p) = In-reduced (group_by key xs) b m in
        let (a, s, u) = r.keeps g b p in
        subst (λ t. In b (reduce (with_key key t xs))) (sym (group_by-HasKeys xs k g n a s) ∙ u)
          (subst (λ t. In b (reduce t)) (sym (group_lem xs k g n)) p)

    -- Whatever the group of a value is reduced to is there.
    pub reduced-group_by_In :
        (xs : List A) (a : A) (b : B)
        → In a xs
        → In b (reduce (with_key key (key a) xs))
        → In b (reduced (group_by key xs))
    reduced-group_by_In xs a b m n =
        let here =
          (In-filter (λ c. key c == key a) a xs).1 (m, (eq.beq_iff (key a) (key a)).1 refl) in
        let (g, h, e) = non_empty_lem (with_key key (key a) xs) a here in
        reduced_In (group_by key xs) b (key a) g ((In-group_by key xs (key a) g).1 h)
          (subst (λ t. In b (reduce t)) (sym e) n)
