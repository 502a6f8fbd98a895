-- ===== src/Splice/Nearest.antt =====
-- What resolve_nearest_site of rom_analyzer/mode23_bindings.py chooses.
use rom_analyzer.Common.{
  ℕ, ◌≤◌, ◌<◌, ◌≡◌, ◌≢◌, refl, subst, ◌↔◌, ◌⊎◌, inl, inr, true, none, some, List, [], ◌∷◌, In,
  arith, Bool-cases, ◌==◌, nat_eq, elem, elem_iff, All, All-of_In, In-All, nat_eq,
}
use rom_analyzer.Common.Sets.{members, In-members, Distinct-members}
use rom_analyzer.Common.Sort.{
  by_key, max_by, In-sort, In-max_by, IsOrder, le-max_by, IsAscending, sort-IsAscending,
}
use rom_analyzer.Types.{low, medium, high}
use rom_analyzer.Splice.{
  SpliceResolution, sorted_set, distance, farther_leb, nearest_of, resolve_nearest_site,
}

-- As near to `expected` as `b`, and at a lower address where both are equally near.
abbrev pub IsNotFarther : ℕ → ℕ → ℕ → Type 0
IsNotFarther expected a b =
    (distance a expected < distance b expected)
    ⊎ ((distance a expected ≡ distance b expected) × (a ≤ b))

farther_leb_iff : (expected a b : ℕ) → (farther_leb expected a b ≡ true) ↔ IsNotFarther expected b a
unfolding farther_leb
farther_leb_iff expected a b = ground arith

farther_leb-IsOrder : (expected : ℕ) → IsOrder (farther_leb expected)
unfolding farther_leb
farther_leb-IsOrder expected = record {
  total = λ a b h. ground arith;
  trans = λ a b c h k. ground arith;
}

exact_lem : (expected b : ℕ) → IsNotFarther expected expected b
unfolding distance
exact_lem expected b = ground arith

self_lem : (expected a : ℕ) → IsNotFarther expected a a
self_lem expected a = inr (refl, omega arith)

-- What holds of the resolution of some sites.
abbrev pub IsNearest : List ℕ → ℕ → SpliceResolution → Type 0
IsNearest sites expected r =
    ((sites ≡ []) × (r ≡ record { address = none; confidence = low }))
    ⊎ ((a : ℕ) × (r.address ≡ some a)
        × In a sites
        × All (IsNotFarther expected a) sites
        × (((r.confidence ≡ high) × ((a ≡ expected) ⊎ All (λ b. b ≡ a) sites))
            ⊎ ((r.confidence ≡ medium)
                × All (λ b. b ≢ expected) sites
                × ((b : ℕ) × In b sites × (b ≢ a)))))

-- Of two addresses one is not the chosen one.
another_lem : (a b c : ℕ) (s : List ℕ) → a < b → (d : ℕ) × In d (a ∷ b ∷ s) × (d ≢ c)
another_lem a b c s lt = elim (Bool-cases (a == c)) [
  | inl e ↦ (b, inr (inl refl), λ q. ground arith)
  | inr e ↦ (a, inl refl, λ q. ground arith)
]

nearest_of_lem :
    (expected : ℕ) (s : List ℕ)
    → IsAscending (λ a. a) s
    → IsNearest s expected (nearest_of expected s)
unfolding nearest_of
nearest_of_lem expected [] asc = inl (refl, refl)
nearest_of_lem expected (a ∷ []) asc =
    inr (a, refl, inl refl, (self_lem expected a, tt), inl (refl, inr (refl, tt)))
nearest_of_lem expected (a ∷ b ∷ s) asc = elim (Bool-cases (elem expected (a ∷ b ∷ s))) [
  | inl e ↦ rw e (
      inr (
        expected,
        refl,
        (elem_iff expected (a ∷ b ∷ s)).0 e,
        All-of_In (a ∷ b ∷ s) (λ c m. exact_lem expected c),
        inl (refl, inl refl),
      ))
  | inr e ↦ rw e (
      inr (
        max_by (farther_leb expected) a (b ∷ s),
        refl,
        In-max_by (farther_leb expected) a (b ∷ s),
        All-of_In (a ∷ b ∷ s) (λ c m.
            (farther_leb_iff expected c (max_by (farther_leb expected) a (b ∷ s))).0
              (le-max_by (farther_leb expected) (farther_leb-IsOrder expected) a (b ∷ s) c m)),
        inr (
          refl,
          All-of_In (a ∷ b ∷ s) (λ c m. ground (arith, e, m, elem_iff expected (a ∷ b ∷ s))),
          another_lem a b (max_by (farther_leb expected) a (b ∷ s)) s asc.0.0,
        ),
      ))
]

sorted_set-IsAscending : (sites : List ℕ) → IsAscending (λ a. a) (sorted_set sites)
unfolding sorted_set
sorted_set-IsAscending sites = sort-IsAscending (λ a. a) (members sites) (Distinct-members sites)

sorted_set_iff : (sites : List ℕ) (a : ℕ) → In a (sorted_set sites) ↔ In a sites
unfolding sorted_set
sorted_set_iff sites a =
    ground (arith, In-sort (by_key (λ a. a)) a (members sites), In-members a sites)

empty_lem : (sites : List ℕ) → sorted_set sites ≡ [] → sites ≡ []
empty_lem [] e = refl
empty_lem (a ∷ sites) e = absurd (subst (In a) e ((sorted_set_iff (a ∷ sites) a).1 (inl refl)))

-- Of some sites resolve_nearest_site takes one that is as near to the expected address as any other,
-- the lowest of the nearest; its confidence is high if this is the expected address or the only site,
-- and medium if there is another site and none is the expected address. Without sites it takes none,
-- with low confidence.
pub resolve_nearest_site-IsNearest :
    (sites : List ℕ) (expected : ℕ) → IsNearest sites expected (resolve_nearest_site sites expected)
unfolding resolve_nearest_site
resolve_nearest_site-IsNearest sites expected =
    let every : (P : ℕ → Type 0) → All P (sorted_set sites) → All P sites = λ P h.
      All-of_In sites (λ b m. In-All P (sorted_set sites) h b ((sorted_set_iff sites b).1 m)) in
    elim (nearest_of_lem expected (sorted_set sites) (sorted_set-IsAscending sites)) [
      | inl (e, r) ↦ inl (empty_lem sites e, r)
      | inr (a, r, m, near, tier) ↦ inr (
        a,
        r,
        (sorted_set_iff sites a).0 m,
        every (IsNotFarther expected a) near,
        elim tier [
          | inl (c, inl e) ↦ inl (c, inl e)
          | inl (c, inr h) ↦ inl (c, inr (every (λ b. b ≡ a) h))
          | inr (c, h, (b, n, ne)) ↦
              inr (c, every (λ b. b ≢ expected) h, (b, (sorted_set_iff sites b).0 n, ne))
        ],
      )
    ]
