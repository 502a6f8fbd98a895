-- ===== src/Callgraph/Identity/Unique.antt =====
-- _find_unique_aligned of rom_analyzer/callgraph.py finds an occurrence exactly when it is the only
-- aligned one.
use rom_analyzer.Common.{
  ℕ, zero, suc, ◌+◌, ◌%◌, ◌≤◌, ◌<◌, ◌≡◌, refl, sym, ap, subst, ◌∙◌, ◌↔◌, ◌⊎◌, inl, inr, true, false,
  Option, none, some, List, arith, ltb, leb, ◌==◌, nat_eq, length, Option-cases, Bool-cases,
}
use rom_analyzer.Callgraph.Decode.{find_from}
use rom_analyzer.Callgraph.Decode.Find.{OccursAt, find_from-some, find_from-none}
use rom_analyzer.Callgraph.Identity.{unique_from, find_unique_aligned}

module _ (hay needle : List ℕ) (alignment : ℕ) where
  abbrev pub IsAlignedAt : ℕ → Type 0
  IsAlignedAt q = (q % alignment ≡ 0) × OccursAt hay needle q

  -- What was found in front of `p` is the only aligned occurrence there.
  abbrev IsFoundBefore : ℕ → Option ℕ → Type 0
  IsFoundBefore p none = (q : ℕ) → q < p → IsAlignedAt q → ⊥
  IsFoundBefore p (some f) = (f < p) × IsAlignedAt f × ((q : ℕ) → q < p → IsAlignedAt q → q ≡ f)

  abbrev IsUnique : Option ℕ → Type 0
  IsUnique result =
      (p : ℕ) → (result ≡ some p) ↔ (IsAlignedAt p × ((q : ℕ) → IsAlignedAt q → q ≡ p))

  -- No occurrence stands at `p` or behind.
  finish :
      (p : ℕ) (found : Option ℕ)
      → IsFoundBefore p found
      → ((q : ℕ) → p ≤ q → OccursAt hay needle q → ⊥)
      → IsUnique found
  finish p none before behind r = (
    λ h. cc,
    λ (a, unique). elim (Bool-cases (ltb r p)) [
      | inl e ↦ absurd (before r (ground arith) a)
      | inr e ↦ absurd (behind r (ground arith) a.1)
    ],
  )
  finish p (some f) (low, a, before) behind r = (
    λ h. let same : f ≡ r = cc in (subst IsAlignedAt same a, λ q b. settle q b ∙ same),
    λ (b, unique). ap some (unique f a),
  )
    where
      settle : (q : ℕ) → IsAlignedAt q → q ≡ f
      settle q b = elim (Bool-cases (ltb q p)) [
        | inl e ↦ before q (ground arith) b
        | inr e ↦ absurd (behind q (ground arith) b.1)
      ]

  -- Two aligned occurrences leave nothing to find.
  ambiguous : (f g : ℕ) → f < g → IsAlignedAt f → IsAlignedAt g → IsUnique none
  ambiguous f g l a b r =
      (λ h. cc, λ (_, unique). absurd (omega (arith, l, unique f a, unique g b)))

  -- Where an occurrence up to `idx` stands, when none stands from `p` to in front of `idx`.
  place :
      (p idx q : ℕ)
      → ((r : ℕ) → p ≤ r → r < idx → OccursAt hay needle r → ⊥)
      → q < idx + 1
      → OccursAt hay needle q
      → (q < p) ⊎ (q ≡ idx)
  place p idx q first k o = elim (Bool-cases (ltb q p)) [
    | inl e ↦ inl (ground arith)
    | inr e ↦ elim (Bool-cases (ltb q idx)) [
      | inl f ↦ absurd (first q (ground arith) (ground arith) o)
      | inr f ↦ inr (ground arith)
    ]
  ]

  skip :
      (p idx : ℕ) (found : Option ℕ)
      → ((r : ℕ) → p ≤ r → r < idx → OccursAt hay needle r → ⊥)
      → p ≤ idx
      → (idx % alignment ≡ 0 → ⊥)
      → IsFoundBefore p found
      → IsFoundBefore (idx + 1) found
  skip p idx none first le odd before = λ q k a. elim (place p idx q first k a.1) [
    | inl e ↦ before q e a
    | inr e ↦ odd (ap (λ t. t % alignment) (sym e) ∙ a.0)
  ]
  skip p idx (some f) first le odd (low, a, before) = (
    omega arith,
    a,
    λ q k b. elim (place p idx q first k b.1) [
      | inl e ↦ before q e b
      | inr e ↦ absurd (odd (ap (λ t. t % alignment) (sym e) ∙ b.0))
    ],
  )

  take_first :
      (p idx : ℕ)
      → ((r : ℕ) → p ≤ r → r < idx → OccursAt hay needle r → ⊥)
      → IsAlignedAt idx
      → IsFoundBefore p none
      → IsFoundBefore (idx + 1) (some idx)
  take_first p idx first a before = (
    omega arith,
    a,
    λ q k b. elim (place p idx q first k b.1) [ inl e ↦ absurd (before q e b) | inr e ↦ e ],
  )

  step : ℕ → ℕ → Option ℕ → Option ℕ
  step fuel p found = unique_from hay needle alignment (suc fuel) p found

  rest : ℕ → ℕ → Option ℕ → Option ℕ
  rest fuel idx found = unique_from hay needle alignment fuel (idx + 1) found

  step_short :
      (fuel p : ℕ) (found : Option ℕ)
      → leb (p + length needle) (length hay) ≡ false
      → step fuel p found ≡ found
  unfolding step unique_from
  step_short fuel p found e = ground arith

  step-none :
      (fuel p : ℕ) (found : Option ℕ) → find_from hay needle p ≡ none → step fuel p found ≡ found
  unfolding step unique_from
  step-none fuel p found e = ground arith

  step_odd :
      (fuel p idx : ℕ) (found : Option ℕ)
      → leb (p + length needle) (length hay) ≡ true
      → find_from hay needle p ≡ some idx
      → (idx % alignment == 0) ≡ false
      → step fuel p found ≡ rest fuel idx found
  unfolding step rest unique_from
  step_odd fuel p idx found e f g = ground arith

  step_first :
      (fuel p idx : ℕ)
      → leb (p + length needle) (length hay) ≡ true
      → find_from hay needle p ≡ some idx
      → (idx % alignment == 0) ≡ true
      → step fuel p none ≡ rest fuel idx (some idx)
  unfolding step rest unique_from
  step_first fuel p idx e f g = ground arith

  step_second :
      (fuel p idx f : ℕ)
      → leb (p + length needle) (length hay) ≡ true
      → find_from hay needle p ≡ some idx
      → (idx % alignment == 0) ≡ true
      → step fuel p (some f) ≡ none
  unfolding step unique_from
  step_second fuel p idx f e g h = ground arith

  abbrev IsCorrect : ℕ → Type 0
  IsCorrect fuel =
      (p : ℕ) (found : Option ℕ)
      → length hay < p + fuel
      → IsFoundBefore p found
      → IsUnique (unique_from hay needle alignment fuel p found)

  abbrev IsRound : ℕ → ℕ → Option ℕ → Type 0
  IsRound fuel p found =
      length hay < p + suc fuel → IsFoundBefore p found → IsUnique (step fuel p found)

  IsRound-aligned :
      (fuel p idx : ℕ) (found : Option ℕ)
      → IsCorrect fuel
      → leb (p + length needle) (length hay) ≡ true
      → find_from hay needle p ≡ some idx
      → (idx % alignment == 0) ≡ true
      → IsRound fuel p found
  unfolding rest
  IsRound-aligned fuel p idx none ih e f g h before =
      let (le, o, first) = find_from-some hay needle p idx f in
      subst IsUnique (sym (step_first fuel p idx e f g))
        (ih (idx + 1) (some idx) (omega arith) (take_first p idx first (ground arith, o) before))
  IsRound-aligned fuel p idx (some k) ih e f g h (low, a, before) =
      let (le, o, first) = find_from-some hay needle p idx f in
      subst IsUnique (sym (step_second fuel p idx k e f g))
        (ambiguous k idx (omega arith) a (ground arith, o))

  IsRound-odd :
      (fuel p idx : ℕ) (found : Option ℕ)
      → IsCorrect fuel
      → leb (p + length needle) (length hay) ≡ true
      → find_from hay needle p ≡ some idx
      → (idx % alignment == 0) ≡ false
      → IsRound fuel p found
  unfolding rest
  IsRound-odd fuel p idx found ih e f g h before =
      let (le, o, first) = find_from-some hay needle p idx f in
      subst IsUnique (sym (step_odd fuel p idx found e f g))
        (ih (idx + 1) found (omega arith) (skip p idx found first le (ground arith) before))

  round : (fuel p : ℕ) (found : Option ℕ) → IsCorrect fuel → IsRound fuel p found
  round fuel p found ih h before = elim (Bool-cases (leb (p + length needle) (length hay))) [
    | inr e ↦
        subst IsUnique (sym (step_short fuel p found e))
          (finish p found before (λ q k o. ground (arith, o.0)))
    | inl e ↦ elim (Option-cases (find_from hay needle p)) [
      | inl f ↦
          subst IsUnique (sym (step-none fuel p found f))
            (finish p found before (find_from-none hay needle p f))
      | inr (idx, f) ↦ elim (Bool-cases (idx % alignment == 0)) [
        | inl g ↦ IsRound-aligned fuel p idx found ih e f g h before
        | inr g ↦ IsRound-odd fuel p idx found ih e f g h before
      ]
    ]
  ]

  out_of_fuel : (p : ℕ) (found : Option ℕ) → unique_from hay needle alignment 0 p found ≡ found
  unfolding unique_from
  out_of_fuel p found = refl

  unique_from_lem : (fuel : ℕ) → IsCorrect fuel
  unfolding step
  unique_from_lem zero p found h before =
      subst IsUnique (sym (out_of_fuel p found))
        (finish p found before (λ q k o. omega (arith, o.0)))
  unique_from_lem (suc fuel) p found h before = round fuel p found (unique_from_lem fuel) h before

  -- _find_unique_aligned returns a position exactly when the needle stands at it, it is a multiple of
  -- the alignment, and the needle stands at no other multiple.
  pub find_unique_aligned_iff :
      (p : ℕ)
      → (find_unique_aligned hay needle alignment ≡ some p)
        ↔ (IsAlignedAt p × ((q : ℕ) → IsAlignedAt q → q ≡ p))
  unfolding find_unique_aligned
  find_unique_aligned_iff =
      unique_from_lem (suc (length hay)) 0 none (omega arith) (λ q k a. absurd (omega arith))
