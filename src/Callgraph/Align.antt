-- ===== src/Callgraph/Align.antt =====
-- _lcs_align of rom_analyzer/callgraph.py gives a longest alignment.
use mathlib.Core.List.{reverse}
use rom_analyzer.Common.{
  ℕ, zero, suc, ◌+◌, ◌≤◌, ◌<◌, max, ◌≡◌, refl, sym, ap, subst, ◌∙◌, inl, inr, Bool, true, false,
  none, some, List, [], ◌∷◌, arith, leb, length, Option-cases, Bool-cases, reverse_twice,
  length-reverse, In, In-reverse, get_elem?, get_elem?-In,
}
use rom_analyzer.Callgraph.{pair_at, dp_row, dp, trace, align}

-- A function that no step lowers.
climb :
    (f : ℕ → ℕ)
    → ((t : ℕ) → (f t ≤ f (suc t)) × (f (suc t) ≤ f t + 1))
    → (i k : ℕ) → i ≤ k
    → f i ≤ f k
climb f step zero zero h = omega arith
climb f step (suc i) zero h = absurd (omega arith)
climb f step i (suc k) h = elim (Bool-cases (leb i k)) [
  | inl e ↦ omega (arith, climb f step i k (ground arith), step k)
  | inr e ↦ let same : i ≡ suc k = ground arith in rw same (omega arith)
]

module _ (ok : ℕ → ℕ → Bool) (refs news : List ℕ) where
  -- Pairs, the last one first, that stand at ascending positions of the first `i` and the first `j`
  -- callees, each compatible.
  pub data IsAlignment : ℕ → ℕ → List (ℕ × ℕ) → Type 0 where
    nothing : (i j : ℕ) → IsAlignment i j []
    after :
        (i j i' j' : ℕ) (p : ℕ × ℕ) (ps : List (ℕ × ℕ))
        → i < i'
        → j < j'
        → pair_at ok refs news i j ≡ some p
        → IsAlignment i j ps
        → IsAlignment i' j' (p ∷ ps)

  abbrev cell : ℕ → ℕ → ℕ
  cell = dp ok refs news

  dp_pair :
      (i j : ℕ) (p : ℕ × ℕ)
      → pair_at ok refs news i j ≡ some p
      → cell (suc i) (suc j) ≡ cell i j + 1
  unfolding dp dp_row
  dp_pair i j p h = ground arith

  dp_skip :
      (i j : ℕ)
      → pair_at ok refs news i j ≡ none
      → cell (suc i) (suc j) ≡ max (cell i (suc j)) (cell (suc i) j)
  unfolding dp dp_row
  dp_skip i j h = ground arith

  dp-zero : (i : ℕ) → cell i 0 ≡ 0
  unfolding dp dp_row
  dp-zero zero = refl
  dp-zero (suc i) = refl

  -- A step to the right, or down, raises a cell by at most one, and does not lower it.
  abbrev StepsRight : ℕ → Type 0
  StepsRight i = (j : ℕ) → (cell i j ≤ cell i (suc j)) × (cell i (suc j) ≤ cell i j + 1)

  abbrev StepsDown : ℕ → Type 0
  StepsDown i = (j : ℕ) → (cell i j ≤ cell (suc i) j) × (cell (suc i) j ≤ cell i j + 1)

  step_down : (i : ℕ) → StepsRight i → StepsDown i
  step_down i h zero = omega (arith, dp-zero i, dp-zero (suc i))
  step_down i h (suc j) = elim (Option-cases (pair_at ok refs news i j)) [
    | inl e ↦ omega (arith, dp_skip i j e, h j, step_down i h j)
    | inr (p, e) ↦ omega (arith, dp_pair i j p e, h j)
  ]

  step_right : (i : ℕ) → StepsRight i → StepsDown i → StepsRight (suc i)
  step_right i h d j = elim (Option-cases (pair_at ok refs news i j)) [
    | inl e ↦ omega (arith, dp_skip i j e, h j, d j)
    | inr (p, e) ↦ omega (arith, dp_pair i j p e, d j)
  ]

  first_row : StepsRight 0
  unfolding dp
  first_row j = (omega arith, omega arith)

  all_right : (i : ℕ) → StepsRight i
  all_right zero = first_row
  all_right (suc i) = step_right i (all_right i) (step_down i (all_right i))

  all_down : (i : ℕ) → StepsDown i
  all_down i = step_down i (all_right i)

  right_mono : (i j k : ℕ) → j ≤ k → cell i j ≤ cell i k
  right_mono i j k h = climb (cell i) (all_right i) j k h

  down_mono : (i k j : ℕ) → i ≤ k → cell i j ≤ cell k j
  down_mono i k j h = climb (λ t. cell t j) (λ t. all_down t j) i k h

  dp_greatest : (i j : ℕ) (ps : List (ℕ × ℕ)) → IsAlignment i j ps → length ps ≤ cell i j
  dp_greatest _ _ _ (nothing i j) = omega arith
  dp_greatest _ _ _ (after i j i' j' p ps h k e a) = omega (
    arith,
    dp_greatest i j ps a,
    dp_pair i j p e,
    down_mono (suc i) i' (suc j) (omega arith),
    right_mono i' (suc j) j' (omega arith),
  )

  widen :
      (i j i' j' : ℕ) (ps : List (ℕ × ℕ))
      → i ≤ i'
      → j ≤ j'
      → IsAlignment i j ps
      → IsAlignment i' j' ps
  widen _ _ i' j' _ h k (nothing i j) = nothing i' j'
  widen _ _ i'' j'' _ h k (after i j i' j' p ps l m e a) =
      after i j i'' j'' p ps (omega arith) (omega arith) e a

  trace_pair :
      (fuel i j : ℕ) (p : ℕ × ℕ)
      → pair_at ok refs news i j ≡ some p
      → trace ok refs news (suc fuel) (suc i) (suc j) ≡ p ∷ trace ok refs news fuel i j
  unfolding trace
  trace_pair fuel i j p e = ground arith

  trace_up :
      (fuel i j : ℕ)
      → pair_at ok refs news i j ≡ none
      → leb (cell (suc i) j) (cell i (suc j)) ≡ true
      → trace ok refs news (suc fuel) (suc i) (suc j) ≡ trace ok refs news fuel i (suc j)
  unfolding trace
  trace_up fuel i j e t = ground arith

  trace_left :
      (fuel i j : ℕ)
      → pair_at ok refs news i j ≡ none
      → leb (cell (suc i) j) (cell i (suc j)) ≡ false
      → trace ok refs news (suc fuel) (suc i) (suc j) ≡ trace ok refs news fuel (suc i) j
  unfolding trace
  trace_left fuel i j e t = ground arith

  abbrev IsOptimal : ℕ → ℕ → List (ℕ × ℕ) → Type 0
  IsOptimal i j ps = IsAlignment i j ps × (length ps ≡ cell i j)

  zero-dp : (j : ℕ) → 0 ≡ cell 0 j
  unfolding dp
  zero-dp j = refl

  -- The trace is an alignment, as long as its cell says.
  trace_lem : (fuel i j : ℕ) → i + j ≤ fuel → IsOptimal i j (trace ok refs news fuel i j)
  unfolding trace
  trace_lem zero zero j h = (nothing 0 j, zero-dp j)
  trace_lem zero (suc i) j h = absurd (omega arith)
  trace_lem (suc fuel) zero j h = (nothing 0 j, zero-dp j)
  trace_lem (suc fuel) (suc i) zero h = (nothing (suc i) 0, sym (dp-zero (suc i)))
  trace_lem (suc fuel) (suc i) (suc j) h = elim (Option-cases (pair_at ok refs news i j)) [
    | inr (p, e) ↦
        let ps = trace ok refs news fuel i j in
        let (a, l) = trace_lem fuel i j (omega arith) in
        subst (IsOptimal (suc i) (suc j)) (sym (trace_pair fuel i j p e)) (
          after i j (suc i) (suc j) p ps (omega arith) (omega arith) e a,
          omega (arith, l, dp_pair i j p e),
        )
    | inl e ↦ elim (Bool-cases (leb (cell (suc i) j) (cell i (suc j)))) [
      | inl t ↦
          let ps = trace ok refs news fuel i (suc j) in
          let (a, l) = trace_lem fuel i (suc j) (omega arith) in
          subst (IsOptimal (suc i) (suc j)) (sym (trace_up fuel i j e t)) (
            widen i (suc j) (suc i) (suc j) ps (omega arith) (omega arith) a,
            ground (arith, l, dp_skip i j e),
          )
      | inr t ↦
          let ps = trace ok refs news fuel (suc i) j in
          let (a, l) = trace_lem fuel (suc i) j (omega arith) in
          subst (IsOptimal (suc i) (suc j)) (sym (trace_left fuel i j e t)) (
            widen (suc i) j (suc i) (suc j) ps (omega arith) (omega arith) a,
            ground (arith, l, dp_skip i j e),
          )
    ]
  ]

  -- _lcs_align gives compatible pairs that stand in the order of both lists of callees, and no
  -- other choice of such pairs is longer.
  pub align_longest :
      IsAlignment (length refs) (length news) (reverse (align ok refs news))
      × ((ps : List (ℕ × ℕ))
          → IsAlignment (length refs) (length news) ps
          → length ps ≤ length (align ok refs news))
  unfolding align
  align_longest =
      let n = length refs in
      let m = length news in
      let pairs = trace ok refs news (n + m) n m in
      let (a, l) = trace_lem (n + m) n m (omega arith) in
      (
        subst (IsAlignment n m) (sym (reverse_twice pairs)) a,
        λ ps b. omega (arith, dp_greatest n m ps b, l, length-reverse pairs),
      )

  pair_at_lem :
      (i j : ℕ) (r n : ℕ)
      → pair_at ok refs news i j ≡ some (r, n)
      → In r refs × In n news × (ok r n ≡ true)
  unfolding pair_at
  pair_at_lem i j r n h = elim (Option-cases (get_elem? refs i)) [
    | inl e ↦ absurd (ground arith)
    | inr (x, e) ↦ elim (Option-cases (get_elem? news j)) [
      | inl f ↦ absurd (ground arith)
      | inr (y, f) ↦ ground (arith, get_elem?-In refs i x e, get_elem?-In news j y f)
    ]
  ]

  alignment-In :
      (i j : ℕ) (ps : List (ℕ × ℕ)) (r n : ℕ)
      → IsAlignment i j ps
      → In (r, n) ps
      → In r refs × In n news × (ok r n ≡ true)
  alignment-In _ _ _ r n (nothing i j) m = absurd m
  alignment-In _ _ _ r n (after i j i' j' p ps h k e a) (inl q) =
      pair_at_lem i j r n (e ∙ ap some (sym q))
  alignment-In _ _ _ r n (after i j i' j' p ps h k e a) (inr m) = alignment-In i j ps r n a m

  -- Every pair is one of a callee of each list, and is compatible.
  pub In-align :
      (r n : ℕ) → In (r, n) (align ok refs news) → In r refs × In n news × (ok r n ≡ true)
  In-align r n m =
      alignment-In (length refs) (length news) (reverse (align ok refs news)) r n align_longest.0
        ((In-reverse (r, n) (align ok refs news)).1 m)
