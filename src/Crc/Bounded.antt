-- ===== src/Crc/Bounded.antt =====
-- What extract_crc_region of rom_analyzer/crc.py returns, in terms of what its helpers find.
use rom_analyzer.Common.{
  ◌≤◌, ◌≡◌, refl, sym, ap, subst, ◌∙◌, ◌↔◌, inl, inr, List, [], ◌∷◌, arith, map, In, Bool-cases,
  count,
}
use rom_analyzer.Common.Int.{ℤ, ◌≤ℤ◌, leb_ℤ, ltb_ℤ, ℤ_eq}
use rom_analyzer.Common.Sort.{IsOrder, max_by, In-max_by, le-max_by}
use rom_analyzer.Common.Dict.Counter.{counter, In-repeated}
use rom_analyzer.Types.{CrcRegion}
use rom_analyzer.Crc.{
  Instruction, ConstLoad, extracted, collect_constants, repeated_values, start_values,
  find_exclusive_end, region_of, extract_with, extract_from, extract_crc_region,
}

leb_ℤ-IsOrder : IsOrder leb_ℤ
leb_ℤ-IsOrder = record { total = λ a b h. ground arith; trans = λ a b c h k. ground arith }

abbrev load_values : List Instruction → List ℤ
load_values instrs = map (λ load. load.value) (collect_constants instrs)

-- The region that the instructions bound, in terms of the loads that are collected: the end bound is
-- the greatest value that is loaded twice, and the starts are the first two other values that a
-- store follows.
pub record IsBounded (instrs : List Instruction) (r : CrcRegion) : Type 0 where
  pub end_bound : ℤ
  pub repeated : 2 ≤ count end_bound (load_values instrs)
  pub greatest : (v : ℤ) → 2 ≤ count v (load_values instrs) → v ≤ℤ end_bound
  pub others : List ℤ
  pub starts :
      start_values instrs (collect_constants instrs) end_bound
      ≡ r.full_start ∷ r.partial_start ∷ others
  pub full : r.full_end ≡ find_exclusive_end instrs (collect_constants instrs) end_bound
  pub partial : r.partial_end ≡ r.full_end
  pub ordered : r.full_start ≤ℤ r.partial_start

antisym : (a b : ℤ) → a ≤ℤ b → b ≤ℤ a → a ≡ b
antisym a b h k = ground arith

region_of_iff :
    (e : ℤ) (vs : List ℤ) (r : CrcRegion)
    → region_of e vs ≡ extracted r
    → (others : List ℤ) × (vs ≡ r.full_start ∷ r.partial_start ∷ others)
      × (r.full_end ≡ e)
      × (r.partial_end ≡ r.full_end)
      × (r.full_start ≤ℤ r.partial_start)
unfolding region_of
region_of_iff e [] r h = cc
region_of_iff e (f ∷ []) r h = cc
region_of_iff e (f ∷ p ∷ others) r h = elim (Bool-cases (ltb_ℤ p f)) [
  | inl t ↦ absurd (ground arith)
  | inr t ↦ (others, ground arith, ground arith, ground arith, ground arith)
]

region_of_region :
    (e : ℤ) (vs : List ℤ) (r : CrcRegion) (others : List ℤ)
    → vs ≡ r.full_start ∷ r.partial_start ∷ others
    → r.full_end ≡ e
    → r.partial_end ≡ r.full_end
    → r.full_start ≤ℤ r.partial_start
    → region_of e vs ≡ extracted r
unfolding region_of
region_of_region e vs r others starts full partial ordered = rw starts (ground arith)

module _ (instrs : List Instruction) (r : CrcRegion) where
  abbrev loads : List ConstLoad
  loads = collect_constants instrs

  twice : (w : ℤ) → In w (repeated_values loads) ↔ (2 ≤ count w (load_values instrs))
  unfolding repeated_values
  twice w = In-repeated (load_values instrs) w

  le-bound : (v : ℤ) (vs : List ℤ) (w : ℤ) → In w (v ∷ vs) → w ≤ℤ max_by leb_ℤ v vs
  le-bound v vs w m = ground (arith, le-max_by leb_ℤ leb_ℤ-IsOrder v vs w m)

  sound :
      (vs : List ℤ)
      → repeated_values loads ≡ vs
      → extract_with instrs loads vs ≡ extracted r
      → IsBounded instrs r
  unfolding extract_with
  sound [] e h = cc
  sound (v ∷ vs) e h =
      let bound = max_by leb_ℤ v vs in
      let (others, starts, full, partial, ordered) =
        region_of_iff (find_exclusive_end instrs loads bound) (start_values instrs loads bound) r
          h in
      record {
        end_bound = bound;
        repeated = (twice bound).0 (subst (In bound) (sym e) (In-max_by leb_ℤ v vs));
        greatest = λ w k. le-bound v vs w (subst (In w) e ((twice w).1 k));
        others = others;
        starts = starts;
        full = full;
        partial = partial;
        ordered = ordered;
      }

  complete :
      (vs : List ℤ)
      → repeated_values loads ≡ vs
      → IsBounded instrs r
      → extract_with instrs loads vs ≡ extracted r
  complete [] e h = absurd (subst (In h.end_bound) e ((twice h.end_bound).1 h.repeated))
  complete (v ∷ vs) e h =
      let bound = max_by leb_ℤ v vs in
      let same : h.end_bound ≡ bound =
        antisym h.end_bound bound
          (le-bound v vs h.end_bound (subst (In h.end_bound) e ((twice h.end_bound).1 h.repeated)))
          (h.greatest bound ((twice bound).0 (subst (In bound) (sym e) (In-max_by leb_ℤ v vs)))) in
      unfold extract_with in
      region_of_region (find_exclusive_end instrs loads bound) (start_values instrs loads bound) r
        h.others (ap (start_values instrs loads) (sym same) ∙ h.starts)
        (h.full ∙ ap (find_exclusive_end instrs loads) same) h.partial h.ordered

  -- Without loads there is no repeated value either.
  from_loads :
      (ls : List ConstLoad)
      → (extract_from instrs ls ≡ extracted r)
        ↔ (extract_with instrs ls (repeated_values ls) ≡ extracted r)
  unfolding extract_from extract_with repeated_values counter
  from_loads [] = (λ h. cc, λ h. cc)
  from_loads (l ∷ ls) = (λ h. h, λ h. h)

  -- extract_crc_region returns a region exactly when the collected loads bound it, as IsBounded
  -- says; in all other cases it raises.
  pub region_bounds_iff : (extract_crc_region instrs ≡ extracted r) ↔ IsBounded instrs r
  unfolding extract_crc_region
  region_bounds_iff = (
    λ h. sound (repeated_values loads) refl ((from_loads loads).0 h),
    λ h. (from_loads loads).1 (complete (repeated_values loads) refl h),
  )
