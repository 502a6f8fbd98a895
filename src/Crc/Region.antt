-- ===== src/Crc/Region.antt =====
-- What extract_crc_region of rom_analyzer/crc.py returns: exactly the regions of a description by the
-- instructions.
use rom_analyzer.Common.{
  ◌≤◌, ◌≡◌, ◌≢◌, refl, sym, ap, subst, ◌∙◌, ◌↔◌, inl, inr, Bool, true, false, List, [], ◌∷◌, ◌++◌,
  arith, map, filter, count, All, Bool-cases, if◌then◌else◌, ◌==◌,
}
use rom_analyzer.Common.Int.{ℤ, ◌≤ℤ◌, ℤ_eq}
use rom_analyzer.Common.Pick.{IsFirst, filter_first, filter_of_first}
use rom_analyzer.Types.{CrcRegion}
use rom_analyzer.Crc.{
  Instruction, ConstLoad, extracted, collect_constants, start_values, is_stored, window,
  end_in_window, find_exclusive_end, extract_crc_region,
}
use rom_analyzer.Crc.Loads.{IsLoads, collect_constants-IsLoads, IsLoads-unique}
use rom_analyzer.Crc.Window.{behind, IsStored, is_stored_iff, IsEnd, IsEnd-unique, window-IsEnd}
use rom_analyzer.Crc.Bounded.{IsBounded, region_bounds_iff}

-- A load of another value than the bound, which a store follows within four instructions.
abbrev pub IsStart : List Instruction → ℤ → ConstLoad → Type 0
IsStart instrs bound load = (load.value ≢ bound) × IsStored instrs load

abbrev pub HasValue : ℤ → ConstLoad → Type 0
HasValue bound load = load.value ≡ bound

abbrev pub values : List ConstLoad → List ℤ
values = map (λ load. load.value)

-- The region that the loads of the instructions bound: the end bound is the greatest value that two of
-- them load, the starts are the first two of them that are starts, and both ends follow from the four
-- instructions behind the first load of the bound.
pub record IsRegion (instrs : List Instruction) (r : CrcRegion) : Type 0 where
  pub loads : List ConstLoad
  pub collected : IsLoads instrs loads
  pub end_bound : ℤ
  pub repeated : 2 ≤ count end_bound (values loads)
  pub greatest : (v : ℤ) → 2 ≤ count v (values loads) → v ≤ℤ end_bound
  pub full_load : ConstLoad
  pub partial_load : ConstLoad
  pub full_first : IsFirst (IsStart instrs end_bound) loads full_load
  pub partial_first : IsFirst (IsStart instrs end_bound) full_first.rest partial_load
  pub full_start : r.full_start ≡ full_load.value
  pub partial_start : r.partial_start ≡ partial_load.value
  pub end_load : ConstLoad
  pub end_first : IsFirst (HasValue end_bound) loads end_load
  pub full_end : IsEnd (behind instrs end_load) 4 end_load.reg end_bound r.full_end
  pub partial_end : r.partial_end ≡ r.full_end
  pub ordered : r.full_start ≤ℤ r.partial_start

module _ (instrs : List Instruction) (bound : ℤ) where
  abbrev starts : ConstLoad → Bool
  starts load = if load.value == bound then false else is_stored instrs load

  starts_iff : (load : ConstLoad) → (starts load ≡ true) ↔ IsStart instrs bound load
  starts_iff load = ground (arith, is_stored_iff instrs load, ℤ_eq.beq_iff load.value bound)

  start_values_lem :
      (loads : List ConstLoad) → start_values instrs loads bound ≡ values (filter starts loads)
  unfolding start_values
  start_values_lem loads = refl

  -- The first two starts, from their values.
  record Starts (loads : List ConstLoad) (f p : ℤ) : Type 0 where
    full_load : ConstLoad
    partial_load : ConstLoad
    full_first : IsFirst (IsStart instrs bound) loads full_load
    partial_first : IsFirst (IsStart instrs bound) full_first.rest partial_load
    full_start : f ≡ full_load.value
    partial_start : p ≡ partial_load.value

  Starts-of :
      (loads : List ConstLoad) (f p : ℤ) (others : List ℤ)
      → start_values instrs loads bound ≡ f ∷ p ∷ others
      → Starts loads f p
  Starts-of loads f p others h = go (filter starts loads) refl (sym (start_values_lem loads) ∙ h)
    where
      go :
          (ls : List ConstLoad)
          → filter starts loads ≡ ls
          → values ls ≡ f ∷ p ∷ others
          → Starts loads f p
      go [] e q = cc
      go (a ∷ []) e q = cc
      go (a ∷ b ∷ ls) e q =
          let (v, rest) =
            filter_first starts (IsStart instrs bound) starts_iff loads a (b ∷ ls) e in
          let (w, last) = filter_first starts (IsStart instrs bound) starts_iff v.rest b ls rest in
          record {
            full_load = a;
            partial_load = b;
            full_first = v;
            partial_first = w;
            full_start = ground arith;
            partial_start = ground arith;
          }

  of-Starts :
      (loads : List ConstLoad) (f p : ℤ) (v : Starts loads f p)
      → start_values instrs loads bound ≡ f ∷ p ∷ values (filter starts v.partial_first.rest)
  of-Starts loads f p v =
      let a =
        filter_of_first starts (IsStart instrs bound) starts_iff loads v.full_load v.full_first in
      let b =
        filter_of_first starts (IsStart instrs bound) starts_iff v.full_first.rest v.partial_load
          v.partial_first in
      start_values_lem loads
      ∙ ap values (a ∙ ap (◌∷◌ v.full_load) b)
      ∙ ground (arith, v.full_start, v.partial_start)

  -- A value that is loaded has a first load.
  first_load :
      (loads : List ConstLoad)
      → 1 ≤ count bound (values loads)
      → (l : ConstLoad) × IsFirst (HasValue bound) loads l
  first_load [] h = absurd (omega arith)
  first_load (x ∷ loads) h = elim (Bool-cases (x.value == bound)) [
    | inl e ↦ (
      x,
      record {
        front = [];
        rest = loads;
        split = refl;
        none_before = tt;
        holds = (ℤ_eq.beq_iff x.value bound).0 e;
      },
    )
    | inr e ↦
        let (l, v) = first_load loads (ground arith) in
        (
          l,
          record {
            front = x ∷ v.front;
            rest = v.rest;
            split = ap (◌∷◌ x) v.split;
            none_before = (λ q. cc (e, (ℤ_eq.beq_iff x.value bound).1 q), v.none_before);
            holds = v.holds;
          },
        )
  ]

  found_behind :
      (front rest : List ConstLoad) (l : ConstLoad)
      → All (λ a. ¬ HasValue bound a) front
      → HasValue bound l
      → find_exclusive_end instrs (front ++ l ∷ rest) bound
        ≡ end_in_window l.reg bound (window instrs l)
  unfolding find_exclusive_end
  found_behind [] rest l n h = let t = (ℤ_eq.beq_iff l.value bound).1 h in ground arith
  found_behind (x ∷ front) rest l n h = elim (Bool-cases (x.value == bound)) [
    | inl e ↦ absurd (n.0 ((ℤ_eq.beq_iff x.value bound).0 e))
    | inr e ↦ let ih = found_behind front rest l n.1 h in ground arith
  ]

  find_exclusive_end-first :
      (loads : List ConstLoad) (l : ConstLoad) (v : IsFirst (HasValue bound) loads l)
      → find_exclusive_end instrs loads bound ≡ end_in_window l.reg bound (window instrs l)
  find_exclusive_end-first loads l v =
      ap (λ t. find_exclusive_end instrs t bound) v.split
      ∙ found_behind v.front v.rest l v.none_before v.holds

module _ (instrs : List Instruction) (r : CrcRegion) where
  IsRegion-of_IsBounded : IsBounded instrs r → IsRegion instrs r
  IsRegion-of_IsBounded b =
      let loads = collect_constants instrs in
      let s = Starts-of instrs b.end_bound loads r.full_start r.partial_start b.others b.starts in
      let (l, first) = first_load instrs b.end_bound loads (omega (arith, b.repeated)) in
      record {
        loads = loads;
        collected = collect_constants-IsLoads instrs;
        end_bound = b.end_bound;
        repeated = b.repeated;
        greatest = b.greatest;
        full_load = s.full_load;
        partial_load = s.partial_load;
        full_first = s.full_first;
        partial_first = s.partial_first;
        full_start = s.full_start;
        partial_start = s.partial_start;
        end_load = l;
        end_first = first;
        full_end =
            subst (IsEnd (behind instrs l) 4 l.reg b.end_bound)
              (sym (b.full ∙ find_exclusive_end-first instrs b.end_bound loads l first))
              (window-IsEnd instrs l b.end_bound);
        partial_end = b.partial;
        ordered = b.ordered;
      }

  -- The same description of the loads that are collected.
  IsBounded-of_collected :
      (v : IsRegion instrs r) → v.loads ≡ collect_constants instrs → IsBounded instrs r
  IsBounded-of_collected v e =
      let s : Starts instrs v.end_bound v.loads r.full_start r.partial_start = record {
        full_load = v.full_load;
        partial_load = v.partial_load;
        full_first = v.full_first;
        partial_first = v.partial_first;
        full_start = v.full_start;
        partial_start = v.partial_start;
      } in
      let full =
        IsEnd-unique (behind instrs v.end_load) 4 v.end_load.reg v.end_bound r.full_end
          (end_in_window v.end_load.reg v.end_bound (window instrs v.end_load)) v.full_end
          (window-IsEnd instrs v.end_load v.end_bound) in
      record {
        end_bound = v.end_bound;
        repeated = subst (λ t. 2 ≤ count v.end_bound (values t)) e v.repeated;
        greatest = λ w h. v.greatest w (subst (λ t. 2 ≤ count w (values t)) (sym e) h);
        others = values (filter (starts instrs v.end_bound) s.partial_first.rest);
        starts =
            ap (λ t. start_values instrs t v.end_bound) (sym e)
            ∙ of-Starts instrs v.end_bound v.loads r.full_start r.partial_start s;
        full =
            full
            ∙ sym (find_exclusive_end-first instrs v.end_bound v.loads v.end_load v.end_first)
            ∙ ap (λ t. find_exclusive_end instrs t v.end_bound) e;
        partial = v.partial_end;
        ordered = v.ordered;
      }

  -- extract_crc_region returns a region exactly when the loads of the instructions (LD24, or SETH with
  -- the ADD3 behind it) bound it: the end bound is the greatest value that is loaded at least twice; the
  -- starts are the first two loads of another value that a store follows within four instructions, and
  -- stand in order; both ends are the bound, or one above it if the first comparison among the four
  -- instructions behind the first load of the bound has its register as the first operand.
  pub extract_crc_region_iff : (extract_crc_region instrs ≡ extracted r) ↔ IsRegion instrs r
  extract_crc_region_iff = (
    λ h. IsRegion-of_IsBounded ((region_bounds_iff instrs r).0 h),
    λ v. (region_bounds_iff instrs r).1 (
        IsBounded-of_collected v (
          IsLoads-unique instrs v.loads (collect_constants instrs) v.collected
            (collect_constants-IsLoads instrs))),
  )
