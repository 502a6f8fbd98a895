-- ===== src/Crc/Loads.antt =====
-- Which loads _collect_constants of rom_analyzer/crc.py collects: those of a description by
-- mnemonics and operands, in the order of the instructions.
use rom_analyzer.Common.{
  ℕ, ◌+◌, ◌≤◌, ◌<◌, ◌≡◌, refl, sym, ap, subst, ◌∙◌, ◌↔◌, inl, inr, List, [], ◌∷◌, arith, All-of_In,
  In, In-All, Option-cases,
}
use rom_analyzer.Common.Text.{text_eq}
use rom_analyzer.Common.Sort.{IsAscending}
use rom_analyzer.Crc.{
  Instruction, ConstLoad, pair_load, ld24_load, single, collect_from, collect_constants,
}
use rom_analyzer.Crc.Operands.{ld24_load_lem, pair_load_lem}
use rom_analyzer.Crc.Collect.{
  IsLoadAt, unloaded_lem, loaded_lem, collect_step, collect_pair, collect_from_iff,
}

-- The loads of the instructions, in their order.
pub record IsLoads (instrs : List Instruction) (loads : List ConstLoad) : Type 0 where
  pub member : (load : ConstLoad) → In load loads ↔ IsLoadAt instrs load.index load
  pub ascending : IsAscending (λ load. load.index) loads

collect_from-le :
    (i : ℕ) (instrs : List Instruction) (load : ConstLoad)
    → In load (collect_from i instrs)
    → i ≤ load.index
collect_from-le i instrs load m =
    let (k, q, at) = (collect_from_iff i instrs load).0 m in omega (arith, q)

abbrev Ascends : List ConstLoad → Type 0
Ascends = IsAscending (λ load. load.index)

single-Ascends :
    (i : ℕ) (a : Instruction) (loads : List ConstLoad)
    → ((load : ConstLoad) → In load loads → i + 1 ≤ load.index)
    → Ascends loads
    → Ascends (single i a loads)
unfolding single
single-Ascends i a loads le h = elim (Option-cases (ld24_load i a)) [
  | inl e ↦ subst Ascends (sym (unloaded_lem i a loads e)) h
  | inr (l, e) ↦
      let at = (ld24_load_lem i a l e).1 in
      subst Ascends (sym (loaded_lem i a loads l e))
        (All-of_In loads (λ m n. omega (arith, le m n, at)), h)
]

collect_from-Ascends : (i : ℕ) (instrs : List Instruction) → Ascends (collect_from i instrs)
unfolding collect_from
collect_from-Ascends i [] = tt
collect_from-Ascends i (a ∷ []) = single-Ascends i a [] (λ l m. absurd m) tt
collect_from-Ascends i (a ∷ b ∷ rest) = elim (Option-cases (pair_load i a b)) [
  | inl e ↦ subst Ascends (sym (collect_step i a b rest e)) (
      single-Ascends i a (collect_from (i + 1) (b ∷ rest)) (collect_from-le (i + 1) (b ∷ rest))
        (collect_from-Ascends (i + 1) (b ∷ rest)))
  | inr (l, e) ↦
      let at = (pair_load_lem i a b l e).1 in
      subst Ascends (sym (collect_pair i a b rest l e)) (
        All-of_In (collect_from (i + 2) rest)
            (λ m n. omega (arith, collect_from-le (i + 2) rest m n, at)),
        collect_from-Ascends (i + 2) rest,
      )
]

pub collect_constants-IsLoads :
    (instrs : List Instruction) → IsLoads instrs (collect_constants instrs)
unfolding collect_constants
collect_constants-IsLoads instrs = record {
  member = λ load. (
    λ m.
        let (k, q, at) = (collect_from_iff 0 instrs load).0 m in
        let same : k ≡ load.index = omega (arith, q) in subst (λ j. IsLoadAt instrs j load) same at,
    λ at. (collect_from_iff 0 instrs load).1 (load.index, omega arith, at),
  );
  ascending = collect_from-Ascends 0 instrs;
}

-- Two lists with the same loads in ascending order are the same.
same_loads :
    (xs ys : List ConstLoad)
    → Ascends xs
    → Ascends ys
    → ((load : ConstLoad) → In load xs ↔ In load ys)
    → xs ≡ ys
same_loads [] [] v w h = refl
same_loads [] (y ∷ ys) v w h = absurd ((h y).1 (inl refl))
same_loads (x ∷ xs) [] v w h = absurd ((h x).0 (inl refl))
same_loads (x ∷ xs) (y ∷ ys) v w h =
    let behind_y = In-All (λ (b : ConstLoad). y.index < b.index) ys w.0 in
    let behind_x = In-All (λ (b : ConstLoad). x.index < b.index) xs v.0 in
    let same : x ≡ y = elim ((h x).0 (inl refl)) [
      | inl e ↦ e
      | inr m ↦ elim ((h y).1 (inl refl)) [
        | inl e ↦ sym e
        | inr n ↦ absurd (omega (arith, behind_y x m, behind_x y n))
      ]
    ] in
    ap (λ t. t ∷ xs) same
    ∙ ap (◌∷◌ y) (
        same_loads xs ys v.1 w.1 (λ l. (
          λ m. elim ((h l).0 (inr m)) [
            | inl e ↦
                absurd (omega (arith, behind_x l m, ap (λ (t : ConstLoad). t.index) (e ∙ sym same)))
            | inr n ↦ n
          ],
          λ m. elim ((h l).1 (inr m)) [
            | inl e ↦
                absurd (omega (arith, behind_y l m, ap (λ (t : ConstLoad). t.index) (e ∙ same)))
            | inr n ↦ n
          ],
        )))

pub IsLoads-unique :
    (instrs : List Instruction) (xs ys : List ConstLoad)
    → IsLoads instrs xs
    → IsLoads instrs ys
    → xs ≡ ys
IsLoads-unique instrs xs ys v w =
    same_loads xs ys v.ascending w.ascending
      (λ l. (λ m. (w.member l).1 ((v.member l).0 m), λ m. (v.member l).1 ((w.member l).0 m)))
