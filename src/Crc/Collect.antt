-- ===== src/Crc/Collect.antt =====
-- The loop of _collect_constants of rom_analyzer/crc.py: the places of the loads.
use rom_analyzer.Common.{
  ℕ, zero, suc, ◌+◌, ◌≡◌, ◌≢◌, refl, sym, ap, subst, ◌∙◌, ◌↔◌, ◌⊎◌, inl, inr, some, none, List, [],
  ◌∷◌, arith, get_elem?, In, Option-cases,
}
use rom_analyzer.Common.Text.{codes, text_eq}
use rom_analyzer.Crc.{Instruction, ConstLoad, pair_load, ld24_load, single, collect_from}
use rom_analyzer.Crc.Operands.{
  IsLd24, IsPair, ld24_load_lem, ld24_load_of, pair_load_lem, pair_load_of,
}

-- At the place `k` stands an LD24, or a SETH with the ADD3 behind it, that loads this.
abbrev pub IsLoadAt : List Instruction → ℕ → ConstLoad → Type 0
IsLoadAt instrs k load =
    (a : Instruction) × (get_elem? instrs k ≡ some a)
    × (IsLd24 a load ⊎ ((b : Instruction) × (get_elem? instrs (suc k) ≡ some b) × IsPair a b load))

seth-ne-ld24 : codes "seth" ≢ codes "ld24"
seth-ne-ld24 e = ground arith

add3-ne-ld24 : codes "add3" ≢ codes "ld24"
add3-ne-ld24 e = ground arith

add3-ne-seth : codes "add3" ≢ codes "seth"
add3-ne-seth e = ground arith

high-ne-single : (a b : Instruction) (l m : ConstLoad) → IsPair a b l → IsLd24 a m → ⊥
high-ne-single a b l m v w = seth-ne-ld24 (sym v.high_mnemonic ∙ w.mnemonic)

low-ne-single : (a b : Instruction) (l m : ConstLoad) → IsPair a b l → IsLd24 b m → ⊥
low-ne-single a b l m v w = add3-ne-ld24 (sym v.low_mnemonic ∙ w.mnemonic)

low-ne-high : (a b c : Instruction) (l m : ConstLoad) → IsPair a b l → IsPair b c m → ⊥
low-ne-high a b c l m v w = add3-ne-seth (sym v.low_mnemonic ∙ w.high_mnemonic)

pub unloaded_lem :
    (i : ℕ) (a : Instruction) (rest : List ConstLoad)
    → ld24_load i a ≡ none
    → single i a rest ≡ rest
unfolding single
unloaded_lem i a rest e = ground arith

pub loaded_lem :
    (i : ℕ) (a : Instruction) (rest : List ConstLoad) (l : ConstLoad)
    → ld24_load i a ≡ some l
    → single i a rest ≡ l ∷ rest
unfolding single
loaded_lem i a rest l e = ground arith

single_iff :
    (i : ℕ) (a : Instruction) (rest : List ConstLoad) (load : ConstLoad)
    → In load (single i a rest) ↔ ((IsLd24 a load × (load.index ≡ i)) ⊎ In load rest)
single_iff i a rest load = elim (Option-cases (ld24_load i a)) [
  | inl e ↦
      subst (λ t. In load t ↔ ((IsLd24 a load × (load.index ≡ i)) ⊎ In load rest))
        (sym (unloaded_lem i a rest e))
        (
          λ m. inr m,
          λ h. elim h [
            | inl (v, q) ↦
                let one : none ≡ some load =
                  sym e ∙ ap (λ k. ld24_load k a) (sym q) ∙ ld24_load_of a load v in
                cc
            | inr m ↦ m
          ],
        )
  | inr (l, e) ↦
      subst (λ t. In load t ↔ ((IsLd24 a load × (load.index ≡ i)) ⊎ In load rest))
        (sym (loaded_lem i a rest l e))
        (
          λ m. elim m [
            | inl q ↦ inl (ld24_load_lem i a load (e ∙ ap some (sym q)))
            | inr n ↦ inr n
          ],
          λ h. elim h [
            | inl (v, q) ↦
                let same : some l ≡ some load =
                  sym e ∙ ap (λ k. ld24_load k a) (sym q) ∙ ld24_load_of a load v in
                inl (cc)
            | inr n ↦ inr n
          ],
        )
]

-- The loads from the place of the list on that the loop has reached.
abbrev pub IsLoadFrom : ℕ → List Instruction → ConstLoad → Type 0
IsLoadFrom i instrs load = (k : ℕ) × (load.index ≡ i + k) × IsLoadAt instrs k load

past_single :
    (i : ℕ) (a : Instruction) (rest : List Instruction) (loads : List ConstLoad) (load : ConstLoad)
    → ((b : Instruction) → get_elem? rest 0 ≡ some b → IsPair a b load → load.index ≡ i → ⊥)
    → In load loads ↔ IsLoadFrom (i + 1) rest load
    → In load (single i a loads) ↔ IsLoadFrom i (a ∷ rest) load
past_single i a rest loads load not_pair ih = (
  λ m. elim ((single_iff i a loads load).0 m) [
    | inl (v, q) ↦ (0, omega (arith, q), (a, refl, inl v))
    | inr n ↦ let (k, q, at) = ih.0 n in (suc k, omega (arith, q), at)
  ],
  back,
)
  where
    back : IsLoadFrom i (a ∷ rest) load → In load (single i a loads)
    back (zero, q, (c, e, inl v)) =
        let same : c ≡ a = cc in
        (single_iff i a loads load).1 (inl (subst (λ t. IsLd24 t load) same v, omega (arith, q)))
    back (zero, q, (c, e, inr (b, f, v))) =
        let same : c ≡ a = cc in
        absurd (not_pair b f (subst (λ t. IsPair t b load) same v) (omega (arith, q)))
    back (suc k, q, at) = (single_iff i a loads load).1 (inr (ih.1 (k, omega (arith, q), at)))

past_pair :
    (i : ℕ) (a b : Instruction) (rest : List Instruction) (loads : List ConstLoad)
    (l load : ConstLoad)
    → pair_load i a b ≡ some l
    → In load loads ↔ IsLoadFrom (i + 2) rest load
    → In load (l ∷ loads) ↔ IsLoadFrom i (a ∷ b ∷ rest) load
past_pair i a b rest loads l load h ih = (
  λ m. elim m [
    | inl q ↦
        let (v, at) = pair_load_lem i a b load (h ∙ ap some (sym q)) in
        (0, omega (arith, at), (a, refl, inr (b, refl, v)))
    | inr n ↦ let (k, q, at) = ih.0 n in (suc (suc k), omega (arith, q), at)
  ],
  back,
)
  where
    pair : IsPair a b l
    pair = (pair_load_lem i a b l h).0

    back : IsLoadFrom i (a ∷ b ∷ rest) load → In load (l ∷ loads)
    back (zero, q, (c, e, inl v)) =
        let same : c ≡ a = cc in
        absurd (high-ne-single a b l load pair (subst (λ t. IsLd24 t load) same v))
    back (zero, q, (c, e, inr (d, f, v))) =
        let same : c ≡ a = cc in
        let other : d ≡ b = cc in
        let w = subst (λ t. IsPair t b load) same (subst (λ t. IsPair c t load) other v) in
        let at : load.index ≡ i = omega (arith, q) in
        let both : some l ≡ some load =
          sym h ∙ ap (λ k. pair_load k a b) (sym at) ∙ pair_load_of a b load w in
        inl (cc)
    back (suc zero, q, (c, e, inl v)) =
        let same : c ≡ b = cc in
        absurd (low-ne-single a b l load pair (subst (λ t. IsLd24 t load) same v))
    back (suc zero, q, (c, e, inr (d, f, v))) =
        let same : c ≡ b = cc in
        absurd (low-ne-high a b d l load pair (subst (λ t. IsPair t d load) same v))
    back (suc (suc k), q, at) = inr (ih.1 (k, omega (arith, q), at))

pub collect_step :
    (i : ℕ) (a b : Instruction) (rest : List Instruction)
    → pair_load i a b ≡ none
    → collect_from i (a ∷ b ∷ rest) ≡ single i a (collect_from (i + 1) (b ∷ rest))
unfolding collect_from
collect_step i a b rest e = rw (e, collect_from) refl

pub collect_pair :
    (i : ℕ) (a b : Instruction) (rest : List Instruction) (l : ConstLoad)
    → pair_load i a b ≡ some l
    → collect_from i (a ∷ b ∷ rest) ≡ l ∷ collect_from (i + 2) rest
unfolding collect_from
collect_pair i a b rest l e = rw (e, collect_from) refl

pub collect_from_iff :
    (i : ℕ) (instrs : List Instruction) (load : ConstLoad)
    → In load (collect_from i instrs) ↔ IsLoadFrom i instrs load
unfolding collect_from
collect_from_iff i [] load = (λ m. absurd m, λ (k, q, (a, e, v)). cc)
collect_from_iff i (a ∷ []) load =
    past_single i a [] [] load (λ b e v q. cc) (λ m. absurd m, λ (k, q, (c, e, v)). cc)
collect_from_iff i (a ∷ b ∷ rest) load = elim (Option-cases (pair_load i a b)) [
  | inl e ↦
      subst (λ t. In load t ↔ IsLoadFrom i (a ∷ b ∷ rest) load) (sym (collect_step i a b rest e))
        (past_single i a (b ∷ rest) (collect_from (i + 1) (b ∷ rest)) load
          (λ c f v q.
            let same : c ≡ b = cc in
            cc (
              e,
              ap (λ k. pair_load k a b) (sym q)
                  ∙ pair_load_of a b load (subst (λ t. IsPair a t load) same v),
            ))
          (collect_from_iff (i + 1) (b ∷ rest) load))
  | inr (l, e) ↦
      subst (λ t. In load t ↔ IsLoadFrom i (a ∷ b ∷ rest) load) (sym (collect_pair i a b rest l e))
        (past_pair i a b rest (collect_from (i + 2) rest) l load e
          (collect_from_iff (i + 2) rest load))
]
