-- ===== src/Crc/Operands.antt =====
-- The operands of the loads that _collect_constants of rom_analyzer/crc.py recognises.
use rom_analyzer.Common.{
  ℕ, ◌≡◌, refl, inl, inr, some, List, [], ◌∷◌, ◌==◌, ◌&&◌, arith, Option-cases, Bool-cases,
}
use rom_analyzer.Common.Text.{Text, codes, lower, text_eq, text_beq_iff}
use rom_analyzer.Common.Int.{ℤ}
use rom_analyzer.Crc.{
  Instruction, ConstLoad, has_mnemonic, parse_imm, pair_value, pair_load, ld24_load, pair_operands,
  ld24_operands,
}

-- LD24 with a register and an immediate.
pub record IsLd24 (a : Instruction) (load : ConstLoad) : Type 0 where
  pub mnemonic : lower a.mnemonic ≡ codes "ld24"
  pub register : Text
  pub immediate : Text
  pub more : List Text
  pub operands : a.operands ≡ register ∷ immediate ∷ more
  pub value : parse_imm immediate ≡ some load.value
  pub reg : load.reg ≡ lower register
  pub width : load.width ≡ 1

-- SETH and the ADD3 behind it, which load the two halves of a value into one register.
pub record IsPair (a b : Instruction) (load : ConstLoad) : Type 0 where
  pub high_mnemonic : lower a.mnemonic ≡ codes "seth"
  pub low_mnemonic : lower b.mnemonic ≡ codes "add3"
  pub register : Text
  pub target : Text
  pub source : Text
  pub high : Text
  pub low : Text
  pub more_high : List Text
  pub more_low : List Text
  pub high_operands : a.operands ≡ register ∷ high ∷ more_high
  pub low_operands : b.operands ≡ target ∷ source ∷ low ∷ more_low
  pub same_target : lower register ≡ lower target
  pub same_source : lower target ≡ lower source
  pub high_value : ℤ
  pub low_value : ℤ
  pub high_reads : parse_imm high ≡ some high_value
  pub low_reads : parse_imm low ≡ some low_value
  pub value : load.value ≡ pair_value high_value low_value
  pub reg : load.reg ≡ lower register
  pub width : load.width ≡ 2

ld24_operands_lem :
    (i : ℕ) (a : Instruction) (os : List Text) (load : ConstLoad)
    → a.operands ≡ os
    → lower a.mnemonic ≡ codes "ld24"
    → ld24_operands i os ≡ some load
    → IsLd24 a load × (load.index ≡ i)
unfolding ld24_operands
ld24_operands_lem i a [] load e n h = cc
ld24_operands_lem i a (r ∷ []) load e n h = cc
ld24_operands_lem i a (r ∷ imm ∷ more) load e n h = elim (Option-cases (parse_imm imm)) [
  | inl p ↦ absurd (ground arith)
  | inr (v, p) ↦ (
    record {
      mnemonic = n;
      register = r;
      immediate = imm;
      more = more;
      operands = e;
      value = ground arith;
      reg = ground arith;
      width = ground arith;
    },
    ground arith,
  )
]

pub ld24_load_lem :
    (i : ℕ) (a : Instruction) (load : ConstLoad)
    → ld24_load i a ≡ some load
    → IsLd24 a load × (load.index ≡ i)
unfolding ld24_load has_mnemonic
ld24_load_lem i a load h = elim (Bool-cases (lower a.mnemonic == codes "ld24")) [
  | inl e ↦
      ld24_operands_lem i a a.operands load refl
        ((text_beq_iff (lower a.mnemonic) (codes "ld24")).0 e) (ground arith)
  | inr e ↦ absurd (ground arith)
]

pub ld24_load_of :
    (a : Instruction) (load : ConstLoad) → IsLd24 a load → ld24_load load.index a ≡ some load
unfolding ld24_load has_mnemonic ld24_operands
ld24_load_of a load v =
    let m = (text_beq_iff (lower a.mnemonic) (codes "ld24")).1 v.mnemonic in
    ground (arith, m, v.operands, v.value, v.reg, v.width)

pair_operands_lem :
    (i : ℕ) (a b : Instruction) (os ps : List Text) (load : ConstLoad)
    → a.operands ≡ os
    → b.operands ≡ ps
    → lower a.mnemonic ≡ codes "seth"
    → lower b.mnemonic ≡ codes "add3"
    → pair_operands i os ps ≡ some load
    → IsPair a b load × (load.index ≡ i)
unfolding pair_operands
pair_operands_lem i a b (r ∷ high ∷ more) (t ∷ s ∷ low ∷ more_low) load e f m n h =
    elim (Option-cases (parse_imm high)) [
      | inl p ↦ absurd (ground arith)
      | inr (u, p) ↦ elim (Option-cases (parse_imm low)) [
        | inl q ↦ absurd (ground arith)
        | inr (v, q) ↦ elim (Bool-cases (lower r == lower t && lower t == lower s)) [
          | inr w ↦ absurd (ground arith)
          | inl w ↦ (
            record {
              high_mnemonic = m;
              low_mnemonic = n;
              register = r;
              target = t;
              source = s;
              high = high;
              low = low;
              more_high = more;
              more_low = more_low;
              high_operands = e;
              low_operands = f;
              same_target = (text_beq_iff (lower r) (lower t)).0 (ground arith);
              same_source = (text_beq_iff (lower t) (lower s)).0 (ground arith);
              high_value = u;
              low_value = v;
              high_reads = p;
              low_reads = q;
              value = ground arith;
              reg = ground arith;
              width = ground arith;
            },
            ground arith,
          )
        ]
      ]
    ]
pair_operands_lem i a b _ _ load e f m n h = cc

pub pair_load_lem :
    (i : ℕ) (a b : Instruction) (load : ConstLoad)
    → pair_load i a b ≡ some load
    → IsPair a b load × (load.index ≡ i)
unfolding pair_load has_mnemonic
pair_load_lem i a b load h =
    elim (Bool-cases (lower a.mnemonic == codes "seth" && lower b.mnemonic == codes "add3")) [
      | inl e ↦
          pair_operands_lem i a b a.operands b.operands load refl refl
            ((text_beq_iff (lower a.mnemonic) (codes "seth")).0 (ground arith))
            ((text_beq_iff (lower b.mnemonic) (codes "add3")).0 (ground arith)) (ground arith)
      | inr e ↦ absurd (ground arith)
    ]

pub pair_load_of :
    (a b : Instruction) (load : ConstLoad) → IsPair a b load → pair_load load.index a b ≡ some load
unfolding pair_load has_mnemonic pair_operands
pair_load_of a b load v =
    let m = (text_beq_iff (lower a.mnemonic) (codes "seth")).1 v.high_mnemonic in
    let n = (text_beq_iff (lower b.mnemonic) (codes "add3")).1 v.low_mnemonic in
    let x = (text_beq_iff (lower v.register) (lower v.target)).1 v.same_target in
    let y = (text_beq_iff (lower v.target) (lower v.source)).1 v.same_source in
    ground (
      arith, m, n, x, y, v.high_operands, v.low_operands, v.high_reads, v.low_reads, v.value, v.reg,
      v.width,
    )
