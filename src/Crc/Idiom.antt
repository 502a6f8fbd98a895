-- ===== src/Crc/Idiom.antt =====
-- rom_analyzer/crc.py on the idiom that it looks for, whatever its addresses and registers.
use rom_analyzer.Common.{
  ℕ, ◌+◌, ◌≤◌, ◌<◌, ◌≡◌, ◌≢◌, refl, sym, ◌∙◌, Bool, true, false, none, some, List, [], ◌∷◌, arith,
  nat_eq, if◌then◌else◌, count, map,
}
use rom_analyzer.Common.Text.{Text, codes, lower, text_eq, text_beq_iff}
use rom_analyzer.Common.Int.{ℤ, pos, ◌+ℤ◌, ◌≤ℤ◌, ℤ_eq}
use rom_analyzer.Common.PyInt.Print.{hex_literal}
use rom_analyzer.Types.{CrcRegion}
use rom_analyzer.Crc.{
  Instruction, ConstLoad, extracted, pair_load, ld24_load, ld24_operands, single, collect_from,
  collect_constants, without_spaces, extract_crc_region, has_mnemonic, start_values,
  find_exclusive_end, is_stored, window, end_in_window, first_operand_is, is_compare,
}
use rom_analyzer.Crc.Bounded.{region_bounds_iff}
use rom_analyzer.Crc.Constants.{parse_imm-hex}

-- `ld24 reg, #0x<value>`
ld24_of : Text → ℕ → Instruction
ld24_of reg value = record {
  mnemonic = codes "ld24";
  operands = reg ∷ (b'#' ∷ hex_literal value) ∷ [];
}

store : Text → Instruction
store reg = record { mnemonic = codes "st"; operands = reg ∷ codes "@(-8360,fp)" ∷ [] }

compare_of : Text → Text → Instruction
compare_of a b = record { mnemonic = codes "cmpu"; operands = a ∷ b ∷ [] }

branch : Instruction
branch = record { mnemonic = codes "bc"; operands = codes "LAB" ∷ [] }

test : Bool → Text → Text → Instruction
test first bound ptr = if first then compare_of bound ptr else compare_of ptr bound

-- The two branches of the mode test: each compares the pointer with the end bound, and stores the
-- start to wrap around to; `first` says which operand the bound is.
pub idiom : Bool → Text → Text → ℕ → ℕ → ℕ → List Instruction
idiom first bound ptr end_bound full_start partial_start =
    ld24_of bound end_bound
    ∷ test first bound ptr
    ∷ branch
    ∷ ld24_of ptr full_start
    ∷ store ptr
    ∷ branch
    ∷ ld24_of bound end_bound
    ∷ test first bound ptr
    ∷ branch
    ∷ ld24_of ptr partial_start
    ∷ store ptr
    ∷ []

pub load_of : ℕ → Text → ℕ → ConstLoad
load_of i reg value = record { index = i; value = pos value; reg = lower reg; width = 1 }

ld24_load_of :
    (i : ℕ) (reg : Text) (value : ℕ) → ld24_load i (ld24_of reg value) ≡ some (load_of i reg value)
ld24_load_of i reg value = named ∙ read
  where
    named :
        ld24_load i (ld24_of reg value) ≡ ld24_operands i (reg ∷ (b'#' ∷ hex_literal value) ∷ [])
    named = unfold ld24_load ld24_of has_mnemonic lower in refl

    read : ld24_operands i (reg ∷ (b'#' ∷ hex_literal value) ∷ []) ≡ some (load_of i reg value)
    read = unfold ld24_operands load_of in ground (arith, parse_imm-hex value)

-- An instruction that is neither a SETH nor an LD24.
abbrev IsOther : Instruction → Type 0
IsOther a = (has_mnemonic a (codes "seth") ≡ false) × (has_mnemonic a (codes "ld24") ≡ false)

collect-other :
    (i : ℕ) (a : Instruction) (rest : List Instruction)
    → IsOther a
    → collect_from i (a ∷ rest) ≡ collect_from (i + 1) rest
unfolding collect_from single pair_load ld24_load
collect-other i a [] h = ground arith
collect-other i a (b ∷ rest) h = ground arith

collect-ld24 :
    (i : ℕ) (reg : Text) (value : ℕ) (rest : List Instruction)
    → collect_from i (ld24_of reg value ∷ rest) ≡ load_of i reg value ∷ collect_from (i + 1) rest
unfolding collect_from single
collect-ld24 i reg value [] = ground (arith, ld24_load_of i reg value)
collect-ld24 i reg value (b ∷ rest) = ground (arith, ld24_load_of i reg value, no_pair)
  where
    no_pair : pair_load i (ld24_of reg value) b ≡ none
    no_pair = unfold pair_load ld24_of has_mnemonic lower in refl

store-IsOther : (reg : Text) → IsOther (store reg)
unfolding store has_mnemonic lower
store-IsOther reg = (refl, refl)

branch-IsOther : IsOther branch
unfolding branch has_mnemonic lower
branch-IsOther = (refl, refl)

test-IsOther : (first : Bool) (bound ptr : Text) → IsOther (test first bound ptr)
unfolding test compare_of has_mnemonic lower
test-IsOther true bound ptr = (refl, refl)
test-IsOther false bound ptr = (refl, refl)

store-has_mnemonic : (reg : Text) → has_mnemonic (store reg) (codes "st") ≡ true
unfolding store has_mnemonic lower
store-has_mnemonic reg = refl

test-is_compare : (first : Bool) (bound ptr : Text) → is_compare (test first bound ptr) ≡ true
unfolding is_compare test compare_of has_mnemonic lower
test-is_compare true bound ptr = refl
test-is_compare false bound ptr = refl

-- The first operand is the bound's register exactly where the bound is compared first.
test-first_operand_is :
    (first : Bool) (bound ptr : Text)
    → without_spaces (lower bound) ≢ without_spaces (lower ptr)
    → first_operand_is (lower bound) (test first bound ptr).operands ≡ first
unfolding first_operand_is test compare_of
test-first_operand_is true bound ptr h =
    (text_beq_iff (without_spaces (lower bound)) (without_spaces (lower bound))).1 refl
test-first_operand_is false bound ptr h =
    ground (arith, text_beq_iff (without_spaces (lower ptr)) (without_spaces (lower bound)))

module _ (first : Bool) (bound ptr : Text) (e f p : ℕ) where
  abbrev pub idiom_loads : List ConstLoad
  idiom_loads = load_of 0 bound e ∷ load_of 3 ptr f ∷ load_of 6 bound e ∷ load_of 9 ptr p ∷ []

  pub collect-idiom : collect_constants (idiom first bound ptr e f p) ≡ idiom_loads
  unfolding collect_constants idiom load_of collect_from
  collect-idiom = simp (collect-ld24, collect-other, store-IsOther, branch-IsOther, test-IsOther)

  abbrev pub region : CrcRegion
  region =
      let stop = if first then pos e +ℤ pos 1 else pos e in
      record { full_start = pos f; full_end = stop; partial_start = pos p; partial_end = stop }

  module _ (le : f ≤ p) (lt : p < e) where
    idiom-starts :
        start_values (idiom first bound ptr e f p) idiom_loads (pos e) ≡ pos f ∷ pos p ∷ []
    unfolding start_values is_stored window idiom load_of
    idiom-starts = ground (arith, store-has_mnemonic ptr)

    idiom-repeated : 2 ≤ count (pos e) (map (λ load. load.value) idiom_loads)
    unfolding load_of
    idiom-repeated = ground arith

    idiom-greatest : (v : ℤ) → 2 ≤ count v (map (λ load. load.value) idiom_loads) → v ≤ℤ pos e
    unfolding load_of
    idiom-greatest v h = ground arith

    idiom-end :
        without_spaces (lower bound) ≢ without_spaces (lower ptr)
        → find_exclusive_end (idiom first bound ptr e f p) idiom_loads (pos e) ≡ region.full_end
    unfolding find_exclusive_end end_in_window window idiom load_of
    idiom-end h =
        ground (arith, test-is_compare first bound ptr, test-first_operand_is first bound ptr h)

    -- The idiom is recognised whatever its addresses, registers and operand order: a bound that is
    -- compared first is the last protected address, and one that is compared second is the end.
    pub extract_crc_region-idiom :
        without_spaces (lower bound) ≢ without_spaces (lower ptr)
        → extract_crc_region (idiom first bound ptr e f p) ≡ extracted region
    extract_crc_region-idiom h =
        let instrs = idiom first bound ptr e f p in
        (region_bounds_iff instrs region).1 (record {
          end_bound = pos e;
          repeated = rw collect-idiom idiom-repeated;
          greatest = λ v h. idiom-greatest v (rw collect-idiom at h);
          others = [];
          starts = rw collect-idiom idiom-starts;
          full = rw collect-idiom (sym (idiom-end h));
          partial = refl;
          ordered = omega arith;
        })
