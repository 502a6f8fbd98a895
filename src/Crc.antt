-- ===== src/Crc.antt =====
-- rom_analyzer/crc.py: the constants that rom_crc_check_step loads, and the CRC region they bound.
pub mod Constants
pub mod Operands
pub mod Collect
pub mod Loads
pub mod Window
pub mod Bounded
pub mod Region
pub mod Idiom
mod Examples
use rom_analyzer.Common.{
  ℕ, ◌+◌, ◌-◌, ◌%◌, Bool, true, false, ◌&&◌, ◌||◌, Option, none, some, List, [], ◌∷◌, leb, ◌==◌,
  nat_eq, if◌then◌else◌, take, drop, filter, any, map,
}
use rom_analyzer.Common.Text.{Text, codes, lower, text_eq}
use rom_analyzer.Common.Dict.Counter.{counter}
use rom_analyzer.Common.Sort.{max_by}
use rom_analyzer.Common.Int.{ℤ, pos, negsuc, ◌+ℤ◌, sub_ℕ, scale, leb_ℤ, ltb_ℤ, ℤ_eq}
use rom_analyzer.Common.PyInt.{strip, strip_left, int_base0}
use rom_analyzer.Types.{CrcRegion}

-- The messages of CrcExtractionError, without the values that they print.
pub data CrcExtractionError : Type 0 where
  no_loads no_repeated_value too_few_starts reversed_branches : CrcExtractionError

pub data Extraction : Type 0 where
  extracted : CrcRegion → Extraction
  failed : CrcExtractionError → Extraction

pub record Instruction : Type 0 where
  pub mnemonic : Text
  pub operands : List Text

pub record ConstLoad : Type 0 where
  pub index : ℕ
  pub value : ℤ
  pub reg : Text
  pub width : ℕ

pub has_mnemonic : Instruction → Text → Bool
has_mnemonic a name = lower a.mnemonic == name

pub parse_imm : Text → Option ℤ
parse_imm operand = int_base0 (strip (strip_left (λ c. c == b'#') operand))

-- `n & 0xFFFF`, of the two's complement if n is negative.
pub low16 : ℤ → ℕ
low16 (pos n) = n % 0x10000
low16 (negsuc n) = 0xffff - n % 0x10000

pub sign_extend16 : ℕ → ℤ
sign_extend16 l16 = if leb 0x8000 l16 then sub_ℕ l16 0x10000 else pos l16

-- `(h << 16) + l_sext`
pub pair_value : ℤ → ℤ → ℤ
pair_value h l_raw = scale h 0x10000 +ℤ sign_extend16 (low16 l_raw)

-- The operands of a SETH and of the ADD3 behind it, if they load one register.
pub pair_operands : ℕ → List Text → List Text → Option ConstLoad
pair_operands i (r ∷ high ∷ _) (r' ∷ r'' ∷ low ∷ _) =
    if lower r == lower r' && lower r' == lower r''
    then elim (parse_imm high) [
      | none ↦ none
      | some h ↦ elim (parse_imm low) [
        | none ↦ none
        | some l ↦ some (record { index = i; value = pair_value h l; reg = lower r; width = 2 })
      ]
    ]
    else none
pair_operands i _ _ = none

pub pair_load : ℕ → Instruction → Instruction → Option ConstLoad
pair_load i a b =
    if has_mnemonic a (codes "seth") && has_mnemonic b (codes "add3")
    then pair_operands i a.operands b.operands
    else none

pub ld24_operands : ℕ → List Text → Option ConstLoad
ld24_operands i (r ∷ imm ∷ _) = elim (parse_imm imm) [
  | none ↦ none
  | some v ↦ some (record { index = i; value = v; reg = lower r; width = 1 })
]
ld24_operands i _ = none

pub ld24_load : ℕ → Instruction → Option ConstLoad
ld24_load i a = if has_mnemonic a (codes "ld24") then ld24_operands i a.operands else none

-- An instruction that begins no pair.
pub single : ℕ → Instruction → List ConstLoad → List ConstLoad
single i a rest = elim (ld24_load i a) [ none ↦ rest | some load ↦ load ∷ rest ]

-- The loop of _collect_constants from index `i` on, over the instructions that are left.
pub collect_from : ℕ → List Instruction → List ConstLoad
collect_from i [] = []
collect_from i (a ∷ []) = single i a []
collect_from i (a ∷ b ∷ rest) = elim (pair_load i a b) [
  | some load ↦ load ∷ collect_from (i + 2) rest
  | none ↦ single i a (collect_from (i + 1) (b ∷ rest))
]

pub collect_constants : List Instruction → List ConstLoad
collect_constants = collect_from 0

-- The four instructions behind a load.
pub window : List Instruction → ConstLoad → List Instruction
window instrs load = take 4 (drop (load.index + load.width) instrs)

-- `s.replace(" ", "")`
pub without_spaces : Text → Text
without_spaces = filter (λ c. if c == b' ' then false else true)

pub first_operand_is : Text → List Text → Bool
first_operand_is reg (r ∷ _ ∷ _) = without_spaces (lower r) == without_spaces reg
first_operand_is reg _ = false

pub is_compare : Instruction → Bool
is_compare a = has_mnemonic a (codes "cmpu") || has_mnemonic a (codes "cmp")

-- The first comparison in the window decides; the bound is the default.
pub end_in_window : Text → ℤ → List Instruction → ℤ
end_in_window reg end_bound [] = end_bound
end_in_window reg end_bound (a ∷ rest) =
    if is_compare a
    then (if first_operand_is reg a.operands then end_bound +ℤ pos 1 else end_bound)
    else end_in_window reg end_bound rest

-- The first load of the bound is the only one inspected.
pub find_exclusive_end : List Instruction → List ConstLoad → ℤ → ℤ
find_exclusive_end instrs [] end_bound = end_bound
find_exclusive_end instrs (load ∷ loads) end_bound =
    if load.value == end_bound
    then end_in_window load.reg end_bound (window instrs load)
    else find_exclusive_end instrs loads end_bound

pub repeated_values : List ConstLoad → List ℤ
repeated_values loads =
    map (λ p. p.0) (filter (λ p. leb 2 p.1) (counter (map (λ load. load.value) loads)))

pub is_stored : List Instruction → ConstLoad → Bool
is_stored instrs load = any (λ a. has_mnemonic a (codes "st")) (window instrs load)

pub start_values : List Instruction → List ConstLoad → ℤ → List ℤ
start_values instrs loads end_bound =
    map (λ load. load.value)
      (filter (λ load. (if load.value == end_bound then false else is_stored instrs load)) loads)

pub region_of : ℤ → List ℤ → Extraction
region_of exclusive_end (full_start ∷ partial_start ∷ _) =
    if ltb_ℤ partial_start full_start
    then failed reversed_branches
    else extracted (record {
      full_start = full_start;
      full_end = exclusive_end;
      partial_start = partial_start;
      partial_end = exclusive_end;
    })
region_of exclusive_end _ = failed too_few_starts

pub extract_with : List Instruction → List ConstLoad → List ℤ → Extraction
extract_with instrs loads [] = failed no_repeated_value
extract_with instrs loads (v ∷ vs) =
    let end_bound = max_by leb_ℤ v vs in
    region_of (find_exclusive_end instrs loads end_bound) (start_values instrs loads end_bound)

pub extract_from : List Instruction → List ConstLoad → Extraction
extract_from instrs [] = failed no_loads
extract_from instrs (load ∷ loads) =
    extract_with instrs (load ∷ loads) (repeated_values (load ∷ loads))

pub extract_crc_region : List Instruction → Extraction
extract_crc_region instrs = extract_from instrs (collect_constants instrs)
