-- ===== src/Callgraph/Decode.antt =====
-- The bytes that rom_analyzer/callgraph.py decodes: branches, vector table entries, and tables that are
-- found by their contents.
pub mod Branch
pub mod Find
use Prim.Native.Nat.{bit_and}
use rom_analyzer.Common.{
  ℕ, zero, suc, ◌+◌, ◌-◌, ◌*◌, ◌/◌, ◌%◌, Bool, true, false, not, ◌&&◌, ◌||◌, Option, none, some,
  List, [], ◌∷◌, ltb, leb, ◌==◌, nat_eq, if◌then◌else◌, length, get_elem?, drop, elem, any,
}
use rom_analyzer.Common.Int.{ℤ, pos, negsuc, sub_ℕ, ◌+ℤ◌, scale, leb_ℤ, ltb_ℤ}
use rom_analyzer.Common.Dict.{Dict}

-- The byte at an index that is in range; 0 outside, which no caller reads.
unfoldable pub byte : List ℕ → ℕ → ℕ
byte rom i = elim (get_elem? rom i) [ none ↦ 0 | some b ↦ b ]

-- The 24 bits as a number with a sign.
pub signed24 : ℕ → ℤ
signed24 disp24 = if leb 0x800000 disp24 then sub_ℕ disp24 0x1000000 else pos disp24

pub branch_target : List ℕ → ℕ → ℤ
branch_target rom p =
    pos p
    +ℤ scale (signed24 (byte rom (p + 1) * 0x10000 + byte rom (p + 2) * 0x100 + byte rom (p + 3))) 4

-- A target inside the image.
pub inside : ℕ → ℤ → Option ℕ
inside size (pos target) = if ltb 0 target && ltb target size then some target else none
inside size (negsuc _) = none

pub decode_bra_target : List ℕ → ℕ → Option ℕ
decode_bra_target rom p =
    if ltb (length rom) (p + 4)
    then none
    else if byte rom p == 0xff
    then inside (length rom) (branch_target rom p)
    else none

-- The big-endian word.
unfoldable pub word : List ℕ → ℕ → ℕ
word rom p =
    byte rom p * 0x1000000
    + byte rom (p + 1) * 0x10000
    + byte rom (p + 2) * 0x100
    + byte rom (p + 3)

pub decode_icu_entry : List ℕ → ℕ → Option ℕ
decode_icu_entry rom p =
    if ltb (length rom) (p + 4)
    then none
    else if word rom p == 0 || word rom p == 0xffffffff
    then none
    else if not (word rom p % 4 == 0)
    then none
    else if leb (length rom) (word rom p)
    then none
    else some (word rom p)

-- The last branch at `p`, `p + 4`, ... that leaves the function; `last` is what was found in front.
module _ (rom : List ℕ) (func_start end : ℕ) (exclude : List ℕ) where
  pub leaves : ℕ → Bool
  leaves target =
      not (leb func_start target && ltb target end)
      && leb 0x200 target
      && target % 4 == 0
      && not (elem target exclude)

  pub last_target : Option ℕ → Option ℕ → Option ℕ
  last_target last none = last
  last_target last (some target) = if leaves target then some target else last

  pub scan_bra : ℕ → ℕ → Option ℕ → Option ℕ
  scan_bra zero p last = last
  scan_bra (suc fuel) p last =
      let rest = scan_bra fuel (p + 4) (last_target last (decode_bra_target rom p)) in
      if ltb p end then rest else last

-- A size that is not positive leaves nothing to scan.
pub find_bra_tail_call : List ℕ → ℕ → ℕ → List ℕ → Option ℕ
find_bra_tail_call rom func_start func_size exclude =
    scan_bra rom func_start (func_start + func_size) exclude func_size func_start none

-- The test of find_mut_table_by_triplet at a candidate.
pub is_triplet : List ℕ → ℕ → Bool
is_triplet rom c =
    byte rom c == 0
    && byte rom (c + 1) == 0x80
    && byte rom (c + 4) == 0
    && byte rom (c + 5) == 0x80
    && byte rom (c + 8) == 0
    && byte rom (c + 9) == 0x80
    && byte rom (c + 6) == byte rom (c + 2)
    && byte rom (c + 10) == byte rom (c + 2)
    && byte rom (c + 7) == (byte rom (c + 3) + 1) % 0x100
    && byte rom (c + 11) == (byte rom (c + 3) + 3) % 0x100

pub scan_triplet : List ℕ → ℕ → ℕ → Option ℕ
scan_triplet rom zero c = none
scan_triplet rom (suc fuel) c =
    let rest = scan_triplet rom fuel (c + 4) in
    if ltb (c + 0x210) (length rom)
    then (if leb 0x200 c && is_triplet rom c then some (c - 0x200) else rest)
    else none

pub find_mut_table_by_triplet : List ℕ → Option ℕ
find_mut_table_by_triplet rom = scan_triplet rom (length rom) 0

-- `needle` stands at the front of the list.
pub matches_at : List ℕ → List ℕ → Bool
matches_at [] hay = true
matches_at (b ∷ needle) [] = false
matches_at (b ∷ needle) (c ∷ hay) = b == c && matches_at needle hay

-- `haystack.find(needle, p)`, from the bytes that are left at `p`.
pub find_in : List ℕ → List ℕ → ℕ → Option ℕ
find_in needle [] p = if matches_at needle [] then some p else none
find_in needle (b ∷ hay) p =
    if matches_at needle (b ∷ hay) then some p else find_in needle hay (suc p)

pub find_from : List ℕ → List ℕ → ℕ → Option ℕ
find_from haystack needle p =
    if leb p (length haystack) then find_in needle (drop p haystack) p else none

-- The place of a pattern that is there once.
pub find_once : List ℕ → List ℕ → Option ℕ
find_once haystack needle = elim (find_from haystack needle 0) [
  | none ↦ none
  | some p ↦ elim (find_from haystack needle (p + 1)) [ none ↦ some p | some q ↦ none ]
]
