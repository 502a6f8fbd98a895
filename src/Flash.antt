-- ===== src/Flash.antt =====
-- rom_analyzer/flash_space.py: the runs of unprogrammed bytes in a flash image.
pub mod Runs
pub mod Stops
pub mod Align
mod Examples
use Prim.Native.Nat.{bit_and}
use rom_analyzer.Common.{
  ℕ, zero, suc, ◌+◌, ◌-◌, Bool, true, false, ◌&&◌, none, some, List, [], ◌∷◌, ◌++◌, ltb, leb, ◌==◌,
  nat_eq, if◌then◌else◌, get_elem?, length,
}
use rom_analyzer.Common.Int.{pos, leb_ℤ, ltb_ℤ}
use rom_analyzer.Types.{CrcBand, partial_crc, full_crc_only, unprotected, CrcRegion, FlashFreeBlock}

pub classify : ℕ → CrcRegion → CrcBand
classify start crc =
    if leb_ℤ crc.partial_start (pos start) && ltb_ℤ (pos start) crc.partial_end
    then partial_crc
    else if leb_ℤ crc.full_start (pos start) && ltb_ℤ (pos start) crc.partial_start
    then full_crc_only
    else unprotected

-- `i < n and rom[i] == value`
unfoldable pub byte_is : List ℕ → ℕ → ℕ → Bool
byte_is rom i value = elim (get_elem? rom i) [ none ↦ false | some b ↦ b == value ]

-- `e & ~(alignment - 1)`: the bits of the mask are taken off; `~(0 - 1)` is 0.
pub align_down : ℕ → ℕ → ℕ
align_down e alignment = if alignment == 0 then 0 else e - bit_and e (alignment - 1)

-- The inner loop, from `i` on: where the run ends.
pub run_end : List ℕ → ℕ → ℕ → ℕ → ℕ
run_end rom pad_value zero i = i
run_end rom pad_value (suc fuel) i = elim (byte_is rom i pad_value) [
  | true ↦ run_end rom pad_value fuel (i + 1)
  | false ↦ i
]

pub block : CrcRegion → ℕ → ℕ → FlashFreeBlock
block crc run_start aligned_end = record {
  band = classify run_start crc;
  start = run_start;
  end = aligned_end;
  length = aligned_end - run_start;
}

module _ (rom : List ℕ) (crc : CrcRegion) (min_length alignment pad_value : ℕ) where
  -- What one run appends to `blocks`; a difference of the source that may be negative is
  -- compared with both sides moved.
  pub emit : ℕ → ℕ → List FlashFreeBlock
  emit run_start e =
      let aligned_end = align_down e alignment in
      if ltb aligned_end (run_start + min_length) then [] else block crc run_start aligned_end ∷ []

  -- The outer loop, from `i` on; a fuel above the number of bytes left is enough.
  pub scan : ℕ → ℕ → List FlashFreeBlock
  scan zero i = []
  scan (suc fuel) i = elim (ltb i (length rom)) [
    | false ↦ []
    | true ↦ elim (byte_is rom i pad_value) [
      | false ↦ scan fuel (i + 1)
      | true ↦ let e = run_end rom pad_value (length rom) i in emit i e ++ scan fuel e
    ]
  ]

  pub find_free_blocks : List FlashFreeBlock
  find_free_blocks = scan (suc (length rom)) 0
