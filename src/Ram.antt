-- ===== src/Ram.antt =====
-- rom_analyzer/ram_space.py: the gaps between the RAM addresses that the program refers to.
pub mod Gaps
pub mod Bounds
mod Examples
use rom_analyzer.Common.{
  ℕ, ◌+◌, ◌-◌, Bool, ◌&&◌, List, [], ◌∷◌, ◌++◌, map, ltb, leb, if◌then◌else◌, filter, zip,
}
use rom_analyzer.Common.Text.{Text, codes}
use rom_analyzer.Common.Sort.{sort, by_key}
use rom_analyzer.Types.{RamFreeBlock}

abbrev pub ram_start : ℕ
ram_start = 0x804000

abbrev pub ram_end : ℕ
ram_end = 0x820000

pub in_ram : ℕ → Bool
in_ram a = leb ram_start a && ltb a ram_end

pub note : ℕ → ℕ → Text
note large_gap_threshold length =
    if leb large_gap_threshold length
    then codes "suspicious_large_gap — possible stack/DMA region, verify"
    else []

pub ram_block : ℕ → ℕ → ℕ → RamFreeBlock
ram_block large_gap_threshold gs ge = record {
  start = gs;
  end = ge;
  length = ge - gs;
  note = note large_gap_threshold (ge - gs);
}

-- The loop over the pairs of boundaries; `ge - gs < min_length` is compared with `gs` moved.
pub blocks_of : ℕ → ℕ → List (ℕ × ℕ) → List RamFreeBlock
blocks_of min_length large_gap_threshold [] = []
blocks_of min_length large_gap_threshold ((gs, ge) ∷ pairs) =
    let rest = blocks_of min_length large_gap_threshold pairs in
    if ltb ge (gs + min_length) then rest else ram_block large_gap_threshold gs ge ∷ rest

-- `sorted(a for a in referenced if RAM_START <= a < RAM_END)`; a set is a list with no value twice.
pub referenced_ram : List ℕ → List ℕ
referenced_ram referenced = sort (by_key (λ a. a)) (filter in_ram referenced)

pub find_free_ram_blocks : List ℕ → ℕ → ℕ → List RamFreeBlock
find_free_ram_blocks referenced min_length large_gap_threshold =
    let in_range = referenced_ram referenced in
    blocks_of min_length large_gap_threshold
      (zip (ram_start ∷ map (λ a. a + 1) in_range) (in_range ++ ram_end ∷ []))
