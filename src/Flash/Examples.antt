-- ===== src/Flash/Examples.antt =====
-- Runs of rom_analyzer/flash_space.py, and its theorems at one image.
use rom_analyzer.Common.{ℕ, ◌≤◌, ◌≡◌, refl, ◌↔◌, List, [], ◌∷◌, In, Pairwise}
use rom_analyzer.Common.Int.{pos}
use rom_analyzer.Types.{CrcRegion, FlashFreeBlock, full_crc_only, partial_crc}
use rom_analyzer.Flash.{byte_is, classify, align_down, run_end, block, emit, scan, find_free_blocks}
use rom_analyzer.Flash.Runs.{IsBlock, find_free_blocks_iff, find_free_blocks-ordered}

abbrev region : CrcRegion
region = record {
  full_start = pos 0;
  full_end = pos 16;
  partial_start = pos 8;
  partial_end = pos 16;
}

-- Two runs, at 1 and at 8; the second is cut down to 12.
abbrev image : List ℕ
image = 0 ∷ 255 ∷ 255 ∷ 255 ∷ 255 ∷ 0 ∷ 255 ∷ 0 ∷ 255 ∷ 255 ∷ 255 ∷ 255 ∷ 255 ∷ 255 ∷ []

abbrev first_block : FlashFreeBlock
first_block = record { band = full_crc_only; start = 1; end = 4; length = 3 }

abbrev second_block : FlashFreeBlock
second_block = record { band = partial_crc; start = 8; end = 12; length = 4 }

image_blocks : find_free_blocks image region 3 4 255 ≡ first_block ∷ second_block ∷ []
unfolding find_free_blocks scan emit run_end block classify align_down byte_is
image_blocks = refl

find_free_blocks_iff_example :
    In second_block (find_free_blocks image region 3 4 255)
    ↔ IsBlock image region 3 4 255 second_block
find_free_blocks_iff_example = find_free_blocks_iff image region 3 4 255 second_block

find_free_blocks-ordered_example :
    Pairwise (λ (a b : FlashFreeBlock). a.end ≤ b.start) (find_free_blocks image region 3 4 255)
find_free_blocks-ordered_example = find_free_blocks-ordered image region 3 4 255
