-- ===== src/Ram/Examples.antt =====
-- A run of rom_analyzer/ram_space.py, and its theorem at the same input.
use rom_analyzer.Common.{ℕ, ◌+◌, ◌≤◌, ◌≡◌, refl, ◌↔◌, List, [], ◌∷◌, In, Distinct, arith}
use rom_analyzer.Common.Sort.{sort, insert}
use rom_analyzer.Types.{RamFreeBlock}
use rom_analyzer.Ram.{in_ram, note, ram_block, blocks_of, referenced_ram, find_free_ram_blocks}
use rom_analyzer.Ram.Gaps.{IsGap, find_free_ram_blocks_iff}

-- One address stands outside RAM.
abbrev references : List ℕ
references = 0x804010 ∷ 0x1234 ∷ 0x804002 ∷ []

abbrev middle : RamFreeBlock
middle = record { start = 0x804003; end = 0x804010; length = 13; note = [] }

references-Distinct : Distinct references
references-Distinct =
    ((λ e. omega arith, (λ e. omega arith, tt)), ((λ e. omega arith, tt), (tt, tt)))

reference_gaps :
    find_free_ram_blocks references 4 1024 ≡ middle ∷ ram_block 1024 0x804011 0x820000 ∷ []
unfolding find_free_ram_blocks blocks_of referenced_ram ram_block note in_ram sort insert
reference_gaps = refl

find_free_ram_blocks_iff_example :
    In middle (find_free_ram_blocks references 4 1024)
    ↔ ((p : ℕ × ℕ) × IsGap references p.0 p.1 × (p.0 + 4 ≤ p.1) × (middle ≡ ram_block 1024 p.0 p.1))
find_free_ram_blocks_iff_example =
    find_free_ram_blocks_iff references references-Distinct 4 1024 middle
