-- ===== src/Crc/Examples.antt =====
-- The idiom of rom_analyzer/crc.py at the addresses of one ROM, and the theorems at that input.
use rom_analyzer.Common.{◌≡◌, ◌≢◌, ◌↔◌, true, List, arith}
use rom_analyzer.Common.Text.{Text, codes, lower}
use rom_analyzer.Common.Int.{pos}
use rom_analyzer.Types.{CrcRegion}
use rom_analyzer.Crc.{Instruction, extracted, without_spaces, extract_crc_region}
use rom_analyzer.Crc.Region.{IsRegion, extract_crc_region_iff}
use rom_analyzer.Crc.Idiom.{idiom, region, extract_crc_region-idiom}

abbrev r1 : Text
r1 = codes "R1"

abbrev r2 : Text
r2 = codes "R2"

-- The bound 0x5ffff is compared first, so the region ends at 0x60000.
abbrev code_at : List Instruction
code_at = idiom true r1 r2 0x5ffff 0 0x10000

abbrev bounds : CrcRegion
bounds = record {
  full_start = pos 0;
  full_end = pos 0x60000;
  partial_start = pos 0x10000;
  partial_end = pos 0x60000;
}

registers-ne : without_spaces (lower r1) ≢ without_spaces (lower r2)
unfolding without_spaces lower
registers-ne e = ground arith

extract_crc_region-idiom_example :
    extract_crc_region code_at ≡ extracted (region true r1 r2 0x5ffff 0 0x10000)
extract_crc_region-idiom_example =
    extract_crc_region-idiom true r1 r2 0x5ffff 0 0x10000 (omega arith) (omega arith) registers-ne

extract_crc_region_iff_example :
    (extract_crc_region code_at ≡ extracted bounds) ↔ IsRegion code_at bounds
extract_crc_region_iff_example = extract_crc_region_iff code_at bounds
