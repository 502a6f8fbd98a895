-- ===== src/Splice/Examples.antt =====
-- Runs of rom_analyzer/mode23_bindings.py, and its theorem at a concrete input.
use rom_analyzer.Common.{◌≡◌, refl, some, [], ◌∷◌}
use rom_analyzer.Common.Sort.{insert, max_by}
use rom_analyzer.Types.{low, medium, high}
use rom_analyzer.Splice.{
  resolve_unique_site, resolve_can_call_sites, slot12_name, slot15_name, decode_ldi_r0_before,
  resolve_nearest_site,
}
use rom_analyzer.Splice.Nearest.{IsNearest, resolve_nearest_site-IsNearest}

unique : resolve_unique_site (8 ∷ 4 ∷ 8 ∷ []) ≡ record { address = some 4; confidence = low }
unfolding resolve_unique_site insert
unique = refl

callers :
    (resolve_can_call_sites (0x40 ∷ 0x20 ∷ 0x40 ∷ []) ((0x20, some 1) ∷ (0x40, some 2) ∷ [])).0
    ≡ record { name = slot12_name; resolution = record { address = some 0x40; confidence = high } }
      ∷ record {
        name = slot15_name;
        resolution = record { address = some 0x20; confidence = high };
      }
      ∷ []
unfolding resolve_can_call_sites insert
callers = refl

-- The nearer 0x60 is inside an instruction of 32 bits.
immediate : decode_ldi_r0_before (0x60 ∷ 2 ∷ 0x80 ∷ 0 ∷ 0x60 ∷ 5 ∷ []) 6 12 ≡ some 2
unfolding decode_ldi_r0_before
immediate = refl

tie : resolve_nearest_site (12 ∷ 8 ∷ 30 ∷ []) 10 ≡ record { address = some 8; confidence = medium }
unfolding resolve_nearest_site insert max_by
tie = refl

resolve_nearest_site-IsNearest_example :
    IsNearest (12 ∷ 8 ∷ 30 ∷ []) 10 (resolve_nearest_site (12 ∷ 8 ∷ 30 ∷ []) 10)
resolve_nearest_site-IsNearest_example = resolve_nearest_site-IsNearest (12 ∷ 8 ∷ 30 ∷ []) 10
