-- ===== src/Registry/Examples.antt =====
-- The theorems on rom_analyzer/registry.py at a registry of two references.
use rom_analyzer.Common.{◌≡◌, ◌↔◌, Bool, true, some, none, List, [], ◌∷◌, In, Pointwise}
use rom_analyzer.Common.Text.{Text, codes}
use rom_analyzer.Common.Int.{pos, ℤ_eq}
use rom_analyzer.Registry.{ReferenceEntry, RawEntry, loaded, load_registry, select_references}
use rom_analyzer.Registry.Select.{IsWanted, select_references_iff}
use rom_analyzer.Registry.Load.{IsEntryOf, load_registry_iff}

abbrev colt : ReferenceEntry
colt = record {
  id = codes "colt";
  json_path = codes "reference/colt.json";
  rom_path = codes "roms/colt.bin";
  family = codes "m32186";
  variant = codes "m32r";
  priority = pos 100;
  features = [];
  notes = [];
}

abbrev z27ag : ReferenceEntry
z27ag = record colt { id = codes "z27ag"; priority = pos 50 }

abbrev entries : List ReferenceEntry
entries = z27ag ∷ colt ∷ []

select_references_iff_example :
    In colt (select_references entries (codes "m32r") [] (codes "z27ag" ∷ []))
    ↔ (In colt entries × IsWanted (codes "m32r") [] (codes "z27ag" ∷ []) colt)
select_references_iff_example =
    select_references_iff entries (codes "m32r") [] (codes "z27ag" ∷ []) colt

abbrev raw_colt : RawEntry
raw_colt = record {
  id = some (codes "colt");
  json = some (codes "colt.json");
  rom = some (codes "colt.bin");
  family = some (codes "m32186");
  variant = some (codes "m32r");
  priority = some (pos 100);
  features = none;
  notes = none;
}

abbrev all_exist : Text → Bool
all_exist path = true

load_registry_iff_example :
    (load_registry all_exist (codes "reference") (codes "roms") (raw_colt ∷ [])
      ≡ loaded (colt ∷ []))
    ↔ Pointwise (IsEntryOf all_exist (codes "reference") (codes "roms")) (raw_colt ∷ []) (colt ∷ [])
load_registry_iff_example =
    load_registry_iff all_exist (codes "reference") (codes "roms") (raw_colt ∷ []) (colt ∷ [])
