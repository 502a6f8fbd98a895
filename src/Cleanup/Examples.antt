-- ===== src/Cleanup/Examples.antt =====
-- The theorems on rom_analyzer/cleanup.py at a store with a duplicate and an erased function.
use rom_analyzer.Common.{ℕ, ◌≡◌, ◌↔◌, none, List, [], ◌∷◌, In, Distinct}
use rom_analyzer.Common.Text.{Text, codes}
use rom_analyzer.Types.{high, data_symbol}
use rom_analyzer.Annotations.{AnnotationSymbol, AnnotationFunction, AnnotationStore}
use rom_analyzer.Cleanup.{drop_erased_flash_entries, dedup_symbol_names}
use rom_analyzer.Cleanup.Erased.{IsErased, drop_erased_flash_entries_iff}
use rom_analyzer.Cleanup.Names.{names, dedup_symbol_names-Distinct}

abbrev reset : AnnotationFunction
reset = record {
  name = codes "reset";
  entry_point = 2;
  confidence = high;
  source = codes "xml";
  verified_by = none;
  session = [];
  timestamp = [];
  return_type = none;
  params = [];
}

abbrev table : AnnotationSymbol
table = record {
  name = codes "reset";
  address = 4;
  category = data_symbol;
  data_type = none;
  confidence = high;
  source = codes "colt_s";
  verified_by = none;
  session = [];
  timestamp = [];
}

abbrev store : AnnotationStore
store = record {
  schema_version = 1;
  rom_id = codes "colt";
  rom_sha256 = [];
  symbols = table ∷ [];
  functions = reset ∷ [];
  struct_definitions = [];
  comments = [];
}

abbrev image : List ℕ
image = 0 ∷ 1 ∷ 0xff ∷ 0xff ∷ 2 ∷ []

drop_erased_flash_entries_iff_example :
    ((f : AnnotationFunction)
      → In f (drop_erased_flash_entries store image 2).0.functions
        ↔ (In f store.functions × (IsErased image 2 f.entry_point → ⊥)))
    × ((name : Text)
        → In name (drop_erased_flash_entries store image 2).1 ↔ (
            (f : AnnotationFunction) × In f store.functions
            × IsErased image 2 f.entry_point
            × (f.name ≡ name)))
drop_erased_flash_entries_iff_example = drop_erased_flash_entries_iff store image 2

dedup_symbol_names-Distinct_example : Distinct (names (dedup_symbol_names store).0)
dedup_symbol_names-Distinct_example = dedup_symbol_names-Distinct store
