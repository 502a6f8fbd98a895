-- ===== src/Annotations/Examples.antt =====
-- A run of rom_analyzer/annotations_io.py, and its theorem at the same input.
use rom_analyzer.Common.{ℕ, ◌≡◌, none, some, [], ◌∷◌}
use rom_analyzer.Common.Text.{Text, codes}
use rom_analyzer.Types.{ram_global, verified}
use rom_analyzer.Annotations.{AnnotationSymbol, AnnotationStore}
use rom_analyzer.Annotations.Load.{load_annotations}
use rom_analyzer.Annotations.Save.{save_annotations, sorted_store}
use rom_analyzer.Annotations.RoundTrip.{load_annotations-save}

abbrev symbol : Text → ℕ → AnnotationSymbol
symbol name address = record {
  name = name;
  address = address;
  category = ram_global;
  data_type = none;
  confidence = verified;
  source = [];
  verified_by = some (codes "probe");
  session = [];
  timestamp = [];
}

abbrev store : AnnotationStore
store = record {
  schema_version = 1;
  rom_id = codes "33520003";
  rom_sha256 = [];
  symbols = symbol (codes "load") 0x804002 ∷ symbol (codes "rpm") 0x804000 ∷ [];
  functions = [];
  struct_definitions = [];
  comments = [];
}

load_annotations-save_example :
    (load_annotations (save_annotations store) ≡ some (sorted_store store))
    × (load_annotations (save_annotations (sorted_store store))
        ≡ load_annotations (save_annotations store))
load_annotations-save_example = load_annotations-save store
