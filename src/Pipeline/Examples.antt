-- ===== src/Pipeline/Examples.antt =====
-- Runs of rom_analyzer/pipeline, and its theorems at the same inputs.
use rom_analyzer.Common.{ℕ, ◌≡◌, refl, ◌⊎◌, false, none, some, List, [], ◌∷◌, In}
use rom_analyzer.Common.Text.{Text, codes, text_eq, hex}
use rom_analyzer.Common.Sort.{sort, insert}
use rom_analyzer.Common.PyInt.Base16.{int_base16}
use rom_analyzer.Types.Names.{as_tier}
use rom_analyzer.Annotations.Load.{load_annotations, as_address}
use rom_analyzer.Enrich.Gather.{merge_candidates, gather_candidates}
use rom_analyzer.Enrich.Classify.{classify, build_reconcile_items}
use rom_analyzer.Enrich.Names.{is_auto_name, is_generic}
use rom_analyzer.Enrich.Apply.{apply_verdicts}
use rom_analyzer.Common.Int.{pos}
use rom_analyzer.Common.Dict.{Dict, put}
use rom_analyzer.Types.{medium, high, MatchedFunction}
use rom_analyzer.Registry.{ReferenceEntry}
use rom_analyzer.Annotations.{AnnotationFunction, AnnotationStore}
use rom_analyzer.Annotations.Save.{save_annotations}
use rom_analyzer.Enrich.Reconcile.{write_reconcile}
use rom_analyzer.Pipeline.{Run, ReferenceMatchResult}
use rom_analyzer.Pipeline.Reference.{Inputs, raw_matches, with_reference, match_reference}
use rom_analyzer.Pipeline.OneToOne.{IsOneToOne, match_reference-IsOneToOne}
use rom_analyzer.Pipeline.Arbitrate.{Files, clean_up}
use rom_analyzer.Pipeline.Enrich.{Enriched, classify_and_apply}
use rom_analyzer.Pipeline.Targets.{IsWritten}
use rom_analyzer.Pipeline.Writes.{classify_and_apply-writes}

abbrev entry : Text → ReferenceEntry
entry id = record {
  id = id;
  json_path = id;
  rom_path = id;
  family = codes "colt";
  variant = [];
  priority = pos 1;
  features = [];
  notes = [];
}

abbrev match : ℕ → ℕ → MatchedFunction
match ref_address new_address = record {
  ref_name = [];
  ref_address = ref_address;
  new_address = new_address;
  similarity = 0x3ff0000000000000;
  source = codes "vt_diff";
  reference = [];
}

abbrev empty_run : Run
empty_run = record {
  dump = record { functions = []; symbols = []; callees = []; data_refs = [] };
  ram_refs = [];
  ram_data_refs = [];
}

-- Two matches for one function of the reference.
abbrev inputs : Inputs
inputs = record {
  is_self_diff = false;
  target_family = codes "colt";
  entry = entry (codes "old");
  ref_symbols = [];
  ref_run = some empty_run;
  new_run = empty_run;
  ref_bytes = [];
  rom_bytes = [];
  vt_matches = match 0x100 0x200 ∷ match 0x100 0x300 ∷ [];
}

match_reference-IsOneToOne_example :
    (r : ReferenceMatchResult) × (match_reference inputs ≡ some r)
    × IsOneToOne r.matches
    × ((m : MatchedFunction)
        → In m r.matches
        → (a : MatchedFunction) × (In a (raw_matches inputs) ⊎ In a r.sig_matches)
          × (with_reference (codes "old") a ≡ m))
match_reference-IsOneToOne_example = match_reference-IsOneToOne inputs

abbrev store : Text → List AnnotationFunction → AnnotationStore
store id functions = record {
  schema_version = 1;
  rom_id = id;
  rom_sha256 = [];
  symbols = [];
  functions = functions;
  struct_definitions = [];
  comments = [];
}

abbrev read_tps : AnnotationFunction
read_tps = record {
  name = codes "read_tps";
  entry_point = 0x100;
  confidence = high;
  source = [];
  verified_by = none;
  session = [];
  timestamp = [];
  return_type = none;
  params = [];
}

abbrev files : Files
files =
    (codes "old", save_annotations (store (codes "old") (read_tps ∷ [])))
    ∷ (codes "new", save_annotations (store (codes "new") []))
    ∷ []

abbrev by_id : Dict Text ReferenceEntry
by_id = (codes "new", entry (codes "new")) ∷ []

abbrev result : ReferenceMatchResult
result = record {
  entry = entry (codes "old");
  matches = match 0x100 0x200 ∷ [];
  propagated = [];
  ref_run = none;
  ref_symbols = [];
  data_labels = [];
  ram_labels = [];
  sig_matches = [];
  ram_labels_p2 = [];
  data_labels_p2 = [];
}

abbrev added : AnnotationFunction
added = record {
  name = codes "read_tps";
  entry_point = 0x200;
  confidence = medium;
  source = codes "xref:old";
  verified_by = none;
  session = [];
  timestamp = [];
  return_type = none;
  params = [];
}

-- The name is applied to the gap in the new reference.
abbrev after : Enriched
after = record {
  files =
      put files (codes "new") (save_annotations (clean_up (store (codes "new") (added ∷ [])) []));
  reconcile = write_reconcile [];
  total = 1;
}

applied :
    classify_and_apply
      (result ∷ [])
      (entry (codes "new"))
      []
      by_id
      []
      files
      ((codes "new", []) ∷ [])
      []
    ≡ some after
unfolding classify_and_apply save_annotations load_annotations sort insert as_address int_base16 hex
    as_tier merge_candidates gather_candidates put classify is_auto_name is_generic apply_verdicts
    build_reconcile_items
applied = refl

classify_and_apply-writes_example : IsWritten by_id files after.files after.total
classify_and_apply-writes_example =
    classify_and_apply-writes (result ∷ []) (entry (codes "new")) [] by_id [] files
      ((codes "new", []) ∷ []) [] after applied
