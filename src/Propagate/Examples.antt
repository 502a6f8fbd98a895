-- ===== src/Propagate/Examples.antt =====
-- The theorems on rom_analyzer/propagate.py at a match that names a function.
use rom_analyzer.Common.{◌≤◌, ◌≡◌, ◌≢◌, ◌↔◌, refl, inl, inr, true, false, [], ◌∷◌, In}
use rom_analyzer.Common.Text.{codes}
use rom_analyzer.Common.Int.{pos}
use rom_analyzer.Types.{
  ReferenceSymbol, MatchedFunction, PropagatedSymbol, function, ram_global, high, low,
}
use rom_analyzer.Merge.{Priorities, confidence_rank}
use rom_analyzer.Merge.Symbols.{arbitrate_symbols_iff}
use rom_analyzer.Common.Sort.{max_by}
use rom_analyzer.Propagate.{
  apply_reference_provenance, with_provenance, is_risky, function_label, propagate_function_labels,
}
use rom_analyzer.Propagate.Labels.{IsLabel, propagate_function_labels_iff}
use rom_analyzer.Propagate.Provenance.{Proposals, all_proposals, arbitrate_symbols-foreign}

abbrev main_symbol : ReferenceSymbol
main_symbol = record { name = codes "main"; address = 0x400; category = function }

abbrev main_match : MatchedFunction
main_match = record {
  ref_name = [];
  ref_address = 0x400;
  new_address = 0x500;
  similarity = 0x3ff0000000000000;
  source = codes "vector_table";
  reference = codes "b";
}

propagate_function_labels_iff_example :
    In
      (function_label main_match (codes "main"))
      (propagate_function_labels (main_symbol ∷ []) (main_match ∷ []) false)
    ↔ IsLabel (main_symbol ∷ []) (main_match ∷ []) false (function_label main_match (codes "main"))
propagate_function_labels_iff_example =
    propagate_function_labels_iff (main_symbol ∷ []) (main_match ∷ []) false
      (function_label main_match (codes "main"))

abbrev priorities : Priorities
priorities = (codes "a", pos 100) ∷ []

abbrev proposal : PropagatedSymbol
proposal = record {
  name = codes "rpm";
  ref_address = 0x804000;
  new_address = 0x804010;
  category = ram_global;
  confidence = high;
  source = codes "vt_diff";
  score = 5;
  reference = [];
  family_match = true;
}

abbrev other_family : Proposals
other_family = (proposal ∷ [], codes "a", false) ∷ []

abbrev gated : PropagatedSymbol
gated = record proposal { reference = codes "a"; confidence = low; family_match = false }

ram_global-ne : ram_global ≢ function
ram_global-ne e = cc

arbitrate_symbols-foreign_example :
    (gated.family_match ≡ false)
    × (gated.confidence ≡ low)
    × (confidence_rank gated.confidence ≤ confidence_rank low)
arbitrate_symbols-foreign_example =
    arbitrate_symbols-foreign priorities other_family gated gated
      ((arbitrate_symbols_iff priorities (all_proposals other_family) gated).1
        (unfold max_by apply_reference_provenance with_provenance is_risky in refl))
      (inr refl, tt) ram_global-ne
      (unfold apply_reference_provenance with_provenance is_risky in inl refl) refl
