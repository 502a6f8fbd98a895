-- ===== src/Merge/Examples.antt =====
-- The theorems on rom_analyzer/merge.py at two references that disagree.
use rom_analyzer.Common.{◌≡◌, ◌↔◌, true, some, List, [], ◌∷◌, In, flatten}
use rom_analyzer.Common.Text.{codes}
use rom_analyzer.Common.Int.{pos}
use rom_analyzer.Common.Sort.{greatest}
use rom_analyzer.Types.{MatchedFunction, PropagatedSymbol, function, high, medium}
use rom_analyzer.Merge.{
  Priorities, match_leb, symbol_leb, merge_matches, Disagreement, arbitrate_symbols,
}
use rom_analyzer.Merge.Matches.{at_address, merge_matches_iff}
use rom_analyzer.Merge.Symbols.{proposed, arbitrate_symbols_iff}
use rom_analyzer.Merge.Disputes.{IsDisagreement, arbitrate_symbols-disagreements_iff}

abbrev priorities : Priorities
priorities = (codes "a", pos 100) ∷ (codes "b", pos 50) ∷ []

abbrev by_vectors : MatchedFunction
by_vectors = record {
  ref_name = codes "main";
  ref_address = 0x400;
  new_address = 0x500;
  similarity = 3;
  source = codes "vector_table";
  reference = codes "b";
}

abbrev by_diff : MatchedFunction
by_diff = record by_vectors { source = codes "vt_diff"; similarity = 7; reference = codes "a" }

abbrev results : List (List MatchedFunction)
results = (by_diff ∷ []) ∷ (by_vectors ∷ []) ∷ []

merge_matches_iff_example :
    In by_vectors (merge_matches priorities results)
    ↔ (greatest (match_leb priorities) (at_address 0x500 (flatten results)) ≡ some by_vectors)
merge_matches_iff_example = merge_matches_iff priorities results by_vectors

abbrev from_a : PropagatedSymbol
from_a = record {
  name = codes "get_rpm";
  ref_address = 0x400;
  new_address = 0x500;
  category = function;
  confidence = high;
  source = codes "vt_diff";
  score = 5;
  reference = codes "a";
  family_match = true;
}

abbrev from_b : PropagatedSymbol
from_b = record from_a { name = codes "get_speed"; reference = codes "b"; confidence = medium }

abbrev symbols : List PropagatedSymbol
symbols = from_b ∷ from_a ∷ []

abbrev dispute : Disagreement
dispute = record {
  new_address = 0x500;
  candidates = (codes "a", codes "get_rpm") ∷ (codes "b", codes "get_speed") ∷ [];
  winner = codes "get_rpm";
}

arbitrate_symbols_iff_example :
    In from_a (arbitrate_symbols priorities symbols).0
    ↔ (greatest (symbol_leb priorities) (proposed priorities symbols 0x500) ≡ some from_a)
arbitrate_symbols_iff_example = arbitrate_symbols_iff priorities symbols from_a

arbitrate_symbols-disagreements_iff_example :
    In dispute (arbitrate_symbols priorities symbols).1 ↔ IsDisagreement priorities symbols dispute
arbitrate_symbols-disagreements_iff_example =
    arbitrate_symbols-disagreements_iff priorities symbols dispute
