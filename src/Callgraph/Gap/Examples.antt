-- ===== src/Callgraph/Gap/Examples.antt =====
-- The theorems on gap_fill of rom_analyzer/callgraph.py at two programs with one caller each.
use rom_analyzer.Common.{refl, inl, none, [], ◌∷◌, In, Distinct}
use rom_analyzer.Common.Text.{codes}
use rom_analyzer.Common.Dict.{get, get_or, put, dict_of}
use rom_analyzer.Common.Sort.{sort, insert}
use rom_analyzer.Types.{MatchedFunction}
use rom_analyzer.Callgraph.{
  HeadlessRun, func_size, size_in, ratio_ok, size_ratio_ok, first_name, name_for, pair_at, dp_row,
  dp, trace, align, lcs_align,
}
use rom_analyzer.Callgraph.Similarity.{is_unrelated}
use rom_analyzer.Callgraph.Identity.{text_or}
use rom_analyzer.Callgraph.Gap.{
  final_gap, gap_fill, is_blocked, gap_match, add_pair, fill_pairs, aligned_callees, fill_caller,
  fill_callers, gap_loop, start_gap,
}
use rom_analyzer.Callgraph.Gap.Loop.{IsStable, final_gap-IsStable}
use rom_analyzer.Callgraph.Gap.Result.{
  IsPaired, known, refs, news, gap_fill-IsPaired, gap_fill-IsOneToOne,
}

abbrev ref_run : HeadlessRun
ref_run = record {
  functions = 0 ∷ 8 ∷ 12 ∷ [];
  symbols = [];
  callees = (0, 8 ∷ []) ∷ [];
  data_refs = [];
}

abbrev new_run : HeadlessRun
new_run = record {
  functions = 4 ∷ 16 ∷ 20 ∷ [];
  symbols = [];
  callees = (4, 16 ∷ []) ∷ [];
  data_refs = [];
}

abbrev reset : MatchedFunction
reset = record {
  ref_name = codes "reset";
  ref_address = 0;
  new_address = 4;
  similarity = 0;
  source = codes "vector_table";
  reference = [];
}

final_gap-IsStable_example :
    IsStable ref_run new_run none (final_gap ref_run new_run none (reset ∷ []))
final_gap-IsStable_example = final_gap-IsStable ref_run new_run none (reset ∷ [])

gap_fill-IsOneToOne_example :
    Distinct (refs ref_run new_run none (gap_fill ref_run new_run none (reset ∷ [])))
    × Distinct (news ref_run new_run none (gap_fill ref_run new_run none (reset ∷ [])))
    × ((m : MatchedFunction)
        → In m (gap_fill ref_run new_run none (reset ∷ []))
        → (In m.ref_address (0 ∷ []) → ⊥) × (In m.new_address (4 ∷ []) → ⊥))
gap_fill-IsOneToOne_example = gap_fill-IsOneToOne ref_run new_run none (reset ∷ [])

abbrev callee : MatchedFunction
callee = record reset {
  ref_name = [];
  ref_address = 8;
  new_address = 16;
  similarity = 0x3fe6666666666666;
  source = codes "callgraph_gap";
}

gap_fill-IsPaired_example :
    IsPaired ref_run new_run none (known ref_run new_run none (reset ∷ [])) 8 16
gap_fill-IsPaired_example = gap_fill-IsPaired ref_run new_run none (reset ∷ []) callee (
    unfold get get_or put dict_of sort insert func_size size_in ratio_ok size_ratio_ok first_name
      name_for pair_at dp_row dp trace align lcs_align final_gap gap_fill is_blocked gap_match
      add_pair fill_pairs aligned_callees fill_caller fill_callers gap_loop start_gap is_unrelated
      text_or in
    inl refl)
