-- ===== src/Callgraph/Bfs/Examples.antt =====
-- The theorems on bfs_preseed of rom_analyzer/callgraph.py at two programs with one caller each.
use rom_analyzer.Common.{ℕ, suc, ◌≡◌, refl, inl, none, [], ◌∷◌}
use rom_analyzer.Common.Text.{codes}
use rom_analyzer.Common.Dict.{Dict, get, get_or}
use rom_analyzer.Common.Sort.{sort, insert}
use rom_analyzer.Types.{ReferenceSymbol, MatchedFunction, function}
use rom_analyzer.Callgraph.{
  HeadlessRun, func_size, size_in, ratio_ok, size_ratio_ok, pair_at, dp_row, dp, trace, align,
  lcs_align,
}
use rom_analyzer.Callgraph.Similarity.{is_unrelated}
use rom_analyzer.Callgraph.Bfs.{
  overlays_of, matches_of, reach, is_passed, reach_all, bfs_pairs, visit, bfs_loop, start_bfs,
  final_bfs, bfs_preseed,
}
use rom_analyzer.Callgraph.Bfs.Loop.{final_bfs-empty}
use rom_analyzer.Callgraph.Bfs.Reached.{IsReached, bfs_preseed-IsReached}

abbrev ref_run : HeadlessRun
ref_run = record {
  functions = 0 ∷ 8 ∷ 12 ∷ [];
  symbols = [];
  callees = (0, 8 ∷ []) ∷ [];
  data_refs = [];
}

abbrev new_run : HeadlessRun
new_run = record {
  functions = 4 ∷ 16 ∷ 20 ∷ [];
  symbols = [];
  callees = (4, 16 ∷ []) ∷ [];
  data_refs = [];
}

abbrev names : Dict ℕ ReferenceSymbol
names = (8, record { name = codes "init"; address = 8; category = function }) ∷ []

abbrev reset : MatchedFunction
reset = record {
  ref_name = codes "reset";
  ref_address = 0;
  new_address = 4;
  similarity = 0;
  source = codes "vector_table";
  reference = [];
}

final_bfs-empty_example : (final_bfs ref_run new_run names none (reset ∷ [])).queue ≡ []
final_bfs-empty_example = final_bfs-empty ref_run new_run names none (reset ∷ [])

abbrev init : MatchedFunction
init = record {
  ref_name = codes "init";
  ref_address = 8;
  new_address = 16;
  similarity = 0x3fe999999999999a;
  source = codes "callgraph_bfs";
  reference = [];
}

bfs_preseed-IsReached_example :
    (depth : ℕ) × IsReached ref_run new_run names none (reset ∷ []) (suc depth) 8 16
bfs_preseed-IsReached_example = bfs_preseed-IsReached ref_run new_run names none (reset ∷ []) init (
    unfold get get_or sort insert func_size size_in ratio_ok size_ratio_ok pair_at dp_row dp trace
      align lcs_align is_unrelated overlays_of matches_of reach is_passed reach_all bfs_pairs visit
      bfs_loop start_bfs final_bfs bfs_preseed in
    inl refl)
