-- ===== src/Callgraph/Gap.antt =====
-- gap_fill of rom_analyzer/callgraph.py: functions that are paired by their place among the callees of
-- functions that are paired already, until a pass pairs no more.
pub mod Step
pub mod Loop
pub mod Result
mod Examples
use rom_analyzer.Common.{
  ℕ, zero, suc, Bool, true, false, ◌||◌, Option, none, some, List, [], ◌∷◌, ◌++◌, map, nat_eq,
  if◌then◌else◌, length, elem, flatten,
}
use rom_analyzer.Common.Text.{Text, codes}
use rom_analyzer.Common.Dict.{Dict, keys, values, get, get_or, put, dict_of}
use rom_analyzer.Types.{Score, MatchedFunction}
use rom_analyzer.Callgraph.{HeadlessRun, lcs_align, tolerance_50, name_for}
use rom_analyzer.Callgraph.Identity.{text_or}
use rom_analyzer.Callgraph.Similarity.{is_unrelated}

-- 0.7 as a binary64 pattern.
abbrev pub gap_score : Score
gap_score = 0x3fe6666666666666

-- The variables of the loops; the flag `changed` stands beside them.
pub record Gap : Type 0 where
  pub matched_ref : Dict ℕ ℕ
  pub matched_new : List ℕ
  pub results : List MatchedFunction

module _ (ref_run new_run : HeadlessRun) (images : Option (List ℕ × List ℕ)) where
  pub is_blocked : Gap → ℕ → ℕ → Bool
  is_blocked g ref_callee new_callee =
      elem ref_callee (keys g.matched_ref)
      || elem new_callee g.matched_new
      || is_unrelated ref_run new_run images ref_callee new_callee

  pub gap_match : ℕ → ℕ → MatchedFunction
  gap_match ref_callee new_callee = record {
    ref_name = text_or (name_for ref_callee ref_run);
    ref_address = ref_callee;
    new_address = new_callee;
    similarity = gap_score;
    source = codes "callgraph_gap";
    reference = [];
  }

  pub add_pair : Gap → ℕ → ℕ → Gap
  add_pair g ref_callee new_callee = record {
    matched_ref = put g.matched_ref ref_callee new_callee;
    matched_new = new_callee ∷ g.matched_new;
    results = g.results ++ gap_match ref_callee new_callee ∷ [];
  }

  -- The loop over the aligned pairs of one caller.
  pub fill_pairs : List (ℕ × ℕ) → Gap → Bool → Gap × Bool
  fill_pairs [] g changed = (g, changed)
  fill_pairs ((r, n) ∷ pairs) g changed =
      if is_blocked g r n
      then fill_pairs pairs g changed
      else fill_pairs pairs (add_pair g r n) true

  pub aligned_callees : ℕ → List ℕ → List (ℕ × ℕ)
  aligned_callees new_caller ref_callees =
      lcs_align ref_callees (get_or new_run.callees new_caller []) ref_run new_run tolerance_50

  pub fill_caller : ℕ → List ℕ → Gap → Bool → Gap × Bool
  fill_caller ref_caller ref_callees g changed = elim (get g.matched_ref ref_caller) [
    | none ↦ (g, changed)
    | some new_caller ↦ fill_pairs (aligned_callees new_caller ref_callees) g changed
  ]

  -- One pass over the callers.
  pub fill_callers : Dict ℕ (List ℕ) → Gap → Bool → Gap × Bool
  fill_callers [] g changed = (g, changed)
  fill_callers ((ref_caller, ref_callees) ∷ callers) g changed =
      let (g', changed') = fill_caller ref_caller ref_callees g changed in
      fill_callers callers g' changed'

  -- The outer loop; a pass that changes something pairs one more of the callees of the reference, so
  -- a fuel above their number is enough.
  pub gap_loop : ℕ → Gap → Gap
  gap_loop zero g = g
  gap_loop (suc fuel) g =
      let (g', changed) = fill_callers ref_run.callees g false in
      let rest = gap_loop fuel g' in if changed then rest else g'

  pub start_gap : List MatchedFunction → Gap
  start_gap existing_matches = record {
    matched_ref = dict_of (map (λ m. (m.ref_address, m.new_address)) existing_matches);
    matched_new = map (λ m. m.new_address) existing_matches;
    results = [];
  }

  abbrev pub all_callees : List ℕ
  all_callees = flatten (values ref_run.callees)

  pub final_gap : List MatchedFunction → Gap
  final_gap existing_matches = gap_loop (suc (length all_callees)) (start_gap existing_matches)

  pub gap_fill : List MatchedFunction → List MatchedFunction
  gap_fill existing_matches = (final_gap existing_matches).results
