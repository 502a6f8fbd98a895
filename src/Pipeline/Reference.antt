-- ===== src/Pipeline/Reference.antt =====
-- match_reference of rom_analyzer/pipeline/reference.py, from the dumps of the two programs and the
-- matches that Ghidra's version tracking gives.
use rom_analyzer.Common.{
  ℕ, Bool, true, false, not, ◌&&◌, Option, none, some, List, [], ◌∷◌, ◌++◌, map, ◌==◌, nat_eq,
  if◌then◌else◌, filter, elem,
}
use rom_analyzer.Common.Text.{Text, codes, text_eq}
use rom_analyzer.Common.Dict.{Dict, dict_of}
use rom_analyzer.Common.Json.{◌>>=◌}
use rom_analyzer.Types.{
  SymbolCategory, function, data_symbol, ram_global, medium, high, Score, ReferenceSymbol,
  MatchedFunction, PropagatedSymbol,
}
use rom_analyzer.Registry.{ReferenceEntry}
use rom_analyzer.DataRefs.{DataRef}
use rom_analyzer.Callgraph.Anchors.{bootstrap_anchors}
use rom_analyzer.Callgraph.Bfs.{bfs_preseed}
use rom_analyzer.Callgraph.Gap.{gap_fill}
use rom_analyzer.Callgraph.Identity.{bytecode_identity_match, full_score}
use rom_analyzer.Propagate.{propagate_function_labels, apply_reference_provenance}
use rom_analyzer.LabelRefs.{data_labels, ram_labels, propagate_labels}
use rom_analyzer.RamSignature.{build_ram_signatures, match_by_ram_signature}
use rom_analyzer.Pipeline.{Run, ReferenceMatchResult}
use rom_analyzer.Pipeline.Dedup.{dedup_matches}

-- What the function reads: the context, the entry of the reference, its symbols, its dump, which is
-- missing when its image is, the dump of the new program, the images, and the result of run_vt_diff.
pub record Inputs : Type 0 where
  pub is_self_diff : Bool
  pub target_family : Text
  pub entry : ReferenceEntry
  pub ref_symbols : List ReferenceSymbol
  pub ref_run : Option Run
  pub new_run : Run
  pub ref_bytes : List ℕ
  pub rom_bytes : List ℕ
  pub vt_matches : List MatchedFunction

abbrev pub has_category : SymbolCategory → ReferenceSymbol → Bool
has_category function s = elim (s.category) [ function ↦ true | _ ↦ false ]
has_category data_symbol s = elim (s.category) [ data_symbol ↦ true | _ ↦ false ]
has_category ram_global s = elim (s.category) [ ram_global ↦ true | _ ↦ false ]

unfoldable pub by_address : List ReferenceSymbol → Dict ℕ ReferenceSymbol
by_address ref_symbols = dict_of (map (λ s. (s.address, s)) ref_symbols)

unfoldable pub by_symbol_name : List ReferenceSymbol → Dict Text ReferenceSymbol
by_symbol_name ref_symbols = dict_of (map (λ s. (s.name, s)) ref_symbols)

-- The first overlay for every address, in their order.
unfoldable pub unique_overlays : List ℕ → List ReferenceSymbol → List ReferenceSymbol
unique_overlays seen [] = []
unique_overlays seen (s ∷ overlays) =
    if elem s.address seen
    then unique_overlays seen overlays
    else s ∷ unique_overlays (s.address ∷ seen) overlays

-- The labels that are written into the new program in front of the diff.
unfoldable pub bfs_propagated : List ReferenceSymbol → List PropagatedSymbol
unfolding unique_overlays
bfs_propagated overlays =
    map
      (λ (s : ReferenceSymbol). record {
        name = s.name;
        ref_address = 0;
        new_address = s.address;
        category = s.category;
        confidence = medium;
        source = codes "callgraph_bfs";
        score = full_score;
        reference = [];
        family_match = true;
      })
      (unique_overlays [] overlays)

unfoldable pub identity_matches : List ReferenceSymbol → List MatchedFunction
identity_matches ref_symbols =
    map
      (λ (s : ReferenceSymbol). record {
        ref_name = s.name;
        ref_address = s.address;
        new_address = s.address;
        similarity = full_score;
        source = codes "identity";
        reference = [];
      })
      (filter (has_category function) ref_symbols)

-- A symbol of the reference that has its own address in the new image.
unfoldable pub same_address : Text → ReferenceSymbol → PropagatedSymbol
same_address source s = record {
  name = s.name;
  ref_address = s.address;
  new_address = s.address;
  category = s.category;
  confidence = high;
  source = source;
  score = full_score;
  reference = [];
  family_match = true;
}

-- The matches of all phases across two images, in their order.
unfoldable pub cross_matches : Inputs → Run → List MatchedFunction
unfolding by_address by_symbol_name
cross_matches i ref_run =
    let by_addr = by_address i.ref_symbols in
    let images : Option (List ℕ × List ℕ) = some (i.ref_bytes, i.rom_bytes) in
    let anchors =
      bootstrap_anchors i.ref_bytes i.rom_bytes ref_run.dump i.new_run.dump
        (by_symbol_name i.ref_symbols) by_addr in
    let bfs_matches = (bfs_preseed ref_run.dump i.new_run.dump by_addr images anchors).1 in
    let found = (i.vt_matches ++ anchors) ++ bfs_matches in
    let all_matches = found ++ gap_fill ref_run.dump i.new_run.dump images found in
    all_matches
    ++ bytecode_identity_match i.ref_bytes i.rom_bytes ref_run.dump by_addr 8 128 all_matches

unfoldable pub raw_matches : Inputs → List MatchedFunction
unfolding identity_matches cross_matches
raw_matches i =
    if i.is_self_diff
    then identity_matches i.ref_symbols
    else elim (i.ref_run) [ none ↦ [] | some ref_run ↦ cross_matches i ref_run ]

-- A dict that is not empty.
abbrev pub is_given : Dict ℕ (List DataRef) → Bool
is_given [] = false
is_given (p ∷ d) = true

unfoldable pub ram_globals_of : Inputs → List PropagatedSymbol
unfolding same_address
ram_globals_of i =
    if i.is_self_diff
    then map (same_address (codes "ram_global")) (
        filter
          (λ (s : ReferenceSymbol). has_category ram_global s && elem s.address i.new_run.ram_refs)
          i.ref_symbols)
    else []

unfoldable pub data_pass : Inputs → Run → List MatchedFunction → List PropagatedSymbol
unfolding by_address
data_pass i ref_run matches =
    if is_given ref_run.dump.data_refs && is_given i.new_run.dump.data_refs
    then propagate_labels data_labels (by_address i.ref_symbols) 8 ref_run.dump.data_refs
        i.new_run.dump.data_refs matches
    else []

unfoldable pub data_labels_of : Inputs → List MatchedFunction → List PropagatedSymbol
unfolding data_pass same_address
data_labels_of i matches =
    if i.is_self_diff
    then map (same_address (codes "identity")) (filter (has_category data_symbol) i.ref_symbols)
    else elim (i.ref_run) [ none ↦ [] | some ref_run ↦ data_pass i ref_run matches ]

unfoldable pub ram_pass : Inputs → Run → List MatchedFunction → List PropagatedSymbol
unfolding by_address
ram_pass i ref_run matches =
    if is_given ref_run.ram_data_refs && is_given i.new_run.ram_data_refs
    then propagate_labels ram_labels (by_address i.ref_symbols) 8 ref_run.ram_data_refs
        i.new_run.ram_data_refs matches
    else []

unfoldable pub ram_labels_of : Inputs → List MatchedFunction → List PropagatedSymbol
unfolding ram_pass
ram_labels_of i matches =
    if i.is_self_diff
    then []
    else elim (i.ref_run) [ none ↦ [] | some ref_run ↦ ram_pass i ref_run matches ]

-- 0.6 as a binary64 pattern.
abbrev pub min_jaccard : Score
min_jaccard = 0x3fe3333333333333

-- The matches by RAM signatures, with the labels of RAM of the first pass, if there are any.
unfoldable pub signature_pass :
    Inputs → Run → List MatchedFunction → List PropagatedSymbol → Option (List MatchedFunction)
unfolding by_address
signature_pass i ref_run matches ram =
    let ref_label_map = dict_of (
      map (λ (s : ReferenceSymbol). (s.address, s.name))
        (filter (has_category ram_global) i.ref_symbols)) in
    let new_label_map = dict_of (map (λ (s : PropagatedSymbol). (s.new_address, s.name)) ram) in
    match_by_ram_signature (build_ram_signatures ref_run.ram_data_refs ref_label_map)
      (build_ram_signatures i.new_run.ram_data_refs new_label_map) matches
      (by_address i.ref_symbols) 3 min_jaccard

unfoldable pub sig_matches_of :
    Inputs → List MatchedFunction → List PropagatedSymbol → Option (List MatchedFunction)
unfolding signature_pass
sig_matches_of i matches [] = some []
sig_matches_of i matches (s ∷ ram) = elim (i.ref_run) [
  | none ↦ some []
  | some ref_run ↦
      if not i.is_self_diff && is_given ref_run.ram_data_refs && is_given i.new_run.ram_data_refs
      then signature_pass i ref_run matches (s ∷ ram)
      else some []
]

unfoldable pub with_reference : Text → MatchedFunction → MatchedFunction
with_reference id m = record m { reference = id }

-- The second pass, when there are matches by signatures.
unfoldable pub second_pass :
    Inputs
    → List MatchedFunction
    → List MatchedFunction
    → (List PropagatedSymbol × List PropagatedSymbol)
unfolding ram_pass data_pass
second_pass i matches [] = ([], [])
second_pass i matches (m ∷ sig_matches) = elim (i.ref_run) [
  | none ↦ ([], [])
  | some ref_run ↦ (
    ram_pass i ref_run (matches ++ m ∷ sig_matches),
    data_pass i ref_run (matches ++ m ∷ sig_matches),
  )
]

-- The result, from the matches by signatures.
unfoldable pub reference_result : Inputs → List MatchedFunction → ReferenceMatchResult
unfolding raw_matches dedup_matches ram_globals_of data_labels_of ram_labels_of second_pass
    with_reference
reference_result i sig_matches =
    let matches = dedup_matches (raw_matches i) in
    let data' = data_labels_of i matches in
    let ram = ram_labels_of i matches in
    let second = second_pass i matches sig_matches in
    let propagated =
      (propagate_function_labels i.ref_symbols matches false ++ ram_globals_of i ++ data' ++ ram)
      ++ (propagate_function_labels i.ref_symbols sig_matches false ++ second.0 ++ second.1) in
    record {
      entry = i.entry;
      matches = map (with_reference i.entry.id) (matches ++ sig_matches);
      propagated =
          apply_reference_provenance propagated i.entry.id (i.entry.family == i.target_family);
      ref_run = i.ref_run;
      ref_symbols = i.ref_symbols;
      data_labels = data';
      ram_labels = ram;
      sig_matches = sig_matches;
      ram_labels_p2 = second.0;
      data_labels_p2 = second.1;
    }

unfoldable pub match_reference : Inputs → Option ReferenceMatchResult
unfolding sig_matches_of reference_result
match_reference i = do
  let matches = dedup_matches (raw_matches i)
  sig_matches ← sig_matches_of i matches (ram_labels_of i matches)
  some (reference_result i sig_matches)
