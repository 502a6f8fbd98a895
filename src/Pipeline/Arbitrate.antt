-- ===== src/Pipeline/Arbitrate.antt =====
-- rom_analyzer/pipeline/arbitrate.py. Annotation files hold JSON values and images hold bytes, each by
-- its path; `none` is an exception. The priorities of classify_and_apply are not negative.
use rom_analyzer.Common.{
  ℕ, ◌+◌, not, Option, none, some, List, [], ◌∷◌, ◌++◌, map, ◌==◌, nat_eq, if◌then◌else◌, filter,
  elem, length, flatten,
}
use rom_analyzer.Common.Text.{Text, codes, text_eq}
use rom_analyzer.Common.Dict.{Dict, get, put}
use rom_analyzer.Common.Sets.{members}
use rom_analyzer.Common.Json.{Json, ◌>>=◌}
use rom_analyzer.Types.{function, medium, ReferenceSymbol, MatchedFunction, PropagatedSymbol}
use rom_analyzer.Merge.{Priorities, Disagreement, merge_matches, arbitrate_symbols}
use rom_analyzer.Registry.{ReferenceEntry}
use rom_analyzer.Annotations.{AnnotationFunction, AnnotationStore}
use rom_analyzer.Annotations.Load.{load_annotations}
use rom_analyzer.Annotations.Save.{save_annotations}
use rom_analyzer.Cleanup.{
  is_erased, drop_imprecise_s_duplicates, drop_erased_flash_entries, dedup_symbol_names,
}
use rom_analyzer.Enrich.{LabelCandidate, ReconcileItem}
use rom_analyzer.Enrich.Classify.{is_gap, proposed_verdict}
use rom_analyzer.Enrich.Apply.{Applied, apply_verdicts}
use rom_analyzer.Pipeline.{ReferenceMatchResult}
use rom_analyzer.Pipeline.Reference.{has_category}

-- The two counts of the match summary stand for its text.
pub record MergeResult : Type 0 where
  pub matches : List MatchedFunction
  pub propagated : List PropagatedSymbol
  pub disagreements : List Disagreement
  pub cross_family : List PropagatedSymbol
  pub priority : Priorities
  pub matched_count : ℕ
  pub total_ref : ℕ

-- `results[0]` raises where there is no result.
unfoldable pub arbitrate_references : List ReferenceMatchResult → Priorities → Option MergeResult
unfolding members
arbitrate_references [] priority = none
arbitrate_references (first ∷ results) priority =
    let all_results = first ∷ results in
    let matches =
      merge_matches priority (map (λ (r : ReferenceMatchResult). r.matches) all_results) in
    let all_propagated = flatten (map (λ (r : ReferenceMatchResult). r.propagated) all_results) in
    let (propagated, disagreements) = arbitrate_symbols priority all_propagated in
    let named_ref_addrs = members (
      map (λ (s : ReferenceSymbol). s.address)
        (filter (has_category function) first.ref_symbols)) in
    some (record {
      matches = matches;
      propagated = propagated;
      disagreements = disagreements;
      cross_family = filter (λ (s : PropagatedSymbol). not s.family_match) propagated;
      priority = priority;
      matched_count =
          length (filter (λ (m : MatchedFunction). elem m.ref_address named_ref_addrs) matches);
      total_ref = length named_ref_addrs;
    })

abbrev pub Files : Type 0
Files = Dict Text Json

abbrev pub Images : Type 0
Images = Dict Text (List ℕ)

unfoldable pub load : Files → ReferenceEntry → Option AnnotationStore
unfolding get
load files entry = get files entry.json_path >>= load_annotations

unfoldable pub erased_addrs : Files → Images → ReferenceEntry → Option (List ℕ)
unfolding load get
erased_addrs files images entry = do
  rom ← get images entry.rom_path
  store ← load files entry
  some (filter (is_erased rom 8) (map (λ (f : AnnotationFunction). f.entry_point) store.functions))

unfoldable pub candidate_function : LabelCandidate → AnnotationFunction
candidate_function c = record {
  name = c.proposed;
  entry_point = c.address;
  confidence = medium;
  source = codes "xref:" ++ c.source;
  verified_by = none;
  session = [];
  timestamp = [];
  return_type = none;
  params = [];
}

-- The functions that are appended, with the addresses that are taken.
unfoldable pub new_functions : List ℕ → List LabelCandidate → List AnnotationFunction
unfolding candidate_function
new_functions existing [] = []
new_functions existing (c ∷ cands) =
    if elem c.address existing
    then new_functions existing cands
    else candidate_function c ∷ new_functions (c.address ∷ existing) cands

unfoldable pub append_functions : AnnotationStore → List LabelCandidate → AnnotationStore × ℕ
unfolding new_functions
append_functions store cands =
    let added =
      new_functions (map (λ (f : AnnotationFunction). f.entry_point) store.functions) cands in
    (record store { functions = store.functions ++ added }, length added)

unfoldable pub rename_item : Text → LabelCandidate → ReconcileItem
rename_item tid c = record {
  target = tid;
  direction = c.direction;
  address = c.address;
  category = c.category;
  current = c.current;
  proposed = c.proposed;
  source = c.source;
  evidence = c.evidence;
  verdict = proposed_verdict;
  corroborated_by = [];
}

-- The new store of one target, and how many entries were added or renamed; no rename is as good as an
-- empty list of renames.
unfoldable pub apply_auto : Text → List LabelCandidate → AnnotationStore → Applied
unfolding append_functions rename_item
apply_auto tid cands store =
    let (appended, n_appended) =
      append_functions store (filter (λ (c : LabelCandidate). is_gap c.current) cands) in
    let renamed =
      apply_verdicts appended
        (map (rename_item tid) (filter (λ (c : LabelCandidate). not (is_gap c.current)) cands))
        tid in
    record { store = renamed.store; count = n_appended + renamed.count }

unfoldable pub clean_up : AnnotationStore → List ℕ → AnnotationStore
clean_up store rom_bytes =
    let without_duplicates = (drop_imprecise_s_duplicates store 4).0 in
    let without_erased = (drop_erased_flash_entries without_duplicates rom_bytes 8).0 in
    (dedup_symbol_names without_erased).0

module _ (new_id : Text) (by_id : Dict Text ReferenceEntry) (images : Images)
    (rom_bytes : List ℕ) where
  -- The bytes of the target's image.
  unfoldable pub target_bytes : Text → ReferenceEntry → Option (List ℕ)
  unfolding get
  target_bytes tid entry = if tid == new_id then some rom_bytes else get images entry.rom_path

  -- The file is only written if something was applied.
  unfoldable pub write_target : Text → ReferenceEntry → Files → Applied → Option (Files × ℕ)
  unfolding clean_up target_bytes
  write_target tid entry files applied = if applied.count == 0 then some (files, 0) else (do
    bytes ← target_bytes tid entry
    some (
      put files entry.json_path (save_annotations (clean_up applied.store bytes)),
      applied.count,
    ))

  unfoldable pub auto_target : Text → List LabelCandidate → Files → Option (Files × ℕ)
  unfolding get load apply_auto write_target
  auto_target tid cands files = elim (get by_id tid) [
    | none ↦ some (files, 0)
    | some entry ↦ do
      store ← load files entry
      write_target tid entry files (apply_auto tid cands store)
  ]

  unfoldable pub auto_targets : Dict Text (List LabelCandidate) → Files → Option (Files × ℕ)
  unfolding auto_target
  auto_targets [] files = some (files, 0)
  auto_targets ((tid, cands) ∷ groups) files = do
    first ← auto_target tid cands files
    rest ← auto_targets groups first.0
    some (rest.0, first.1 + rest.1)
