-- ===== src/Pipeline/Enrich.antt =====
-- classify_and_apply of rom_analyzer/pipeline/arbitrate.py.
use rom_analyzer.Common.{
  ℕ, Option, none, some, List, [], ◌∷◌, ◌++◌, map, ◌==◌, nat_eq, if◌then◌else◌,
}
use rom_analyzer.Common.Text.{Text, text_eq}
use rom_analyzer.Common.Dict.{Dict, get, get_or, dict_of}
use rom_analyzer.Common.Dict.Group.{group_by}
use rom_analyzer.Common.Sets.{members}
use rom_analyzer.Common.Json.{Json, ◌>>=◌}
use rom_analyzer.Registry.{ReferenceEntry}
use rom_analyzer.Annotations.{AnnotationFunction, AnnotationStore}
use rom_analyzer.Enrich.{LabelCandidate, Classified}
use rom_analyzer.Enrich.Classify.{classify, build_reconcile_items}
use rom_analyzer.Enrich.Gather.{gather_candidates, merge_candidates}
use rom_analyzer.Enrich.Reconcile.{write_reconcile}
use rom_analyzer.Pipeline.{ReferenceMatchResult}
use rom_analyzer.Pipeline.Arbitrate.{Files, Images, load, erased_addrs, auto_targets}

-- What is left behind: the annotation files, the reconcile file, and the number of applied names.
pub record Enriched : Type 0 where
  pub files : Files
  pub reconcile : Json
  pub total : ℕ

unfoldable pub function_names : AnnotationStore → Dict ℕ Text
function_names store =
    dict_of (map (λ (f : AnnotationFunction). (f.entry_point, f.name)) store.functions)

unfoldable pub gather_all :
    Files → Text → Dict ℕ Text → List ReferenceMatchResult → Option (List LabelCandidate)
unfolding load function_names
gather_all files new_id new_fn_names [] = some []
gather_all files new_id new_fn_names (result ∷ results) = do
  ref_store ← load files result.entry
  rest ← gather_all files new_id new_fn_names results
  some (
      gather_candidates new_id result.entry.id result.matches new_fn_names
        (function_names ref_store) []
      ++ rest)

module _ (new_entry : ReferenceEntry) (by_id : Dict Text ReferenceEntry) (files : Files)
    (images : Images) where
  -- `_erased_addrs` of one target.
  unfoldable pub erased_of : Text → Option (List ℕ)
  unfolding erased_addrs get
  erased_of tid =
      if tid == new_entry.id
      then erased_addrs files images new_entry
      else elim (get by_id tid) [ none ↦ some [] | some entry ↦ erased_addrs files images entry ]

  unfoldable pub erased_by_target : List Text → Option (Dict Text (List ℕ))
  unfolding erased_of
  erased_by_target [] = some []
  erased_by_target (tid ∷ tids) = do
    erased ← erased_of tid
    rest ← erased_by_target tids
    some ((tid, erased) ∷ rest)

-- The loop over `by_target`.
unfoldable pub classify_targets :
    Dict Text (List ℕ) → Dict Text ℕ → Dict Text (List LabelCandidate) → Classified
unfolding get_or
classify_targets erased priority [] = record { auto = []; review = [] }
classify_targets erased priority ((tid, group) ∷ groups) =
    let classified = classify group (get_or erased tid []) (some priority) in
    let rest = classify_targets erased priority groups in
    record { auto = classified.auto ++ rest.auto; review = classified.review ++ rest.review }

unfoldable pub by_target : List LabelCandidate → Dict Text (List LabelCandidate)
unfolding group_by
by_target = group_by (λ (c : LabelCandidate). c.target)

unfoldable pub classify_and_apply :
    List ReferenceMatchResult
    → ReferenceEntry
    → Dict ℕ Text
    → Dict Text ReferenceEntry
    → Dict Text ℕ
    → Files
    → Images
    → List ℕ
    → Option Enriched
unfolding gather_all erased_by_target classify_targets by_target auto_targets members
classify_and_apply results new_entry new_fn_names by_id priority files images rom_bytes = do
  gathered ← gather_all files new_entry.id new_fn_names results
  let all_candidates = merge_candidates gathered priority
  erased ←
      erased_by_target new_entry by_id files images
        (members (map (λ (c : LabelCandidate). c.target) all_candidates))
  let classified = classify_targets erased priority (by_target all_candidates)
  applied ← auto_targets new_entry.id by_id images rom_bytes (by_target classified.auto) files
  some (record {
    files = applied.0;
    reconcile = write_reconcile (build_reconcile_items classified.review priority);
    total = applied.1;
  })
