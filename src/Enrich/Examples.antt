-- ===== src/Enrich/Examples.antt =====
-- Runs of rom_analyzer/enrich.py, and its theorems at the same inputs.
use rom_analyzer.Common.{
  ℕ, ◌≡◌, ◌≢◌, ◌↔◌, Option, none, some, List, [], ◌∷◌, map, In, Pairwise, true, false,
}
use rom_analyzer.Common.Text.{Text, codes}
use rom_analyzer.Common.Dict.{Dict}
use rom_analyzer.Common.Dict.Group.{with_key}
use rom_analyzer.Common.Sort.{IsSorted}
use rom_analyzer.Types.{function, high}
use rom_analyzer.Annotations.{AnnotationStore}
use rom_analyzer.Enrich.{LabelCandidate, ReconcileItem, forward}
use rom_analyzer.Enrich.Classify.{build_reconcile_items, item_leb, or_empty}
use rom_analyzer.Enrich.Gather.{group_key, key_eq, merge_candidates}
use rom_analyzer.Enrich.Reconcile.{write_reconcile, read_reconcile}
use rom_analyzer.Enrich.RoundTrip.{normal, read_reconcile-write}
use rom_analyzer.Enrich.Items.{IsBetter, suggestion, build_reconcile_items_iff}
use rom_analyzer.Enrich.Majority.{IsMerged}
use rom_analyzer.Enrich.Merged.{merge_candidates_iff}
use rom_analyzer.Enrich.Apply.{apply_verdicts}
use rom_analyzer.Enrich.Apply.Verdicts.{
  entry_points, symbol_addresses, function_name, symbol_name, verdict_names, apply_verdicts-names,
}

abbrev label : Option Text → Text → Text → LabelCandidate
label current proposed source = record {
  target = codes "a";
  direction = forward;
  address = 0x100;
  category = function;
  current = current;
  proposed = proposed;
  source = source;
  evidence = [];
  corroborating_sources = source ∷ [];
}

abbrev priority : Dict Text ℕ
priority = (codes "a", 10) ∷ (codes "b", 20) ∷ (codes "c", 5) ∷ (codes "d", 5) ∷ []

-- Two of the three sources agree.
abbrev labels : List LabelCandidate
labels =
    label (some (codes "call1234")) (codes "read_tps") (codes "c")
    ∷ label (some (codes "call1234")) (codes "get_tps") (codes "b")
    ∷ label (some (codes "call1234")) (codes "read_tps") (codes "d")
    ∷ []

merge_candidates_iff_example :
    Pairwise (λ r s. group_key r ≢ group_key s) (merge_candidates labels priority)
    × ((r : LabelCandidate)
        → In r (merge_candidates labels priority)
        → IsMerged priority r (with_key group_key (group_key r) labels))
    × ((c : LabelCandidate)
        → In c labels
        → (r : LabelCandidate) × In r (merge_candidates labels priority)
          × (group_key r ≡ group_key c))
merge_candidates_iff_example = merge_candidates_iff labels priority

abbrev item : ReconcileItem
item = record {
  target = codes "a";
  direction = forward;
  address = 0x100;
  category = function;
  current = some (codes "call1234");
  proposed = codes "read_tps";
  source = codes "c";
  evidence = [];
  verdict = codes "proposed";
  corroborated_by = [];
}

build_reconcile_items_iff_example :
    (In item (build_reconcile_items labels priority) ↔ (
      (c : LabelCandidate) × In c labels
      × IsBetter priority c
      × (c.proposed ≢ or_empty c.current)
      × (suggestion c ≡ item)))
    × IsSorted item_leb (build_reconcile_items labels priority)
build_reconcile_items_iff_example = build_reconcile_items_iff labels priority item

read_reconcile-write_example :
    read_reconcile (write_reconcile (item ∷ [])) ≡ some (map normal (item ∷ []))
read_reconcile-write_example = read_reconcile-write (item ∷ [])

abbrev store : AnnotationStore
store = record {
  schema_version = 1;
  rom_id = codes "a";
  rom_sha256 = [];
  symbols = [];
  functions =
      record {
        name = codes "call1234";
        entry_point = 0x100;
        confidence = high;
        source = [];
        verified_by = none;
        session = [];
        timestamp = [];
        return_type = none;
        params = [];
      }
      ∷ [];
  struct_definitions = [];
  comments = [];
}

apply_verdicts-names_example :
    let after = (apply_verdicts store (item ∷ []) (codes "a")).store in
    (function_name after 0x100
      ≡ verdict_names
          (codes "a")
          true
          (entry_points store)
          (item ∷ [])
          0x100
          (function_name store 0x100))
    × (symbol_name after 0x100
        ≡ verdict_names
            (codes "a")
            false
            (symbol_addresses store)
            (item ∷ [])
            0x100
            (symbol_name store 0x100))
    × (after.struct_definitions ≡ store.struct_definitions)
    × (after.comments ≡ store.comments)
apply_verdicts-names_example = apply_verdicts-names store (item ∷ []) (codes "a") 0x100
