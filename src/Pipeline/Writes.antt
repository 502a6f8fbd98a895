-- ===== src/Pipeline/Writes.antt =====
-- Which files classify_and_apply of rom_analyzer/pipeline/arbitrate.py writes.
use rom_analyzer.Common.{ℕ, ◌≡◌, subst, inl, inr, some, List, map, arith, Option-cases, nat_eq}
use rom_analyzer.Common.Text.{Text, text_eq}
use rom_analyzer.Common.Dict.{Dict}
use rom_analyzer.Registry.{ReferenceEntry}
use rom_analyzer.Enrich.{LabelCandidate}
use rom_analyzer.Enrich.Gather.{merge_candidates}
use rom_analyzer.Common.Sets.{members}
use rom_analyzer.Pipeline.{ReferenceMatchResult}
use rom_analyzer.Pipeline.Arbitrate.{Files, Images, auto_targets}
use rom_analyzer.Pipeline.Enrich.{
  Enriched, gather_all, erased_by_target, classify_targets, by_target, classify_and_apply,
}
use rom_analyzer.Pipeline.Targets.{IsWritten, auto_targets-Writes}

-- When classify_and_apply applied nothing, the annotation files are as before; otherwise the only files
-- that have changed are those of references in the registry.
pub classify_and_apply-writes :
    (results : List ReferenceMatchResult) (new_entry : ReferenceEntry) (new_fn_names : Dict ℕ Text)
    (by_id : Dict Text ReferenceEntry) (priority : Dict Text ℕ) (files : Files) (images : Images)
    (rom_bytes : List ℕ) (after : Enriched)
    → classify_and_apply results new_entry new_fn_names by_id priority files images rom_bytes
      ≡ some after
    → IsWritten by_id files after.files after.total
unfolding classify_and_apply
classify_and_apply-writes results new_entry new_fn_names by_id priority files images rom_bytes after
      h =
    elim (Option-cases (gather_all files new_entry.id new_fn_names results)) [
      | inl e ↦ cc
      | inr (gathered, e) ↦
          let merged = merge_candidates gathered priority in
          let targets = members (map (λ (c : LabelCandidate). c.target) merged) in
          elim (Option-cases (erased_by_target new_entry by_id files images targets)) [
            | inl f ↦ absurd (ground arith)
            | inr (erased, f) ↦
                let groups = by_target (classify_targets erased priority (by_target merged)).auto in
                elim (Option-cases
                  (auto_targets new_entry.id by_id images rom_bytes groups files)) [
                    | inl g ↦ absurd (ground arith)
                    | inr ((last, n), g) ↦
                        let a : last ≡ after.files = ground arith in
                        let b : n ≡ after.total = ground arith in
                        subst (λ t. IsWritten by_id files t after.total) a
                          (subst (λ t. IsWritten by_id files last t) b
                            (auto_targets-Writes new_entry.id by_id images rom_bytes groups files
                              last n g))
                  ]
          ]
    ]
