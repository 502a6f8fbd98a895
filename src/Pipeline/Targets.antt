-- ===== src/Pipeline/Targets.antt =====
-- Which files the targets of classify_and_apply of rom_analyzer/pipeline/arbitrate.py write.
use rom_analyzer.Common.{
  ℕ, ◌+◌, ◌≡◌, ◌≢◌, refl, sym, subst, ◌∙◌, inl, inr, true, false, Option, none, some, List, [], ◌∷◌,
  arith, Bool-cases, Option-cases, ◌==◌, nat_eq,
}
use rom_analyzer.Common.Text.{Text, text_eq, text_beq_iff}
use rom_analyzer.Common.Dict.{Dict, get, put, get-put}
use rom_analyzer.Common.Json.{Json, ◌>>=◌}
use rom_analyzer.Registry.{ReferenceEntry}
use rom_analyzer.Annotations.Save.{save_annotations}
use rom_analyzer.Annotations.{AnnotationStore}
use rom_analyzer.Enrich.{LabelCandidate}
use rom_analyzer.Enrich.Apply.{Applied}
use rom_analyzer.Pipeline.Arbitrate.{
  Files, Images, load, apply_auto, clean_up, target_bytes, write_target, auto_target, auto_targets,
}

-- The files are the same, unless something was applied; and then only files of the registry have changed.
pub record IsWritten (by_id : Dict Text ReferenceEntry) (files after : Files) (count : ℕ)
    : Type 0 where
  pub unchanged : count ≡ 0 → after ≡ files
  pub others :
      (path : Text)
      → ((tid : Text) (entry : ReferenceEntry)
          → get by_id tid ≡ some entry
          → entry.json_path ≢ path)
      → get after path ≡ get files path

module _ (new_id : Text) (by_id : Dict Text ReferenceEntry) (images : Images)
    (rom_bytes : List ℕ) where
  IsWritten-nothing : (files : Files) → IsWritten by_id files files 0
  IsWritten-nothing files = record { unchanged = λ e. refl; others = λ path h. refl }

  IsWritten-put :
      (files : Files) (tid : Text) (entry : ReferenceEntry) (v : Json) (count : ℕ)
      → get by_id tid ≡ some entry
      → (count ≡ 0 → ⊥)
      → IsWritten by_id files (put files entry.json_path v) count
  IsWritten-put files tid entry v count e n = record {
    unchanged = λ z. absurd (n z);
    others = λ path h. ground (
      arith,
      get-put files entry.json_path path v,
      text_beq_iff entry.json_path path,
      h tid entry e,
    );
  }

  IsWritten-twice :
      (a b c : Files) (m n : ℕ)
      → IsWritten by_id a b m
      → IsWritten by_id b c n
      → IsWritten by_id a c (m + n)
  IsWritten-twice a b c m n v w = record {
    unchanged = λ z. w.unchanged (omega arith) ∙ v.unchanged (omega arith);
    others = λ path h. w.others path h ∙ v.others path h;
  }

  abbrev pub Writes : Files → Option (Files × ℕ) → Type 0
  Writes files o =
      (after : Files) (count : ℕ) → o ≡ some (after, count) → IsWritten by_id files after count

  Writes-nothing : (fs : Files) → Writes fs (some (fs, 0))
  Writes-nothing fs after count q =
      let a : fs ≡ after = cc in
      let b : 0 ≡ count = cc in
      subst (λ t. IsWritten by_id fs t count) a
        (subst (λ t. IsWritten by_id fs fs t) b (IsWritten-nothing fs))

  auto_target-unknown :
      (tid : Text) (cands : List LabelCandidate) (files : Files)
      → get by_id tid ≡ none
      → auto_target new_id by_id images rom_bytes tid cands files ≡ some (files, 0)
  unfolding auto_target
  auto_target-unknown tid cands files e = ground arith

  auto_target-known :
      (tid : Text) (cands : List LabelCandidate) (files : Files) (entry : ReferenceEntry)
      → get by_id tid ≡ some entry
      → auto_target new_id by_id images rom_bytes tid cands files ≡ (
          load files entry >>= λ store.
          write_target new_id by_id images rom_bytes tid entry files (apply_auto tid cands store))
  unfolding auto_target
  auto_target-known tid cands files entry e = ground arith

  write_target-zero :
      (tid : Text) (entry : ReferenceEntry) (files : Files) (applied : Applied)
      → (applied.count == 0) ≡ true
      → write_target new_id by_id images rom_bytes tid entry files applied ≡ some (files, 0)
  unfolding write_target
  write_target-zero tid entry files applied h = rw h

  write_target-more :
      (tid : Text) (entry : ReferenceEntry) (files : Files) (applied : Applied)
      → (applied.count == 0) ≡ false
      → write_target new_id by_id images rom_bytes tid entry files applied ≡ (
          target_bytes new_id by_id images rom_bytes tid entry >>= λ bytes. some (
            put files entry.json_path (save_annotations (clean_up applied.store bytes)),
            applied.count,
          ))
  unfolding write_target
  write_target-more tid entry files applied h = rw h

  write_target-Writes :
      (tid : Text) (entry : ReferenceEntry) (files : Files) (applied : Applied)
      → get by_id tid ≡ some entry
      → Writes files (write_target new_id by_id images rom_bytes tid entry files applied)
  write_target-Writes tid entry files applied e = elim (Bool-cases (applied.count == 0)) [
    | inl h ↦
        subst (Writes files) (sym (write_target-zero tid entry files applied h))
          (Writes-nothing files)
    | inr h ↦
        subst (Writes files) (sym (write_target-more tid entry files applied h))
          (written (target_bytes new_id by_id images rom_bytes tid entry) h)
  ]
    where
      written :
          (o : Option (List ℕ))
          → (applied.count == 0) ≡ false
          → Writes files (
              o >>= λ bytes. some (
                put files entry.json_path (save_annotations (clean_up applied.store bytes)),
                applied.count,
              ))
      written none h after count q = cc
      written (some bytes) h after count q =
          let a : put files entry.json_path (save_annotations (clean_up applied.store bytes))
              ≡ after =
            cc in
          let b : applied.count ≡ count = cc in
          subst (λ t. IsWritten by_id files t count) a
            (IsWritten-put files tid entry (save_annotations (clean_up applied.store bytes)) count e
              (λ z. ground arith))

  auto_target-Writes :
      (tid : Text) (cands : List LabelCandidate) (files : Files)
      → Writes files (auto_target new_id by_id images rom_bytes tid cands files)
  auto_target-Writes tid cands files = elim (Option-cases (get by_id tid)) [
    | inl e ↦
        subst (Writes files) (sym (auto_target-unknown tid cands files e)) (Writes-nothing files)
    | inr (entry, e) ↦
        subst (Writes files) (sym (auto_target-known tid cands files entry e))
          (from_store entry e (load files entry))
  ]
    where
      from_store :
          (entry : ReferenceEntry)
          → get by_id tid ≡ some entry
          → (o : Option AnnotationStore)
          → Writes files (
              o >>= λ store.
              write_target new_id by_id images rom_bytes tid entry files
                (apply_auto tid cands store))
      from_store entry e none after count q = cc
      from_store entry e (some store) after count q =
          write_target-Writes tid entry files (apply_auto tid cands store) e after count q

  auto_targets-cons :
      (tid : Text) (cands : List LabelCandidate) (groups : Dict Text (List LabelCandidate))
      (files : Files)
      → auto_targets new_id by_id images rom_bytes ((tid, cands) ∷ groups) files ≡ (
          auto_target new_id by_id images rom_bytes tid cands files >>= λ first.
          auto_targets new_id by_id images rom_bytes groups first.0 >>= λ rest.
          some (rest.0, first.1 + rest.1))
  unfolding auto_targets
  auto_targets-cons tid cands groups files = refl

  pub auto_targets-Writes :
      (groups : Dict Text (List LabelCandidate)) (files : Files)
      → Writes files (auto_targets new_id by_id images rom_bytes groups files)
  auto_targets-Writes [] files = unfold auto_targets in Writes-nothing files
  auto_targets-Writes ((tid, cands) ∷ groups) files =
      subst (Writes files) (sym (auto_targets-cons tid cands groups files)) (
        go (auto_target new_id by_id images rom_bytes tid cands files)
          (auto_target-Writes tid cands files) (λ middle. auto_targets-Writes groups middle))
    where
      second :
          (middle : Files) (n : ℕ) (o : Option (Files × ℕ))
          → IsWritten by_id files middle n
          → Writes middle o
          → Writes files (o >>= λ rest. some (rest.0, n + rest.1))
      second middle n none v w after count q = cc
      second middle n (some (last, m)) v w after count q =
          let a : last ≡ after = cc in
          let b : n + m ≡ count = cc in
          subst (λ t. IsWritten by_id files t count) a
            (subst (λ t. IsWritten by_id files last t) b
              (IsWritten-twice files middle last n m v (w last m refl)))

      go :
          (o : Option (Files × ℕ))
          → Writes files o
          → ((middle : Files)
              → Writes middle (auto_targets new_id by_id images rom_bytes groups middle))
          → Writes files (
              o >>= λ first. auto_targets new_id by_id images rom_bytes groups first.0 >>= λ rest.
              some (rest.0, first.1 + rest.1))
      go none w rest after count q = cc
      go (some (middle, n)) w rest after count q =
          second middle n (auto_targets new_id by_id images rom_bytes groups middle)
            (w middle n refl) (rest middle) after count q
