-- ===== src/Cleanup/Duplicates.antt =====
-- drop_imprecise_s_duplicates of rom_analyzer/cleanup.py removes the sloppy duplicates and no more.
use rom_analyzer.Common.{
  ℕ, ◌+◌, ◌≤◌, ◌≡◌, Bool, true, not, List, [], ◌∷◌, arith, length, filter, In,
}
use rom_analyzer.Common.Text.{Text, text_eq}
use rom_analyzer.Common.Dict.{Dict}
use rom_analyzer.Annotations.{AnnotationStore}
use rom_analyzer.Cleanup.{is_sloppy, precise_labels}

-- A sloppy entry with a precise label of its name within the tolerance.
pub record IsArtifact (store : AnnotationStore) (tol : ℕ) (name : Text) (addr : ℕ) (source : Text)
    : Type 0 where
  pub sloppy : is_sloppy source ≡ true
  pub precise : ℕ
  pub is_label : In (name, precise) (precise_labels store)
  pub below : addr ≤ tol + precise
  pub above : precise ≤ tol + addr

-- How many elements a filter removes.
removed : {A : Type 0} → (A → Bool) → List A → ℕ
removed p xs = length (filter (λ x. not (p x)) xs)

length-filter :
    {A : Type 0} (p : A → Bool) (xs : List A) → length (filter p xs) + removed p xs ≡ length xs
unfolding removed
length-filter p [] = omega arith
length-filter p (x ∷ xs) = ground (arith, length-filter p xs)
