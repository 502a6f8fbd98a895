-- ===== src/Cleanup/Erased.antt =====
-- drop_erased_flash_entries of rom_analyzer/cleanup.py removes the functions in erased flash.
use rom_analyzer.Common.{
  ℕ, zero, suc, ◌+◌, ◌≤◌, ◌<◌, ◌≡◌, refl, sym, subst, ap, ◌∙◌, ◌↔◌, inl, inr, true, false, some,
  List, [], ◌∷◌, arith, leb, ◌==◌, nat_eq, length, get_elem?, take, drop, all, In, Bool-cases,
  get_elem?-drop, length-drop,
}
use rom_analyzer.Common.Text.{Text}
use rom_analyzer.Annotations.{AnnotationFunction, AnnotationStore}
use rom_analyzer.Cleanup.{is_erased, split_erased, drop_erased_flash_entries}

-- The window at the address lies in the image and holds only 0xFF.
abbrev pub IsErased : List ℕ → ℕ → ℕ → Type 0
IsErased rom window addr =
    (addr + window ≤ length rom) × ((i : ℕ) → i < window → get_elem? rom (addr + i) ≡ some 0xff)

all-take_iff :
    (rom : List ℕ) (window : ℕ)
    → window ≤ length rom
    → (all (λ b. b == 0xff) (take window rom) ≡ true)
      ↔ ((i : ℕ) → i < window → get_elem? rom i ≡ some 0xff)
all-take_iff rom zero h = (λ _ i k. absurd (omega arith), λ _. refl)
all-take_iff [] (suc window) h = absurd (omega arith)
all-take_iff (b ∷ rom) (suc window) h =
    let (f, g) = all-take_iff rom window (omega arith) in
    (
      λ a i k. first a f i k,
      λ a. ground (arith, a 0 (omega arith), g (λ i k. a (suc i) (omega arith))),
    )
  where
    first :
        all (λ b. b == 0xff) (take (suc window) (b ∷ rom)) ≡ true
        → (all (λ b. b == 0xff) (take window rom) ≡ true
            → (i : ℕ) → i < window
            → get_elem? rom i ≡ some 0xff)
        → (i : ℕ) → i < suc window
        → get_elem? (b ∷ rom) i ≡ some 0xff
    first a f zero k = ground arith
    first a f (suc i) k = f (ground arith) i (omega arith)

is_erased_lem :
    (rom : List ℕ) (window addr : ℕ) → (is_erased rom window addr ≡ true) ↔ IsErased rom window addr
unfolding is_erased
is_erased_lem rom window addr =
    let inside : leb (addr + window) (length rom) ≡ true → window ≤ length (drop addr rom) =
      λ h. ground (arith, length-drop rom addr) in
    (
      λ h.
          let fits : leb (addr + window) (length rom) ≡ true = ground arith in
          let ones : all (λ b. b == 0xff) (take window (drop addr rom)) ≡ true = ground arith in
          (
            ground arith,
            λ i k.
                sym (get_elem?-drop rom addr i)
                ∙ (all-take_iff (drop addr rom) window (inside fits)).0 ones i k,
          ),
      λ (fits, ones).
          let fits' : leb (addr + window) (length rom) ≡ true = ground arith in
          let all_ones =
            (all-take_iff (drop addr rom) window (inside fits')).1
              (λ i k. get_elem?-drop rom addr i ∙ ones i k) in
          rw (fits', all_ones) refl,
    )

module _ (rom : List ℕ) (window : ℕ) where
  In-split_erased :
      (functions : List AnnotationFunction) (f : AnnotationFunction)
      → In f (split_erased rom window functions).0
        ↔ (In f functions × (is_erased rom window f.entry_point ≡ false))
  unfolding split_erased
  In-split_erased [] f = (λ m. absurd m, λ p. absurd p.0)
  In-split_erased (g ∷ functions) f = ground (
    arith,
    In-split_erased functions f,
    ap (λ (t : AnnotationFunction). is_erased rom window t.entry_point),
  )

  removed→erased :
      (functions : List AnnotationFunction) (name : Text)
      → In name (split_erased rom window functions).1
      → (f : AnnotationFunction) × In f functions
        × (is_erased rom window f.entry_point ≡ true)
        × (f.name ≡ name)
  unfolding split_erased
  removed→erased [] name m = absurd m
  removed→erased (g ∷ functions) name m = elim (Bool-cases (is_erased rom window g.entry_point)) [
    | inl e ↦ elim (rw e at m) [
      | inl p ↦ (g, inl refl, e, sym p)
      | inr n ↦ let (f, i, x, p) = removed→erased functions name n in (f, inr i, x, p)
    ]
    | inr e ↦ let (f, i, x, p) = removed→erased functions name (rw e at m) in (f, inr i, x, p)
  ]

  erased→removed :
      (functions : List AnnotationFunction) (f : AnnotationFunction)
      → In f functions
      → is_erased rom window f.entry_point ≡ true
      → In f.name (split_erased rom window functions).1
  unfolding split_erased
  erased→removed [] f m x = absurd m
  erased→removed (g ∷ functions) f (inl e) x =
      let same = ap (λ (t : AnnotationFunction). t.name) e in
      let x' : is_erased rom window g.entry_point ≡ true =
        ap (λ (t : AnnotationFunction). is_erased rom window t.entry_point) (sym e) ∙ x in
      rw x' (inl same)
  erased→removed (g ∷ functions) f (inr m) x =
      let here = erased→removed functions f m x in
      elim (Bool-cases (is_erased rom window g.entry_point)) [
        | inl e ↦ rw e (inr here)
        | inr e ↦ rw e here
      ]

-- drop_erased_flash_entries keeps exactly the functions whose window is not erased flash, and
-- returns exactly the names of the functions whose window is.
pub drop_erased_flash_entries_iff :
    (store : AnnotationStore) (rom : List ℕ) (window : ℕ)
    → ((f : AnnotationFunction)
        → In f (drop_erased_flash_entries store rom window).0.functions
          ↔ (In f store.functions × (IsErased rom window f.entry_point → ⊥)))
      × ((name : Text)
          → In name (drop_erased_flash_entries store rom window).1 ↔ (
              (f : AnnotationFunction) × In f store.functions
              × IsErased rom window f.entry_point
              × (f.name ≡ name)))
unfolding drop_erased_flash_entries
drop_erased_flash_entries_iff store rom window = (
  λ f.
      ground (
        arith,
        In-split_erased rom window store.functions f,
        is_erased_lem rom window f.entry_point,
      ),
  λ name. (
    λ m.
        let (f, i, x, e) = removed→erased rom window store.functions name m in
        (f, i, (is_erased_lem rom window f.entry_point).0 x, e),
    λ (f, i, x, e).
        subst (λ t. In t (split_erased rom window store.functions).1) e
          (erased→removed rom window store.functions f i
            ((is_erased_lem rom window f.entry_point).1 x)),
  ),
)
