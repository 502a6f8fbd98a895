-- ===== src/Registry/Select.antt =====
-- What select_references of rom_analyzer/registry.py keeps, and in which order; what load_registry
-- gives.
use rom_analyzer.Common.{
  ◌≡◌, refl, ◌↔◌, ◌⊎◌, inl, true, not, List, [], ◌∷◌, arith, filter, elem, elem_iff, ◌==◌, In,
  In-filter, Pairwise, Pairwise-weaken,
}
use rom_analyzer.Common.Text.{Text, text_eq, text_beq_iff}
use rom_analyzer.Common.Int.{ℤ, ◌≤ℤ◌, ℤ_eq}
use rom_analyzer.Common.Sort.{sort, IsOrder, In-sort, sort-IsSorted, filter-sort}
use rom_analyzer.Registry.{
  ReferenceEntry, keep_included, drop_excluded, priority_leb, compatible, select_references,
}

-- What the caller asks of an entry.
pub record IsWanted (wanted : Text) (include_ids exclude_ids : List Text) (e : ReferenceEntry)
    : Type 0 where
  pub variant : e.variant ≡ wanted
  pub included : (include_ids ≡ []) ⊎ In e.id include_ids
  pub excluded : In e.id exclude_ids → ⊥

In-keep_included :
    (ids : List Text) (kept : List ReferenceEntry) (e : ReferenceEntry)
    → In e (keep_included ids kept) ↔ (In e kept × ((ids ≡ []) ⊎ In e.id ids))
unfolding keep_included
In-keep_included [] kept e = (λ m. (m, inl refl), λ p. p.0)
In-keep_included (i ∷ ids) kept e =
    ground (arith, In-filter (λ e. elem e.id (i ∷ ids)) e kept, elem_iff e.id (i ∷ ids))

In-drop_excluded :
    (ids : List Text) (kept : List ReferenceEntry) (e : ReferenceEntry)
    → In e (drop_excluded ids kept) ↔ (In e kept × (In e.id ids → ⊥))
unfolding drop_excluded
In-drop_excluded [] kept e = (λ m. (m, λ n. n), λ p. p.0)
In-drop_excluded (i ∷ ids) kept e =
    ground (arith, In-filter (λ e. not (elem e.id (i ∷ ids))) e kept, elem_iff e.id (i ∷ ids))

-- An entry is selected exactly when it is registered, is of the variant, is on the include list
-- unless that is empty, and is not on the exclude list.
pub select_references_iff :
    (entries : List ReferenceEntry) (variant : Text) (include_ids exclude_ids : List Text)
    (e : ReferenceEntry)
    → In e (select_references entries variant include_ids exclude_ids)
      ↔ (In e entries × IsWanted variant include_ids exclude_ids e)
unfolding select_references compatible
select_references_iff entries variant include_ids exclude_ids e =
    let kept = filter (λ (e : ReferenceEntry). e.variant == variant) entries in
    let sorted =
      In-sort priority_leb e (drop_excluded exclude_ids (keep_included include_ids kept)) in
    let dropped = In-drop_excluded exclude_ids (keep_included include_ids kept) e in
    let included = In-keep_included include_ids kept e in
    let filtered = In-filter (λ (e : ReferenceEntry). e.variant == variant) e entries in
    let same = text_beq_iff e.variant variant in
    (
      λ m.
          let (n, x) = dropped.0 (sorted.0 m) in
          let (k, i) = included.0 n in
          let (r, v) = filtered.0 k in
          (r, record { variant = same.0 v; included = i; excluded = x }),
      λ (r, w).
          sorted.1
            (dropped.1 (included.1 (filtered.1 (r, same.1 w.variant), w.included), w.excluded)),
    )

priority_leb-IsOrder : IsOrder priority_leb
unfolding priority_leb
priority_leb-IsOrder = record { total = λ a b h. ground arith; trans = λ a b c h k. ground arith }

-- The selected entries stand in the order of descending priority, and those of the same priority in
-- the order of the registry.
pub select_references-ordered :
    (entries : List ReferenceEntry) (variant : Text) (include_ids exclude_ids : List Text)
    → Pairwise
        (λ a b. b.priority ≤ℤ a.priority)
        (select_references entries variant include_ids exclude_ids)
      × ((p : ℤ)
          → filter
              (λ e. e.priority == p)
              (select_references entries variant include_ids exclude_ids)
            ≡ filter (λ e. e.priority == p) (compatible entries variant include_ids exclude_ids))
unfolding select_references
select_references-ordered entries variant include_ids exclude_ids =
    let kept = compatible entries variant include_ids exclude_ids in
    (
      Pairwise-weaken (λ a b. priority_leb a b ≡ true) (λ a b. b.priority ≤ℤ a.priority)
          (λ a b h. unfold priority_leb in ground arith) (sort priority_leb kept)
          (sort-IsSorted priority_leb priority_leb-IsOrder kept),
      λ p.
          filter-sort priority_leb (λ e. e.priority == p)
            (λ a b h k. unfold priority_leb in ground arith) kept,
    )
