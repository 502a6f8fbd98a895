-- ===== src/Enrich/Items.antt =====
-- The items of build_reconcile_items of rom_analyzer/enrich.py.
use rom_analyzer.Common.{
  ℕ, ◌<◌, ◌≡◌, ◌≢◌, refl, sym, ap, subst, ◌∙◌, ◌⊎◌, inl, inr, ◌↔◌, Bool, true, false, not, List, [],
  ◌∷◌, ltb, ◌==◌, nat_eq, if◌then◌else◌, ◌||◌, ◌&&◌, In, arith, Bool-cases,
}
use rom_analyzer.Common.Text.{Text, codes, text_eq, text_beq_iff, starts_with}
use rom_analyzer.Common.TextOrder.{text_leb_total, text_leb_trans, text_leb_antisym}
use rom_analyzer.Common.Dict.{Dict, get_or}
use rom_analyzer.Common.Sort.{IsOrder, IsSorted, sort-IsSorted, In-sort}
use rom_analyzer.Enrich.{LabelCandidate, ReconcileItem}
use rom_analyzer.Enrich.Names.{is_placeholder}
use rom_analyzer.Enrich.Classify.{
  or_empty, keep, proposed_verdict, auto_resolve, item_of, items_of, item_leb,
  build_reconcile_items,
}

-- The proposed name is better: the target's name does not begin with sio0 or sio1, and either it is a
-- placeholder or missing and the proposed name is no placeholder, or both are or none is and the source
-- has the higher priority.
pub record IsBetter (priority : Dict Text ℕ) (c : LabelCandidate) : Type 0 where
  pub no_sio0 : starts_with (or_empty c.current) (codes "sio0") ≡ false
  pub no_sio1 : starts_with (or_empty c.current) (codes "sio1") ≡ false
  pub better :
      (((is_placeholder (or_empty c.current) || or_empty c.current == []) ≡ true)
        × (is_placeholder c.proposed ≡ false))
      ⊎ (((is_placeholder (or_empty c.current) || or_empty c.current == [])
            ≡ is_placeholder c.proposed)
          × (get_or priority c.target 0 < get_or priority c.source 0))

abbrev is_better : Bool → Bool → Bool → Bool → Bool → Bool
is_better sio0 sio1 poor prop_ph higher =
    not (sio0 || sio1) && (poor && not prop_ph || not (prop_ph && not poor) && higher)

better_of : Dict Text ℕ → LabelCandidate → Bool
better_of priority c =
    is_better (starts_with (or_empty c.current) (codes "sio0"))
      (starts_with (or_empty c.current) (codes "sio1"))
      (is_placeholder (or_empty c.current) || or_empty c.current == []) (is_placeholder c.proposed)
      (ltb (get_or priority c.target 0) (get_or priority c.source 0))

choice_lem :
    {A : Type 0} (sio0 sio1 poor prop_ph higher : Bool) (p k : A)
    → (if sio0 || sio1
        then k
        else if poor && not prop_ph
        then p
        else if prop_ph && not poor
        then k
        else if higher
        then p
        else k)
      ≡ (if is_better sio0 sio1 poor prop_ph higher then p else k)
choice_lem sio0 sio1 poor prop_ph higher p k = ground arith

abbrev taken : LabelCandidate → Text × Text
taken c = (c.proposed, proposed_verdict)

abbrev kept : LabelCandidate → Text × Text
kept c = (or_empty c.current, keep)

auto_resolve_lem :
    (c : LabelCandidate) (priority : Dict Text ℕ)
    → auto_resolve c priority ≡ (if better_of priority c then taken c else kept c)
unfolding auto_resolve better_of
auto_resolve_lem c priority =
    choice_lem (starts_with (or_empty c.current) (codes "sio0"))
      (starts_with (or_empty c.current) (codes "sio1"))
      (is_placeholder (or_empty c.current) || or_empty c.current == []) (is_placeholder c.proposed)
      (ltb (get_or priority c.target 0) (get_or priority c.source 0)) (taken c) (kept c)

better_lem :
    (sio0 sio1 poor prop_ph : Bool) (a b : ℕ)
    → (is_better sio0 sio1 poor prop_ph (ltb a b) ≡ true) ↔ (
        (sio0 ≡ false)
        × (sio1 ≡ false)
        × (((poor ≡ true) × (prop_ph ≡ false)) ⊎ ((poor ≡ prop_ph) × (a < b))))
better_lem sio0 sio1 poor prop_ph a b = ground arith

better_of_iff :
    (priority : Dict Text ℕ) (c : LabelCandidate)
    → (better_of priority c ≡ true) ↔ IsBetter priority c
unfolding better_of
better_of_iff priority c =
    let both =
      better_lem (starts_with (or_empty c.current) (codes "sio0"))
        (starts_with (or_empty c.current) (codes "sio1"))
        (is_placeholder (or_empty c.current) || or_empty c.current == [])
        (is_placeholder c.proposed) (get_or priority c.target 0) (get_or priority c.source 0) in
    (
      λ h. let (p, q, r) = both.0 h in record { no_sio0 = p; no_sio1 = q; better = r },
      λ v. both.1 (v.no_sio0, v.no_sio1, v.better),
    )

is_kept : Dict Text ℕ → LabelCandidate → Bool
is_kept priority c = better_of priority c && not (c.proposed == or_empty c.current)

-- The item that a candidate with a better name gets.
unfoldable pub suggestion : LabelCandidate → ReconcileItem
unfolding item_of
suggestion c = item_of c (taken c)

items_of_step :
    (c : LabelCandidate) (review : List LabelCandidate) (priority : Dict Text ℕ)
    → items_of (c ∷ review) priority ≡ (
        if is_kept priority c
        then suggestion c ∷ items_of review priority
        else items_of review priority)
unfolding items_of suggestion is_kept
items_of_step c review priority = elim (Bool-cases (better_of priority c)) [
  | inl h ↦ by_name (auto_resolve_lem c priority ∙ chosen h) h
  | inr h ↦ skipped (auto_resolve_lem c priority ∙ refused h) h
]
  where
    rest : List ReconcileItem
    rest = items_of review priority

    step : Text × Text → List ReconcileItem
    step resolved = if resolved.0 == or_empty c.current then rest else item_of c resolved ∷ rest

    goal : List ReconcileItem
    goal =
        if better_of priority c && not (c.proposed == or_empty c.current)
        then item_of c (taken c) ∷ rest
        else rest

    chosen :
        better_of priority c ≡ true → (if better_of priority c then taken c else kept c) ≡ taken c
    chosen h = rw h

    refused :
        better_of priority c ≡ false → (if better_of priority c then taken c else kept c) ≡ kept c
    refused h = rw h

    by_name :
        auto_resolve c priority ≡ taken c
        → better_of priority c ≡ true
        → step (auto_resolve c priority) ≡ goal
    by_name e h = ap step e ∙ ground arith

    skipped :
        auto_resolve c priority ≡ kept c
        → better_of priority c ≡ false
        → step (auto_resolve c priority) ≡ goal
    skipped e h = ap step e ∙ ground (arith, text_beq_iff (or_empty c.current) (or_empty c.current))

abbrev IsItem : List LabelCandidate → Dict Text ℕ → ReconcileItem → Type 0
IsItem review priority i =
    (c : LabelCandidate) × In c review
    × IsBetter priority c
    × (c.proposed ≢ or_empty c.current)
    × (suggestion c ≡ i)

is_kept_iff :
    (priority : Dict Text ℕ) (c : LabelCandidate)
    → (is_kept priority c ≡ true) ↔ (IsBetter priority c × (c.proposed ≢ or_empty c.current))
unfolding is_kept
is_kept_iff priority c =
    ground (arith, better_of_iff priority c, text_beq_iff c.proposed (or_empty c.current))

In-items_of :
    (review : List LabelCandidate) (priority : Dict Text ℕ) (i : ReconcileItem)
    → In i (items_of review priority) ↔ IsItem review priority i
In-items_of [] priority i = (λ m. absurd (unfold items_of in m), λ h. absurd h.1)
In-items_of (c ∷ review) priority i =
    subst (λ t. In i t ↔ IsItem (c ∷ review) priority i) (sym (items_of_step c review priority))
      (elim (Bool-cases (is_kept priority c)) [
        | inl h ↦ rw h (
          λ m. elim m [
            | inl e ↦ let (b, o) = (is_kept_iff priority c).0 h in (c, inl refl, b, o, sym e)
            | inr n ↦
                let (d, j, b, o, q) = (In-items_of review priority i).0 n in (d, inr j, b, o, q)
          ],
          λ (d, j, b, o, q). elim j [
            | inl e ↦ inl (sym q ∙ ap suggestion e)
            | inr k ↦ inr ((In-items_of review priority i).1 (d, k, b, o, q))
          ],
        )
        | inr h ↦ rw h (
          λ n. let (d, j, b, o, q) = (In-items_of review priority i).0 n in (d, inr j, b, o, q),
          λ (d, j, b, o, q). elim j [
            | inl e ↦ absurd (
                cc (
                  h,
                  (is_kept_iff priority c).1 (
                      subst (λ t. IsBetter priority t × (t.proposed ≢ or_empty t.current)) e
                        (b, o)),
                ))
            | inr k ↦ (In-items_of review priority i).1 (d, k, b, o, q)
          ],
        )
      ])

item_leb-IsOrder : IsOrder item_leb
unfolding item_leb
item_leb-IsOrder = record {
  total = λ i j h. ground (
    arith,
    text_beq_iff i.target j.target,
    text_beq_iff j.target i.target,
    text_leb_total i.target j.target,
  );
  trans = λ i j k h l. ground (
    arith,
    text_beq_iff i.target j.target,
    text_beq_iff j.target k.target,
    text_beq_iff i.target k.target,
    text_leb_trans i.target j.target k.target,
    text_leb_antisym i.target j.target,
    text_leb_antisym j.target k.target,
  );
}

-- A candidate gets an item exactly if its proposed name is better than the name of the target and another
-- one; the item has the verdict to take the proposed name; and the items stand by target, and those of
-- one target by address.
pub build_reconcile_items_iff :
    (review : List LabelCandidate) (priority : Dict Text ℕ) (i : ReconcileItem)
    → (In i (build_reconcile_items review priority) ↔ (
        (c : LabelCandidate) × In c review
        × IsBetter priority c
        × (c.proposed ≢ or_empty c.current)
        × (suggestion c ≡ i)))
      × IsSorted item_leb (build_reconcile_items review priority)
unfolding build_reconcile_items
build_reconcile_items_iff review priority i = (
  (
    λ m. (In-items_of review priority i).0 ((In-sort item_leb i (items_of review priority)).0 m),
    λ h. (In-sort item_leb i (items_of review priority)).1 ((In-items_of review priority i).1 h),
  ),
  sort-IsSorted item_leb item_leb-IsOrder (items_of review priority),
)
