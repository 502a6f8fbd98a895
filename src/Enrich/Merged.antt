-- ===== src/Enrich/Merged.antt =====
-- The candidates that merge_candidates of rom_analyzer/enrich.py leaves: one for each place.
use rom_analyzer.Common.{
  ℕ, ◌≡◌, ◌≢◌, refl, sym, subst, ◌∙◌, inl, inr, some, List, [], ◌∷◌, ◌==◌, nat_eq, In, arith,
  Pairwise, In-filter,
}
use rom_analyzer.Common.Text.{Text, text_eq}
use rom_analyzer.Common.Dict.{Dict}
use rom_analyzer.Common.Dict.Group.{with_key}
use rom_analyzer.Common.Dict.Reduced.{
  IsReduction, reduced-group_by-Pairwise, In-reduced-group_by, reduced-group_by_In,
}
use rom_analyzer.Enrich.{LabelCandidate}
use rom_analyzer.Enrich.Gather.{
  group_key, key_eq, winner_of, winning_vote, merge_group, merge_candidates,
}
use rom_analyzer.Enrich.Majority.{IsMajority-single, IsMerged, winner_lem, winning_vote-In}

merge_step :
    (priority : Dict Text ℕ) (c d : LabelCandidate) (group : List LabelCandidate)
    (vote : Text × List LabelCandidate)
    → winning_vote priority (c ∷ d ∷ group) ≡ some vote
    → merge_group priority (c ∷ d ∷ group) ≡ winner_of priority c (c ∷ d ∷ group) vote ∷ []
unfolding merge_group
merge_step priority c d group vote h = ground arith

-- A group that is not empty is merged into one candidate.
merge_group_lem :
    (priority : Dict Text ℕ) (c : LabelCandidate) (group : List LabelCandidate)
    → (r : LabelCandidate) × (merge_group priority (c ∷ group) ≡ r ∷ [])
      × IsMerged priority r (c ∷ group)
merge_group_lem priority c [] = (
  c,
  unfold merge_group in refl,
  record {
    majority = IsMajority-single priority c;
    sources = inl refl;
    placed = (c, inl refl, refl);
  },
)
merge_group_lem priority c (d ∷ group) =
    let (name, cs, h) = winning_vote-In priority c (d ∷ group) in
    (
      winner_of priority c (c ∷ d ∷ group) (name, cs),
      merge_step priority c d group (name, cs) h,
      winner_lem priority c (winner_of priority c (c ∷ d ∷ group) (name, cs)) (c ∷ d ∷ group) name
          cs (inl refl) h refl,
    )

In-merge_group :
    (priority : Dict Text ℕ) (group : List LabelCandidate) (r : LabelCandidate)
    → In r (merge_group priority group)
    → IsMerged priority r group
In-merge_group priority [] r m = absurd (unfold merge_group in m)
In-merge_group priority (c ∷ group) r m =
    let (s, e, v) = merge_group_lem priority c group in
    elim (subst (In r) e m) [
      | inl q ↦ subst (λ t. IsMerged priority t (c ∷ group)) (sym q) v
      | inr f ↦ absurd f
    ]

merge_group-single :
    (priority : Dict Text ℕ) (group : List LabelCandidate)
    → Pairwise (λ r s. group_key r ≢ group_key s) (merge_group priority group)
merge_group-single priority [] = unfold merge_group in tt
merge_group-single priority (c ∷ group) =
    let (s, e, v) = merge_group_lem priority c group in
    subst (Pairwise (λ r s. group_key r ≢ group_key s)) (sym e) (tt, tt)

merge_group-IsReduction :
    (priority : Dict Text ℕ) → IsReduction group_key group_key (merge_group priority)
merge_group-IsReduction priority = record {
  keeps = λ g r m. (In-merge_group priority g r m).placed;
  alone = merge_group-single priority;
}

-- merge_candidates leaves one candidate for every target, address and category that the candidates have,
-- and no two for one. Its name is the one with the most voters among the candidates for that place, of
-- those with as many the one with a voter of the highest priority, and of those the last in the
-- alphabet; its corroborating sources are those of the voters, unless there was only one candidate,
-- which is kept as it is.
pub merge_candidates_iff :
    (candidates : List LabelCandidate) (priority : Dict Text ℕ)
    → Pairwise (λ r s. group_key r ≢ group_key s) (merge_candidates candidates priority)
      × ((r : LabelCandidate)
          → In r (merge_candidates candidates priority)
          → IsMerged priority r (with_key group_key (group_key r) candidates))
      × ((c : LabelCandidate)
          → In c candidates
          → (r : LabelCandidate) × In r (merge_candidates candidates priority)
            × (group_key r ≡ group_key c))
unfolding merge_candidates
merge_candidates_iff candidates priority = (
  reduced-group_by-Pairwise group_key group_key (merge_group priority)
      (merge_group-IsReduction priority) candidates,
  λ r m. In-merge_group priority (with_key group_key (group_key r) candidates) r (
      In-reduced-group_by group_key group_key (merge_group priority)
        (merge_group-IsReduction priority) candidates r m),
  λ c m. represented c m (with_key group_key (group_key c) candidates) refl,
)
  where
    represented :
        (c : LabelCandidate)
        → In c candidates
        → (group : List LabelCandidate) → with_key group_key (group_key c) candidates ≡ group
        → (r : LabelCandidate) × In r (merge_candidates candidates priority)
          × (group_key r ≡ group_key c)
    represented c m [] e = absurd (
        subst (In c) e (
          (In-filter (λ (d : LabelCandidate). group_key d == group_key c) c candidates).1
            (m, (key_eq.beq_iff (group_key c) (group_key c)).1 refl)))
    represented c m (x ∷ group) e =
        let (r, q, v) = merge_group_lem priority x group in
        let here : In r (merge_group priority (with_key group_key (group_key c) candidates)) =
          subst (λ t. In r (merge_group priority t)) (sym e) (subst (In r) (sym q) (inl refl)) in
        let (d, i, k) = v.placed in
        (
          r,
          unfold merge_candidates in
              (reduced-group_by_In group_key group_key (merge_group priority)
                (merge_group-IsReduction priority) candidates c r m here),
          sym k
              ∙ (key_eq.beq_iff (group_key d) (group_key c)).0
                  ((In-filter (λ (t : LabelCandidate). group_key t == group_key c) d candidates).0
                    (subst (In d) (sym e) i)).1,
        )
