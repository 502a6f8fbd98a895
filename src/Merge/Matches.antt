-- ===== src/Merge/Matches.antt =====
-- merge_matches of rom_analyzer/merge.py keeps the first best match of every address.
use mathlib.Core.Path.{ap₂}
use mathlib.Core.List.{foldl, foldl-append}
use rom_analyzer.Merge.Rank.{match_leb-IsOrder}
use rom_analyzer.Common.{
  ℕ, ◌≡◌, refl, sym, ap, ◌∙◌, ◌↔◌, ◌⊎◌, inl, inr, Option, none, some, List, [], ◌∷◌, map, arith,
  ◌==◌, nat_eq, if◌then◌else◌, filter, In-filter, flatten, In, In-map, map-In, Distinct,
}
use rom_analyzer.Common.Dict.{
  Dict, keys, values, get, put, get-put, get-In, get_of_In, Distinct-put,
}
use rom_analyzer.Common.Sort.{max_by, greatest, greatest_lem}
use rom_analyzer.Types.{MatchedFunction}
use rom_analyzer.Merge.{Priorities, match_leb, offer, merge_all, merge_matches}

-- The matches for one target address, in the order of the references.
abbrev pub at_address : ℕ → List MatchedFunction → List MatchedFunction
at_address a = filter (λ m. m.new_address == a)

addresses :
    (best : Dict ℕ MatchedFunction)
    → ((k : ℕ) (m : MatchedFunction) → In (k, m) best → m.new_address ≡ k)
    → map (λ m. m.new_address) (values best) ≡ keys best
addresses [] h = refl
addresses ((k, m) ∷ best) h = ap₂ ◌∷◌ (h k m (inl refl)) (addresses best (λ j n i. h j n (inr i)))

module _ (priority : Priorities) where
  -- The best match so far against those that follow.
  best_with : Option MatchedFunction → List MatchedFunction → Option MatchedFunction
  best_with none ms = greatest (match_leb priority) ms
  best_with (some b) ms = some (max_by (match_leb priority) b ms)

  best_with-nil : (o : Option MatchedFunction) → o ≡ best_with o []
  unfolding best_with max_by
  best_with-nil none = refl
  best_with-nil (some b) = refl

  offer-get :
      (best : Dict ℕ MatchedFunction) (m : MatchedFunction) (a : ℕ) (ms : List MatchedFunction)
      → best_with (get (offer priority best m) a) ms ≡ (
          if m.new_address == a then best_with (get best a) (m ∷ ms) else best_with (get best a) ms)
  unfolding offer best_with max_by
  offer-get best m a ms = ground (arith, get-put best m.new_address a m)

  foldl-offer :
      (ms : List MatchedFunction) (best : Dict ℕ MatchedFunction) (a : ℕ)
      → get (foldl (offer priority) best ms) a ≡ best_with (get best a) (at_address a ms)
  foldl-offer [] best a = best_with-nil (get best a)
  foldl-offer (m ∷ ms) best a =
      foldl-offer ms (offer priority best m) a
      ∙ ground (arith, offer-get best m a (at_address a ms))

  foldl-results :
      (results : List (List MatchedFunction)) (best : Dict ℕ MatchedFunction)
      → foldl (foldl (offer priority)) best results ≡ foldl (offer priority) best (flatten results)
  foldl-results [] best = refl
  foldl-results (ms ∷ results) best =
      foldl-results results (foldl (offer priority) best ms)
      ∙ sym (foldl-append (offer priority) best ms (flatten results))

  -- A match is kept or passed over.
  offer-cases :
      (best : Dict ℕ MatchedFunction) (m : MatchedFunction)
      → (offer priority best m ≡ best) ⊎ (offer priority best m ≡ put best m.new_address m)
  unfolding offer
  offer-cases best m = ground arith

  offer-Distinct :
      (best : Dict ℕ MatchedFunction) (m : MatchedFunction)
      → Distinct (keys best)
      → Distinct (keys (offer priority best m))
  offer-Distinct best m h = elim (offer-cases best m) [
    | inl e ↦ rw e h
    | inr e ↦ rw e (Distinct-put best m.new_address m h)
  ]

  foldl-Distinct :
      (ms : List MatchedFunction) (best : Dict ℕ MatchedFunction)
      → Distinct (keys best)
      → Distinct (keys (foldl (offer priority) best ms))
  foldl-Distinct [] best h = h
  foldl-Distinct (m ∷ ms) best h =
      foldl-Distinct ms (offer priority best m) (offer-Distinct best m h)

  module _ (results : List (List MatchedFunction)) where
    merge_all-Distinct : Distinct (keys (merge_all priority results))
    unfolding merge_all
    merge_all-Distinct = rw (foldl-results results []) (foldl-Distinct (flatten results) [] tt)

    -- What is kept for an address is the first greatest of all matches for it.
    get-merge_all :
        (a : ℕ)
        → get (merge_all priority results) a
          ≡ greatest (match_leb priority) (at_address a (flatten results))
    unfolding merge_all
    get-merge_all a =
        ap (λ d. get d a) (foldl-results results [])
        ∙ foldl-offer (flatten results) [] a
        ∙ unfold best_with get in refl

    keyed :
        (a : ℕ) (m : MatchedFunction)
        → get (merge_all priority results) a ≡ some m
        → m.new_address ≡ a
    keyed a m h =
        let (i, _) =
          greatest_lem (match_leb priority) (match_leb-IsOrder priority)
            (at_address a (flatten results)) m (sym (get-merge_all a) ∙ h) in
        let (_, e) = (In-filter (λ m. m.new_address == a) m (flatten results)).0 i in ground arith

    -- A match is in the result exactly when it is the first of the highest rank among the matches
    -- that any reference has for its target address.
    pub merge_matches_iff :
        (m : MatchedFunction)
        → In m (merge_matches priority results)
          ↔ (greatest (match_leb priority) (at_address m.new_address (flatten results)) ≡ some m)
    unfolding merge_matches
    merge_matches_iff m = (
      λ i.
          let ((a, b), at, e) = In-map (λ p. p.1) m (merge_all priority results) i in
          let found = get_of_In (merge_all priority results) a b merge_all-Distinct at in
          let here : m.new_address ≡ a = keyed a m (found ∙ ap some e) in
          sym (get-merge_all m.new_address)
          ∙ ap (get (merge_all priority results)) here
          ∙ found
          ∙ ap some e,
      λ h.
          map-In (λ p. p.1) (m.new_address, m) (merge_all priority results)
            (get-In (merge_all priority results) m.new_address m (get-merge_all m.new_address ∙ h)),
    )

    -- No target address has two matches in the result.
    pub merge_matches-Distinct :
        Distinct (map (λ m. m.new_address) (merge_matches priority results))
    unfolding merge_matches
    merge_matches-Distinct =
        rw
          (addresses (merge_all priority results)
            (λ k m i. keyed k m (get_of_In (merge_all priority results) k m merge_all-Distinct i)))
          merge_all-Distinct
