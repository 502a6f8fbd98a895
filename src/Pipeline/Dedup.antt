-- ===== src/Pipeline/Dedup.antt =====
-- The two loops of match_reference of rom_analyzer/pipeline/reference.py that keep one match for each
-- address of the reference, and of those one for each address of the new image.
use rom_analyzer.Common.{
  ℕ, ◌≡◌, ◌≢◌, refl, sym, ap, subst, ◌∙◌, ◌⊎◌, inl, inr, none, some, List, [], ◌∷◌, In, Pairwise,
  Distinct, Bool-cases, arith, nat_eq, nat_beq_iff, ◌==◌, if◌then◌else◌, map-In, In-All, All-of_In,
}
use mathlib.Core.List.{foldl}
use rom_analyzer.Common.Dict.{Dict, get, put, keys, values, Distinct-put, get-put, get_of_In}
use rom_analyzer.Common.Keyed.{inherited}
use rom_analyzer.Types.{MatchedFunction}
use rom_analyzer.Merge.{match_leb}

module _ (side : MatchedFunction → ℕ) where
  unfoldable pub offer_match : Dict ℕ MatchedFunction → MatchedFunction → Dict ℕ MatchedFunction
  unfolding get put
  offer_match best m = elim (get best (side m)) [
    | none ↦ put best (side m) m
    | some b ↦ if match_leb [] m b then best else put best (side m) m
  ]

  unfoldable pub best_by : List MatchedFunction → Dict ℕ MatchedFunction
  unfolding offer_match
  best_by = foldl offer_match []

unfoldable pub dedup_matches : List MatchedFunction → List MatchedFunction
unfolding best_by
dedup_matches matches =
    let one_per_ref = values (best_by (λ (m : MatchedFunction). m.ref_address) matches) in
    values (best_by (λ (m : MatchedFunction). m.new_address) one_per_ref)

module _ (side : MatchedFunction → ℕ) where
  -- Every entry stands under its address, and comes from the source.
  record IsKept (source : List MatchedFunction) (best : Dict ℕ MatchedFunction) : Type 0 where
    pub distinct : Distinct (keys best)
    pub kept : (k : ℕ) (m : MatchedFunction) → get best k ≡ some m → (side m ≡ k) × In m source

  put-IsKept :
      (source : List MatchedFunction) (best : Dict ℕ MatchedFunction) (m : MatchedFunction)
      → IsKept source best
      → In m source
      → IsKept source (put best (side m) m)
  put-IsKept source best m v i = record {
    distinct = Distinct-put best (side m) m v.distinct;
    kept = λ k n h. elim (Bool-cases (side m == k)) [
      | inl e ↦
          let q : some m ≡ some n = ground (arith, get-put best (side m) k m) in
          let p : m ≡ n = cc in
          subst (λ t. (side t ≡ k) × In t source) p (ground (arith, nat_beq_iff (side m) k), i)
      | inr e ↦ v.kept k n (ground (arith, get-put best (side m) k m))
    ];
  }

  offer-cases :
      (best : Dict ℕ MatchedFunction) (m : MatchedFunction)
      → (offer_match side best m ≡ best) ⊎ (offer_match side best m ≡ put best (side m) m)
  unfolding offer_match
  offer-cases best m = ground arith

  offer-IsKept :
      (source : List MatchedFunction) (best : Dict ℕ MatchedFunction) (m : MatchedFunction)
      → IsKept source best
      → In m source
      → IsKept source (offer_match side best m)
  offer-IsKept source best m v i = elim (offer-cases best m) [
    | inl e ↦ subst (IsKept source) (sym e) v
    | inr e ↦ subst (IsKept source) (sym e) (put-IsKept source best m v i)
  ]

  foldl-IsKept :
      (source ms : List MatchedFunction) (best : Dict ℕ MatchedFunction)
      → IsKept source best
      → ((m : MatchedFunction) → In m ms → In m source)
      → IsKept source (foldl (offer_match side) best ms)
  foldl-IsKept source [] best v from = v
  foldl-IsKept source (m ∷ ms) best v from =
      foldl-IsKept source ms (offer_match side best m)
        (offer-IsKept source best m v (from m (inl refl))) (λ n i. from n (inr i))

  best_by-IsKept : (ms : List MatchedFunction) → IsKept ms (best_by side ms)
  unfolding best_by
  best_by-IsKept ms =
      foldl-IsKept ms ms [] (record { distinct = tt; kept = λ k m h. absurd (empty k m h) })
        (λ m i. i)
    where
      empty : (k : ℕ) (m : MatchedFunction) → get {V = MatchedFunction} [] k ≡ some m → ⊥
      empty k m h = let e : get {V = MatchedFunction} [] k ≡ none = unfold get in refl in cc

  value_In :
      (best : Dict ℕ MatchedFunction) (m : MatchedFunction)
      → In m (values best)
      → (k : ℕ) × In {A = ℕ × MatchedFunction} (k, m) best
  value_In [] m i = absurd i
  value_In ((k, n) ∷ best) m (inl e) = (k, inl (ap (λ (t : MatchedFunction). (k, t)) e))
  value_In ((k, n) ∷ best) m (inr i) = let (j, o) = value_In best m i in (j, inr o)

  values-Pairwise :
      (source : List MatchedFunction) (best : Dict ℕ MatchedFunction)
      → IsKept source best
      → Pairwise (λ a b. side a ≢ side b) (values best)
  values-Pairwise source best v =
      go best v.distinct (λ k m i. (v.kept k m (get_of_In best k m v.distinct i)).0)
    where
      go :
          (d : Dict ℕ MatchedFunction)
          → Distinct (keys d)
          → ((k : ℕ) (m : MatchedFunction) → In {A = ℕ × MatchedFunction} (k, m) d → side m ≡ k)
          → Pairwise (λ a b. side a ≢ side b) (values d)
      go [] h f = tt
      go ((k, m) ∷ d) h f = (
        All-of_In (values d) (λ n i e.
            let (j, o) = value_In d n i in
            In-All (λ (t : ℕ). k ≢ t) (keys d) h.0 j (key_In j n d o)
              (sym (f k m (inl refl)) ∙ e ∙ f j n (inr o))),
        go d h.1 (λ j n i. f j n (inr i)),
      )
        where
          key_In :
              (j : ℕ) (n : MatchedFunction) (e : Dict ℕ MatchedFunction)
              → In {A = ℕ × MatchedFunction} (j, n) e
              → In j (keys e)
          key_In j n e i = map-In (λ (p : ℕ × MatchedFunction). p.0) (j, n) e i

  -- One match is kept for every address, and it is one of the source.
  pub best_by-Pairwise :
      (ms : List MatchedFunction) → Pairwise (λ a b. side a ≢ side b) (values (best_by side ms))
  best_by-Pairwise ms = values-Pairwise ms (best_by side ms) (best_by-IsKept ms)

  pub In-best_by :
      (ms : List MatchedFunction) (m : MatchedFunction) → In m (values (best_by side ms)) → In m ms
  In-best_by ms m i =
      let v = best_by-IsKept ms in
      let (k, o) = value_In (best_by side ms) m i in
      (v.kept k m (get_of_In (best_by side ms) k m v.distinct o)).1

-- No two of the matches that are left share an address on either side, and each is one of the matches.
pub dedup_matches_lem :
    (ms : List MatchedFunction)
    → Pairwise (λ (a b : MatchedFunction). a.ref_address ≢ b.ref_address) (dedup_matches ms)
      × Pairwise (λ (a b : MatchedFunction). a.new_address ≢ b.new_address) (dedup_matches ms)
      × ((m : MatchedFunction) → In m (dedup_matches ms) → In m ms)
unfolding dedup_matches
dedup_matches_lem ms =
    let first = values (best_by (λ (m : MatchedFunction). m.ref_address) ms) in
    let second = best_by-Pairwise (λ (m : MatchedFunction). m.new_address) first in
    let from = In-best_by (λ (m : MatchedFunction). m.new_address) first in
    (
      inherited (λ (m : MatchedFunction). m.new_address) (λ (m : MatchedFunction). m.ref_address)
          first (values (best_by (λ (m : MatchedFunction). m.new_address) first))
          (best_by-Pairwise (λ (m : MatchedFunction). m.ref_address) ms) second from,
      second,
      λ m i. In-best_by (λ (n : MatchedFunction). n.ref_address) ms m (from m i),
    )
