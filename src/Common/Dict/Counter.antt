-- ===== src/Common/Dict/Counter.antt =====
-- Python's `collections.Counter`: how often each value occurs.
use Prim.Native.Nat.{ℕ, ◌+◌, ◌≤◌}
use mathlib.Core.Path.{◌≡◌, ap, ◌∙◌}
use mathlib.Core.Logic.{◌↔◌, inl, inr}
use mathlib.Core.Option.{none, some}
use mathlib.Core.List.{List, [], ◌∷◌, map, foldl}
use native.Mathlib.Omega.{arith}
use rom_analyzer.Common.Tests.{leb, if◌then◌else◌, Eq, ◌==◌, Option-cases}
use rom_analyzer.Common.Lists.{In, Distinct, count, filter, In-map, map-In, In-filter}
use rom_analyzer.Common.Dict.{
  Dict, keys, get, get_or, put, get-put, Distinct-put, get-In, get_of_In,
}

module _ {K : Type 0} ⦃e : Eq K⦄ where
  pub bump : Dict K ℕ → K → Dict K ℕ
  bump d v = put d v (get_or d v 0 + 1)

  unfoldable pub counter : List K → Dict K ℕ
  unfolding bump
  counter = foldl bump []

  bump-get_or :
      (d : Dict K ℕ) (v w : K)
      → get_or (bump d v) w 0 ≡ (if v == w then get_or d w 0 + 1 else get_or d w 0)
  unfolding bump get_or
  bump-get_or d v w = ground (arith, get-put d v w (get_or d v 0 + 1), e.beq_iff v w)

  foldl-bump :
      (vs : List K) (d : Dict K ℕ) (w : K)
      → get_or (foldl bump d vs) w 0 ≡ get_or d w 0 + count w vs
  foldl-bump [] d w = omega arith
  foldl-bump (v ∷ vs) d w = ground (arith, foldl-bump vs (bump d v) w, bump-get_or d v w)

  foldl-bump-Distinct :
      (vs : List K) (d : Dict K ℕ) → Distinct (keys d) → Distinct (keys (foldl bump d vs))
  foldl-bump-Distinct [] d h = h
  foldl-bump-Distinct (v ∷ vs) d h =
      foldl-bump-Distinct vs (bump d v) (unfold bump in Distinct-put d v (get_or d v 0 + 1) h)

  pub Distinct-counter : (vs : List K) → Distinct (keys (counter vs))
  Distinct-counter vs = unfold counter in foldl-bump-Distinct vs [] tt

  -- A value is counted as often as it occurs.
  pub get_or-counter : (vs : List K) (v : K) → get_or (counter vs) v 0 ≡ count v vs
  get_or-counter vs v = unfold counter in (foldl-bump vs [] v ∙ unfold get_or get in omega arith)

  counted : (vs : List K) (v : K) (n : ℕ) → get (counter vs) v ≡ some n → n ≡ count v vs
  unfolding get_or
  counted vs v n h = ground (arith, get_or-counter vs v)

  uncounted : (vs : List K) (v : K) → get (counter vs) v ≡ none → count v vs ≡ 0
  unfolding get_or
  uncounted vs v h = ground (arith, get_or-counter vs v)

  -- The values that are counted at least twice are those that occur at least twice.
  pub In-repeated :
      (vs : List K) (v : K)
      → In v (map (λ p. p.0) (filter (λ p. leb 2 p.1) (counter vs))) ↔ (2 ≤ count v vs)
  In-repeated vs v = (forth, back)
    where
      forth : In v (map (λ p. p.0) (filter (λ p. leb 2 p.1) (counter vs))) → 2 ≤ count v vs
      forth m =
          let ((w, n), i, at) = In-map (λ p. p.0) v (filter (λ p. leb 2 p.1) (counter vs)) m in
          let (j, twice) = (In-filter (λ p. leb 2 p.1) (w, n) (counter vs)).0 i in
          let found = counted vs w n (get_of_In (counter vs) w n (Distinct-counter vs) j) in
          ground (arith, ap (λ x. count x vs) at)

      back : 2 ≤ count v vs → In v (map (λ p. p.0) (filter (λ p. leb 2 p.1) (counter vs)))
      back h = elim (Option-cases (get (counter vs) v)) [
        | inl missing ↦ absurd (ground (arith, uncounted vs v missing))
        | inr (n, found) ↦
            map-In (λ p. p.0) (v, n) (filter (λ p. leb 2 p.1) (counter vs))
              ((In-filter (λ p. leb 2 p.1) (v, n) (counter vs)).1
                (get-In (counter vs) v n found, ground (arith, counted vs v n found)))
      ]
