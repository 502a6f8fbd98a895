-- ===== src/Callgraph/Decode/Find.antt =====
-- `bytes.find` as rom_analyzer/callgraph.py uses it: the first occurrence, and the only one.
use rom_analyzer.Common.{
  ℕ, zero, suc, ◌+◌, ◌-◌, ◌≤◌, ◌<◌, ◌≡◌, refl, sym, ap, subst, ◌∙◌, ◌↔◌, inl, inr, true, false,
  ◌&&◌, none, some, List, [], ◌∷◌, arith, ltb, leb, ◌==◌, nat_eq, length, get_elem?, drop,
  Option-cases, Bool-cases, get_elem?-drop, length-drop, drop_twice,
}
use rom_analyzer.Callgraph.Decode.{matches_at, find_in, find_from, find_once}

-- The needle stands at `p`: the position is in range, and the bytes agree.
abbrev pub OccursAt : List ℕ → List ℕ → ℕ → Type 0
OccursAt haystack needle p =
    (p + length needle ≤ length haystack)
    × ((i : ℕ) → i < length needle → get_elem? haystack (p + i) ≡ get_elem? needle i)

abbrev IsFront : List ℕ → List ℕ → Type 0
IsFront needle hay =
    (length needle ≤ length hay)
    × ((i : ℕ) → i < length needle → get_elem? hay i ≡ get_elem? needle i)

matches_at_iff : (needle hay : List ℕ) → (matches_at needle hay ≡ true) ↔ IsFront needle hay
unfolding matches_at
matches_at_iff [] hay = (λ h. (omega arith, λ i k. absurd (omega arith)), λ h. refl)
matches_at_iff (b ∷ needle) [] = (λ h. cc, λ h. absurd (omega (arith, h.0)))
matches_at_iff (b ∷ needle) (c ∷ hay) =
    let (f, g) = matches_at_iff needle hay in
    (
      λ h. let (l, same) = f (ground arith) in (omega (arith, l), λ i k. first h same i k),
      λ (l, same).
          let e : some c ≡ some b = same 0 (omega arith) in
          ground (arith, e, g (omega (arith, l), λ i k. same (suc i) (omega arith))),
    )
  where
    first :
        (b == c && matches_at needle hay) ≡ true
        → ((i : ℕ) → i < length needle → get_elem? hay i ≡ get_elem? needle i)
        → (i : ℕ) → i < suc (length needle)
        → get_elem? (c ∷ hay) i ≡ get_elem? (b ∷ needle) i
    first h same zero k = ground arith
    first h same (suc i) k = same i (omega arith)

find_in-some :
    (needle hay : List ℕ) (p q : ℕ)
    → find_in needle hay p ≡ some q
    → (d : ℕ) × (q ≡ p + d)
      × (d ≤ length hay)
      × (matches_at needle (drop d hay) ≡ true)
      × ((e : ℕ) → e < d → matches_at needle (drop e hay) ≡ false)
unfolding find_in
find_in-some needle [] p q h =
    (0, ground arith, omega arith, ground arith, λ e k. absurd (omega arith))
find_in-some needle (b ∷ hay) p q h = elim (Bool-cases (matches_at needle (b ∷ hay))) [
  | inl m ↦ (0, ground arith, omega arith, m, λ e k. absurd (omega arith))
  | inr m ↦
      let (d, e, l, t, f) = find_in-some needle hay (suc p) q (ground arith) in
      (suc d, omega (arith, e), omega (arith, l), t, λ r k. before needle b hay d m f r k)
]
  where
    before :
        (needle : List ℕ) (b : ℕ) (hay : List ℕ) (d : ℕ)
        → matches_at needle (b ∷ hay) ≡ false
        → ((e : ℕ) → e < d → matches_at needle (drop e hay) ≡ false)
        → (e : ℕ) → e < suc d
        → matches_at needle (drop e (b ∷ hay)) ≡ false
    before needle b hay d m f zero k = m
    before needle b hay d m f (suc e) k = f e (omega arith)

find_in-none :
    (needle hay : List ℕ) (p e : ℕ)
    → find_in needle hay p ≡ none
    → e ≤ length hay
    → matches_at needle (drop e hay) ≡ false
unfolding find_in
find_in-none needle [] p zero h k = ground arith
find_in-none needle [] p (suc e) h k = absurd (omega arith)
find_in-none needle (b ∷ hay) p zero h k = ground arith
find_in-none needle (b ∷ hay) p (suc e) h k =
    find_in-none needle hay (suc p) e (ground arith) (omega arith)

pub OccursAt-iff :
    (hay needle : List ℕ) (p : ℕ)
    → p ≤ length hay
    → (matches_at needle (drop p hay) ≡ true) ↔ OccursAt hay needle p
OccursAt-iff hay needle p h =
    let (f, g) = matches_at_iff needle (drop p hay) in
    let l = length-drop hay p h in
    (
      λ m.
          let (fits, same) = f m in
          (omega (arith, fits, l), λ i k. sym (get_elem?-drop hay p i) ∙ same i k),
      λ (fits, same). g (omega (arith, fits, l), λ i k. get_elem?-drop hay p i ∙ same i k),
    )

module _ (hay needle : List ℕ) where
  abbrev IsFirst : ℕ → ℕ → Type 0
  IsFirst p q =
      (p ≤ q) × OccursAt hay needle q × ((r : ℕ) → p ≤ r → r < q → OccursAt hay needle r → ⊥)

  front :
      (p d : ℕ)
      → p ≤ length hay
      → matches_at needle (drop d (drop p hay)) ≡ false
      → d ≤ length (drop p hay)
      → OccursAt hay needle (p + d)
      → ⊥
  front p d h m k o =
      let t = (OccursAt-iff hay needle (p + d) (omega (arith, length-drop hay p h))).1 o in
      let same = ap (λ t. matches_at needle t) (drop_twice hay p d) in ground (arith, t, m, same)

  pub find_from-some : (p q : ℕ) → find_from hay needle p ≡ some q → IsFirst p q
  unfolding find_from
  find_from-some p q h = elim (Bool-cases (leb p (length hay))) [
    | inr e ↦ absurd (ground arith)
    | inl e ↦
        let inside : p ≤ length hay = ground arith in
        let (d, same, l, t, f) = find_in-some needle (drop p hay) p q (ground arith) in
        let fits : p + d ≤ length hay = omega (arith, l, length-drop hay p inside) in
        let t' = ap (λ t. matches_at needle t) (sym (drop_twice hay p d)) ∙ t in
        (
          omega (arith, same),
          subst (OccursAt hay needle) (sym same) ((OccursAt-iff hay needle (p + d) fits).0 t'),
          λ r low high o.
              front p (r - p) inside (f (r - p) (omega (arith, same))) (omega (arith, l, same))
                (subst (OccursAt hay needle) (omega arith) o),
        )
  ]

  pub find_from-none :
      (p : ℕ) → find_from hay needle p ≡ none → (r : ℕ) → p ≤ r → OccursAt hay needle r → ⊥
  unfolding find_from
  find_from-none p h r k o = elim (Bool-cases (leb p (length hay))) [
    | inr e ↦ ground (arith, o.0)
    | inl e ↦
        let inside : p ≤ length hay = ground arith in
        let l = length-drop hay p inside in
        let fits : r - p ≤ length (drop p hay) = omega (arith, l, o.0) in
        front p (r - p) inside (find_in-none needle (drop p hay) p (r - p) (ground arith) fits) fits
          (subst (OccursAt hay needle) (omega arith) o)
  ]

  -- A table is found by its contents exactly where they occur once in the image.
  pub find_once_iff :
      (p : ℕ)
      → (find_once hay needle ≡ some p)
        ↔ (OccursAt hay needle p × ((q : ℕ) → OccursAt hay needle q → q ≡ p))
  unfolding find_once
  find_once_iff p = (
    λ h. elim (Option-cases (find_from hay needle 0)) [
      | inl e ↦ absurd (ground arith)
      | inr (q, e) ↦ elim (Option-cases (find_from hay needle (q + 1))) [
        | inr (r, f) ↦ absurd (ground arith)
        | inl f ↦
            let same : q ≡ p = ground arith in
            let (_, o, first) = find_from-some 0 q e in
            (
              subst (OccursAt hay needle) same o,
              λ r n. only q r p same (first r (omega arith)) (find_from-none (q + 1) f r) n,
            )
      ]
    ],
    λ (o, unique). elim (Option-cases (find_from hay needle 0)) [
      | inl e ↦ absurd (find_from-none 0 e p (omega arith) o)
      | inr (q, e) ↦
          let (_, n, first) = find_from-some 0 q e in
          let same : q ≡ p = unique q n in
          elim (Option-cases (find_from hay needle (q + 1))) [
            | inl f ↦ ground arith
            | inr (r, f) ↦
                let (k, m, _) = find_from-some (q + 1) r f in
                absurd (omega (arith, k, unique r m, same))
          ]
    ],
  )
    where
      only :
          (q r p : ℕ)
          → q ≡ p
          → (r < q → OccursAt hay needle r → ⊥)
          → (q + 1 ≤ r → OccursAt hay needle r → ⊥)
          → OccursAt hay needle r
          → r ≡ p
      only q r p same before after n = elim (Bool-cases (ltb r q)) [
        | inl e ↦ absurd (before (ground arith) n)
        | inr e ↦ elim (Bool-cases (ltb q r)) [
          | inl f ↦ absurd (after (ground arith) n)
          | inr f ↦ ground arith
        ]
      ]
