-- ===== src/Common/Dict.antt =====
-- Python's `dict`: an association list in the order of first insertion, which is the order in
-- which a `dict` is iterated.
pub mod Counter
pub mod Group
pub mod Reduced
use mathlib.Core.Path.{◌≡◌, refl, ap}
use mathlib.Core.Logic.{◌≢◌, ◌↔◌, ◌⊎◌, inl, inr}
use mathlib.Core.Option.{Option, none, some}
use mathlib.Core.List.{List, [], ◌∷◌, map, foldl}
use native.Mathlib.Omega.{arith}
use rom_analyzer.Common.Tests.{if◌then◌else◌, Eq, ◌==◌, Bool-cases}
use rom_analyzer.Common.Lists.{In, Distinct, In-All, All-of_In, map-In}

abbrev pub Dict : Type 0 → Type 0 → Type 0
Dict K V = List (K × V)

module _ {K V : Type 0} where
  abbrev pub keys : Dict K V → List K
  keys = map (λ p. p.0)

  abbrev pub values : Dict K V → List V
  values = map (λ p. p.1)

module _ {K V : Type 0} ⦃e : Eq K⦄ where
  -- `d.get(k)`
  unfoldable pub get : Dict K V → K → Option V
  get [] k = none
  get ((j, v) ∷ d) k = if j == k then some v else get d k

  -- `d.get(k, default)`
  unfoldable pub get_or : Dict K V → K → V → V
  get_or d k default = elim (get d k) [ none ↦ default | some v ↦ v ]

  -- `d[k] = v`: a key that is there keeps its place.
  unfoldable pub put : Dict K V → K → V → Dict K V
  put [] k v = (k, v) ∷ []
  put ((j, w) ∷ d) k v = if j == k then (j, v) ∷ d else (j, w) ∷ put d k v

  pub get-put :
      (d : Dict K V) (k j : K) (v : V) → get (put d k v) j ≡ (if k == j then some v else get d j)
  unfolding get put
  get-put [] k j v = refl
  get-put ((i, w) ∷ d) k j v =
      ground (arith, e.beq_iff i k, e.beq_iff i j, e.beq_iff k j, get-put d k j v)

  -- `dict(pairs)`, or a dict comprehension over `pairs`: a later pair wins.
  unfoldable pub dict_of : List (K × V) → Dict K V
  dict_of = foldl (λ d p. put d p.0 p.1) []

  pub keys-put :
      (d : Dict K V) (k : K) (v : V) (j : K) → In j (keys (put d k v)) ↔ (In j (keys d) ⊎ (j ≡ k))
  unfolding put
  keys-put [] k v j =
      (λ h. elim h [ inl p ↦ inr p | inr m ↦ inl m ], λ h. elim h [ inl m ↦ inr m | inr p ↦ inl p ])
  keys-put ((i, w) ∷ d) k v j = ground (arith, e.beq_iff i k, keys-put d k v j)

  keys-foldl :
      (ps : List (K × V)) (d : Dict K V) (k : K)
      → In k (keys (foldl (λ (d : Dict K V) (p : K × V). put d p.0 p.1) d ps))
        ↔ (In k (keys d) ⊎ In k (map (λ p. p.0) ps))
  keys-foldl [] d k = (inl, λ h. elim h [ inl m ↦ m | inr m ↦ absurd m ])
  keys-foldl (p ∷ ps) d k = ground (arith, keys-foldl ps (put d p.0 p.1) k, keys-put d p.0 p.1 k)

  -- The keys of a dict are those of the pairs it is made of.
  pub keys-dict_of :
      (ps : List (K × V)) (k : K) → In k (keys (dict_of ps)) ↔ In k (map (λ p. p.0) ps)
  unfolding dict_of
  keys-dict_of ps k = ground (arith, keys-foldl ps [] k)

  pub Distinct-put :
      (d : Dict K V) (k : K) (v : V) → Distinct (keys d) → Distinct (keys (put d k v))
  unfolding put
  Distinct-put [] k v h = (tt, tt)
  Distinct-put ((i, w) ∷ d) k v h = elim (Bool-cases (i == k)) [
    | inl p ↦ rw p h
    | inr p ↦ rw p (
      All-of_In (keys (put d k v)) (λ j m q.
          ground
            (arith, e.beq_iff i k, keys-put d k v j, In-All (λ (j : K). i ≢ j) (keys d) h.0 j)),
      Distinct-put d k v h.1,
    )
  ]

  -- A key is found exactly when it is one of the keys.
  pub get-In : (d : Dict K V) (k : K) (v : V) → get d k ≡ some v → In (k, v) d
  unfolding get
  get-In [] k v h = cc
  get-In ((j, w) ∷ d) k v h = elim (Bool-cases (j == k)) [
    | inl p ↦ inl (ground (arith, (e.beq_iff j k).0 p))
    | inr p ↦ inr (get-In d k v (ground arith))
  ]

  pub get-eq-none : (d : Dict K V) (k : K) → get d k ≡ none → In k (keys d) → ⊥
  unfolding get
  get-eq-none [] k h m = m
  get-eq-none ((j, w) ∷ d) k h m = ground (arith, e.beq_iff j k, get-eq-none d k)

  pub get_of_In :
      (d : Dict K V) (k : K) (v : V) → Distinct (keys d) → In (k, v) d → get d k ≡ some v
  unfolding get
  get_of_In [] k v h m = absurd m
  get_of_In ((j, w) ∷ d) k v h (inl p) =
      ground (arith, ap (λ (t : K × V). t.0) p, ap (λ (t : K × V). t.1) p, e.beq_iff j k)
  get_of_In ((j, w) ∷ d) k v h (inr m) = ground (
    arith,
    e.beq_iff j k,
    get_of_In d k v h.1 m,
    In-All (λ (i : K). j ≢ i) (keys d) h.0 k (map-In (λ p. p.0) (k, v) d m),
  )
