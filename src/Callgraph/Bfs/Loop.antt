-- ===== src/Callgraph/Bfs/Loop.antt =====
-- The loop of bfs_preseed in rom_analyzer/callgraph.py empties its queue.
use rom_analyzer.Common.{
  ℕ, zero, suc, ◌+◌, ◌≤◌, ◌<◌, ◌≡◌, refl, ap, subst, ◌∙◌, ◌⊎◌, inl, inr, false, not, Option, List,
  [], ◌∷◌, map, arith, leb, nat_eq, pair_eq, length, elem, elem_iff, filter, flatten, product,
  In-product, In-flatten, In, map-In, length-append, Option-cases, Bool-cases,
}
use rom_analyzer.Common.Dict.{Dict, values, get, get_or, get-In}
use rom_analyzer.Types.{ReferenceSymbol, MatchedFunction}
use rom_analyzer.Callgraph.{HeadlessRun, lcs_align, size_ratio_ok, tolerance_40}
use rom_analyzer.Callgraph.Align.{In-align}
use rom_analyzer.Callgraph.Bfs.{
  Visit, Bfs, max_bfs_depth, reach, is_passed, reach_all, bfs_pairs, visit, bfs_loop, start_bfs,
  bfs_fuel, final_bfs,
}

pub Visits-cases :
    (queue : List Visit) → (queue ≡ []) ⊎ ((v : Visit) × (rest : List Visit) × (queue ≡ v ∷ rest))
Visits-cases [] = inl refl
Visits-cases (v ∷ rest) = inr (v, rest, refl)

abbrev Pairs : Type 0
Pairs = List (ℕ × ℕ)

-- How many of the pairs are not matched.
abbrev unmatched : Pairs → Pairs → ℕ
unmatched matched pairs = length (filter (λ p. not (elem p matched)) pairs)

unmatched_more :
    (q : ℕ × ℕ) (matched pairs : Pairs)
    → (unmatched (q ∷ matched) pairs ≤ unmatched matched pairs)
      × (In q pairs → (In q matched → ⊥) → unmatched (q ∷ matched) pairs < unmatched matched pairs)
unmatched_more q matched [] = (omega arith, λ m. absurd m)
unmatched_more q matched (p ∷ pairs) =
    let (le, lt) = unmatched_more q matched pairs in
    ground (arith, le, lt, elem_iff p matched, elem_iff p (q ∷ matched))

unmatched_le : (matched pairs : Pairs) → unmatched matched pairs ≤ length pairs
unmatched_le matched [] = omega arith
unmatched_le matched (p ∷ pairs) = ground (arith, unmatched_le matched pairs)

In-get_or : (d : Dict ℕ (List ℕ)) (k a : ℕ) → In a (get_or d k []) → In a (flatten (values d))
unfolding get_or
In-get_or d k a m = elim (Option-cases (get d k)) [
  | inl e ↦ let q : get_or d k [] ≡ [] = ground arith in absurd (subst (In a) q m)
  | inr (xs, e) ↦
      let q : get_or d k [] ≡ xs = ground arith in
      In-flatten a xs (values d) (map-In (λ (p : ℕ × List ℕ). p.1) (k, xs) d (get-In d k xs e))
        (subst (In a) q m)
]

module _ (ref_run new_run : HeadlessRun) (by_addr : Dict ℕ ReferenceSymbol)
    (images : Option (List ℕ × List ℕ)) where
  abbrev all_pairs : Pairs
  all_pairs = product (flatten (values ref_run.callees)) (flatten (values new_run.callees))

  -- What bounds the rounds that are left.
  left : Bfs → ℕ
  left b = length b.queue + unmatched b.matched all_pairs

  In-bfs_pairs :
      (v : Visit) (r n : ℕ)
      → In (r, n) (bfs_pairs ref_run new_run by_addr images v)
      → In (r, n) all_pairs
  unfolding bfs_pairs lcs_align
  In-bfs_pairs v r n m =
      let refs = get_or ref_run.callees v.ref_addr [] in
      let news = get_or new_run.callees v.new_addr [] in
      let (i, j, _) = In-align (size_ratio_ok ref_run new_run tolerance_40) refs news r n m in
      In-product r n (flatten (values ref_run.callees)) (flatten (values new_run.callees))
        (In-get_or ref_run.callees v.ref_addr r i) (In-get_or new_run.callees v.new_addr n j)

  reach-left :
      (depth : ℕ) (b : Bfs) (r n : ℕ)
      → In (r, n) all_pairs
      → is_passed ref_run new_run by_addr images b r n ≡ false
      → left (reach ref_run new_run by_addr images depth b r n) ≤ left b
  unfolding left reach is_passed
  reach-left depth b r n m h =
      let new : In (r, n) b.matched → ⊥ = λ k. ground (arith, elem_iff (r, n) b.matched) in
      omega (
        arith,
        (unmatched_more (r, n) b.matched all_pairs).1 m new,
        length-append b.queue (record { ref_addr = r; new_addr = n; depth = suc depth } ∷ []),
      )

  -- What every pair that is reached keeps, a visit keeps.
  module _ (P : Bfs → Type 0) (v : Visit)
      (keeps : (b : Bfs) (r n : ℕ)
        → In (r, n) (bfs_pairs ref_run new_run by_addr images v)
        → v.depth < max_bfs_depth
        → is_passed ref_run new_run by_addr images b r n ≡ false
        → P b
        → P (reach ref_run new_run by_addr images v.depth b r n)) where
    keeps-reach_all :
        v.depth < max_bfs_depth
        → (pairs : Pairs)
        → ((p : ℕ × ℕ) → In p pairs → In p (bfs_pairs ref_run new_run by_addr images v))
        → (b : Bfs) → P b
        → P (reach_all ref_run new_run by_addr images v.depth pairs b)
    unfolding reach_all
    keeps-reach_all low [] sub b h = h
    keeps-reach_all low ((r, n) ∷ pairs) sub b h =
        elim (Bool-cases (is_passed ref_run new_run by_addr images b r n)) [
          | inl e ↦ rw e (keeps-reach_all low pairs (λ p m. sub p (inr m)) b h)
          | inr e ↦ rw e (
              keeps-reach_all low pairs (λ p m. sub p (inr m))
                (reach ref_run new_run by_addr images v.depth b r n)
                (keeps b r n (sub (r, n) (inl refl)) low e h))
        ]

    pub keeps-visit : (b : Bfs) → P b → P (visit ref_run new_run by_addr images v b)
    unfolding visit
    keeps-visit b h = elim (Bool-cases (leb max_bfs_depth v.depth)) [
      | inl e ↦ rw e h
      | inr e ↦ rw e (
          keeps-reach_all (ground arith) (bfs_pairs ref_run new_run by_addr images v) (λ p m. m) b
            h)
    ]

  visit-left : (v : Visit) (b : Bfs) → left (visit ref_run new_run by_addr images v b) ≤ left b
  visit-left v b =
      keeps-visit (λ c. left c ≤ left b) v
        (λ c r n m low h k. omega (arith, k, reach-left v.depth c r n (In-bfs_pairs v r n m) h)) b
        (omega arith)

  pub loop_stop :
      (fuel : ℕ) (b : Bfs) → b.queue ≡ [] → bfs_loop ref_run new_run by_addr images (suc fuel) b ≡ b
  unfolding bfs_loop
  loop_stop fuel b e = ground arith

  pub loop_visit :
      (fuel : ℕ) (b : Bfs) (v : Visit) (rest : List Visit)
      → b.queue ≡ v ∷ rest
      → bfs_loop ref_run new_run by_addr images (suc fuel) b
        ≡ bfs_loop ref_run new_run by_addr images fuel
            (visit ref_run new_run by_addr images v (record b { queue = rest }))
  unfolding bfs_loop
  loop_visit fuel b v rest e = ground arith

  pop-left :
      (b : Bfs) (v : Visit) (rest : List Visit)
      → b.queue ≡ v ∷ rest
      → left (record b { queue = rest }) < left b
  unfolding left
  pop-left b v rest e = omega (arith, ap (λ (q : List Visit). length q) e)

  bfs_loop-empty :
      (fuel : ℕ) (b : Bfs)
      → left b < fuel
      → (bfs_loop ref_run new_run by_addr images fuel b).queue ≡ []
  bfs_loop-empty zero b h = absurd (omega arith)
  bfs_loop-empty (suc fuel) b h = elim (Visits-cases b.queue) [
    | inl e ↦ ap (λ (c : Bfs). c.queue) (loop_stop fuel b e) ∙ e
    | inr (v, rest, e) ↦
        let popped : Bfs = record b { queue = rest } in
        ap (λ (c : Bfs). c.queue) (loop_visit fuel b v rest e)
        ∙ bfs_loop-empty fuel (visit ref_run new_run by_addr images v popped)
            (omega (arith, h, pop-left b v rest e, visit-left v popped))
  ]

  length-map : {A B : Type 0} (f : A → B) (xs : List A) → length (map f xs) ≡ length xs
  length-map f [] = refl
  length-map f (x ∷ xs) = omega (arith, length-map f xs)

  -- bfs_preseed ends with an empty queue.
  pub final_bfs-empty :
      (anchors : List MatchedFunction)
      → (final_bfs ref_run new_run by_addr images anchors).queue ≡ []
  unfolding final_bfs start_bfs left
  final_bfs-empty anchors =
      let b = start_bfs ref_run new_run by_addr images anchors in
      bfs_loop-empty (bfs_fuel ref_run new_run by_addr images anchors) b (
        omega (
          arith,
          unmatched_le b.matched all_pairs,
          length-map {B = Visit}
              (λ a. record { ref_addr = a.ref_address; new_addr = a.new_address; depth = 0 })
              anchors,
        ))
