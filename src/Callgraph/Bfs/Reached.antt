-- ===== src/Callgraph/Bfs/Reached.antt =====
-- What bfs_preseed of rom_analyzer/callgraph.py reports is reached from the anchors.
use rom_analyzer.Common.{
  ℕ, zero, suc, ◌<◌, ◌≡◌, refl, sym, ap, subst, inl, inr, false, Option, none, some, List, [], ◌∷◌,
  arith, nat_eq, pair_eq, In, In-append, In-map,
}
use rom_analyzer.Common.Dict.{Dict, get}
use rom_analyzer.Types.{ReferenceSymbol, MatchedFunction}
use rom_analyzer.Callgraph.{HeadlessRun}
use rom_analyzer.Callgraph.Similarity.{is_unrelated}
use rom_analyzer.Callgraph.Bfs.{
  Visit, Bfs, max_bfs_depth, matches_of, reach, is_passed, bfs_pairs, visit, bfs_loop, start_bfs,
  bfs_fuel, final_bfs, bfs_preseed,
}
use rom_analyzer.Callgraph.Bfs.Loop.{Visits-cases, keeps-visit, loop_stop, loop_visit}

module _ (ref_run new_run : HeadlessRun) (by_addr : Dict ℕ ReferenceSymbol)
    (images : Option (List ℕ × List ℕ)) where
  -- A pair of functions at a depth: an anchor at depth 0, or one of the aligned callees of a pair in
  -- front, less than three calls deep, whose bytes are not unrelated.
  pub data IsReached (anchors : List MatchedFunction) : ℕ → ℕ → ℕ → Type 0 where
    at_anchor :
        (a : MatchedFunction) → In a anchors → IsReached anchors 0 a.ref_address a.new_address
    by_call :
        (v : Visit) (r n : ℕ)
        → IsReached anchors v.depth v.ref_addr v.new_addr
        → v.depth < max_bfs_depth
        → In (r, n) (bfs_pairs ref_run new_run by_addr images v)
        → is_unrelated ref_run new_run images r n ≡ false
        → IsReached anchors (suc v.depth) r n

  record IsSound (anchors : List MatchedFunction) (b : Bfs) : Type 0 where
    queued : (v : Visit) → In v b.queue → IsReached anchors v.depth v.ref_addr v.new_addr
    reported :
        (m : MatchedFunction)
        → In m b.new_matches
        → (depth : ℕ) × IsReached anchors (suc depth) m.ref_address m.new_address

  related :
      (b : Bfs) (r n : ℕ)
      → is_passed ref_run new_run by_addr images b r n ≡ false
      → is_unrelated ref_run new_run images r n ≡ false
  unfolding is_passed
  related b r n h = ground arith

  In-matches_of :
      (s : Option ReferenceSymbol) (r n : ℕ) (m : MatchedFunction)
      → In m (matches_of ref_run new_run by_addr images s r n)
      → (m.ref_address ≡ r) × (m.new_address ≡ n)
  unfolding matches_of
  In-matches_of none r n m i = absurd i
  In-matches_of (some s) r n m (inl e) =
      (ap (λ (t : MatchedFunction). t.ref_address) e, ap (λ (t : MatchedFunction). t.new_address) e)
  In-matches_of (some s) r n m (inr i) = absurd i

  reach-IsSound :
      (anchors : List MatchedFunction) (v : Visit)
      → IsReached anchors v.depth v.ref_addr v.new_addr
      → (b : Bfs) (r n : ℕ) → In (r, n) (bfs_pairs ref_run new_run by_addr images v)
      → v.depth < max_bfs_depth
      → is_passed ref_run new_run by_addr images b r n ≡ false
      → IsSound anchors b
      → IsSound anchors (reach ref_run new_run by_addr images v.depth b r n)
  unfolding reach
  reach-IsSound anchors v at b r n m low h s =
      let reached = by_call v r n at low m (related b r n h) in
      let next : Visit = record { ref_addr = r; new_addr = n; depth = suc v.depth } in
      record {
        queued = λ w i. elim ((In-append w b.queue (next ∷ [])).0 i) [
          | inl k ↦ s.queued w k
          | inr (inl e) ↦
              subst (λ (t : Visit). IsReached anchors t.depth t.ref_addr t.new_addr) (sym e) reached
          | inr (inr k) ↦ absurd k
        ];
        reported = λ x i.
            elim ((In-append x b.new_matches
                (matches_of ref_run new_run by_addr images (get by_addr r) r n)).0
              i) [
                | inl k ↦ s.reported x k
                | inr k ↦
                    let (p, q) = In-matches_of (get by_addr r) r n x k in
                    (
                      v.depth,
                      subst (λ t. IsReached anchors (suc v.depth) t x.new_address) (sym p)
                          (subst (λ t. IsReached anchors (suc v.depth) r t) (sym q) reached),
                    )
              ];
      }

  no_fuel : (b : Bfs) → bfs_loop ref_run new_run by_addr images 0 b ≡ b
  unfolding bfs_loop
  no_fuel b = refl

  start-IsSound :
      (anchors : List MatchedFunction)
      → IsSound anchors (start_bfs ref_run new_run by_addr images anchors)
  unfolding start_bfs
  start-IsSound anchors = record {
    queued = λ v i.
        let (a, k, e) =
          In-map {B = Visit}
            (λ a. record { ref_addr = a.ref_address; new_addr = a.new_address; depth = 0 }) v
            anchors i in
        subst (λ (t : Visit). IsReached anchors t.depth t.ref_addr t.new_addr) e (at_anchor a k);
    reported = λ m i. absurd i;
  }

  bfs_loop-IsSound :
      (anchors : List MatchedFunction) (fuel : ℕ) (b : Bfs)
      → IsSound anchors b
      → IsSound anchors (bfs_loop ref_run new_run by_addr images fuel b)
  bfs_loop-IsSound anchors zero b s = subst (IsSound anchors) (sym (no_fuel b)) s
  bfs_loop-IsSound anchors (suc fuel) b s = elim (Visits-cases b.queue) [
    | inl e ↦ subst (IsSound anchors) (sym (loop_stop ref_run new_run by_addr images fuel b e)) s
    | inr (v, rest, e) ↦
        let popped : Bfs = record b { queue = rest } in
        let at = s.queued v (subst (In v) (sym e) (inl refl)) in
        let kept : IsSound anchors popped = record {
          queued = λ w i. s.queued w (subst (In w) (sym e) (inr i));
          reported = s.reported;
        } in
        subst (IsSound anchors) (sym (loop_visit ref_run new_run by_addr images fuel b v rest e)) (
          bfs_loop-IsSound anchors fuel (visit ref_run new_run by_addr images v popped) (
            keeps-visit ref_run new_run by_addr images (IsSound anchors) v
              (reach-IsSound anchors v at) popped kept))
  ]

  -- Every match that bfs_preseed reports is reached from an anchor by one to three calls: each call
  -- goes over a pair of the alignment of the callees, whose bytes are not unrelated.
  pub bfs_preseed-IsReached :
      (anchors : List MatchedFunction) (m : MatchedFunction)
      → In m (bfs_preseed ref_run new_run by_addr images anchors).1
      → (depth : ℕ) × IsReached anchors (suc depth) m.ref_address m.new_address
  unfolding bfs_preseed final_bfs
  bfs_preseed-IsReached anchors m i =
      (bfs_loop-IsSound anchors (bfs_fuel ref_run new_run by_addr images anchors)
          (start_bfs ref_run new_run by_addr images anchors) (start-IsSound anchors)).reported
        m i
