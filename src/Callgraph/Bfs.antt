-- ===== src/Callgraph/Bfs.antt =====
-- bfs_preseed of rom_analyzer/callgraph.py: pairs that are reached from the anchors over aligned callees.
pub mod Loop
pub mod Reached
mod Examples
use rom_analyzer.Common.{
  ℕ, zero, suc, ◌+◌, ◌*◌, Bool, true, false, ◌||◌, Option, none, some, List, [], ◌∷◌, ◌++◌, map,
  leb, ◌==◌, nat_eq, pair_eq, if◌then◌else◌, length, elem, flatten, product,
}
use rom_analyzer.Common.Text.{Text, codes}
use rom_analyzer.Common.Dict.{Dict, values, get, get_or}
use rom_analyzer.Types.{Score, ReferenceSymbol, MatchedFunction}
use rom_analyzer.Callgraph.{HeadlessRun, lcs_align, tolerance_40}
use rom_analyzer.Callgraph.Similarity.{is_unrelated}

-- 0.8 as a binary64 pattern.
abbrev pub bfs_score : Score
bfs_score = 0x3fe999999999999a

abbrev pub max_bfs_depth : ℕ
max_bfs_depth = 3

-- A pair of functions with its depth.
pub record Visit : Type 0 where
  pub ref_addr : ℕ
  pub new_addr : ℕ
  pub depth : ℕ

-- The variables of the loop.
pub record Bfs : Type 0 where
  pub queue : List Visit
  pub matched : List (ℕ × ℕ)
  pub new_overlays : List ReferenceSymbol
  pub new_matches : List MatchedFunction

module _ (ref_run new_run : HeadlessRun) (by_addr : Dict ℕ ReferenceSymbol)
    (images : Option (List ℕ × List ℕ)) where
  pub overlays_of : Option ReferenceSymbol → ℕ → List ReferenceSymbol
  overlays_of none n = []
  overlays_of (some s) n = record { name = s.name; address = n; category = s.category } ∷ []

  pub matches_of : Option ReferenceSymbol → ℕ → ℕ → List MatchedFunction
  matches_of none r n = []
  matches_of (some s) r n =
      record {
        ref_name = s.name;
        ref_address = r;
        new_address = n;
        similarity = bfs_score;
        source = codes "callgraph_bfs";
        reference = [];
      }
      ∷ []

  -- What the inner loop does with a pair that is new and not unrelated.
  pub reach : ℕ → Bfs → ℕ → ℕ → Bfs
  reach depth b r n = record {
    queue = b.queue ++ record { ref_addr = r; new_addr = n; depth = suc depth } ∷ [];
    matched = (r, n) ∷ b.matched;
    new_overlays = b.new_overlays ++ overlays_of (get by_addr r) n;
    new_matches = b.new_matches ++ matches_of (get by_addr r) r n;
  }

  pub is_passed : Bfs → ℕ → ℕ → Bool
  is_passed b r n = elem (r, n) b.matched || is_unrelated ref_run new_run images r n

  pub reach_all : ℕ → List (ℕ × ℕ) → Bfs → Bfs
  reach_all depth [] b = b
  reach_all depth ((r, n) ∷ pairs) b =
      if is_passed b r n then reach_all depth pairs b else reach_all depth pairs (reach depth b r n)

  pub bfs_pairs : Visit → List (ℕ × ℕ)
  bfs_pairs v =
      lcs_align (get_or ref_run.callees v.ref_addr []) (get_or new_run.callees v.new_addr [])
        ref_run new_run tolerance_40

  -- One round, for the pair that was taken off the queue.
  pub visit : Visit → Bfs → Bfs
  visit v b = if leb max_bfs_depth v.depth then b else reach_all v.depth (bfs_pairs v) b

  pub bfs_loop : ℕ → Bfs → Bfs
  bfs_loop zero b = b
  bfs_loop (suc fuel) b = elim b.queue [
    | [] ↦ b
    | v ∷ queue ↦ bfs_loop fuel (visit v (record b { queue = queue }))
  ]

  pub start_bfs : List MatchedFunction → Bfs
  start_bfs anchors = record {
    queue =
        map (λ a. record { ref_addr = a.ref_address; new_addr = a.new_address; depth = 0 }) anchors;
    matched = map (λ a. (a.ref_address, a.new_address)) anchors;
    new_overlays = [];
    new_matches = [];
  }

  -- A round takes one pair off the queue, and what it adds are pairs of callees that were not matched;
  -- so the pairs in the queue at the start and the pairs of callees are fuel enough.
  abbrev pub bfs_fuel : List MatchedFunction → ℕ
  bfs_fuel anchors = suc (
      length anchors
      + length (product (flatten (values ref_run.callees)) (flatten (values new_run.callees))))

  pub final_bfs : List MatchedFunction → Bfs
  final_bfs anchors = bfs_loop (bfs_fuel anchors) (start_bfs anchors)

  pub bfs_preseed : List MatchedFunction → List ReferenceSymbol × List MatchedFunction
  bfs_preseed anchors = let b = final_bfs anchors in (b.new_overlays, b.new_matches)
