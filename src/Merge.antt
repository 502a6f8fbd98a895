-- ===== src/Merge.antt =====
-- rom_analyzer/merge.py: one match and one symbol for each address, and what was disputed.
pub mod Rank
pub mod Matches
pub mod Symbols
pub mod Disputes
mod Examples
use mathlib.Core.List.{foldl}
use rom_analyzer.Common.{
  ℕ, ◌+◌, Bool, true, false, ◌&&◌, ◌||◌, not, Option, none, some, List, [], ◌∷◌, ◌++◌, map, ltb,
  leb, ◌==◌, nat_eq, if◌then◌else◌, any, filter,
}
use rom_analyzer.Common.Text.{Text, codes, text_eq, text_leb}
use rom_analyzer.Common.Int.{ℤ, pos, leb_ℤ, ltb_ℤ}
use rom_analyzer.Common.Dict.{Dict, get, get_or, put, values}
use rom_analyzer.Common.Dict.Group.{group_by}
use rom_analyzer.Common.Sort.{sort, by_key, max_by}
use rom_analyzer.Types.{
  ConfidenceTier, auto, inferred, low, medium, high, verified, MatchedFunction, PropagatedSymbol,
}

abbrev pub source_priorities : Dict Text ℕ
source_priorities =
    (codes "vector_table", 3)
    ∷ (codes "icu_vector_table", 3)
    ∷ (codes "bytecode_identity", 2)
    ∷ (codes "mut_table", 2)
    ∷ (codes "callgraph_bfs", 1)
    ∷ (codes "callgraph_gap", 1)
    ∷ (codes "vt_diff", 0)
    ∷ []

pub source_priority : Text → ℕ
source_priority source = get_or source_priorities source 0

pub confidence_rank : ConfidenceTier → ℕ
confidence_rank verified = 5
confidence_rank high = 4
confidence_rank medium = 3
confidence_rank inferred = 2
confidence_rank low = 1
confidence_rank auto = 0

-- The registry priorities by reference id; an unknown id has priority 0.
abbrev pub Priorities : Type 0
Priorities = Dict Text ℤ

pub priority_of : Priorities → Text → ℤ
priority_of priority reference = get_or priority reference (pos 0)

abbrev pub MatchRank : Type 0
MatchRank = ℕ × ℕ × ℤ

pub match_rank : MatchedFunction → Priorities → MatchRank
match_rank m priority = (source_priority m.source, m.similarity, priority_of priority m.reference)

-- `a <= b` of tuples.
pub match_rank_leb : MatchRank → MatchRank → Bool
match_rank_leb (s, x, p) (t, y, q) =
    if ltb s t
    then true
    else if ltb t s
    then false
    else if ltb x y
    then true
    else if ltb y x
    then false
    else leb_ℤ p q

abbrev pub SymbolRank : Type 0
SymbolRank = ℕ × ℤ × ℕ

pub symbol_rank : PropagatedSymbol → Priorities → SymbolRank
symbol_rank s priority = (confidence_rank s.confidence, priority_of priority s.reference, s.score)

pub symbol_rank_leb : SymbolRank → SymbolRank → Bool
symbol_rank_leb (c, p, x) (d, q, y) =
    if ltb c d
    then true
    else if ltb d c
    then false
    else if ltb_ℤ p q
    then true
    else if ltb_ℤ q p
    then false
    else leb x y

module _ (priority : Priorities) where
  -- The order by which a match, or a symbol, gives way to another.
  abbrev pub match_leb : MatchedFunction → MatchedFunction → Bool
  match_leb a b = match_rank_leb (match_rank a priority) (match_rank b priority)

  abbrev pub symbol_leb : PropagatedSymbol → PropagatedSymbol → Bool
  symbol_leb a b = symbol_rank_leb (symbol_rank a priority) (symbol_rank b priority)

  -- The body of the loops of merge_matches.
  pub offer : Dict ℕ MatchedFunction → MatchedFunction → Dict ℕ MatchedFunction
  offer best m = elim (get best m.new_address) [
    | none ↦ put best m.new_address m
    | some b ↦ if match_leb m b then best else put best m.new_address m
  ]

  pub merge_all : List (List MatchedFunction) → Dict ℕ MatchedFunction
  merge_all = foldl (foldl offer) []

  pub merge_matches : List (List MatchedFunction) → List MatchedFunction
  merge_matches results = values (merge_all results)

pub record Disagreement : Type 0 where
  pub new_address : ℕ
  pub candidates : List (Text × Text)
  pub winner : Text

pub pair_leb : Text × Text → Text × Text → Bool
pair_leb (r, n) (r', n') = if r == r' then text_leb n n' else text_leb r r'

-- `len({s.name for s in group}) > 1`, of a group that is not empty.
pub names_differ : PropagatedSymbol → List PropagatedSymbol → Bool
names_differ s group = any (λ t. not (t.name == s.name)) group

module _ (priority : Priorities) where
  -- What the loop appends to `final` and to `disagreements` for one address.
  pub arbitrate_group : ℕ → List PropagatedSymbol → List PropagatedSymbol × List Disagreement
  arbitrate_group addr [] = ([], [])
  arbitrate_group addr (s ∷ group) =
      let winner = max_by (symbol_leb priority) s group in
      (
        winner ∷ [],
        if names_differ s group
            then record {
              new_address = addr;
              candidates = sort pair_leb (map (λ t. (t.reference, t.name)) (s ∷ group));
              winner = winner.name;
            }
              ∷ []
            else [],
      )

  pub arbitrate_groups :
      List (ℕ × List PropagatedSymbol) → List PropagatedSymbol × List Disagreement
  arbitrate_groups [] = ([], [])
  arbitrate_groups ((addr, group) ∷ groups) =
      let (final, disagreements) = arbitrate_groups groups in
      let (winner, dispute) = arbitrate_group addr group in
      (winner ++ final, dispute ++ disagreements)

  pub arbitrate_symbols : List PropagatedSymbol → List PropagatedSymbol × List Disagreement
  arbitrate_symbols symbols =
      arbitrate_groups (sort (by_key (λ p. p.0)) (group_by (λ s. s.new_address) symbols))
