-- ===== src/Merge/Rank.antt =====
-- The ranks of rom_analyzer/merge.py order the matches and the symbols.
use rom_analyzer.Common.{◌≤◌, ◌≡◌, true, false, arith}
use rom_analyzer.Types.{PropagatedSymbol}
use rom_analyzer.Common.Sort.{IsOrder}
use rom_analyzer.Merge.{
  Priorities, MatchRank, SymbolRank, match_rank, match_rank_leb, match_leb, symbol_rank,
  symbol_rank_leb, symbol_leb, confidence_rank,
}

match_rank_trans :
    (a b c : MatchRank)
    → match_rank_leb a b ≡ true
    → match_rank_leb b c ≡ true
    → match_rank_leb a c ≡ true
unfolding match_rank_leb
match_rank_trans a b c h k = ground arith

symbol_rank_trans :
    (a b c : SymbolRank)
    → symbol_rank_leb a b ≡ true
    → symbol_rank_leb b c ≡ true
    → symbol_rank_leb a c ≡ true
unfolding symbol_rank_leb
symbol_rank_trans a b c h k = ground arith

match_rank_total : (a b : MatchRank) → match_rank_leb a b ≡ false → match_rank_leb b a ≡ true
unfolding match_rank_leb
match_rank_total a b h = ground arith

symbol_rank_total : (a b : SymbolRank) → symbol_rank_leb a b ≡ false → symbol_rank_leb b a ≡ true
unfolding symbol_rank_leb
symbol_rank_total a b h = ground arith

module _ (priority : Priorities) where
  pub match_leb-IsOrder : IsOrder (match_leb priority)
  match_leb-IsOrder = record {
    total = λ a b. match_rank_total (match_rank a priority) (match_rank b priority);
    trans = λ a b c.
        match_rank_trans (match_rank a priority) (match_rank b priority) (match_rank c priority);
  }

  pub symbol_leb-IsOrder : IsOrder (symbol_leb priority)
  symbol_leb-IsOrder = record {
    total = λ a b. symbol_rank_total (symbol_rank a priority) (symbol_rank b priority);
    trans = λ a b c.
        symbol_rank_trans (symbol_rank a priority) (symbol_rank b priority)
          (symbol_rank c priority);
  }

-- The confidence tier is what counts first.
pub symbol_leb-confidence :
    (priority : Priorities) (a b : PropagatedSymbol)
    → symbol_leb priority a b ≡ true
    → confidence_rank a.confidence ≤ confidence_rank b.confidence
unfolding symbol_rank symbol_rank_leb
symbol_leb-confidence priority a b h = ground arith
