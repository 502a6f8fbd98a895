-- ===== src/Ram/Gaps.antt =====
-- rom_analyzer/ram_space.py against its specification: the blocks are the unreferenced gaps.
use rom_analyzer.Common.{
  ℕ, ◌+◌, ◌-◌, ◌≤◌, ◌<◌, ◌≡◌, ◌≢◌, ◌↔◌, ◌⊎◌, List, arith, filter, In, In-filter, Distinct,
  Pairwise-filter,
}
use rom_analyzer.Common.Sort.{by_key, sort-IsAscending, IsAscending, In-sort}
use rom_analyzer.Types.{RamFreeBlock}
use rom_analyzer.Ram.{ram_start, ram_end, in_ram, ram_block, referenced_ram, find_free_ram_blocks}
use rom_analyzer.Ram.Bounds.{
  gaps, zip-eq-gaps, blocks_of_sound, blocks_of_complete, Bounds, Inside, gaps_sound, gaps_complete,
}

-- [s, e) is a gap of RAM that cannot be extended: it holds no referenced address, and it is bounded
-- on either side by one or by an end of RAM.
pub record IsGap (referenced : List ℕ) (s e : ℕ) : Type 0 where
  pub ordered : s ≤ e
  pub within : e ≤ ram_end
  pub from : ram_start ≤ s
  pub free : (a : ℕ) → s ≤ a → a < e → ¬ In a referenced
  pub before : (s ≡ ram_start) ⊎ In (s - 1) referenced × (ram_start < s)
  pub after : (e ≡ ram_end) ⊎ In e referenced

referenced_ram-IsAscending :
    (referenced : List ℕ) → Distinct referenced → IsAscending (λ a. a) (referenced_ram referenced)
unfolding referenced_ram
referenced_ram-IsAscending referenced h =
    sort-IsAscending (λ a. a) (filter in_ram referenced) (Pairwise-filter ◌≢◌ in_ram referenced h)

In-referenced_ram :
    (a : ℕ) (referenced : List ℕ)
    → In a (referenced_ram referenced) ↔ (In a referenced × (ram_start ≤ a) × (a < ram_end))
unfolding referenced_ram in_ram
In-referenced_ram a referenced =
    ground
      (arith, In-sort (by_key (λ a. a)) a (filter in_ram referenced), In-filter in_ram a referenced)

module _ (referenced : List ℕ) (distinct : Distinct referenced) where
  abbrev in_range : List ℕ
  in_range = referenced_ram referenced

  in_range-Inside : Inside ram_start in_range
  in_range-Inside a m = let (_, lo, hi) = (In-referenced_ram a referenced).0 m in (lo, hi)

  IsGap-of_Bounds : (s e : ℕ) → Bounds ram_start in_range s e → IsGap referenced s e
  IsGap-of_Bounds s e b = record {
    ordered = b.ordered;
    within = b.within;
    from = b.from;
    free = λ a p q m.
        b.free a p q
          ((In-referenced_ram a referenced).1 (m, omega (arith, b.from), omega (arith, b.within)));
    before = ground (arith, b.before, In-referenced_ram (s - 1) referenced);
    after = ground (arith, b.after, In-referenced_ram e referenced);
  }

  Bounds-of_IsGap : (s e : ℕ) → IsGap referenced s e → Bounds ram_start in_range s e
  Bounds-of_IsGap s e g = record {
    ordered = g.ordered;
    within = g.within;
    from = g.from;
    free = λ a p q m. g.free a p q ((In-referenced_ram a referenced).0 m).0;
    before = ground (arith, g.before, g.ordered, g.within, In-referenced_ram (s - 1) referenced);
    after = ground (arith, g.after, g.from, g.ordered, g.within, In-referenced_ram e referenced);
  }

  -- A record is reported exactly when it describes a maximal unreferenced gap of RAM that is at
  -- least min_length long.
  pub find_free_ram_blocks_iff :
      (min_length large : ℕ) (b : RamFreeBlock)
      → In b (find_free_ram_blocks referenced min_length large) ↔ (
          (p : ℕ × ℕ) × IsGap referenced p.0 p.1
          × (p.0 + min_length ≤ p.1)
          × (b ≡ ram_block large p.0 p.1))
  unfolding find_free_ram_blocks
  find_free_ram_blocks_iff min_length large b = (
    λ m.
        let ((s, e), i, (fits, value)) =
          blocks_of_sound min_length large b (gaps ram_start in_range)
            (rw (zip-eq-gaps ram_start in_range) at m) in
        (
          (s, e),
          IsGap-of_Bounds s e (
              gaps_sound ram_start in_range (omega arith) in_range-Inside
                (referenced_ram-IsAscending referenced distinct) s e i),
          fits,
          value,
        ),
    λ ((s, e), gap, fits, value). rw (zip-eq-gaps ram_start in_range) (
        blocks_of_complete min_length large b (s, e) (gaps ram_start in_range)
          (gaps_complete ram_start in_range (omega arith) in_range-Inside
            (referenced_ram-IsAscending referenced distinct) s e (Bounds-of_IsGap s e gap))
          (fits, value)),
  )
