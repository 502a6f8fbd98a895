-- ===== src/CanSlots/Examples.antt =====
-- A run of rom_analyzer/can_slots.py, and its theorem at the same input.
use rom_analyzer.Common.{
  ℕ, ◌≤◌, ◌<◌, ◌≡◌, ◌≢◌, refl, ◌⊎◌, Option, none, some, List, [], ◌∷◌, In, All,
}
use rom_analyzer.Common.Text.{Text, codes}
use rom_analyzer.CanSlots.{
  CanSlot, analyze_can_slots, find_ld24_immediates, locate_sid_tables, propose_handler_name,
  score_table_pair,
}
use rom_analyzer.CanSlots.Best.{locate_sid_tables-best}

-- ld24 r0, #8 and ld24 r1, #10, and then the two tables of two slots: 0x139 and 0x231.
abbrev image : List ℕ
image = 0xe0 ∷ 0 ∷ 0 ∷ 8 ∷ 0xe1 ∷ 0 ∷ 0 ∷ 10 ∷ 0x04 ∷ 0x08 ∷ 0x39 ∷ 0x31 ∷ []

abbrev slot : ℕ → ℕ → Option Text → CanSlot
slot n sid semantic = record {
  slot = n;
  sid = sid;
  semantic = semantic;
  rx_handler = none;
  tx_handler = none;
}

decoded :
    (analyze_can_slots image 0 [] 2
      ≡ slot 0 0x139 (some (codes "apps_tps")) ∷ slot 1 0x231 (some (codes "abs")) ∷ [])
    × (propose_handler_name 7 (some (codes "abs")) (codes "rx") ≡ codes "can0_slot7_abs_rx_update")
unfolding analyze_can_slots propose_handler_name
decoded = (refl, refl)

locate_sid_tables-best_example :
    let imms = find_ld24_immediates image 0 0x80 in
    let found = locate_sid_tables image 0 2 in
    All (λ a. All (λ b. (a ≡ b) ⊎ (score_table_pair image a b 2 ≤ found.score)) imms) imms
    × (((found.tables ≡ none) × (found.score ≡ 0))
        ⊎ ((p : ℕ × ℕ) × (found.tables ≡ some p)
            × In p.0 imms
            × In p.1 imms
            × (p.0 ≢ p.1)
            × (found.score ≡ score_table_pair image p.0 p.1 2)
            × (0 < found.score)))
locate_sid_tables-best_example = locate_sid_tables-best image 0 2
