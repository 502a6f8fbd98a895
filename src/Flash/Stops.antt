-- ===== src/Flash/Stops.antt =====
-- The inner loop of find_free_blocks of rom_analyzer/flash_space.py: it stops at the end of a run.
use rom_analyzer.Common.{
  ℕ, zero, suc, ◌+◌, ◌≤◌, ◌<◌, ◌≡◌, refl, ◌⊎◌, inl, inr, true, false, List, arith, get_elem?,
  length, Bool-cases, Option-cases, get_elem?-lt,
}
use rom_analyzer.Flash.{byte_is, run_end}

pub byte_is-lt : (rom : List ℕ) (i pad : ℕ) → byte_is rom i pad ≡ true → i < length rom
unfolding byte_is
byte_is-lt rom i pad h = elim (Option-cases (get_elem? rom i)) [
  | inl e ↦ absurd (ground arith)
  | inr (b, e) ↦ get_elem?-lt rom i b e
]

-- A position where a run may begin, or where none does.
unfoldable pub Clear : List ℕ → ℕ → ℕ → Type 0
Clear rom pad i = (byte_is rom i pad ≡ false) ⊎ ((j : ℕ) → suc j ≡ i → byte_is rom j pad ≡ false)

-- What the inner loop promises from `i` on.
pub record Stops (rom : List ℕ) (pad i e : ℕ) : Type 0 where
  pub from : i ≤ e
  pub at : byte_is rom e pad ≡ false
  pub inside : (j : ℕ) → i ≤ j → j < e → byte_is rom j pad ≡ true

module _ (rom : List ℕ) (pad : ℕ) where
  run_end_here : (fuel i : ℕ) → byte_is rom i pad ≡ false → run_end rom pad fuel i ≡ i
  unfolding run_end
  run_end_here zero i h = refl
  run_end_here (suc fuel) i h = ground arith

  run_end_step :
      (fuel i : ℕ)
      → byte_is rom i pad ≡ true
      → run_end rom pad (suc fuel) i ≡ run_end rom pad fuel (i + 1)
  unfolding run_end
  run_end_step fuel i h = ground arith

  Stops-here : (fuel i : ℕ) → byte_is rom i pad ≡ false → Stops rom pad i (run_end rom pad fuel i)
  Stops-here fuel i h =
      rw (run_end_here fuel i h)
        (record { from = omega arith; at = h; inside = λ j p q. absurd (omega arith) })

  -- With a fuel above the bytes left the inner loop ends by its test.
  pub run_end-Stops :
      (fuel i : ℕ) → length rom ≤ fuel + i → Stops rom pad i (run_end rom pad fuel i)
  run_end-Stops zero i h = Stops-here zero i (ground (arith, byte_is-lt rom i pad))
  run_end-Stops (suc fuel) i h = elim (Bool-cases (byte_is rom i pad)) [
    | inr e ↦ Stops-here (suc fuel) i e
    | inl e ↦
        let s = run_end-Stops fuel (i + 1) (omega arith) in
        rw (run_end_step fuel i e) (record {
          from = omega (arith, s.from);
          at = s.at;
          inside = λ j p q. ground (arith, s.inside j);
        })
  ]
