-- ===== src/Flash/Align.antt =====
-- The rounding of rom_analyzer/flash_space.py for the alignments that are powers of two.
use Prim.Native.Nat.{bit_and, digits, bit_and-bitwise, min}
use native.Mathlib.Nat.{pow-suc}
use rom_analyzer.Common.{ℕ, zero, suc, ◌+◌, ◌-◌, ◌*◌, ◌/◌, ◌%◌, ◌^◌, ◌≤◌, ◌<◌, ◌≡◌, refl, ap, arith}
use rom_analyzer.Flash.{align_down}

-- What is left of `a` above its lowest `k` digits.
high : ℕ → ℕ → ℕ
high zero a = a
high (suc k) a = high k (a / 2)

high_zero : (k : ℕ) → high k 0 ≡ 0
unfolding high
high_zero zero = refl
high_zero (suc k) = high_zero k

two_pow_pos : (k : ℕ) → 0 < 2 ^ k
two_pow_pos zero = omega arith
two_pow_pos (suc k) = omega (arith, pow-suc 2 k, two_pow_pos k)

mask_half : (k m : ℕ) → m ≡ 2 ^ suc k → ((m - 1) / 2 ≡ 2 ^ k - 1) × ((m - 1) % 2 ≡ 1)
mask_half k m h = omega (arith, pow-suc 2 k, two_pow_pos k)

-- The digit-wise minimum with a mask of `k` ones, by the recursion that `bit_and` stands for, on any
-- count of digits that is enough for `a`.
abbrev masked : ℕ → ℕ → ℕ → ℕ
masked fuel a mask = digits (λ _. zero) min fuel a mask

masked_lem :
    (fuel k a : ℕ)
    → a ≤ fuel
    → (high k a * 2 ^ k + masked fuel a (2 ^ k - 1) ≡ a) × (masked fuel a (2 ^ k - 1) < 2 ^ k)
unfolding high
masked_lem zero k zero h = ground (arith, high_zero k, two_pow_pos k)
masked_lem zero k (suc a) h = absurd (omega arith)
masked_lem (suc fuel) k zero h = ground (arith, high_zero k, two_pow_pos k)
masked_lem (suc fuel) zero (suc a) h =
    let (e, l) = masked_lem fuel zero (suc a / 2) (omega arith) in omega (arith, e, l)
masked_lem (suc fuel) (suc k) (suc a) h =
    let (q, r) = mask_half k (2 ^ suc k) refl in
    let (e, l) = masked_lem fuel k (suc a / 2) (omega arith) in
    rw (q, r)
      (
        omega (arith, e, l, ap (λ (t : ℕ). high k (suc a / 2) * t) (pow-suc 2 k)),
        omega (arith, l, pow-suc 2 k),
      )

-- `a & (2 ** k - 1)` keeps what is left of `a` after `high k a * 2 ** k`.
bit_and-mask :
    (k a : ℕ) → (high k a * 2 ^ k + bit_and a (2 ^ k - 1) ≡ a) × (bit_and a (2 ^ k - 1) < 2 ^ k)
bit_and-mask k a = rw (bit_and-bitwise a (2 ^ k - 1)) (masked_lem a k a (omega arith))

-- For an alignment 2 ** k, align_down gives the multiple of it at or just below.
pub align_down-pow :
    (k e : ℕ)
    → (align_down e (2 ^ k) ≤ e)
      × (e < align_down e (2 ^ k) + 2 ^ k)
      × ((q : ℕ) × (align_down e (2 ^ k) ≡ q * 2 ^ k))
unfolding align_down
align_down-pow k e =
    let (split, small) = bit_and-mask k e in
    (ground arith, ground (arith, two_pow_pos k), (high k e, ground (arith, two_pow_pos k)))

pub align_down-le : (e alignment : ℕ) → align_down e alignment ≤ e
unfolding align_down
align_down-le e alignment = ground arith
