-- ===== src/Common/Fraction.antt =====
-- `a / b` for 0 <= a <= b and 0 < b, as its IEEE 754 binary64 pattern: the quotient is rounded to the
-- nearest number of 53 bits, and of two that are as near to the even one.
use Prim.Native.Nat.{ℕ, zero, suc, ◌+◌, ◌-◌, ◌*◌, ◌/◌, ◌%◌, ◌^◌}
use mathlib.Core.Path.{◌≡◌, refl}
use mathlib.Core.Bool.{◌&&◌, ◌||◌}
use rom_analyzer.Common.Tests.{ltb, leb, if◌then◌else◌, ◌==◌, nat_eq}

-- The least k with b <= a * 2 ** k; the fuel bounds it.
unfoldable pub binary_scale : ℕ → ℕ → ℕ → ℕ
binary_scale zero a b = 0
binary_scale (suc fuel) a b =
    let rest = binary_scale fuel (2 * a) b in if leb b a then 0 else suc rest

unfoldable pub nearest_even : ℕ → ℕ → ℕ
nearest_even n b =
    let q = n / b in
    let r = n % b in if ltb b (2 * r) || (2 * r == b && q % 2 == 1) then q + 1 else q

unfoldable pub fraction : ℕ → ℕ → ℕ
unfolding binary_scale nearest_even
fraction a b =
    if a == 0
    then 0
    else let k = binary_scale b a b in
      (1023 - k) * 2 ^ 52 + (nearest_even (a * 2 ^ (k + 52)) b - 2 ^ 52)

fraction_examples :
    (fraction 7 10 ≡ 0x3fe6666666666666)
    × (fraction 3 5 ≡ 0x3fe3333333333333)
    × (fraction 1 3 ≡ 0x3fd5555555555555)
    × (fraction 9 10 ≡ 0x3feccccccccccccd)
    × (fraction 4 4 ≡ 0x3ff0000000000000)
unfolding fraction
fraction_examples = (refl, refl, refl, refl, refl)
