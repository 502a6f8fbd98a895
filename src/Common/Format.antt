-- ===== src/Common/Format.antt =====
-- Python's format strings for numbers: decimal and hexadecimal digits, padded with zeros, and a float
-- with two decimals.
use Prim.Native.Nat.{ℕ, zero, suc, ◌+◌, ◌-◌, ◌*◌, ◌/◌, ◌%◌, ◌^◌}
use mathlib.Core.Path.{◌≡◌, refl}
use mathlib.Core.List.{List, [], ◌∷◌, ◌++◌}
use rom_analyzer.Common.Tests.{leb, if◌then◌else◌, ◌==◌, nat_eq}
use rom_analyzer.Common.Text.{Text, codes, hex}
use rom_analyzer.Common.Lists.{length}
use rom_analyzer.Common.Fraction.{nearest_even}

-- The digits of `n` in front of `acc`; the fuel bounds their number.
unfoldable pub decimal_digits : ℕ → ℕ → Text → Text
decimal_digits zero n acc = acc
decimal_digits (suc fuel) n acc =
    let rest = decimal_digits fuel (n / 10) ((n % 10 + b'0') ∷ acc) in if n == 0 then acc else rest

-- f"{n}"
unfoldable pub decimal : ℕ → Text
unfolding decimal_digits
decimal n = if n == 0 then b'0' ∷ [] else decimal_digits n n []

unfoldable pub zeros : ℕ → Text
zeros zero = []
zeros (suc n) = b'0' ∷ zeros n

-- The digits with zeros in front, `width` characters at least.
unfoldable pub padded : ℕ → Text → Text
unfolding zeros
padded width digits = zeros (width - length digits) ++ digits

-- f"{n:08x}" and the like, with the width.
unfoldable pub padded_hex : ℕ → ℕ → Text
unfolding padded
padded_hex width n = padded width (hex n)

-- f"{n:04d}" and the like.
unfoldable pub padded_decimal : ℕ → ℕ → Text
unfolding padded decimal
padded_decimal width n = padded width (decimal n)

-- A finite float that is not negative is mantissa * 2 ** (exponent - 1075).
unfoldable pub mantissa : ℕ → ℕ
mantissa bits = if bits / 2 ^ 52 == 0 then bits else bits % 2 ^ 52 + 2 ^ 52

unfoldable pub exponent : ℕ → ℕ
exponent bits = if bits / 2 ^ 52 == 0 then 1 else bits / 2 ^ 52

-- 100 times the float, rounded to the nearest whole number, and to the even one of two.
unfoldable pub hundredths : ℕ → ℕ
unfolding mantissa exponent nearest_even
hundredths bits =
    let e = exponent bits in
    if leb 1075 e
    then mantissa bits * 2 ^ (e - 1075) * 100
    else nearest_even (mantissa bits * 100) (2 ^ (1075 - e))

-- f"{x:.2f}"
unfoldable pub fixed2 : ℕ → Text
unfolding hundredths decimal padded_decimal
fixed2 bits = let h = hundredths bits in decimal (h / 100) ++ b'.' ∷ padded_decimal 2 (h % 100)

unfoldable pub join_behind : Text → List Text → Text
join_behind separator [] = []
join_behind separator (t ∷ ts) = separator ++ t ++ join_behind separator ts

-- `separator.join(ts)`
unfoldable pub join : Text → List Text → Text
unfolding join_behind
join separator [] = []
join separator (t ∷ ts) = t ++ join_behind separator ts

format_examples :
    (decimal 1907 ≡ codes "1907")
    × (padded_decimal 4 101 ≡ codes "0101")
    × (padded_hex 8 0x1a3f0 ≡ codes "0001a3f0")
    × (fixed2 0x3ff0000000000000 ≡ codes "1.00")
    × (fixed2 0x3fee666666666666 ≡ codes "0.95")
    × (fixed2 0x3fd5555555555555 ≡ codes "0.33")
unfolding decimal padded_decimal padded_hex fixed2 hex
format_examples = (refl, refl, refl, refl, refl, refl)
