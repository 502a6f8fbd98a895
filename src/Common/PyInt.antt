-- ===== src/Common/PyInt.antt =====
-- Python's `int(s, 0)` on ASCII text, and `str.strip`.
pub mod Print
pub mod Base16
use rom_analyzer.Common.Tests.{ltb, leb, if◌then◌else◌, ◌==◌, nat_eq}
use rom_analyzer.Common.Text.{Text, codes, text_eq}
use rom_analyzer.Common.Int.{ℤ, pos, neg}
use Prim.Native.Nat.{ℕ, zero, suc, ◌+◌, ◌-◌, ◌*◌}
use mathlib.Core.Path.{◌≡◌, refl}
use mathlib.Core.Bool.{Bool, true, false, ◌&&◌, ◌||◌}
use mathlib.Core.Option.{Option, none, some}
use mathlib.Core.Option
use mathlib.Core.List.{[], ◌∷◌, reverse}

pub is_space : ℕ → Bool
is_space c = leb 9 c && leb c 13 || leb 28 c && leb c 32 || c == 0x85 || c == 0xa0

-- Without the first characters that pass the test.
unfoldable pub strip_left : (ℕ → Bool) → Text → Text
strip_left p [] = []
strip_left p (c ∷ s) = if p c then strip_left p s else c ∷ s

unfoldable pub strip : Text → Text
unfolding strip_left is_space
strip s = reverse (strip_left is_space (reverse (strip_left is_space s)))

unfoldable pub digit_value : ℕ → Option ℕ
digit_value c =
    if leb b'0' c && leb c b'9'
    then some (c - b'0')
    else if leb b'a' c && leb c b'z'
    then some (c - b'a' + 10)
    else if leb b'A' c && leb c b'Z'
    then some (c - b'A' + 10)
    else none

-- One character of a number in the base; the flag says that a digit stands in front of it, where
-- alone an underscore or the end may stand.
unfoldable pub digit_step : ℕ → Bool → ℕ → ℕ → Option (Bool × ℕ)
unfolding digit_value
digit_step base after_digit acc c =
    if c == b'_' then (if after_digit then some (false, acc) else none) else elim (digit_value c) [
      | none ↦ none
      | some d ↦ if ltb d base then some (true, acc * base + d) else none
    ]

unfoldable pub parse_digits : ℕ → Bool → ℕ → Text → Option ℕ
unfolding digit_step
parse_digits base after_digit acc [] = if after_digit then some acc else none
parse_digits base after_digit acc (c ∷ s) = elim (digit_step base after_digit acc c) [
  | none ↦ none
  | some (flag, n) ↦ parse_digits base flag n s
]

-- Behind `0x`, `0o` or `0b` an underscore may stand, and a digit must follow.
unfoldable pub parse_prefixed : ℕ → Text → Option ℕ
unfolding parse_digits
parse_prefixed base [] = none
parse_prefixed base (c ∷ s) = parse_digits base true 0 (c ∷ s)

-- A decimal number begins with 0 only if it is 0.
unfoldable pub parse_decimal : Text → Option ℕ
unfolding parse_digits
parse_decimal s = elim (parse_digits 10 false 0 s) [
  | none ↦ none
  | some zero ↦ some 0
  | some (suc n) ↦ elim s [ [] ↦ none | c ∷ _ ↦ if c == b'0' then none else some (suc n) ]
]

unfoldable pub parse_magnitude : Text → Option ℕ
unfolding parse_prefixed parse_decimal
parse_magnitude (c ∷ d ∷ s) =
    if c == b'0' && (d == b'x' || d == b'X')
    then parse_prefixed 16 s
    else if c == b'0' && (d == b'o' || d == b'O')
    then parse_prefixed 8 s
    else if c == b'0' && (d == b'b' || d == b'B')
    then parse_prefixed 2 s
    else parse_decimal (c ∷ d ∷ s)
parse_magnitude s = parse_decimal s

-- `int(s, 0)`; `none` is the ValueError.
unfoldable pub int_base0 : Text → Option ℤ
unfolding parse_magnitude
int_base0 [] = none
int_base0 (c ∷ s) =
    if c == b'-'
    then Option.map (λ n. neg (pos n)) (parse_magnitude s)
    else if c == b'+'
    then Option.map pos (parse_magnitude s)
    else Option.map pos (parse_magnitude (c ∷ s))

int_examples :
    (int_base0 (codes "0x7f_ff") ≡ some (pos 0x7fff))
    × (int_base0 (codes "012") ≡ none)
    × (int_base0 (codes "00") ≡ some (pos 0))
    × (int_base0 (codes "0x") ≡ none)
    × (int_base0 (codes "-0b101") ≡ some (neg (pos 5)))
unfolding int_base0
int_examples = (refl, refl, refl, refl, refl)
