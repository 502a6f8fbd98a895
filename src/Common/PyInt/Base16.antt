-- ===== src/Common/PyInt/Base16.antt =====
-- Python's `int(s, 16)` on ASCII text.
use rom_analyzer.Common.Tests.{if◌then◌else◌, ◌==◌, nat_eq}
use rom_analyzer.Common.Text.{Text, codes, text_eq, hex}
use rom_analyzer.Common.Int.{ℤ, pos, neg}
use rom_analyzer.Common.PyInt.{strip, parse_digits, parse_prefixed}
use rom_analyzer.Common.PyInt.Print.{
  hex_literal, strip_lem, hex_literal-NoSpace, parse_prefixed-hex,
}
use Prim.Native.Nat.{ℕ}
use mathlib.Core.Path.{◌≡◌, refl, ap, ◌∙◌}
use mathlib.Core.Bool.{false, ◌&&◌, ◌||◌}
use mathlib.Core.Option.{Option, none, some}
use mathlib.Core.Option
use mathlib.Core.List.{[], ◌∷◌}

-- The prefix `0x` may stand there or not.
unfoldable pub magnitude16 : Text → Option ℕ
unfolding parse_prefixed parse_digits
magnitude16 (c ∷ d ∷ s) =
    if c == b'0' && (d == b'x' || d == b'X')
    then parse_prefixed 16 s
    else parse_digits 16 false 0 (c ∷ d ∷ s)
magnitude16 s = parse_digits 16 false 0 s

unfoldable pub signed16 : Text → Option ℤ
unfolding magnitude16
signed16 [] = none
signed16 (c ∷ s) =
    if c == b'-'
    then Option.map (λ n. neg (pos n)) (magnitude16 s)
    else if c == b'+'
    then Option.map pos (magnitude16 s)
    else Option.map pos (magnitude16 (c ∷ s))

-- `int(s, 16)`; `none` is the ValueError.
unfoldable pub int_base16 : Text → Option ℤ
unfolding signed16 strip
int_base16 s = signed16 (strip s)

int_base16_examples :
    (int_base16 (codes " 0x1A_f0\n") ≡ some (pos 0x1af0))
    × (int_base16 (codes "ff") ≡ some (pos 255))
    × (int_base16 (codes "-0x10") ≡ some (neg (pos 16)))
    × (int_base16 (codes "0x") ≡ none)
    × (int_base16 (codes "_1") ≡ none)
    × (int_base16 (codes "12g") ≡ none)
unfolding int_base16
int_base16_examples = (refl, refl, refl, refl, refl, refl)

signed16_prefixed : (s : Text) → signed16 (b'0' ∷ b'x' ∷ s) ≡ Option.map pos (parse_prefixed 16 s)
unfolding signed16 magnitude16
signed16_prefixed s = refl

-- int(f"0x{n:x}", 16) is n.
pub int_base16-hex : (n : ℕ) → int_base16 (hex_literal n) ≡ some (pos n)
unfolding int_base16
int_base16-hex n =
    ap signed16 (strip_lem (hex_literal n) (hex_literal-NoSpace n))
    ∙ signed16_prefixed (hex n)
    ∙ ap (Option.map pos) (parse_prefixed-hex n)
