-- ===== src/Crc/Constants.antt =====
-- The constants of rom_analyzer/crc.py: what a load's operands stand for.
use Prim.Native.Nat.{◌/◌}
use rom_analyzer.Common.{ℕ, ◌+◌, ◌%◌, ◌≡◌, refl, ap, ◌∙◌, some, ◌∷◌, arith}
use rom_analyzer.Common.Int.{ℤ, pos, ◌+ℤ◌, scale}
use rom_analyzer.Common.PyInt.{strip, strip_left, int_base0}
use rom_analyzer.Common.PyInt.Print.{hex_literal, int_base0-hex, strip_lem, hex_literal-NoSpace}
use rom_analyzer.Crc.{parse_imm, low16, sign_extend16, pair_value}

-- The halves that an assembler splits a 32-bit value into, the high one adjusted for the sign of
-- the low one, are put together to the value; the low half may be printed with or without its sign.
pub pair_value_of_split :
    (v : ℕ) (l : ℤ) → low16 l ≡ v % 0x10000 → pair_value (pos ((v + 0x8000) / 0x10000)) l ≡ pos v
unfolding pair_value sign_extend16 scale ◌+ℤ◌
pair_value_of_split v l h = ground arith

-- An immediate that is printed as `#0x` and hexadecimal digits is read as its value.
pub parse_imm-hex : (n : ℕ) → parse_imm (b'#' ∷ hex_literal n) ≡ some (pos n)
parse_imm-hex n =
    shut ∙ ap int_base0 (strip_lem (hex_literal n) (hex_literal-NoSpace n)) ∙ int_base0-hex n
  where
    shut : parse_imm (b'#' ∷ hex_literal n) ≡ int_base0 (strip (hex_literal n))
    shut = unfold parse_imm strip_left in refl
