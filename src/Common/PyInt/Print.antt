-- ===== src/Common/PyInt/Print.antt =====
-- What f"{n:x}" prints, `int(s, 0)` reads back.
use mathlib.Core.List.{reverse, reverse-cons, reverse-reverse}
use rom_analyzer.Common.Tests.{◌==◌, nat_eq, Bool-cases}
use rom_analyzer.Common.Text.{Text, hex, hex_digit, hex_digits}
use rom_analyzer.Common.Int.{pos}
use rom_analyzer.Common.Lists.{In, In-append}
use rom_analyzer.Common.PyInt.{
  is_space, strip_left, strip, parse_digits, parse_prefixed, parse_magnitude, int_base0,
}
use Prim.Native.Nat.{ℕ, zero, suc, ◌+◌, ◌-◌, ◌*◌, ◌/◌, ◌%◌, ◌<◌, ◌≤◌}
use mathlib.Core.Path.{◌≡◌, refl, ◌∙◌, ap}
use mathlib.Core.Logic.{◌≢◌, inl, inr}
use mathlib.Core.Bool.{Bool, true, false}
use mathlib.Core.Option
use mathlib.Core.Option.{Option, none, some}
use mathlib.Core.List.{[], ◌∷◌}
use native.Mathlib.Omega.{arith}

hex_digits_step :
    (fuel n : ℕ) (tail : Text)
    → 0 < n
    → hex_digits (suc fuel) n tail ≡ hex_digits fuel (n / 16) (hex_digit (n % 16) ∷ tail)
unfolding hex_digits
hex_digits_step fuel n tail h = ground arith

hex_digits_zero : (fuel : ℕ) (tail : Text) → hex_digits fuel 0 tail ≡ tail
unfolding hex_digits
hex_digits_zero zero tail = refl
hex_digits_zero (suc fuel) tail = refl

parse_digit :
    (flag : Bool) (acc d : ℕ) (tail : Text)
    → d < 16
    → parse_digits 16 flag acc (hex_digit d ∷ tail) ≡ parse_digits 16 true (acc * 16 + d) tail
unfolding parse_digits hex_digit
parse_digit flag acc d tail h = ground arith

parse_digits-hex_digits :
    (fuel n : ℕ) (tail : Text)
    → n ≤ fuel
    → parse_digits 16 true 0 (hex_digits fuel n tail) ≡ parse_digits 16 true n tail
parse_digits-hex_digits zero n tail h =
    let e : n ≡ 0 = omega arith in rw e (ap (parse_digits 16 true 0) (hex_digits_zero 0 tail))
parse_digits-hex_digits (suc fuel) n tail h = elim (Bool-cases (n == 0)) [
  | inl e ↦
      let e' : n ≡ 0 = ground arith in
      rw e' (ap (parse_digits 16 true 0) (hex_digits_zero (suc fuel) tail))
  | inr ne ↦ rw (hex_digits_step fuel n tail (ground arith)) (
      parse_digits-hex_digits fuel (n / 16) (hex_digit (n % 16) ∷ tail) (ground arith)
      ∙ parse_digit true (n / 16) (n % 16) tail (omega arith)
      ∙ ap (λ v. parse_digits 16 true v tail) (omega arith))
]

hex_digits-ne_nil : (fuel n : ℕ) (c : ℕ) (tail : Text) → hex_digits fuel n (c ∷ tail) ≢ []
unfolding hex_digits
hex_digits-ne_nil zero n c tail h = cc
hex_digits-ne_nil (suc fuel) n c tail h =
    ground (arith, hex_digits-ne_nil fuel (n / 16) (hex_digit (n % 16)) (c ∷ tail))

hex_zero : hex 0 ≡ b'0' ∷ []
unfolding hex
hex_zero = refl

hex_step : (n : ℕ) → 0 < n → hex n ≡ hex_digits (n - 1) (n / 16) (hex_digit (n % 16) ∷ [])
hex_step n h = unshut ∙ ap (λ f. hex_digits f n []) (omega arith) ∙ hex_digits_step (n - 1) n [] h
  where
    unshut : hex n ≡ hex_digits n n []
    unshut = unfold hex in ground arith

hex-ne_nil : (n : ℕ) → hex n ≢ []
hex-ne_nil n h = elim (Bool-cases (n == 0)) [
  | inl e ↦ let e' : n ≡ 0 = ground arith in cc (ap hex e', hex_zero)
  | inr e ↦
      hex_digits-ne_nil (n - 1) (n / 16) (hex_digit (n % 16)) [] (cc (hex_step n (ground arith)))
]

parse_prefixed_lem :
    (base : ℕ) (s : Text) → s ≢ [] → parse_prefixed base s ≡ parse_digits base true 0 s
unfolding parse_prefixed
parse_prefixed_lem base [] h = absurd (h refl)
parse_prefixed_lem base (c ∷ s) h = refl

parse_digits_zero : parse_digits 16 true 0 (b'0' ∷ []) ≡ some 0
unfolding parse_digits
parse_digits_zero = refl

parse_digits_end : (n : ℕ) → parse_digits 16 true n [] ≡ some n
unfolding parse_digits
parse_digits_end n = refl

-- The digits of a number are read back as the number.
pub parse_prefixed-hex : (n : ℕ) → parse_prefixed 16 (hex n) ≡ some n
parse_prefixed-hex n = parse_prefixed_lem 16 (hex n) (hex-ne_nil n) ∙ elim (Bool-cases (n == 0)) [
  | inl e ↦ let e' : n ≡ 0 = ground arith in rw (e', hex_zero) (parse_digits_zero)
  | inr e ↦ rw (hex_step n (ground arith)) (
      parse_digits-hex_digits (n - 1) (n / 16) (hex_digit (n % 16) ∷ []) (ground arith)
      ∙ parse_digit true (n / 16) (n % 16) [] (omega arith)
      ∙ parse_digits_end (n / 16 * 16 + n % 16)
      ∙ ap some (omega arith))
]

is_space-hex_digit : (d : ℕ) → d < 16 → is_space (hex_digit d) ≡ false
unfolding is_space hex_digit
is_space-hex_digit d h = ground arith

abbrev NoSpace : Text → Type 0
NoSpace s = (c : ℕ) → In c s → is_space c ≡ false

NoSpace-cons : (c : ℕ) (s : Text) → is_space c ≡ false → NoSpace s → NoSpace (c ∷ s)
NoSpace-cons c s h k d (inl e) = rw e h
NoSpace-cons c s h k d (inr m) = k d m

-- No character of a printed number is a space.
hex_digits-NoSpace : (fuel n : ℕ) (tail : Text) → NoSpace tail → NoSpace (hex_digits fuel n tail)
unfolding hex_digits
hex_digits-NoSpace zero n tail h = h
hex_digits-NoSpace (suc fuel) n tail h =
    let ih =
      hex_digits-NoSpace fuel (n / 16) (hex_digit (n % 16) ∷ tail)
        (NoSpace-cons (hex_digit (n % 16)) tail (is_space-hex_digit (n % 16) (omega arith)) h) in
    λ c m. elim (Bool-cases (n == 0)) [ inl e ↦ h c (ground arith) | inr e ↦ ih c (ground arith) ]

hex-NoSpace : (n : ℕ) → NoSpace (hex n)
hex-NoSpace n = elim (Bool-cases (n == 0)) [
  | inl e ↦
      let e' : n ≡ 0 = ground arith in rw (e', hex_zero) (λ c m. unfold is_space in ground arith)
  | inr e ↦ rw (hex_step n (ground arith)) (
      hex_digits-NoSpace (n - 1) (n / 16) (hex_digit (n % 16) ∷ []) (
        NoSpace-cons (hex_digit (n % 16)) [] (is_space-hex_digit (n % 16) (omega arith))
          (λ c m. absurd m)))
]

In-reverse : (c : ℕ) (s : Text) → In c (reverse s) → In c s
In-reverse c [] m = m
In-reverse c (d ∷ s) m = elim ((In-append c (reverse s) (d ∷ [])).0 (rw (reverse-cons d s) at m)) [
  | inl n ↦ inr (In-reverse c s n)
  | inr (inl e) ↦ inl e
  | inr (inr f) ↦ absurd f
]

strip_left_lem : (p : ℕ → Bool) (s : Text) → ((c : ℕ) → In c s → p c ≡ false) → strip_left p s ≡ s
unfolding strip_left
strip_left_lem p [] h = refl
strip_left_lem p (c ∷ s) h = ground (arith, h c (inl refl))

-- A text without spaces is stripped of nothing.
pub strip_lem : (s : Text) → NoSpace s → strip s ≡ s
unfolding strip
strip_lem s h =
    ap (λ t. reverse (strip_left is_space (reverse t))) (strip_left_lem is_space s h)
    ∙ ap reverse (strip_left_lem is_space (reverse s) (λ c m. h c (In-reverse c s m)))
    ∙ reverse-reverse s

abbrev pub hex_literal : ℕ → Text
hex_literal n = b'0' ∷ b'x' ∷ hex n

magnitude_hex : (s : Text) → parse_magnitude (b'0' ∷ b'x' ∷ s) ≡ parse_prefixed 16 s
unfolding parse_magnitude
magnitude_hex s = refl

int_unsigned : (s : Text) → int_base0 (b'0' ∷ s) ≡ Option.map pos (parse_magnitude (b'0' ∷ s))
unfolding int_base0
int_unsigned s = refl

-- int(f"0x{n:x}", 0) is n.
pub int_base0-hex : (n : ℕ) → int_base0 (hex_literal n) ≡ some (pos n)
int_base0-hex n =
    int_unsigned (b'x' ∷ hex n) ∙ ap (Option.map pos) (magnitude_hex (hex n) ∙ parse_prefixed-hex n)

pub hex_literal-NoSpace : (n : ℕ) → NoSpace (hex_literal n)
hex_literal-NoSpace n =
    NoSpace-cons b'0' (b'x' ∷ hex n) (unfold is_space in refl)
      (NoSpace-cons b'x' (hex n) (unfold is_space in refl) (hex-NoSpace n))
