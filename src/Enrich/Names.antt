-- ===== src/Enrich/Names.antt =====
-- Names without meaning in rom_analyzer/enrich.py: its two regular expressions and its list of words,
-- on ASCII text.
use rom_analyzer.Common.{
  ℕ, ◌+◌, ◌≡◌, refl, Bool, true, false, not, ◌&&◌, ◌||◌, Option, none, some, List, [], ◌∷◌, map,
  leb, ◌==◌, nat_eq, if◌then◌else◌, length, any, elem,
}
use rom_analyzer.Common.Text.{Text, codes, text_eq, lower}

unfoldable pub is_digit : ℕ → Bool
is_digit c = leb b'0' c && leb c b'9'

unfoldable pub is_hex_digit : ℕ → Bool
unfolding is_digit
is_hex_digit c = is_digit c || leb b'a' c && leb c b'f' || leb b'A' c && leb c b'F'

-- [a-zA-Z0-9_]
unfoldable pub is_word : ℕ → Bool
unfolding is_digit
is_word c = is_digit c || leb b'a' c && leb c b'z' || leb b'A' c && leb c b'Z' || c == b'_'

-- What is left behind a prefix.
unfoldable pub after_prefix : Text → Text → Option Text
after_prefix [] s = some s
after_prefix (d ∷ p) [] = none
after_prefix (d ∷ p) (c ∷ s) = if c == d then after_prefix p s else none

-- `$`: the end, or in front of a newline that ends the text.
abbrev pub at_end : Text → Bool
at_end [] = true
at_end (c ∷ []) = c == b'\n'
at_end _ = false

-- One character or more that pass the test, up to the end; the flag says that there was one.
unfoldable pub all_to_end : (ℕ → Bool) → Bool → Text → Bool
all_to_end p seen [] = seen
all_to_end p seen (c ∷ s) = seen && at_end (c ∷ s) || p c && all_to_end p true s

unfoldable pub follows : (ℕ → Bool) → Text → Text → Bool
unfolding after_prefix all_to_end
follows p s prefix = elim (after_prefix prefix s) [ none ↦ false | some t ↦ all_to_end p false t ]

-- _AUTO_RE
unfoldable pub is_auto_name : Text → Bool
unfolding follows is_hex_digit is_digit
is_auto_name name =
    any (follows is_hex_digit name) (codes "FUN_" ∷ codes "LAB_" ∷ codes "DAT_" ∷ codes "SUB_" ∷ [])
    || any (follows is_digit name) (codes "icu_isr_" ∷ codes "isr_vector_" ∷ [])

-- `[0-9a-fA-F_]{4,}` and what must follow it, with the number of characters taken so far.
unfoldable pub call_tail : ℕ → Text → Bool
unfolding is_hex_digit is_word
call_tail n [] = leb 4 n
call_tail n (c ∷ s) =
    leb 4 n && (c == b'_' || not (is_word c))
    || (is_hex_digit c || c == b'_') && call_tail (n + 1) s

-- `[0-9a-fA-F]{3,}(_|$)`
unfoldable pub fp_tail : ℕ → Text → Bool
unfolding is_hex_digit
fp_tail n [] = leb 3 n
fp_tail n (c ∷ s) = leb 3 n && (c == b'_' || at_end (c ∷ s)) || is_hex_digit c && fp_tail (n + 1) s

unfoldable pub tail_after : (Text → Bool) → Text → Text → Bool
unfolding after_prefix
tail_after test s prefix = elim (after_prefix prefix s) [ none ↦ false | some t ↦ test t ]

-- The digits of `ret\d*` are also characters of what follows, so they need not be taken here.
unfoldable pub placeholder_here : Text → Bool
unfolding tail_after call_tail fp_tail
placeholder_here s =
    any (tail_after (call_tail 0) s)
      (codes "call" ∷ codes "nop" ∷ codes "ret" ∷ codes "reset_call" ∷ codes "sub" ∷ [])
    || tail_after (fp_tail 0) s (codes "fp")

unfoldable pub placeholder_behind : Text → Bool
unfolding placeholder_here
placeholder_behind [] = false
placeholder_behind (c ∷ s) = c == b'_' && placeholder_here s || placeholder_behind s

-- _PLACEHOLDER_RE
unfoldable pub is_placeholder : Text → Bool
unfolding placeholder_here placeholder_behind
is_placeholder name = placeholder_here name || placeholder_behind name

abbrev pub junk_names : List Text
junk_names =
    codes "out"
    ∷ codes "in"
    ∷ codes "tmp"
    ∷ codes "temp"
    ∷ codes "foo"
    ∷ codes "bar"
    ∷ codes "data"
    ∷ codes "val"
    ∷ codes "value"
    ∷ codes "ptr"
    ∷ codes "ret"
    ∷ codes "end"
    ∷ codes "sub"
    ∷ codes "fn"
    ∷ codes "func"
    ∷ codes "stub"
    ∷ codes "todo"
    ∷ codes "tbd"
    ∷ codes "unknown"
    ∷ codes "x"
    ∷ []

unfoldable pub is_generic : Text → Bool
unfolding lower
is_generic name = leb (length name) 3 || elem (lower name) junk_names

name_tests :
    (map is_auto_name
        (codes "FUN_0001a3f0" ∷ codes "FUN_" ∷ codes "isr_vector_07" ∷ codes "FUN_00xy" ∷ [])
      ≡ true ∷ false ∷ true ∷ false ∷ [])
    × (map is_placeholder (
          codes "call1a3f0"
          ∷ codes "ret0_1234"
          ∷ codes "get_fp1a2_lo"
          ∷ codes "recall"
          ∷ codes "sub12"
          ∷ [])
        ≡ true ∷ true ∷ true ∷ false ∷ false ∷ [])
    × (map is_generic (codes "Unknown" ∷ codes "rpm" ∷ codes "load_calc" ∷ [])
        ≡ true ∷ true ∷ false ∷ [])
unfolding is_auto_name is_placeholder is_generic
name_tests = (refl, refl, refl)
