-- ===== src/Callgraph/Similarity.antt =====
-- _bytecode_jaccard of rom_analyzer/callgraph.py. A similarity is a fraction, the number of common
-- 4-byte grams over the number of all; its comparison with 0.15 is that of the floats.
use rom_analyzer.Common.{
  ℕ, zero, suc, ◌+◌, ◌*◌, ◌/◌, Bool, false, not, ◌||◌, Option, none, some, List, [], ◌∷◌, ◌++◌, ltb,
  ◌==◌, nat_eq, if◌then◌else◌, length, filter, elem, take, drop,
}
use rom_analyzer.Common.Text.{text_eq}
use rom_analyzer.Callgraph.{HeadlessRun, func_size, Ratio}

-- A gram is a list of bytes, as a text is a list of code points.
pub grams : List ℕ → ℕ → ℕ → List (List ℕ)
grams rom addr zero = []
grams rom addr (suc count) =
    let rest = grams rom (addr + 4) count in
    let gram = take 4 (drop addr rom) in if elem gram rest then rest else gram ∷ rest

pub jaccard_of : List (List ℕ) → List (List ℕ) → Ratio
jaccard_of ref_grams new_grams =
    let union = length (ref_grams ++ filter (λ g. not (elem g ref_grams)) new_grams) in
    if union == 0
    then record { over = 1; under = 1 }
    else record { over = length (filter (λ g. elem g new_grams) ref_grams); under = union }

pub bytecode_jaccard : List ℕ → ℕ → ℕ → List ℕ → ℕ → ℕ → Ratio
bytecode_jaccard ref_bytes ref_addr ref_sz new_bytes new_addr new_sz =
    if ref_sz == 0 || new_sz == 0
    then record { over = 1; under = 2 }
    else if ltb (length ref_bytes) (ref_addr + ref_sz) || ltb (length new_bytes) (new_addr + new_sz)
    then record { over = 1; under = 2 }
    else jaccard_of (grams ref_bytes ref_addr (ref_sz / 4)) (grams new_bytes new_addr (new_sz / 4))

-- `similarity < _MIN_CALLEE_SIMILARITY`, which is 0.15
pub below_minimum : Ratio → Bool
below_minimum r = ltb (20 * r.over) (3 * r.under)

-- Whether a pair of callees is rejected; there is no check unless both images are given.
unfoldable pub is_unrelated : HeadlessRun → HeadlessRun → Option (List ℕ × List ℕ) → ℕ → ℕ → Bool
is_unrelated ref_run new_run none ref_callee new_callee = false
is_unrelated ref_run new_run (some (ref_bytes, new_bytes)) ref_callee new_callee = below_minimum (
    bytecode_jaccard ref_bytes ref_callee (func_size ref_callee ref_run) new_bytes new_callee
      (func_size new_callee new_run))
