-- ===== src/Callgraph.antt =====
-- rom_analyzer/callgraph.py, what its phases share: a dump of a Ghidra program, the sizes and names of
-- functions, and the alignment of two lists of callees. An address that the dump holds as hexadecimal
-- text is the number it stands for.
pub mod Align
pub mod Decode
pub mod Identity
pub mod Similarity
pub mod Gap
pub mod Anchors
pub mod Bfs
mod Examples
use mathlib.Core.List.{foldl, reverse}
use rom_analyzer.Common.{
  ℕ, zero, suc, ◌+◌, ◌-◌, ◌*◌, min, max, Bool, true, false, ◌&&◌, ◌||◌, Option, none, some, List,
  [], ◌∷◌, ◌++◌, map, leb, ◌==◌, nat_eq, if◌then◌else◌, length, get_elem?, any,
}
use rom_analyzer.Common.Text.{Text, codes, text_eq}
use rom_analyzer.Common.Dict.{Dict}
use rom_analyzer.DataRefs.{DataRef}
use rom_analyzer.Common.Sort.{sort, by_key}

-- A symbol of the dump.
pub record RunSymbol : Type 0 where
  pub name : Text
  pub address : ℕ
  pub source : Text
  pub type : Text

-- rom_analyzer/ghidra/session.py, the fields that the phases read.
pub record HeadlessRun : Type 0 where
  pub functions : List ℕ
  pub symbols : List RunSymbol
  pub callees : Dict ℕ (List ℕ)
  pub data_refs : Dict ℕ (List DataRef)

abbrev pub sorted_entries : HeadlessRun → List ℕ
sorted_entries run = sort (by_key (λ e. e)) run.functions

-- The distance from the first place of `entry` to the next entry, 0 where there is none.
pub size_in : ℕ → List ℕ → ℕ
size_in entry [] = 0
size_in entry (e ∷ []) = 0
size_in entry (e ∷ next ∷ rest) = if e == entry then next - entry else size_in entry (next ∷ rest)

pub func_size : ℕ → HeadlessRun → ℕ
func_size entry run = size_in entry (sorted_entries run)

-- The least ratio of sizes, 1 - tolerance, as a fraction: 3/5 for the tolerance 0.4, 1/2 for 0.5.
-- The comparison of the floats is that of the fractions for sizes below 2 ** 50.
pub record Ratio : Type 0 where
  pub over : ℕ
  pub under : ℕ

abbrev pub tolerance_40 : Ratio
tolerance_40 = record { over = 3; under = 5 }

abbrev pub tolerance_50 : Ratio
tolerance_50 = record { over = 1; under = 2 }

pub ratio_ok : Ratio → ℕ → ℕ → Bool
ratio_ok ratio ref_sz new_sz =
    if ref_sz == 0 || new_sz == 0
    then true
    else leb (max ref_sz new_sz * ratio.over) (min ref_sz new_sz * ratio.under)

pub size_ratio_ok : HeadlessRun → HeadlessRun → Ratio → ℕ → ℕ → Bool
size_ratio_ok ref_run new_run ratio ref_addr new_addr =
    ratio_ok ratio (func_size ref_addr ref_run) (func_size new_addr new_run)

pub is_named : ℕ → RunSymbol → Bool
is_named addr s =
    (s.source == codes "USER_DEFINED" || s.source == codes "ANALYSIS")
    && s.type == codes "Function"
    && s.address == addr

pub first_name : ℕ → List RunSymbol → Option Text
first_name addr [] = none
first_name addr (s ∷ symbols) = if is_named addr s then some s.name else first_name addr symbols

pub name_for : ℕ → HeadlessRun → Option Text
name_for addr run = first_name addr run.symbols

-- _lcs_align, for a test of compatibility. The table `dp` is a function of its two indices.
module _ (ok : ℕ → ℕ → Bool) (ref_callees new_callees : List ℕ) where
  -- The pair that stands at two positions, if it is compatible.
  pub pair_at : ℕ → ℕ → Option (ℕ × ℕ)
  pair_at i j = elim (get_elem? ref_callees i) [
    | none ↦ none
    | some r ↦ elim (get_elem? new_callees j) [
      | none ↦ none
      | some n ↦ if ok r n then some (r, n) else none
    ]
  ]

  -- The row `i + 1` of the table, from the row in front of it.
  pub dp_row : ℕ → (ℕ → ℕ) → ℕ → ℕ
  dp_row i above zero = 0
  dp_row i above (suc j) = elim (pair_at i j) [
    | some p ↦ above j + 1
    | none ↦ max (above (suc j)) (dp_row i above j)
  ]

  pub dp : ℕ → ℕ → ℕ
  dp zero j = 0
  dp (suc i) j = dp_row i (dp i) j

  -- The second loop; the fuel is the sum of the two indices.
  pub trace : ℕ → ℕ → ℕ → List (ℕ × ℕ)
  trace zero i j = []
  trace (suc fuel) zero j = []
  trace (suc fuel) (suc i) zero = []
  trace (suc fuel) (suc i) (suc j) = elim (pair_at i j) [
    | some p ↦ p ∷ trace fuel i j
    | none ↦ elim (leb (dp (suc i) j) (dp i (suc j))) [
      | true ↦ trace fuel i (suc j)
      | false ↦ trace fuel (suc i) j
    ]
  ]

  pub align : List (ℕ × ℕ)
  align = let n = length ref_callees in let m = length new_callees in reverse (trace (n + m) n m)

pub lcs_align : List ℕ → List ℕ → HeadlessRun → HeadlessRun → Ratio → List (ℕ × ℕ)
lcs_align ref_callees new_callees ref_run new_run ratio =
    align (size_ratio_ok ref_run new_run ratio) ref_callees new_callees
