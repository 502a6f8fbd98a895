-- ===== src/MutTable.antt =====
-- rom_analyzer/mut_table.py: the table of MUT variables in the new image, from what get_mut_pointer reads.
pub mod Reads
mod Examples
use rom_analyzer.Common.{
  ℕ, zero, suc, ◌+◌, ◌*◌, Bool, true, false, not, ◌&&◌, Option, none, some, List, [], ◌∷◌, ltb, leb,
  ◌==◌, nat_eq, if◌then◌else◌, length, filter,
}
use rom_analyzer.Common.Text.{Text, codes, text_eq}
use rom_analyzer.Common.Dict.{get_or}
use rom_analyzer.Types.{MatchedFunction, PropagatedSymbol, data_symbol, high}
use rom_analyzer.DataRefs.{DataRefType, DataRef, read, write, scalar}
use rom_analyzer.Callgraph.{HeadlessRun}
use rom_analyzer.Callgraph.Decode.{byte, word, find_mut_table_by_triplet}
use rom_analyzer.Callgraph.Identity.{full_score}

pub record MutTableResult : Type 0 where
  pub table_address : ℕ
  pub table_size : ℕ
  pub size_address : ℕ
  pub triplet_mismatch : Bool

pub first_named : Text → List MatchedFunction → Option MatchedFunction
first_named name [] = none
first_named name (m ∷ matches) = if m.ref_name == name then some m else first_named name matches

pub is_read : DataRefType → Bool
is_read read = true
is_read write = false
is_read scalar = false

-- The big-endian half word.
pub half_word : List ℕ → ℕ → ℕ
half_word rom p = byte rom p * 0x100 + byte rom (p + 1)

-- One round of the loop: what is in front of the two lists of candidates that the rest gives.
pub add_candidate :
    List ℕ → DataRef → List (DataRef × ℕ) × List DataRef → List (DataRef × ℕ) × List DataRef
add_candidate rom r (sizes, tables) =
    let addr = r.referenced_address in
    if ltb addr 0x20000 && leb (addr + 2) (length rom)
    then (if leb 50 (half_word rom addr) && leb (half_word rom addr) 2000
        then ((r, half_word rom addr) ∷ sizes, tables)
        else (sizes, tables))
    else if leb 0x20000 addr && leb (addr + 4) (length rom)
    then (if leb 0x800000 (word rom addr) && ltb (word rom addr) 0xc00000
        then (sizes, r ∷ tables)
        else (sizes, tables))
    else (sizes, tables)

pub candidates : List ℕ → List DataRef → List (DataRef × ℕ) × List DataRef
candidates rom [] = ([], [])
candidates rom (r ∷ refs) = add_candidate rom r (candidates rom refs)

pub differs : Option ℕ → ℕ → Bool
differs none addr = false
differs (some triplet_addr) addr = not (triplet_addr == addr)

pub result_of : List ℕ → List (DataRef × ℕ) × List DataRef → Option MutTableResult
result_of rom ((size_ref, table_size) ∷ [], table_ref ∷ []) = some (record {
  table_address = table_ref.referenced_address;
  table_size = table_size;
  size_address = size_ref.referenced_address;
  triplet_mismatch = differs (find_mut_table_by_triplet rom) table_ref.referenced_address;
})
result_of rom _ = none

pub read_refs : HeadlessRun → MatchedFunction → List DataRef
read_refs new_run gmp =
    filter (λ r. is_read r.ref_type) (get_or new_run.data_refs gmp.new_address [])

pub find_mut_table_in_run : List MatchedFunction → HeadlessRun → List ℕ → Option MutTableResult
find_mut_table_in_run matches new_run rom = elim (first_named (codes "get_mut_pointer") matches) [
  | none ↦ none
  | some gmp ↦ result_of rom (candidates rom (read_refs new_run gmp))
]

pub mut_table_to_propagated_symbol : MutTableResult → ℕ → PropagatedSymbol
mut_table_to_propagated_symbol result ref_table_addr = record {
  name = codes "flash_mut_variables_table";
  ref_address = ref_table_addr;
  new_address = result.table_address;
  category = data_symbol;
  confidence = high;
  source = codes "mut_table_data_refs";
  score = full_score;
  reference = [];
  family_match = true;
}
