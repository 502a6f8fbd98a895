-- ===== src/Callgraph/Anchors.antt =====
-- bootstrap_anchors of rom_analyzer/callgraph.py: pairs of functions that the vector tables and the
-- tables found by their contents give.
pub mod Pairs
use rom_analyzer.Common.{
  any, ℕ, zero, suc, ◌+◌, ◌-◌, ◌*◌, ◌/◌, ◌%◌, Bool, true, false, not, ◌&&◌, ◌||◌, Option, none,
  some, List, [], ◌∷◌, ◌++◌, map, ltb, leb, ◌==◌, nat_eq, if◌then◌else◌, length, filter, elem,
}
use rom_analyzer.Common.Text.{Text, codes, text_eq}
use rom_analyzer.Common.Dict.{Dict, get, get_or}
use rom_analyzer.DataRefs.{DataRef}
use rom_analyzer.Common.Sort.{by_key, greatest}
use rom_analyzer.Types.{Score, ReferenceSymbol, MatchedFunction}
use rom_analyzer.Callgraph.{HeadlessRun, func_size, name_for}
use rom_analyzer.Callgraph.Decode.{
  decode_bra_target, decode_icu_entry, find_bra_tail_call, find_mut_table_by_triplet, find_once,
}
use rom_analyzer.Callgraph.Identity.{full_score, identity_name}

-- 0.9 as a binary64 pattern.
abbrev pub main_score : Score
main_score = 0x3feccccccccccccd

-- f"{i:02d}", for a number below 100
pub two_digits : ℕ → Text
two_digits i = (b'0' + i / 10) ∷ (b'0' + i % 10) ∷ []

-- `a or b` where `a` is None or a text
pub or_else : Option Text → Text → Text
or_else none default = default
or_else (some []) default = default
or_else (some (c ∷ t)) default = c ∷ t

-- `sym.name if sym else _name_for(...) or default`
pub anchor_name : Option ReferenceSymbol → Option Text → Text → Text
anchor_name none fallback default = or_else fallback default
anchor_name (some s) fallback default = s.name

abbrev pub anchor : Text → ℕ → ℕ → Score → Text → MatchedFunction
anchor name ref_address new_address score source = record {
  ref_name = name;
  ref_address = ref_address;
  new_address = new_address;
  similarity = score;
  source = source;
  reference = [];
}

-- The loop of a vector table over the slots that are left: `decode` gives the two handlers of a slot,
-- or none where the slot is passed over.
module _ (decode : ℕ → Option (ℕ × ℕ)) (name : ℕ → ℕ → Text) (source : Text) where
  pub table_loop : ℕ → ℕ → List ℕ → List ℕ → List MatchedFunction
  table_loop zero i seen_ref seen_new = []
  table_loop (suc slots) i seen_ref seen_new = elim (decode i) [
    | none ↦ table_loop slots (suc i) seen_ref seen_new
    | some (r, n) ↦ elim (elem r seen_ref || elem n seen_new) [
      | true ↦ table_loop slots (suc i) seen_ref seen_new
      | false ↦
          anchor (name i r) r n full_score source
          ∷ table_loop slots (suc i) (r ∷ seen_ref) (n ∷ seen_new)
    ]
  ]

-- Two results that are both there.
pub both : Option ℕ → Option ℕ → Option (ℕ × ℕ)
both none n = none
both (some r) none = none
both (some r) (some n) = some (r, n)

-- Entries below 0x200 point into the table itself.
pub above_table : Option (ℕ × ℕ) → Option (ℕ × ℕ)
above_table none = none
above_table (some (r, n)) = if ltb r 0x200 || ltb n 0x200 then none else some (r, n)

module _ (ref_bytes new_bytes : List ℕ) (ref_run new_run : HeadlessRun)
    (ref_symbols_by_addr : Dict ℕ ReferenceSymbol) where
  pub vector_slot : ℕ → Option (ℕ × ℕ)
  vector_slot i =
      above_table (both (decode_bra_target ref_bytes (i * 4)) (decode_bra_target new_bytes (i * 4)))

  pub vector_name : ℕ → ℕ → Text
  vector_name i r =
      anchor_name (get ref_symbols_by_addr r) (name_for r ref_run)
        (codes "isr_vector_" ++ two_digits i)

  pub vector_anchors : List MatchedFunction
  vector_anchors = table_loop vector_slot vector_name (codes "vector_table") 64 0 [] []

  -- _best_main_candidate: a tail call out of the reset handler, else its largest callee outside.
  pub best_main_candidate : List ℕ → List ℕ → HeadlessRun → List ℕ → ℕ → Option ℕ
  best_main_candidate seen_ref seen_new run rom reset =
      elim (find_bra_tail_call rom reset (func_size reset run) (seen_ref ++ seen_new)) [
        | some target ↦ some target
        | none ↦ greatest (by_key (λ a. func_size a run)) (
            filter (λ a. not (elem a seen_ref) && not (elem a seen_new))
              (get_or run.callees reset []))
      ]

  pub main_anchor : List ℕ → List ℕ → Option (ℕ × ℕ) → List MatchedFunction
  main_anchor seen_ref seen_new none = []
  main_anchor seen_ref seen_new (some (r, n)) =
      if elem r seen_ref || elem n seen_new
      then []
      else anchor (codes "main") r n main_score (codes "vector_table") ∷ []

  pub with_main : List MatchedFunction → List MatchedFunction
  with_main [] = []
  with_main (reset ∷ rest) =
      let seen_ref = map (λ m. m.ref_address) (reset ∷ rest) in
      let seen_new = map (λ m. m.new_address) (reset ∷ rest) in
      (reset ∷ rest)
      ++ main_anchor seen_ref seen_new (
          both (best_main_candidate seen_ref seen_new ref_run ref_bytes reset.ref_address)
            (best_main_candidate seen_ref seen_new new_run new_bytes reset.new_address))

  pub bootstrap_vector_table : List MatchedFunction
  bootstrap_vector_table = with_main vector_anchors

  pub icu_slot : ℕ → Option (ℕ × ℕ)
  icu_slot i =
      both (decode_icu_entry ref_bytes (0x94 + i * 4)) (decode_icu_entry new_bytes (0x94 + i * 4))

  pub icu_name : ℕ → ℕ → Text
  icu_name i r =
      anchor_name (get ref_symbols_by_addr r) (name_for r ref_run)
        (codes "icu_isr_" ++ two_digits i)

  pub bootstrap_icu_vector_table : List MatchedFunction
  bootstrap_icu_vector_table = table_loop icu_slot icu_name (codes "icu_vector_table") 32 0 [] []

-- The first function whose references include the table.
pub first_reader : ℕ → Dict ℕ (List DataRef) → Option ℕ
first_reader table [] = none
first_reader table ((entry, refs) ∷ rest) =
    if any (λ r. r.referenced_address == table) refs then some entry else first_reader table rest

pub find_handler_for_table : HeadlessRun → ℕ → Option ℕ
find_handler_for_table run table_addr = first_reader table_addr run.data_refs

pub handler_pair : HeadlessRun → HeadlessRun → Option (ℕ × ℕ) → Option (ℕ × ℕ)
handler_pair ref_run new_run none = none
handler_pair ref_run new_run (some (ref_table, new_table)) =
    both (find_handler_for_table ref_run ref_table) (find_handler_for_table new_run new_table)

-- The rows of the trouble code table that all variants share.
abbrev pub dtc_invariant : List ℕ
dtc_invariant =
    0x17 ∷ 0x15 ∷ 0x17 ∷ 0x50 ∷ 0x17 ∷ 0x91 ∷ 0x07 ∷ 0x05 ∷ 0x17 ∷ 0x51 ∷ 0x07 ∷ 0x40 ∷ 0x07 ∷ 0x65
    ∷ 0x07 ∷ 0x60 ∷ 0x07 ∷ 0x55 ∷ 0x07 ∷ 0x50 ∷ 0x07 ∷ 0x15 ∷ 0x07 ∷ 0x20 ∷ 0x07 ∷ 0x10 ∷ 0x17
    ∷ 0x95 ∷ 0x07 ∷ 0x25 ∷ 0x16 ∷ 0x00 ∷ 0x03 ∷ 0x40 ∷ 0x03 ∷ 0x35 ∷ 0x01 ∷ 0x15 ∷ 0x00 ∷ 0x00
    ∷ 0x02 ∷ 0x25 ∷ 0x01 ∷ 0x10 ∷ 0x01 ∷ 0x00 ∷ 0x00 ∷ 0x00 ∷ 0x00 ∷ 0x00 ∷ 0x00 ∷ 0x00 ∷ 0x05
    ∷ 0x13 ∷ 0x06 ∷ 0x22 ∷ 0x00 ∷ 0x00 ∷ 0x03 ∷ 0x25 ∷ 0x01 ∷ 0x05 ∷ 0x05 ∷ 0x00 ∷ 0x00 ∷ 0x00
    ∷ 0x13 ∷ 0x00 ∷ 0x11 ∷ 0x02 ∷ 0x11 ∷ 0x01 ∷ 0x06 ∷ 0x60 ∷ 0x00 ∷ 0x00 ∷ 0x00 ∷ 0x00 ∷ 0x00
    ∷ 0x00 ∷ 0x00 ∷ 0x00 ∷ 0x12 ∷ 0x27 ∷ 0x01 ∷ 0x90 ∷ 0x00 ∷ 0x00 ∷ 0x15 ∷ 0x15 ∷ 0x00 ∷ 0x00
    ∷ 0x00 ∷ 0x00 ∷ 0x00 ∷ 0x00 ∷ []

abbrev pub fault_bitmask : List ℕ
fault_bitmask =
    0x80 ∷ 0x00 ∷ 0x40 ∷ 0x00 ∷ 0x20 ∷ 0x00 ∷ 0x10 ∷ 0x00 ∷ 0x08 ∷ 0x00 ∷ 0x04 ∷ 0x00 ∷ 0x02 ∷ 0x00
    ∷ 0x01 ∷ 0x00 ∷ 0x00 ∷ 0x80 ∷ 0x00 ∷ 0x40 ∷ 0x00 ∷ 0x20 ∷ 0x00 ∷ 0x10 ∷ 0x00 ∷ 0x08 ∷ 0x00
    ∷ 0x04 ∷ 0x00 ∷ 0x02 ∷ 0x00 ∷ 0x01 ∷ []

-- The table stands 0x80 bytes in front of its invariant rows.
pub dtc_base : Option ℕ → Option ℕ
dtc_base none = none
dtc_base (some p) = if leb 0x80 p then some (p - 0x80) else none

pub find_dtc_table : List ℕ → Option ℕ
find_dtc_table rom = dtc_base (find_once rom dtc_invariant)

pub find_fault_bitmask_table : List ℕ → Option ℕ
find_fault_bitmask_table rom = find_once rom fault_bitmask

pub mut_tables : Option ReferenceSymbol → Option ℕ → Option (ℕ × ℕ)
mut_tables none found = none
mut_tables (some ref_sym) found = both (some ref_sym.address) found

module _ (ref_bytes new_bytes : List ℕ) (ref_run new_run : HeadlessRun)
    (ref_symbols_by_name : Dict Text ReferenceSymbol)
    (ref_symbols_by_addr : Dict ℕ ReferenceSymbol) where
  pub mut_anchor : Option (ℕ × ℕ) → List MatchedFunction
  mut_anchor none = []
  mut_anchor (some (r, n)) =
      anchor (or_else (name_for r ref_run) (codes "get_mut_pointer")) r n full_score
        (codes "mut_table")
      ∷ []

  pub bootstrap_mut_table : List MatchedFunction
  bootstrap_mut_table = mut_anchor (
      handler_pair ref_run new_run (
        mut_tables (get ref_symbols_by_name (codes "flash_mut_variables_table"))
          (find_mut_table_by_triplet new_bytes)))

  -- `table_pairs`, by index.
  pub table_pair : ℕ → Option (ℕ × ℕ)
  table_pair zero = both (find_dtc_table ref_bytes) (find_dtc_table new_bytes)
  table_pair (suc _) =
      both (find_fault_bitmask_table ref_bytes) (find_fault_bitmask_table new_bytes)

  pub dtc_slot : ℕ → Option (ℕ × ℕ)
  dtc_slot i = handler_pair ref_run new_run (table_pair i)

  pub dtc_name : ℕ → ℕ → Text
  dtc_name i r =
      or_else (some (identity_name (get ref_symbols_by_addr r) (name_for r ref_run)))
        (codes "dtc_handler")

  pub bootstrap_dtc_bitmask : List MatchedFunction
  bootstrap_dtc_bitmask = table_loop dtc_slot dtc_name (codes "dtc_table") 2 0 [] []

  pub bootstrap_anchors : List MatchedFunction
  bootstrap_anchors =
      bootstrap_vector_table ref_bytes new_bytes ref_run new_run ref_symbols_by_addr
      ++ bootstrap_icu_vector_table ref_bytes new_bytes ref_run new_run ref_symbols_by_addr
      ++ bootstrap_mut_table
      ++ bootstrap_dtc_bitmask
