-- ===== src/Callgraph/Identity.antt =====
-- bytecode_identity_match of rom_analyzer/callgraph.py: functions whose bytes occur once in the target.
pub mod Unique
pub mod Matches
pub mod Complete
use rom_analyzer.Common.{
  ℕ, zero, suc, ◌+◌, ◌-◌, ◌%◌, Bool, true, false, ◌&&◌, Option, none, some, List, [], ◌∷◌, map, ltb,
  leb, ◌==◌, nat_eq, if◌then◌else◌, length, take, drop, elem,
}
use rom_analyzer.Common.Text.{Text, codes}
use rom_analyzer.Common.Dict.{Dict, get}
use rom_analyzer.Types.{Score, ReferenceSymbol, MatchedFunction}
use rom_analyzer.Callgraph.{HeadlessRun, sorted_entries, name_for}
use rom_analyzer.Callgraph.Decode.{find_from}

-- 1.0 as a binary64 pattern.
abbrev pub full_score : Score
full_score = 0x3ff0000000000000

-- The loop of _find_unique_aligned, from `p` on, with what was found in front; the alignment is
-- positive. `p` grows with every round, so a fuel above the length of the haystack is enough.
module _ (haystack needle : List ℕ) (alignment : ℕ) where
  pub unique_from : ℕ → ℕ → Option ℕ → Option ℕ
  unique_from zero p found = found
  unique_from (suc fuel) p found = elim (leb (p + length needle) (length haystack)) [
    | false ↦ found
    | true ↦ elim (find_from haystack needle p) [
      | none ↦ found
      | some idx ↦ elim (idx % alignment == 0) [
        | false ↦ unique_from fuel (idx + 1) found
        | true ↦ elim found [ none ↦ unique_from fuel (idx + 1) (some idx) | some _ ↦ none ]
      ]
    ]
  ]

  pub find_unique_aligned : Option ℕ
  find_unique_aligned = unique_from (suc (length haystack)) 0 none

-- `rom[addr:addr + size]`
pub slice : List ℕ → ℕ → ℕ → List ℕ
slice rom addr size = take size (drop addr rom)

-- `(sym.name if sym else None) or _name_for(...) or ""`
unfoldable pub text_or : Option Text → Text
text_or none = []
text_or (some t) = t

pub identity_name : Option ReferenceSymbol → Option Text → Text
identity_name none fallback = text_or fallback
identity_name (some s) fallback = elim s.name [ [] ↦ text_or fallback | c ∷ t ↦ c ∷ t ]

-- The distance to the entry behind, 0 at the end.
pub gap_to : ℕ → List ℕ → ℕ
gap_to addr [] = 0
gap_to addr (next ∷ rest) = next - addr

module _ (ref_bytes new_bytes : List ℕ) (ref_run : HeadlessRun)
    (ref_symbols_by_addr : Dict ℕ ReferenceSymbol) (min_size max_size : ℕ) where
  pub has_size : ℕ → ℕ → Bool
  has_size addr size =
      leb min_size size && leb size max_size && leb (addr + size) (length ref_bytes)

  -- What the loop finds for one entry; `none` where it goes on to the next.
  pub locate : List ℕ → List ℕ → ℕ → ℕ → Option ℕ
  locate already_ref already_new addr size =
      if elem addr already_ref
      then none
      else if has_size addr size
      then elim (find_unique_aligned new_bytes (slice ref_bytes addr size) 4) [
        | none ↦ none
        | some new_addr ↦ if elem new_addr already_new then none else some new_addr
      ]
      else none

  pub identity : ℕ → ℕ → MatchedFunction
  identity addr new_addr = record {
    ref_name = identity_name (get ref_symbols_by_addr addr) (name_for addr ref_run);
    ref_address = addr;
    new_address = new_addr;
    similarity = full_score;
    source = codes "bytecode_identity";
    reference = [];
  }

  pub identity_loop : List ℕ → List ℕ → List ℕ → List MatchedFunction
  identity_loop already_ref already_new [] = []
  identity_loop already_ref already_new (addr ∷ rest) =
      elim (locate already_ref already_new addr (gap_to addr rest)) [
        | none ↦ identity_loop already_ref already_new rest
        | some new_addr ↦
            identity addr new_addr
            ∷ identity_loop (addr ∷ already_ref) (new_addr ∷ already_new) rest
      ]

  pub bytecode_identity_match : List MatchedFunction → List MatchedFunction
  bytecode_identity_match existing_matches =
      identity_loop (map (λ m. m.ref_address) existing_matches)
        (map (λ m. m.new_address) existing_matches) (sorted_entries ref_run)
