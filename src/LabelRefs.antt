-- ===== src/LabelRefs.antt =====
-- propagate_data_labels and propagate_ram_labels of rom_analyzer/data_refs.py: labels of data that
-- matched functions refer to at the same offset. The two share their loops; a kind says where they differ.
pub mod Agreement
mod Examples
use rom_analyzer.Common.{
  ℕ, zero, suc, ◌+◌, ◌-◌, Bool, true, false, not, ◌&&◌, ◌||◌, Option, none, some, List, [], ◌∷◌,
  ◌++◌, map, ltb, leb, ◌==◌, nat_eq, if◌then◌else◌, any,
}
use rom_analyzer.Common.Text.{Text, codes, text_eq}
use rom_analyzer.Common.Dict.{Dict, get, get_or, dict_of}
use rom_analyzer.Common.Dict.Group.{group_by}
use rom_analyzer.Types.{
  SymbolCategory, data_symbol, ram_global, ConfidenceTier, low, ReferenceSymbol, MatchedFunction,
  PropagatedSymbol,
}
use rom_analyzer.DataRefs.{DataRefType, DataRef, read, write, scalar}
use rom_analyzer.Propagate.{tier_for_score, is_low}
use rom_analyzer.Callgraph.Identity.{full_score}

pub data Kind : Type 0 where
  data_labels ram_labels : Kind

pub in_range : Kind → ℕ → Bool
in_range data_labels a = ltb a 0x80000
in_range ram_labels a = leb 0x804000 a && ltb a 0x820000

pub is_scalar : DataRefType → Bool
is_scalar read = false
is_scalar write = false
is_scalar scalar = true

-- A read of the reference is not paired with an immediate.
pub is_asymmetric : Kind → DataRef → DataRef → Bool
is_asymmetric data_labels ref_r new_r = is_scalar new_r.ref_type && not (is_scalar ref_r.ref_type)
is_asymmetric ram_labels ref_r new_r = false

pub ref_source : Kind → DataRef → Text
ref_source data_labels new_r =
    if is_scalar new_r.ref_type then codes "data_refs_scalar" else codes "data_refs"
ref_source ram_labels new_r = codes "ram_refs"

pub record Proposal : Type 0 where
  pub name : Text
  pub ref_addr : ℕ
  pub new_addr : ℕ
  pub tier : ConfidenceTier
  pub source : Text

pub by_offset : List DataRef → Dict ℕ DataRef
by_offset refs = dict_of (map (λ r. (r.instruction_offset, r)) refs)

-- A key below zero is not there.
pub below : Dict ℕ DataRef → ℕ → ℕ → Option DataRef
below refs offset delta = if leb delta offset then get refs (offset - delta) else none

-- The loop over `delta`, with the number of values that are left.
pub nearby : Dict ℕ DataRef → ℕ → ℕ → ℕ → Option DataRef
nearby refs offset zero delta = none
nearby refs offset (suc count) delta = elim (get refs (offset + delta)) [
  | some r ↦ some r
  | none ↦ elim (below refs offset delta) [
    | some r ↦ some r
    | none ↦ nearby refs offset count (delta + 1)
  ]
]

pub nearest : Dict ℕ DataRef → ℕ → ℕ → Option DataRef
nearest refs offset window = elim (get refs offset) [
  | some r ↦ some r
  | none ↦ nearby refs offset window 1
]

module _ (kind : Kind) (by_addr : Dict ℕ ReferenceSymbol) (window : ℕ) where
  pub propose_pair : ConfidenceTier → DataRef → ReferenceSymbol → Option DataRef → List Proposal
  propose_pair tier ref_r s none = []
  propose_pair tier ref_r s (some new_r) =
      if is_asymmetric kind ref_r new_r
      then []
      else record {
        name = s.name;
        ref_addr = ref_r.referenced_address;
        new_addr = new_r.referenced_address;
        tier = tier;
        source = ref_source kind new_r;
      }
        ∷ []

  -- What one reference of the reference function proposes.
  pub propose_symbol :
      ConfidenceTier → Dict ℕ DataRef → DataRef → Option ReferenceSymbol → List Proposal
  propose_symbol tier refs ref_r none = []
  propose_symbol tier refs ref_r (some s) =
      propose_pair tier ref_r s (nearest refs ref_r.instruction_offset window)

  pub propose_ref : ConfidenceTier → Dict ℕ DataRef → DataRef → List Proposal
  propose_ref tier refs ref_r = elim ref_r.label [
    | none ↦ []
    | some _ ↦
        if in_range kind ref_r.referenced_address
        then propose_symbol tier refs ref_r (get by_addr ref_r.referenced_address)
        else []
  ]

  pub propose_refs : ConfidenceTier → Dict ℕ DataRef → List DataRef → List Proposal
  propose_refs tier refs [] = []
  propose_refs tier refs (r ∷ rest) = propose_ref tier refs r ++ propose_refs tier refs rest

  -- One match; where a function has no references nothing is proposed.
  pub propose_match :
      Dict ℕ (List DataRef) → Dict ℕ (List DataRef) → MatchedFunction → List Proposal
  propose_match ref_refs new_refs m =
      if is_low (tier_for_score m.similarity)
      then []
      else propose_refs (tier_for_score m.similarity) (by_offset (get_or new_refs m.new_address []))
          (get_or ref_refs m.ref_address [])

  pub proposals :
      Dict ℕ (List DataRef) → Dict ℕ (List DataRef) → List MatchedFunction → List Proposal
  proposals ref_refs new_refs [] = []
  proposals ref_refs new_refs (m ∷ matches) =
      propose_match ref_refs new_refs m ++ proposals ref_refs new_refs matches

  -- `len(new_addrs) > 1`
  pub final_tier : Proposal → List Proposal → ConfidenceTier
  final_tier p rest = if any (λ q. not (q.new_addr == p.new_addr)) rest then low else p.tier

  pub final_source : List Proposal → Text
  final_source group = elim kind [
    | data_labels ↦
        if any (λ q. q.source == codes "data_refs") group
        then codes "data_refs"
        else codes "data_refs_scalar"
    | ram_labels ↦ codes "ram_refs"
  ]

  pub category_of : SymbolCategory
  category_of = elim kind [ data_labels ↦ data_symbol | ram_labels ↦ ram_global ]

  -- The address of the symbol; every proposal has one.
  pub symbol_address : ℕ → ℕ
  symbol_address a = elim (get by_addr a) [ none ↦ 0 | some s ↦ s.address ]

  pub label_of : Dict Text ℕ → Text → Proposal → List Proposal → PropagatedSymbol
  label_of ref_addrs name p rest = record {
    name = name;
    ref_address = symbol_address (get_or ref_addrs name 0);
    new_address = p.new_addr;
    category = category_of;
    confidence = final_tier p rest;
    source = final_source (p ∷ rest);
    score = full_score;
    reference = [];
    family_match = true;
  }

  pub labels_of : Dict Text ℕ → List (Text × List Proposal) → List PropagatedSymbol
  labels_of ref_addrs [] = []
  labels_of ref_addrs ((name, []) ∷ groups) = labels_of ref_addrs groups
  labels_of ref_addrs ((name, p ∷ rest) ∷ groups) =
      label_of ref_addrs name p rest ∷ labels_of ref_addrs groups

  pub propagate_labels :
      Dict ℕ (List DataRef) → Dict ℕ (List DataRef) → List MatchedFunction → List PropagatedSymbol
  propagate_labels ref_refs new_refs matches =
      let all = proposals ref_refs new_refs matches in
      labels_of (dict_of (map (λ p. (p.name, p.ref_addr)) all)) (group_by (λ p. p.name) all)
