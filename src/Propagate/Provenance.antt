-- ===== src/Propagate/Provenance.antt =====
-- apply_reference_provenance of rom_analyzer/propagate.py, and what it means for the choice among
-- the proposals of several references in rom_analyzer/merge.py.
use rom_analyzer.Common.{
  ◌≤◌, ◌≡◌, ◌≢◌, refl, sym, ap, ◌∙◌, ◌⊎◌, All, true, inl, inr, Bool, false, List, [], ◌∷◌, ◌++◌,
  map, arith, In, In-append, In-map, In-filter, ◌==◌, nat_eq,
}
use rom_analyzer.Common.Text.{Text}
use rom_analyzer.Common.Sort.{greatest_lem}
use rom_analyzer.Types.{SymbolCategory, function, data_symbol, ram_global, low, PropagatedSymbol}
use rom_analyzer.Merge.{Priorities, arbitrate_symbols, confidence_rank, symbol_leb}
use rom_analyzer.Merge.Rank.{symbol_leb-IsOrder, symbol_leb-confidence}
use rom_analyzer.Merge.Symbols.{proposed, arbitrate_symbols_iff}
use rom_analyzer.Propagate.{with_provenance, is_risky, apply_reference_provenance}

-- A symbol that is marked as of another family is a data or RAM label of low confidence.
foreign_low :
    (reference : Text) (family_match : Bool) (s : PropagatedSymbol)
    → (with_provenance reference family_match s).family_match ≡ false
    → (with_provenance reference family_match s).confidence ≡ low
unfolding with_provenance
foreign_low reference family_match s h = ground arith

-- Every proposal comes from some reference, with its provenance.
abbrev pub Proposals : Type 0
Proposals = List (List PropagatedSymbol × Text × Bool)

abbrev pub all_proposals : Proposals → List PropagatedSymbol
all_proposals [] = []
all_proposals ((symbols, reference, family_match) ∷ rest) =
    apply_reference_provenance symbols reference family_match ++ all_proposals rest

proposals-low :
    (proposals : Proposals) (s : PropagatedSymbol)
    → In s (all_proposals proposals)
    → s.family_match ≡ false
    → s.confidence ≡ low
unfolding apply_reference_provenance
proposals-low [] s m h = absurd m
proposals-low ((symbols, reference, family_match) ∷ rest) s m h =
    elim ((In-append s (map (with_provenance reference family_match) symbols)
        (all_proposals rest)).0
      m) [
        | inl here ↦
            let (t, i, e) = In-map (with_provenance reference family_match) s symbols here in
            ground (arith, foreign_low reference family_match t)
        | inr there ↦ proposals-low rest s there h
      ]

-- Every reference of this id is of another family than the target.
abbrev pub IsForeign : Proposals → Text → Type 0
IsForeign proposals id =
    All (λ (p : List PropagatedSymbol × Text × Bool). (p.1 ≢ id) ⊎ (p.2 ≡ false)) proposals

with_provenance-flagged :
    (reference : Text) (family_match : Bool) (t s : PropagatedSymbol)
    → with_provenance reference family_match t ≡ s
    → (reference ≢ s.reference) ⊎ (family_match ≡ false)
    → s.category ≢ function
    → s.family_match ≡ false
unfolding with_provenance
with_provenance-flagged reference true t s e (inl ne) c =
    absurd (ne (ap (λ (u : PropagatedSymbol). u.reference) e))
with_provenance-flagged reference true t s e (inr f) c = cc
with_provenance-flagged reference false t s e f c = by_category t.category refl
  where
    by_category : (k : SymbolCategory) → t.category ≡ k → s.family_match ≡ false
    by_category function q =
        let same : t.category ≡ s.category = unfold is_risky in ground arith in
        absurd (c (sym same ∙ q))
    by_category data_symbol q = unfold is_risky in ground arith
    by_category ram_global q = unfold is_risky in ground arith

foreign_flagged :
    (proposals : Proposals) (s : PropagatedSymbol)
    → In s (all_proposals proposals)
    → IsForeign proposals s.reference
    → s.category ≢ function
    → s.family_match ≡ false
unfolding apply_reference_provenance
foreign_flagged [] s m f c = absurd m
foreign_flagged ((symbols, reference, family_match) ∷ rest) s m f c =
    elim ((In-append s (map (with_provenance reference family_match) symbols)
        (all_proposals rest)).0
      m) [
        | inl here ↦
            let (t, i, e) = In-map (with_provenance reference family_match) s symbols here in
            with_provenance-flagged reference family_match t s e f.0 c
        | inr there ↦ foreign_flagged rest s there f.1 c
      ]

-- When the proposals of all references have their provenance, a data or RAM label from a reference of
-- another ECU family that wins an address is marked as of another family and has low confidence, and
-- no proposal for the address has more than low confidence. Labels of functions are not restricted.
pub arbitrate_symbols-foreign :
    (priority : Priorities) (proposals : Proposals) (s t : PropagatedSymbol)
    → In s (arbitrate_symbols priority (all_proposals proposals)).0
    → IsForeign proposals s.reference
    → s.category ≢ function
    → In t (all_proposals proposals)
    → t.new_address ≡ s.new_address
    → (s.family_match ≡ false)
      × (s.confidence ≡ low)
      × (confidence_rank t.confidence ≤ confidence_rank low)
arbitrate_symbols-foreign priority proposals s t m f c i e =
    let symbols = all_proposals proposals in
    let wins = (arbitrate_symbols_iff priority symbols s).0 m in
    let (j, best) =
      greatest_lem (symbol_leb priority) (symbol_leb-IsOrder priority)
        (proposed priority symbols s.new_address) s wins in
    let member = ((In-filter (λ p. p.new_address == s.new_address) s symbols).0 j).0 in
    let here = (In-filter (λ p. p.new_address == s.new_address) t symbols).1 (i, ground arith) in
    let flagged = foreign_flagged proposals s member f c in
    let is_low = proposals-low proposals s member flagged in
    (flagged, is_low, ground (arith, is_low, symbol_leb-confidence priority t s (best t here)))
