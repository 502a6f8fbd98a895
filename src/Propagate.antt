-- ===== src/Propagate.antt =====
-- rom_analyzer/propagate.py: labels of matched functions, and the gating of what a reference of
-- another ECU family proposes.
pub mod Labels
pub mod Provenance
mod Examples
use rom_analyzer.Common.{
  ℕ, Bool, true, false, not, ◌&&◌, ◌||◌, Option, none, some, List, [], ◌∷◌, ◌++◌, map, leb, filter,
  if◌then◌else◌, nat_eq,
}
use rom_analyzer.Common.Text.{Text}
use rom_analyzer.Common.Dict.{Dict, get, dict_of}
use rom_analyzer.Types.{
  SymbolCategory, function, data_symbol, ram_global, ConfidenceTier, high, medium, low, Score,
  ReferenceSymbol, MatchedFunction, PropagatedSymbol,
}

-- 0.95 and 0.70 as binary64 patterns.
abbrev pub high_threshold : Score
high_threshold = 0x3fee666666666666

abbrev pub medium_threshold : Score
medium_threshold = 0x3fe6666666666666

unfoldable pub tier_for_score : Score → ConfidenceTier
tier_for_score score =
    if leb high_threshold score then high else if leb medium_threshold score then medium else low

pub is_function : SymbolCategory → Bool
is_function function = true
is_function data_symbol = false
is_function ram_global = false

unfoldable pub is_low : ConfidenceTier → Bool
is_low low = true
is_low _ = false

-- `by_addr` of propagate_function_labels.
pub functions_by_address : List ReferenceSymbol → Dict ℕ ReferenceSymbol
functions_by_address symbols =
    dict_of (map (λ s. (s.address, s)) (filter (λ s. is_function s.category) symbols))

-- `s or t`
pub or_text : Text → Text → Text
or_text [] t = t
or_text (c ∷ s) t = c ∷ s

pub name_or_empty : Option ReferenceSymbol → Text
name_or_empty none = []
name_or_empty (some s) = s.name

-- The label of a match; the empty text where the source has None or an empty name.
pub label_name : Dict ℕ ReferenceSymbol → MatchedFunction → Text
label_name by_addr m = or_text m.ref_name (name_or_empty (get by_addr m.ref_address))

abbrev pub function_label : MatchedFunction → Text → PropagatedSymbol
function_label m name = record {
  name = name;
  ref_address = m.ref_address;
  new_address = m.new_address;
  category = function;
  confidence = tier_for_score m.similarity;
  source = m.source;
  score = m.similarity;
  reference = [];
  family_match = true;
}

-- What one match with a name appends to `out`.
pub emit_named : Bool → MatchedFunction → Text → List PropagatedSymbol
emit_named force m [] = []
emit_named force m (c ∷ cs) =
    if is_low (tier_for_score m.similarity) && not force then [] else function_label m (c ∷ cs) ∷ []

pub emit_label : Dict ℕ ReferenceSymbol → Bool → MatchedFunction → List PropagatedSymbol
emit_label by_addr force m = emit_named force m (label_name by_addr m)

pub emit_labels : Dict ℕ ReferenceSymbol → Bool → List MatchedFunction → List PropagatedSymbol
emit_labels by_addr force [] = []
emit_labels by_addr force (m ∷ matches) =
    emit_label by_addr force m ++ emit_labels by_addr force matches

pub propagate_function_labels :
    List ReferenceSymbol → List MatchedFunction → Bool → List PropagatedSymbol
propagate_function_labels ref_symbols matches force =
    emit_labels (functions_by_address ref_symbols) force matches

pub is_risky : SymbolCategory → Bool
is_risky function = false
is_risky data_symbol = true
is_risky ram_global = true

pub with_provenance : Text → Bool → PropagatedSymbol → PropagatedSymbol
with_provenance reference family_match s =
    if not family_match && is_risky s.category
    then record s { reference = reference; confidence = low; family_match = false }
    else record s { reference = reference; family_match = true }

pub apply_reference_provenance : List PropagatedSymbol → Text → Bool → List PropagatedSymbol
apply_reference_provenance symbols reference family_match =
    map (with_provenance reference family_match) symbols
