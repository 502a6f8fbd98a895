-- ===== src/LabelRefs/Examples.antt =====
-- The theorem on rom_analyzer/data_refs.py at a matched function that reads one table.
use rom_analyzer.Common.{ℕ, ◌≡◌, ◌≢◌, refl, inl, true, some, List, [], ◌∷◌, In}
use rom_analyzer.Common.Text.{codes}
use rom_analyzer.Common.Dict.{Dict, get, get_or, put, dict_of}
use rom_analyzer.Common.Dict.Group.{group_by}
use rom_analyzer.Types.{ReferenceSymbol, MatchedFunction, PropagatedSymbol, data_symbol, high, low}
use rom_analyzer.DataRefs.{DataRef, read}
use rom_analyzer.Propagate.{tier_for_score, is_low}
use rom_analyzer.LabelRefs.{
  data_labels, in_range, is_scalar, is_asymmetric, ref_source, Proposal, by_offset, nearest,
  propose_pair, propose_symbol, propose_ref, propose_refs, propose_match, proposals, final_tier,
  final_source, category_of, symbol_address, label_of, labels_of, propagate_labels,
}
use rom_analyzer.LabelRefs.Agreement.{propagate_labels-agree}

abbrev table_read : ℕ → DataRef
table_read a = record {
  instruction_offset = 4;
  referenced_address = a;
  label = some (codes "table");
  ref_type = read;
}

abbrev names : Dict ℕ ReferenceSymbol
names = (0x4000, record { name = codes "table"; address = 0x4000; category = data_symbol }) ∷ []

abbrev reader : MatchedFunction
reader = record {
  ref_name = codes "read_table";
  ref_address = 0x100;
  new_address = 0x200;
  similarity = 0x3ff0000000000000;
  source = codes "vt_diff";
  reference = [];
}

abbrev ref_refs : Dict ℕ (List DataRef)
ref_refs = (0x100, table_read 0x4000 ∷ []) ∷ []

abbrev new_refs : Dict ℕ (List DataRef)
new_refs = (0x200, table_read 0x5000 ∷ []) ∷ []

abbrev label : PropagatedSymbol
label = record {
  name = codes "table";
  ref_address = 0x4000;
  new_address = 0x5000;
  category = data_symbol;
  confidence = high;
  source = codes "data_refs";
  score = 0x3ff0000000000000;
  reference = [];
  family_match = true;
}

abbrev proposal : Proposal
proposal = record {
  name = codes "table";
  ref_addr = 0x4000;
  new_addr = 0x5000;
  tier = high;
  source = codes "data_refs";
}

high-low : high ≢ low
high-low h = cc

is_proposed : In proposal (proposals data_labels names 8 ref_refs new_refs (reader ∷ []))
unfolding proposals propose_match propose_refs propose_ref propose_symbol propose_pair nearest
    by_offset in_range is_asymmetric is_scalar ref_source get get_or put dict_of tier_for_score
    is_low
is_proposed = inl refl

is_label : In label (propagate_labels data_labels names 8 ref_refs new_refs (reader ∷ []))
unfolding propagate_labels labels_of label_of final_tier final_source category_of symbol_address
    group_by proposals propose_match propose_refs propose_ref propose_symbol propose_pair nearest
    by_offset in_range is_asymmetric is_scalar ref_source get get_or put dict_of tier_for_score
    is_low
is_label = inl refl

propagate_labels-agree_example : proposal.new_addr ≡ label.new_address
propagate_labels-agree_example =
    propagate_labels-agree data_labels names 8 ref_refs new_refs (reader ∷ []) label proposal
      is_label high-low is_proposed refl
