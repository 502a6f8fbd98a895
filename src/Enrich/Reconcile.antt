-- ===== src/Enrich/Reconcile.antt =====
-- write_reconcile, read_reconcile and apply_verdicts of rom_analyzer/enrich.py. The tables, lists and
-- strings of the TOML file are modelled by the same values as those of a JSON file.
use rom_analyzer.Common.{Option, none, some, List, [], ◌∷◌, map, ◌==◌, nat_eq, if◌then◌else◌}
use rom_analyzer.Common.Text.{Text, codes, text_eq}
use rom_analyzer.Common.Dict.{Dict}
use rom_analyzer.Common.PyInt.Print.{hex_literal}
use rom_analyzer.Common.Json.{
  Json, string, dict_value, list_value, text_list, as_text, as_texts, as_dict, as_list_of, required,
  defaulted, ◌>>=◌,
}
use rom_analyzer.Types.Names.{category_name, as_category}
use rom_analyzer.Annotations.Load.{as_address}
use rom_analyzer.Enrich.{Direction, forward, back, ReconcileItem}
use rom_analyzer.Enrich.Classify.{or_empty, keep, proposed_verdict}

unfoldable pub direction_name : Direction → Text
direction_name forward = codes "forward"
direction_name back = codes "back"

unfoldable pub as_direction : Json → Option Direction
as_direction (string s) =
    if s == codes "forward" then some forward else if s == codes "back" then some back else none
as_direction _ = none

-- `if i.corroborated_by:`
abbrev pub corroborated : List Text → Dict Text Json
corroborated [] = []
corroborated (s ∷ ss) = (codes "corroborated_by", text_list (s ∷ ss)) ∷ []

unfoldable pub row_of : ReconcileItem → Json
unfolding direction_name category_name
row_of i = dict_value fields
  where
    fields : Dict Text Json
    fields =
        (codes "target", string i.target)
        ∷ (codes "direction", string (direction_name i.direction))
        ∷ (codes "address", string (hex_literal i.address))
        ∷ (codes "category", string (category_name i.category))
        ∷ (codes "current", string (or_empty i.current))
        ∷ (codes "proposed", string i.proposed)
        ∷ (codes "source", string i.source)
        ∷ (codes "evidence", string i.evidence)
        ∷ (codes "verdict", string i.verdict)
        ∷ corroborated i.corroborated_by

unfoldable pub write_reconcile : List ReconcileItem → Json
unfolding row_of
write_reconcile items = dict_value ((codes "item", list_value (map row_of items)) ∷ [])

-- `x or None`
abbrev pub or_none : Text → Option Text
or_none [] = none
or_none (c ∷ t) = some (c ∷ t)

unfoldable pub read_row : Json → Option ReconcileItem
unfolding required defaulted as_direction
read_row v = do
  r ← as_dict v
  target ← required as_text r (codes "target")
  direction ← required as_direction r (codes "direction")
  address ← required as_address r (codes "address")
  category ← required as_category r (codes "category")
  current ← required as_text r (codes "current")
  proposed ← required as_text r (codes "proposed")
  source ← required as_text r (codes "source")
  evidence ← defaulted as_text [] r (codes "evidence")
  verdict ← required as_text r (codes "verdict")
  corroborated_by ← defaulted as_texts [] r (codes "corroborated_by")
  some (record {
    target = target;
    direction = direction;
    address = address;
    category = category;
    current = or_none current;
    proposed = proposed;
    source = source;
    evidence = evidence;
    verdict = verdict;
    corroborated_by = corroborated_by;
  })

unfoldable pub read_reconcile : Json → Option (List ReconcileItem)
unfolding defaulted read_row
read_reconcile v = do data' ← as_dict v; defaulted (as_list_of read_row) [] data' (codes "item")

unfoldable pub resolved_name : ReconcileItem → Option Text
resolved_name item =
    if item.verdict == proposed_verdict
    then some item.proposed
    else if item.verdict == keep
    then none
    else if item.verdict == codes "drop"
    then none
    else some item.verdict
