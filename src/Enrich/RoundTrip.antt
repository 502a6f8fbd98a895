-- ===== src/Enrich/RoundTrip.antt =====
-- What write_reconcile of rom_analyzer/enrich.py writes, read_reconcile reads.
use rom_analyzer.Common.{◌≡◌, refl, ap, ◌∙◌, some, List, [], ◌∷◌, map}
use rom_analyzer.Common.Text.{Text}
use rom_analyzer.Common.Dict.{get}
use rom_analyzer.Common.Json.{
  string, required, defaulted, as_texts-text_list, each, values_of-items,
}
use rom_analyzer.Types.Names.{as_category-name}
use rom_analyzer.Annotations.RoundTrip.{as_address-hex}
use rom_analyzer.Enrich.{Direction, forward, back, ReconcileItem}
use rom_analyzer.Enrich.Classify.{or_empty}
use rom_analyzer.Enrich.Reconcile.{
  direction_name, as_direction, row_of, write_reconcile, or_none, read_row, read_reconcile,
}

as_direction-name : (d : Direction) → as_direction (string (direction_name d)) ≡ some d
unfolding as_direction direction_name
as_direction-name forward = refl
as_direction-name back = refl

-- An empty name becomes no name.
abbrev pub normal : ReconcileItem → ReconcileItem
normal i = record i { current = or_none (or_empty i.current) }

row_lem :
    (i : ReconcileItem) (corroborated_by : List Text)
    → let j = record i { corroborated_by = corroborated_by } in
      read_row (row_of j) ≡ some (normal j)
unfolding read_row row_of required defaulted get
row_lem i [] = simp (as_direction-name, as_address-hex, as_category-name)
row_lem i (s ∷ ss) =
    simp (as_direction-name, as_address-hex, as_category-name, as_texts-text_list (s ∷ ss))

rows_lem : (items : List ReconcileItem) → each read_row (map row_of items) ≡ some (map normal items)
rows_lem [] = refl
rows_lem (i ∷ items) = rw (row_lem i i.corroborated_by, rows_lem items)

-- What is read is what was written, except that a name of the target that is empty becomes none.
pub read_reconcile-write :
    (items : List ReconcileItem) → read_reconcile (write_reconcile items) ≡ some (map normal items)
unfolding read_reconcile write_reconcile defaulted get
read_reconcile-write items =
    ap (each read_row) (values_of-items (map row_of items)) ∙ rows_lem items
