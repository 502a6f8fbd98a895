-- ===== src/Enrich/Classify.antt =====
-- classify, auto_resolve and build_reconcile_items of rom_analyzer/enrich.py.
use rom_analyzer.Common.{
  ℕ, Bool, true, false, not, ◌&&◌, ◌||◌, Option, none, some, List, [], ◌∷◌, filter, ltb, leb, ◌==◌,
  nat_eq, if◌then◌else◌, elem,
}
use rom_analyzer.Common.Text.{Text, codes, text_eq, starts_with, text_leb}
use rom_analyzer.Common.Dict.{Dict, get_or}
use rom_analyzer.Common.Sort.{sort, max_by}
use rom_analyzer.Types.{SymbolCategory, function}
use rom_analyzer.Enrich.{LabelCandidate, ReconcileItem, Classified}
use rom_analyzer.Enrich.Names.{is_auto_name, is_generic, is_placeholder}

unfoldable pub rank_leb : Text × ℕ → Text × ℕ → Bool
rank_leb p q = leb p.1 q.1

-- `max(priority, key=priority.get)`, the first of the highest priority.
unfoldable pub authority_agrees : List Text → Dict Text ℕ → Bool
unfolding rank_leb
authority_agrees sources [] = false
authority_agrees [] (p ∷ priority) = false
authority_agrees (s ∷ sources) (p ∷ priority) = elem (max_by rank_leb p priority).0 (s ∷ sources)

-- `priority is not None and _authority_agrees(...)`
unfoldable pub is_endorsed : Option (Dict Text ℕ) → LabelCandidate → Bool
unfolding authority_agrees
is_endorsed none c = false
is_endorsed (some priority) c = authority_agrees c.corroborating_sources priority

abbrev pub is_function_category : SymbolCategory → Bool
is_function_category function = true
is_function_category _ = false

-- `c.current == c.proposed`
abbrev pub is_current : Option Text → Text → Bool
is_current none proposed = false
is_current (some name) proposed = name == proposed

abbrev pub is_gap : Option Text → Bool
is_gap none = true
is_gap (some name) = false

pub data Class : Type 0 where
  automatic reviewed dropped : Class

unfoldable pub class_of : List ℕ → Option (Dict Text ℕ) → LabelCandidate → Class
unfolding is_endorsed
class_of erased priority c =
    if is_auto_name c.proposed
    then dropped
    else if is_current c.current c.proposed
    then dropped
    else if not (is_function_category c.category)
    then reviewed
    else if elem c.address erased
    then dropped
    else if not (is_gap c.current) && not (is_generic c.proposed) && is_endorsed priority c
    then automatic
    else if not (is_gap c.current)
    then reviewed
    else if is_generic c.proposed
    then reviewed
    else automatic

unfoldable pub add_class : Class → LabelCandidate → Classified → Classified
add_class automatic c rest = record { auto = c ∷ rest.auto; review = rest.review }
add_class reviewed c rest = record { auto = rest.auto; review = c ∷ rest.review }
add_class dropped c rest = rest

unfoldable pub classify : List LabelCandidate → List ℕ → Option (Dict Text ℕ) → Classified
unfolding class_of add_class
classify [] erased priority = record { auto = []; review = [] }
classify (c ∷ candidates) erased priority =
    add_class (class_of erased priority c) c (classify candidates erased priority)

-- `x or ""`
abbrev pub or_empty : Option Text → Text
or_empty none = []
or_empty (some t) = t

abbrev pub keep : Text
keep = codes "keep"

abbrev pub proposed_verdict : Text
proposed_verdict = codes "proposed"

unfoldable pub auto_resolve : LabelCandidate → Dict Text ℕ → Text × Text
unfolding get_or
auto_resolve c priority =
    let cur = or_empty c.current in
    let cur_ph = is_placeholder cur || cur == [] in
    let prop_ph = is_placeholder c.proposed in
    if starts_with cur (codes "sio0") || starts_with cur (codes "sio1")
    then (cur, keep)
    else if cur_ph && not prop_ph
    then (c.proposed, proposed_verdict)
    else if prop_ph && not cur_ph
    then (cur, keep)
    else if ltb (get_or priority c.target 0) (get_or priority c.source 0)
    then (c.proposed, proposed_verdict)
    else (cur, keep)

unfoldable pub item_of : LabelCandidate → Text × Text → ReconcileItem
item_of c (proposed, verdict) = record {
  target = c.target;
  direction = c.direction;
  address = c.address;
  category = c.category;
  current = c.current;
  proposed = proposed;
  source = c.source;
  evidence = c.evidence;
  verdict = verdict;
  corroborated_by = filter (λ s. not (s == c.source)) c.corroborating_sources;
}

unfoldable pub items_of : List LabelCandidate → Dict Text ℕ → List ReconcileItem
unfolding auto_resolve item_of
items_of [] priority = []
items_of (c ∷ review) priority =
    let rest = items_of review priority in
    let resolved = auto_resolve c priority in
    if resolved.0 == or_empty c.current then rest else item_of c resolved ∷ rest

-- `(i.target, i.address)` is not greater.
unfoldable pub item_leb : ReconcileItem → ReconcileItem → Bool
item_leb i j = if i.target == j.target then leb i.address j.address else text_leb i.target j.target

unfoldable pub build_reconcile_items : List LabelCandidate → Dict Text ℕ → List ReconcileItem
unfolding items_of item_leb
build_reconcile_items review priority = sort item_leb (items_of review priority)
