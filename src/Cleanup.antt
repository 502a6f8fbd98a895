-- ===== src/Cleanup.antt =====
-- rom_analyzer/cleanup.py: the passes that clean an annotation store before names are exported. A pass
-- that changes the store gives the new store next to its result.
pub mod Duplicates
pub mod Erased
pub mod Loop
pub mod Names
mod Examples
use mathlib.Core.List.{foldl}
use rom_analyzer.Common.{
  ℕ, zero, suc, ◌+◌, ◌-◌, max, Bool, true, false, not, ◌&&◌, ◌||◌, List, [], ◌∷◌, ◌++◌, map, leb,
  ltb, ◌==◌, nat_eq, if◌then◌else◌, length, take, drop, filter, any, all, elem,
}
use rom_analyzer.Common.Text.{Text, codes, text_eq, hex}
use rom_analyzer.Common.Dict.{Dict, get_or, put}
use rom_analyzer.Common.Sort.{sort, by_key}
use rom_analyzer.Annotations.{AnnotationSymbol, AnnotationFunction, AnnotationStore}

pub is_sloppy : Text → Bool
is_sloppy source = elem source (codes "colt_s" ∷ codes "z27ag_s" ∷ [])

-- A name with an address.
abbrev pub Label : Type 0
Label = Text × ℕ

-- The labels of the precise sources, in the order in which `precise` takes them up.
pub precise_labels : AnnotationStore → List Label
precise_labels store =
    map (λ f. (f.name, f.entry_point)) (filter (λ f. not (is_sloppy f.source)) store.functions)
    ++ map (λ s. (s.name, s.address)) (filter (λ s. not (is_sloppy s.source)) store.symbols)

-- `precise[name].append(address)`
pub add_address : Dict Text (List ℕ) → Label → Dict Text (List ℕ)
add_address d label = put d label.0 (get_or d label.0 [] ++ label.1 ∷ [])

pub precise_addresses : AnnotationStore → Dict Text (List ℕ)
precise_addresses store = foldl add_address [] (precise_labels store)

-- `abs(a - b) <= tol`
pub is_near : ℕ → ℕ → ℕ → Bool
is_near tol a b = leb a (tol + b) && leb b (tol + a)

pub is_artifact : Dict Text (List ℕ) → ℕ → Text → ℕ → Text → Bool
is_artifact precise tol name addr source =
    is_sloppy source && any (λ pa. is_near tol addr pa) (get_or precise name [])

pub size : AnnotationStore → ℕ
size store = length store.functions + length store.symbols

pub without_artifacts : AnnotationStore → ℕ → AnnotationStore
without_artifacts store tol =
    let precise = precise_addresses store in
    record store {
      functions =
          filter (λ f. not (is_artifact precise tol f.name f.entry_point f.source)) store.functions;
      symbols = filter (λ s. not (is_artifact precise tol s.name s.address s.source)) store.symbols;
    }

pub drop_imprecise_s_duplicates : AnnotationStore → ℕ → AnnotationStore × ℕ
drop_imprecise_s_duplicates store tol =
    let cleaned = without_artifacts store tol in (cleaned, size store - size cleaned)

pub is_erased : List ℕ → ℕ → ℕ → Bool
is_erased rom_bytes window addr =
    leb (addr + window) (length rom_bytes)
    && all (λ b. b == 0xff) (take window (drop addr rom_bytes))

-- The two lists of the loop: what is kept, and the names of what is removed.
pub split_erased : List ℕ → ℕ → List AnnotationFunction → List AnnotationFunction × List Text
split_erased rom_bytes window [] = ([], [])
split_erased rom_bytes window (f ∷ functions) =
    let (kept, removed) = split_erased rom_bytes window functions in
    if is_erased rom_bytes window f.entry_point
    then (kept, f.name ∷ removed)
    else (f ∷ kept, removed)

pub drop_erased_flash_entries : AnnotationStore → List ℕ → ℕ → AnnotationStore × List Text
drop_erased_flash_entries store rom_bytes window =
    let (kept, removed) = split_erased rom_bytes window store.functions in
    (record store { functions = kept }, removed)

-- A function or a symbol of the store, by its place in `store.functions` followed by `store.symbols`;
-- no object stands in the store twice.
pub record Obj : Type 0 where
  pub place : ℕ
  pub address : ℕ
  pub name : Text

abbrev pub labels : AnnotationStore → List Label
labels store =
    map (λ f. (f.name, f.entry_point)) store.functions
    ++ map (λ s. (s.name, s.address)) store.symbols

pub objects : ℕ → List Label → List Obj
objects i [] = []
objects i (label ∷ rest) =
    record { place = i; address = label.1; name = label.0 } ∷ objects (suc i) rest

pub longest : List Text → ℕ
longest [] = 0
longest (name ∷ names) = max (length name) (longest names)

-- `while new_name in used: new_name += "_x"`; every step makes the name longer, so a fuel above the
-- length of the longest name in `used` is enough.
pub fresh : ℕ → List Text → Text → Text
fresh zero used name = name
fresh (suc fuel) used name =
    let longer = fresh fuel used (name ++ codes "_x") in if elem name used then longer else name

pub new_name : List Text → Obj → Text
new_name used obj = fresh (suc (longest used)) used (obj.name ++ codes "_" ++ hex obj.address)

-- The loop, with the names in `used`: the objects with their names after it, and the counter.
pub dedup : List Text → List Obj → List Obj × ℕ
dedup used [] = ([], 0)
dedup used (obj ∷ objs) =
    let kept = dedup (obj.name ∷ used) objs in
    let name = new_name used obj in
    let changed = dedup (name ∷ used) objs in
    if elem obj.name used
    then (record obj { name = name } ∷ changed.0, suc changed.1)
    else (obj ∷ kept.0, kept.1)

-- The name of the object at a place.
pub name_at : List Obj → ℕ → Text → Text
name_at [] i default = default
name_at (obj ∷ objs) i default = if obj.place == i then obj.name else name_at objs i default

pub rename_functions : List Obj → ℕ → List AnnotationFunction → List AnnotationFunction
rename_functions objs i [] = []
rename_functions objs i (f ∷ functions) =
    record f { name = name_at objs i f.name } ∷ rename_functions objs (suc i) functions

pub rename_symbols : List Obj → ℕ → List AnnotationSymbol → List AnnotationSymbol
rename_symbols objs i [] = []
rename_symbols objs i (s ∷ symbols) =
    record s { name = name_at objs i s.name } ∷ rename_symbols objs (suc i) symbols

pub sorted_objects : AnnotationStore → List Obj
sorted_objects store = sort (by_key (λ o. o.address)) (objects 0 (labels store))

pub dedup_symbol_names : AnnotationStore → AnnotationStore × ℕ
dedup_symbol_names store =
    let (objs, renamed) = dedup [] (sorted_objects store) in
    (
      record store {
        functions = rename_functions objs 0 store.functions;
        symbols = rename_symbols objs (length store.functions) store.symbols;
      },
      renamed,
    )
