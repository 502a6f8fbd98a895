-- ===== src/Cleanup/Names.antt =====
-- dedup_symbol_names of rom_analyzer/cleanup.py leaves no name twice in the store.
use rom_analyzer.Common.{
  ℕ, suc, ◌+◌, ◌<◌, ◌≡◌, refl, sym, ap, subst, ◌∙◌, List, [], ◌∷◌, ◌++◌, map, arith, nat_eq, length,
  In, Distinct, length-append, map-In, In-map,
}
use rom_analyzer.Common.Text.{Text, text_eq}
use rom_analyzer.Common.Sort.{sort, by_key, In-sort}
use rom_analyzer.Annotations.{AnnotationSymbol, AnnotationFunction, AnnotationStore}
use rom_analyzer.Cleanup.{
  Label, Obj, labels, objects, dedup, name_at, rename_functions, rename_symbols, sorted_objects,
  dedup_symbol_names,
}
use rom_analyzer.Cleanup.Loop.{
  dedup_lem, dedup-place, objects-place, names_from, names_from-Distinct,
}

-- All names of a store.
abbrev pub names : AnnotationStore → List Text
names store = map (λ f. f.name) store.functions ++ map (λ s. s.name) store.symbols

names_from-append :
    (objs : List Obj) (i : ℕ) (xs ys : List Text)
    → names_from objs i (xs ++ ys) ≡ names_from objs i xs ++ names_from objs (i + length xs) ys
names_from-append objs i [] ys = ap (λ j. names_from objs j ys) (omega arith)
names_from-append objs i (x ∷ xs) ys =
    ap (λ t. name_at objs i x ∷ t)
      (names_from-append objs (suc i) xs ys
        ∙ ap (λ j. names_from objs (suc i) xs ++ names_from objs j ys) (omega arith))

rename_functions-names :
    (objs : List Obj) (i : ℕ) (fs : List AnnotationFunction)
    → map (λ f. f.name) (rename_functions objs i fs) ≡ names_from objs i (map (λ f. f.name) fs)
unfolding rename_functions
rename_functions-names objs i [] = refl
rename_functions-names objs i (f ∷ fs) =
    ap (λ t. name_at objs i f.name ∷ t) (rename_functions-names objs (suc i) fs)

rename_symbols-names :
    (objs : List Obj) (i : ℕ) (ss : List AnnotationSymbol)
    → map (λ s. s.name) (rename_symbols objs i ss) ≡ names_from objs i (map (λ s. s.name) ss)
unfolding rename_symbols
rename_symbols-names objs i [] = refl
rename_symbols-names objs i (s ∷ ss) =
    ap (λ t. name_at objs i s.name ∷ t) (rename_symbols-names objs (suc i) ss)

length-map : {A B : Type 0} (f : A → B) (xs : List A) → length (map f xs) ≡ length xs
length-map f [] = refl
length-map f (x ∷ xs) = omega (arith, length-map f xs)

module _ (store : AnnotationStore) where
  renamed_objects : List Obj
  renamed_objects = (dedup [] (sorted_objects store)).0

  names-dedup : names (dedup_symbol_names store).0 ≡ names_from renamed_objects 0 (names store)
  unfolding dedup_symbol_names renamed_objects
  names-dedup =
      let objs = (dedup [] (sorted_objects store)).0 in
      let fs = map (λ (f : AnnotationFunction). f.name) store.functions in
      let ss = map (λ (s : AnnotationSymbol). s.name) store.symbols in
      ap (λ t. t ++ map (λ s. s.name) (rename_symbols objs (length store.functions) store.symbols))
        (rename_functions-names objs 0 store.functions)
      ∙ ap (λ t. names_from objs 0 fs ++ t)
          (rename_symbols-names objs (length store.functions) store.symbols
            ∙ ap (λ j. names_from objs j ss)
                (omega (arith, length-map (λ (f : AnnotationFunction). f.name) store.functions)))
      ∙ sym (names_from-append objs 0 fs ss)

  length-labels : length (labels store) ≡ length (names store)
  length-labels =
      let fl : List Label = map (λ f. (f.name, f.entry_point)) store.functions in
      let sl : List Label = map (λ s. (s.name, s.address)) store.symbols in
      let fs : List Text = map (λ f. f.name) store.functions in
      let ss : List Text = map (λ s. s.name) store.symbols in
      omega (
        arith,
        length-append fl sl,
        length-append fs ss,
        length-map {B = Label} (λ f. (f.name, f.entry_point)) store.functions,
        length-map {B = Label} (λ s. (s.name, s.address)) store.symbols,
        length-map {B = Text} (λ f. f.name) store.functions,
        length-map {B = Text} (λ s. s.name) store.symbols,
      )

  renamed-place : (p : ℕ) → p < length (names store) → In p (map (λ o. o.place) renamed_objects)
  unfolding renamed_objects sorted_objects
  renamed-place p h =
      let objs = objects 0 (labels store) in
      let (o, m, e) =
        In-map (λ (o : Obj). o.place) p objs
          (objects-place 0 p (labels store) (omega arith) (omega (arith, length-labels))) in
      subst (In p) (sym (dedup-place [] (sort (by_key (λ o. o.address)) objs))) (
        subst (λ t. In t (map (λ (o : Obj). o.place) (sort (by_key (λ o. o.address)) objs))) e
          (map-In (λ (o : Obj). o.place) o (sort (by_key (λ o. o.address)) objs)
            ((In-sort (by_key (λ (o : Obj). o.address)) o objs).1 m)))

  -- After dedup_symbol_names no two functions or symbols of the store have the same name.
  pub dedup_symbol_names-Distinct : Distinct (names (dedup_symbol_names store).0)
  dedup_symbol_names-Distinct = subst Distinct (sym names-dedup) (
      names_from-Distinct renamed_objects 0 (names store)
        (unfold renamed_objects in (dedup_lem [] (sorted_objects store)).1)
        (λ p low high. renamed-place p (omega arith)))
