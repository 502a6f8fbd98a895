-- ===== src/Enrich/Apply/Verdicts.antt =====
-- apply_verdicts of rom_analyzer/enrich.py refines a change of the last name at every address.
use rom_analyzer.Common.{
  ℕ, ◌≡◌, refl, sym, ap, ◌∙◌, inl, inr, Bool, true, false, Option, none, some, List, [], ◌∷◌, map,
  ◌==◌, nat_eq, if◌then◌else◌, Bool-cases, Option-cases,
}
use mathlib.Core.List.{append-nil}
use rom_analyzer.Common.Text.{Text, text_eq}
use rom_analyzer.Annotations.{AnnotationSymbol, AnnotationFunction, AnnotationStore}
use rom_analyzer.Enrich.{ReconcileItem}
use rom_analyzer.Enrich.Classify.{is_function_category}
use rom_analyzer.Enrich.Reconcile.{resolved_name}
use rom_analyzer.Enrich.Apply.{
  function_entries, symbol_entries, index_of, Applied, apply_name, apply_verdict, apply_loop,
  apply_verdicts,
}
use rom_analyzer.Enrich.Apply.Last.{last_named}
use rom_analyzer.Enrich.Apply.Refines.{IsIndexed, named_after, apply_item_lem}

abbrev pub entry_points : AnnotationStore → List ℕ
entry_points store = map (λ (f : AnnotationFunction). f.entry_point) store.functions

abbrev pub symbol_addresses : AnnotationStore → List ℕ
symbol_addresses store = map (λ (s : AnnotationSymbol). s.address) store.symbols

abbrev pub function_name : AnnotationStore → ℕ → Option Text
function_name store = last_named function_entries store.functions

abbrev pub symbol_name : AnnotationStore → ℕ → Option Text
symbol_name store = last_named symbol_entries store.symbols

-- What one item does to the name at an address: an item of the target that yields a name gives it to its
-- own address, if there was an entry at first or the item is a gap.
unfoldable pub verdict_name : Text → Bool → List ℕ → ReconcileItem → ℕ → Option Text → Option Text
unfolding named_after
verdict_name target of_functions orig it a v =
    if it.target == target
    then (elim (resolved_name it) [
      | none ↦ v
      | some name ↦
          if is_function_category it.category
          then (if of_functions then named_after function_entries orig it name a v else v)
          else (if of_functions then v else named_after symbol_entries orig it name a v)
    ])
    else v

unfoldable pub verdict_names :
    Text → Bool → List ℕ → List ReconcileItem → ℕ → Option Text → Option Text
unfolding verdict_name
verdict_names target of_functions orig [] a v = v
verdict_names target of_functions orig (it ∷ items) a v =
    verdict_names target of_functions orig items a (verdict_name target of_functions orig it a v)

module _ (target : Text) (fns syms : List ℕ) where
  -- The store is indexed, and its other parts are those at the start.
  record IsGood (s : Applied) : Type 0 where
    pub functions : IsIndexed function_entries fns s.store.functions
    pub symbols : IsIndexed symbol_entries syms s.store.symbols

  record IsVerdict (it : ReconcileItem) (s t : Applied) : Type 0 where
    pub good : IsGood t
    pub function_step :
        (a : ℕ)
        → function_name t.store a ≡ verdict_name target true fns it a (function_name s.store a)
    pub symbol_step :
        (a : ℕ)
        → symbol_name t.store a ≡ verdict_name target false syms it a (symbol_name s.store a)
    pub structs : t.store.struct_definitions ≡ s.store.struct_definitions
    pub comments : t.store.comments ≡ s.store.comments

  other_target :
      (it : ReconcileItem) (s : Applied)
      → IsGood s
      → (it.target == target) ≡ false
      → IsVerdict it s (apply_verdict (index_of fns) (index_of syms) target it s)
  unfolding apply_verdict verdict_name
  other_target it s v h = rw h (record {
    good = v;
    function_step = λ a. rw h;
    symbol_step = λ a. rw h;
    structs = refl;
    comments = refl;
  })

  nameless :
      (it : ReconcileItem) (s : Applied)
      → IsGood s
      → resolved_name it ≡ none
      → (it.target == target) ≡ true
      → IsVerdict it s (apply_verdict (index_of fns) (index_of syms) target it s)
  unfolding apply_verdict verdict_name
  nameless it s v h k =
      rw (k, h)
        (record {
          good = v;
          function_step = λ a. rw (k, h);
          symbol_step = λ a. rw (k, h);
          structs = refl;
          comments = refl;
        })

  of_function :
      (it : ReconcileItem) (s : Applied) (name : Text)
      → IsGood s
      → resolved_name it ≡ some name
      → (it.target == target) ≡ true
      → is_function_category it.category ≡ true
      → IsVerdict it s (apply_verdict (index_of fns) (index_of syms) target it s)
  unfolding apply_verdict apply_name verdict_name
  of_function it s name v h k c =
      let step = apply_item_lem function_entries fns it name s.store.functions v.functions in
      rw (k, h, c)
        (record {
          good = record { functions = step.0; symbols = v.symbols };
          function_step = λ a. rw (k, h, c) (step.1 a);
          symbol_step = λ a. rw (k, h, c);
          structs = refl;
          comments = refl;
        })

  of_symbol :
      (it : ReconcileItem) (s : Applied) (name : Text)
      → IsGood s
      → resolved_name it ≡ some name
      → (it.target == target) ≡ true
      → is_function_category it.category ≡ false
      → IsVerdict it s (apply_verdict (index_of fns) (index_of syms) target it s)
  unfolding apply_verdict apply_name verdict_name
  of_symbol it s name v h k c =
      let step = apply_item_lem symbol_entries syms it name s.store.symbols v.symbols in
      rw (k, h, c)
        (record {
          good = record { functions = v.functions; symbols = step.0 };
          function_step = λ a. rw (k, h, c);
          symbol_step = λ a. rw (k, h, c) (step.1 a);
          structs = refl;
          comments = refl;
        })

  verdict_lem :
      (it : ReconcileItem) (s : Applied)
      → IsGood s
      → IsVerdict it s (apply_verdict (index_of fns) (index_of syms) target it s)
  verdict_lem it s v = elim (Bool-cases (it.target == target)) [
    | inr k ↦ other_target it s v k
    | inl k ↦ elim (Option-cases (resolved_name it)) [
      | inl h ↦ nameless it s v h k
      | inr (name, h) ↦ elim (Bool-cases (is_function_category it.category)) [
        | inl c ↦ of_function it s name v h k c
        | inr c ↦ of_symbol it s name v h k c
      ]
    ]
  ]

  -- After the loop.
  record IsApplied (items : List ReconcileItem) (s t : Applied) : Type 0 where
    pub function_names :
        (a : ℕ)
        → function_name t.store a ≡ verdict_names target true fns items a (function_name s.store a)
    pub symbol_names :
        (a : ℕ)
        → symbol_name t.store a ≡ verdict_names target false syms items a (symbol_name s.store a)
    pub structs : t.store.struct_definitions ≡ s.store.struct_definitions
    pub comments : t.store.comments ≡ s.store.comments

  apply_loop_lem :
      (items : List ReconcileItem) (s : Applied)
      → IsGood s
      → IsApplied items s (apply_loop (index_of fns) (index_of syms) target items s)
  unfolding apply_loop verdict_names
  apply_loop_lem [] s v = record {
    function_names = λ a. refl;
    symbol_names = λ a. refl;
    structs = refl;
    comments = refl;
  }
  apply_loop_lem (it ∷ items) s v =
      let t = apply_verdict (index_of fns) (index_of syms) target it s in
      let step = verdict_lem it s v in
      let rest = apply_loop_lem items t step.good in
      record {
        function_names = λ a.
            rest.function_names a
            ∙ ap (verdict_names target true fns items a) (step.function_step a);
        symbol_names = λ a.
            rest.symbol_names a ∙ ap (verdict_names target false syms items a) (step.symbol_step a);
        structs = rest.structs ∙ step.structs;
        comments = rest.comments ∙ step.comments;
      }

-- After apply_verdicts the name of the last function at every address is the one that the items of the
-- target give it, in their order and starting from its name in the store, and so is that of the last
-- symbol; an item gives its name only to its own address, and only if the store had an entry there or
-- the item is a gap. The structures and the comments are as before.
pub apply_verdicts-names :
    (store : AnnotationStore) (items : List ReconcileItem) (target : Text) (a : ℕ)
    → let after = (apply_verdicts store items target).store in
      (function_name after a
        ≡ verdict_names target true (entry_points store) items a (function_name store a))
      × (symbol_name after a
          ≡ verdict_names target false (symbol_addresses store) items a (symbol_name store a))
      × (after.struct_definitions ≡ store.struct_definitions)
      × (after.comments ≡ store.comments)
unfolding apply_verdicts
apply_verdicts-names store items target a =
    let start =
      apply_loop_lem target (entry_points store) (symbol_addresses store) items
        (record { store = store; count = 0 })
        (record {
          functions = record {
            extra = [];
            layout = sym (append-nil (entry_points store));
            new = λ b m. absurd m;
          };
          symbols = record {
            extra = [];
            layout = sym (append-nil (symbol_addresses store));
            new = λ b m. absurd m;
          };
        }) in
    (start.function_names a, start.symbol_names a, start.structs, start.comments)
