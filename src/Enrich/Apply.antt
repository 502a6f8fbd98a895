-- ===== src/Enrich/Apply.antt =====
-- apply_verdicts of rom_analyzer/enrich.py.
pub mod Last
pub mod Verdicts
pub mod Refines
use rom_analyzer.Common.{
  ℕ, zero, suc, ◌+◌, ◌≡◌, refl, Bool, true, false, Option, none, some, List, [], ◌∷◌, ◌++◌, map,
  ◌==◌, nat_eq, if◌then◌else◌, get_elem?,
}
use rom_analyzer.Common.Text.{Text, codes, text_eq}
use rom_analyzer.Common.Dict.{Dict, get, dict_of}
use rom_analyzer.Types.{SymbolCategory, medium}
use rom_analyzer.Annotations.{AnnotationSymbol, AnnotationFunction, AnnotationStore}
use rom_analyzer.Enrich.{ReconcileItem}
use rom_analyzer.Enrich.Classify.{is_function_category, is_gap}
use rom_analyzer.Enrich.Reconcile.{resolved_name}

-- What apply_verdicts uses of the two kinds of entries of a store.
pub record Entries (A : Type 0) : Type 0 where
  pub address : A → ℕ
  pub name : A → Text
  pub renamed : A → Text → A
  pub added : ReconcileItem → Text → A
  pub address-renamed : (x : A) (n : Text) → address (renamed x n) ≡ address x
  pub name-renamed : (x : A) (n : Text) → name (renamed x n) ≡ n
  pub address-added : (i : ReconcileItem) (n : Text) → address (added i n) ≡ i.address
  pub name-added : (i : ReconcileItem) (n : Text) → name (added i n) ≡ n

-- f"xref:{it.source}"
unfoldable pub xref : ReconcileItem → Text
xref it = codes "xref:" ++ it.source

abbrev pub function_entries : Entries AnnotationFunction
function_entries = record {
  address = λ f. f.entry_point;
  name = λ f. f.name;
  renamed = λ f n. record f { name = n };
  added = λ it n. record {
    name = n;
    entry_point = it.address;
    confidence = medium;
    source = xref it;
    verified_by = none;
    session = [];
    timestamp = [];
    return_type = none;
    params = [];
  };
  address-renamed = λ f n. refl;
  name-renamed = λ f n. refl;
  address-added = λ it n. refl;
  name-added = λ it n. refl;
}

abbrev pub symbol_entries : Entries AnnotationSymbol
symbol_entries = record {
  address = λ s. s.address;
  name = λ s. s.name;
  renamed = λ s n. record s { name = n };
  added = λ it n. record {
    name = n;
    address = it.address;
    category = it.category;
    data_type = none;
    confidence = medium;
    source = xref it;
    verified_by = none;
    session = [];
    timestamp = [];
  };
  address-renamed = λ s n. refl;
  name-renamed = λ s n. refl;
  address-added = λ it n. refl;
  name-added = λ it n. refl;
}

-- `enumerate`, with the place behind the address.
unfoldable pub places : ℕ → List ℕ → List (ℕ × ℕ)
places k [] = []
places k (a ∷ as') = (a, k) ∷ places (suc k) as'

-- `{x.address: i for i, x in enumerate(xs)}`
unfoldable pub index_of : List ℕ → Dict ℕ ℕ
unfolding places dict_of
index_of addresses = dict_of (places 0 addresses)

module _ {A : Type 0} (e : Entries A) where
  -- `xs[i] = replace(xs[i], name=name)`
  unfoldable pub rename_at : List A → ℕ → Text → List A
  rename_at [] i name = []
  rename_at (x ∷ xs) zero name = e.renamed x name ∷ xs
  rename_at (x ∷ xs) (suc i) name = x ∷ rename_at xs i name

  -- One branch of the loop's body, on the list of its kind; the number says whether it was changed.
  unfoldable pub apply_item : Dict ℕ ℕ → ReconcileItem → Text → List A → List A × ℕ
  unfolding get rename_at
  apply_item index it name xs = elim (get index it.address) [
    | none ↦ if is_gap it.current then (xs ++ e.added it name ∷ [], 1) else (xs, 0)
    | some i ↦ elim (get_elem? xs i) [
      | none ↦ (xs, 0)
      | some x ↦ if e.name x == name then (xs, 0) else (rename_at xs i name, 1)
    ]
  ]

-- The store with the number of mutations.
pub record Applied : Type 0 where
  pub store : AnnotationStore
  pub count : ℕ

module _ (fn_by_addr sym_by_addr : Dict ℕ ℕ) where
  unfoldable pub apply_name : ReconcileItem → Text → Applied → Applied
  unfolding apply_item xref
  apply_name it name s =
      if is_function_category it.category
      then (let (functions, n) = apply_item function_entries fn_by_addr it name s.store.functions in
          record { store = record (s.store) { functions = functions }; count = s.count + n })
      else (let (symbols, n) = apply_item symbol_entries sym_by_addr it name s.store.symbols in
          record { store = record (s.store) { symbols = symbols }; count = s.count + n })

  unfoldable pub apply_verdict : Text → ReconcileItem → Applied → Applied
  unfolding apply_name resolved_name
  apply_verdict target it s =
      if it.target == target
      then (elim (resolved_name it) [ none ↦ s | some name ↦ apply_name it name s ])
      else s

  unfoldable pub apply_loop : Text → List ReconcileItem → Applied → Applied
  unfolding apply_verdict
  apply_loop target [] s = s
  apply_loop target (it ∷ items) s = apply_loop target items (apply_verdict target it s)

unfoldable pub apply_verdicts : AnnotationStore → List ReconcileItem → Text → Applied
unfolding index_of apply_loop
apply_verdicts store items target =
    apply_loop (index_of (map (λ (f : AnnotationFunction). f.entry_point) store.functions))
      (index_of (map (λ (s : AnnotationSymbol). s.address) store.symbols)) target items
      (record { store = store; count = 0 })
