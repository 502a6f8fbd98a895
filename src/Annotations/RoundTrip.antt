-- ===== src/Annotations/RoundTrip.antt =====
-- What save_annotations of rom_analyzer/annotations_io.py writes, load_annotations reads.
use rom_analyzer.Common.{ℕ, ◌≡◌, refl, ap, Option, none, some, List, [], ◌∷◌, map}
use rom_analyzer.Common.Text.{Text}
use rom_analyzer.Common.Sort.{sort, by_key, by_key-IsOrder, sort-IsSorted}
use rom_analyzer.Common.Sort.Idem.{sort_sorted}
use rom_analyzer.Common.Dict.{get}
use rom_analyzer.Common.PyInt.Print.{hex_literal}
use rom_analyzer.Common.PyInt.Base16.{int_base16-hex}
use rom_analyzer.Common.Json.{
  string, list_value, as_list_of, required, defaulted, as_list_of-list_value,
}
use rom_analyzer.Types.Names.{as_category-name, as_tier-name}
use rom_analyzer.Annotations.{
  AnnotationParam, AnnotationSymbol, AnnotationFunction, StructMember, StructDefinition,
  AnnotationComment, AnnotationStore,
}
use rom_analyzer.Annotations.Load.{
  natural, as_address, load_symbol, load_param, load_function, load_member, load_struct,
  load_comment, load_annotations,
}
use rom_analyzer.Annotations.Save.{
  symbol_value, param_value, params_field, function_value, member_value, struct_value,
  comment_value, store_value, sorted_store, save_annotations,
}

pub as_address-hex : (n : ℕ) → as_address (string (hex_literal n)) ≡ some n
unfolding as_address natural
as_address-hex n = rw (int_base16-hex n)

ruleset printed = (as_address-hex, as_category-name, as_tier-name)

symbol_lem :
    (s : AnnotationSymbol) (data_type verified_by : Option Text)
    → let t = record s { data_type = data_type; verified_by = verified_by } in
      load_symbol (symbol_value t) ≡ some t
unfolding load_symbol symbol_value required defaulted get
symbol_lem s none none = simp printed
symbol_lem s none (some v) = simp printed
symbol_lem s (some d) none = simp printed
symbol_lem s (some d) (some v) = simp printed

load_symbol-value : (s : AnnotationSymbol) → load_symbol (symbol_value s) ≡ some s
load_symbol-value s = symbol_lem s s.data_type s.verified_by

load_param-value : (p : AnnotationParam) → load_param (param_value p) ≡ some p
unfolding load_param param_value required get
load_param-value p = refl

read_params :
    (ps : List AnnotationParam) → as_list_of load_param (list_value (map param_value ps)) ≡ some ps
read_params = as_list_of-list_value load_param param_value load_param-value

function_lem :
    (f : AnnotationFunction) (verified_by return_type : Option Text) (params : List AnnotationParam)
    → let g = record f { verified_by = verified_by; return_type = return_type; params = params } in
      load_function (function_value g) ≡ some g
unfolding load_function function_value params_field required defaulted get
function_lem f none none [] = simp printed
function_lem f none (some r) [] = simp printed
function_lem f (some v) none [] = simp printed
function_lem f (some v) (some r) [] = simp printed
function_lem f none none (p ∷ ps) = simp (printed, read_params (p ∷ ps))
function_lem f none (some r) (p ∷ ps) = simp (printed, read_params (p ∷ ps))
function_lem f (some v) none (p ∷ ps) = simp (printed, read_params (p ∷ ps))
function_lem f (some v) (some r) (p ∷ ps) = simp (printed, read_params (p ∷ ps))

load_function-value : (f : AnnotationFunction) → load_function (function_value f) ≡ some f
load_function-value f = function_lem f f.verified_by f.return_type f.params

load_member-value : (m : StructMember) → load_member (member_value m) ≡ some m
unfolding load_member member_value required get
load_member-value m = refl

load_struct-value : (sd : StructDefinition) → load_struct (struct_value sd) ≡ some sd
unfolding load_struct struct_value required defaulted get
load_struct-value sd =
    rw (as_list_of-list_value load_member member_value load_member-value sd.members)

comment_lem :
    (c : AnnotationComment) (verified_by : Option Text)
    → let d = record c { verified_by = verified_by } in load_comment (comment_value d) ≡ some d
unfolding load_comment comment_value required defaulted get
comment_lem c none = rw (as_address-hex c.address)
comment_lem c (some v) = rw (as_address-hex c.address)

load_comment-value : (c : AnnotationComment) → load_comment (comment_value c) ≡ some c
load_comment-value c = comment_lem c c.verified_by

load-store_value : (store : AnnotationStore) → load_annotations (store_value store) ≡ some store
unfolding load_annotations store_value defaulted get
load-store_value store = rw (
  as_list_of-list_value load_symbol symbol_value load_symbol-value store.symbols,
  as_list_of-list_value load_function function_value load_function-value store.functions,
  as_list_of-list_value load_struct struct_value load_struct-value store.struct_definitions,
  as_list_of-list_value load_comment comment_value load_comment-value store.comments,
)

module _ {A : Type 0} (key : A → ℕ) where
  sort_twice : (xs : List A) → sort (by_key key) (sort (by_key key) xs) ≡ sort (by_key key) xs
  sort_twice xs =
      sort_sorted (by_key key) (sort (by_key key) xs)
        (sort-IsSorted (by_key key) (by_key-IsOrder key) xs)

sorted_store_idem :
    (store : AnnotationStore) → sorted_store (sorted_store store) ≡ sorted_store store
unfolding sorted_store
sorted_store_idem store = rw (
  sort_twice (λ (s : AnnotationSymbol). s.address) store.symbols,
  sort_twice (λ (f : AnnotationFunction). f.entry_point) store.functions,
  sort_twice (λ (c : AnnotationComment). c.address) store.comments,
)

-- What save_annotations writes, load_annotations reads as the same store, except that the symbols, the
-- functions and the comments are sorted by their addresses; and what is read and saved again is read as
-- before.
pub load_annotations-save :
    (store : AnnotationStore)
    → (load_annotations (save_annotations store) ≡ some (sorted_store store))
      × (load_annotations (save_annotations (sorted_store store))
          ≡ load_annotations (save_annotations store))
unfolding save_annotations
load_annotations-save store = (
  load-store_value (sorted_store store),
  ap (λ t. load_annotations (store_value t)) (sorted_store_idem store),
)
