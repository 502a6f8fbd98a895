-- ===== src/Common/Json.antt =====
-- The values of `json.loads` and `json.dumps`, whose numbers are, in the files of the program, counts,
-- sizes and offsets; and reading the fields of an object. `none` is the KeyError of a missing key, or
-- the TypeError or ValueError of a value that is not of the kind the program uses.
use mathlib.Core.Option
use rom_analyzer.Common.Tests.{Option-cases}
use rom_analyzer.Common.Lists.{In}
use rom_analyzer.Common.Text.{Text, text_eq}
use rom_analyzer.Common.Dict.{Dict, get}
use Prim.Native.Nat.{ℕ}
use mathlib.Core.Path.{◌≡◌, refl, sym, subst, ap, ◌∙◌}
use mathlib.Core.Logic.{inl, inr}
use native.Mathlib.Omega.{arith}
use mathlib.Core.Bool.{Bool}
use mathlib.Core.Option.{Option, none, some}
use mathlib.Core.List.{List, [], ◌∷◌, map}

-- `Items` and `Fields` are the lists inside an array and an object.
mutual
  pub data Json : Type 0 where
    null : Json
    bool : Bool → Json
    number : ℕ → Json
    string : Text → Json
    array : Items → Json
    object : Fields → Json

  pub data Items : Type 0 where
    no_items : Items
    item : Json → Items → Items

  pub data Fields : Type 0 where
    no_fields : Fields
    field : Text → Json → Fields → Fields

abbrev pub items : List Json → Items
items [] = no_items
items (v ∷ vs) = item v (items vs)

abbrev pub values_of : Items → List Json
values_of no_items = []
values_of (item v vs) = v ∷ values_of vs

abbrev pub fields : Dict Text Json → Fields
fields [] = no_fields
fields ((k, v) ∷ d) = field k v (fields d)

abbrev pub dict_in : Fields → Dict Text Json
dict_in no_fields = []
dict_in (field k v d) = (k, v) ∷ dict_in d

-- A list and a dict as values.
abbrev pub list_value : List Json → Json
list_value vs = array (items vs)

abbrev pub dict_value : Dict Text Json → Json
dict_value d = object (fields d)

pub values_of-items : (vs : List Json) → values_of (items vs) ≡ vs
values_of-items [] = refl
values_of-items (v ∷ vs) = ap (λ t. v ∷ t) (values_of-items vs)

pub dict_in-fields : (d : Dict Text Json) → dict_in (fields d) ≡ d
dict_in-fields [] = refl
dict_in-fields (p ∷ d) = ap (λ (t : Dict Text Json). p ∷ t) (dict_in-fields d)

infixl 5 ◌>>=◌
abbrev pub ◌>>=◌ {ℓ κ} : {A : Type ℓ} {B : Type κ} → Option A → (A → Option B) → Option B
none >>= f = none
some a >>= f = f a

module _ {A B : Type 0} where
  -- `[f(x) for x in xs]`, where `f` may raise.
  abbrev pub each : (A → Option B) → List A → Option (List B)
  each f [] = some []
  each f (x ∷ xs) = do y ← f x; ys ← each f xs; some (y ∷ ys)

  -- What is printed item by item is read back.
  pub each-map :
      (f : A → Option B) (g : B → A)
      → ((b : B) → f (g b) ≡ some b)
      → (bs : List B) → each f (map g bs) ≡ some bs
  each-map f g h [] = refl
  each-map f g h (b ∷ bs) = rw (h b, each-map f g h bs)

module _ {A B : Type 0} (f : A → Option B) where
  -- Every result is that of one of the values.
  pub In-each :
      (xs : List A) (ys : List B)
      → each f xs ≡ some ys
      → (y : B) → In y ys
      → (x : A) × In x xs × (f x ≡ some y)
  In-each [] ys h y m = let e : [] ≡ ys = ground arith in absurd (subst (In y) (sym e) m)
  In-each (x ∷ xs) ys h y m = elim (Option-cases (f x)) [
    | inl e ↦ cc
    | inr (z, e) ↦ elim (Option-cases (each f xs)) [
      | inl n ↦ cc
      | inr (zs, n) ↦
          let whole : (z ∷ zs) ≡ ys = ground arith in
          elim (subst (In y) (sym whole) m) [
            | inl q ↦ (x, inl refl, e ∙ ap some (sym q))
            | inr o ↦ let (w, t, q) = In-each xs zs n y o in (w, inr t, q)
          ]
    ]
  ]

module _ {A B : Type 0} (f : A → Option B) where
  -- Where nothing raises, there is a list.
  pub each_total :
      ((x : A) → (y : B) × (f x ≡ some y)) → (xs : List A) → (ys : List B) × (each f xs ≡ some ys)
  each_total h [] = ([], refl)
  each_total h (x ∷ xs) = let (y, e) = h x in let (ys, q) = each_total h xs in (y ∷ ys, rw (e, q))

abbrev pub as_number : Json → Option ℕ
as_number (number n) = some n
as_number _ = none

abbrev pub as_text : Json → Option Text
as_text (string s) = some s
as_text _ = none

abbrev pub as_list : Json → Option (List Json)
as_list (array vs) = some (values_of vs)
as_list _ = none

abbrev pub as_dict : Json → Option (Dict Text Json)
as_dict (object d) = some (dict_in d)
as_dict _ = none

-- A value or `None`.
abbrev pub as_optional : {A : Type 0} → (Json → Option A) → Json → Option (Option A)
as_optional read null = some none
as_optional read v = Option.map some (read v)

abbrev pub as_list_of : {A : Type 0} → (Json → Option A) → Json → Option (List A)
as_list_of read v = as_list v >>= each read

abbrev pub as_texts : Json → Option (List Text)
as_texts = as_list_of as_text

abbrev pub text_list : List Text → Json
text_list ss = list_value (map string ss)

module _ {A : Type 0} where
  -- `read(d[key])`
  unfoldable pub required : (Json → Option A) → Dict Text Json → Text → Option A
  unfolding get
  required read d key = get d key >>= read

  -- `read(d.get(key, default))`, where the default is of the right kind.
  unfoldable pub defaulted : (Json → Option A) → A → Dict Text Json → Text → Option A
  unfolding get
  defaulted read default d key = elim (get d key) [ none ↦ some default | some v ↦ read v ]

  pub as_list_of-list_value :
      (read : Json → Option A) (print : A → Json)
      → ((a : A) → read (print a) ≡ some a)
      → (xs : List A) → as_list_of read (list_value (map print xs)) ≡ some xs
  as_list_of-list_value read print h xs =
      ap (each read) (values_of-items (map print xs)) ∙ each-map read print h xs

pub as_texts-text_list : (ss : List Text) → as_texts (text_list ss) ≡ some ss
as_texts-text_list = as_list_of-list_value as_text string (λ s. refl)
