-- ===== src/Enrich/Apply/Refines.antt =====
-- apply_verdicts of rom_analyzer/enrich.py as a change of the names at the addresses.
use rom_analyzer.Common.{
  ℕ, suc, ◌≡◌, refl, sym, ap, subst, ◌∙◌, ◌⊎◌, inl, inr, true, false, Option, none, some, List, [],
  ◌∷◌, ◌++◌, map, ◌==◌, nat_eq, nat_beq_iff, if◌then◌else◌, get_elem?, In, arith, Bool-cases, elem,
  ◌||◌, ◌&&◌, In-append,
}
use mathlib.Core.List.{append_assoc}
use rom_analyzer.Common.Text.{Text, text_eq, text_beq_iff}
use rom_analyzer.Common.Dict.{Dict, get}
use rom_analyzer.Enrich.{ReconcileItem}
use rom_analyzer.Enrich.Classify.{is_gap}
use rom_analyzer.Enrich.Apply.{Entries, index_of, rename_at, apply_item}
use rom_analyzer.Enrich.Apply.Last.{
  last_place, get-index_of, last_place-append, last_named, last_named-append, addresses-rename_at,
  get_last, last_named-rename_at,
}

last_place-elem :
    (bs : List ℕ) (k a : ℕ)
    → ((last_place k bs a ≡ none) × (elem a bs ≡ false))
      ⊎ ((i : ℕ) × (last_place k bs a ≡ some i) × (elem a bs ≡ true))
unfolding last_place
last_place-elem [] k a = inl (refl, refl)
last_place-elem (b ∷ bs) k a = elim (last_place-elem bs (suc k) a) [
  | inr (i, p, q) ↦ inr (i, ground arith, ground arith)
  | inl (p, q) ↦ elim (Bool-cases (a == b)) [
    | inl h ↦ inr (k, ground (arith, nat_beq_iff a b, nat_beq_iff b a), ground arith)
    | inr h ↦ inl (ground (arith, nat_beq_iff a b, nat_beq_iff b a), ground arith)
  ]
]

module _ {A : Type 0} (e : Entries A) (orig : List ℕ) where
  -- The addresses are those the index was made of, with new ones behind them.
  pub record IsIndexed (xs : List A) : Type 0 where
    pub extra : List ℕ
    pub layout : map e.address xs ≡ orig ++ extra
    pub new : (b : ℕ) → In b extra → last_place 0 orig b ≡ none

  -- What an item with a name does to the name at an address.
  unfoldable pub named_after : ReconcileItem → Text → ℕ → Option Text → Option Text
  named_after it name a v =
      if it.address == a && (elem a orig || is_gap it.current) then some name else v

  -- One item refines it, and keeps the index good.
  abbrev IsStep : ReconcileItem → Text → List A → List A × ℕ → Type 0
  IsStep it name xs r =
      IsIndexed r.0 × ((a : ℕ) → last_named e r.0 a ≡ named_after it name a (last_named e xs a))

  place_lem :
      (xs : List A) (a i : ℕ)
      → IsIndexed xs
      → last_place 0 orig a ≡ some i
      → last_place 0 (map e.address xs) a ≡ some i
  place_lem xs a i v h =
      ap (λ t. last_place 0 t a) v.layout
      ∙ last_place-append orig v.extra 0 a (λ m. cc (v.new a m))
      ∙ h

  grown_lem :
      (it : ReconcileItem) (name : Text) (xs : List A)
      → IsIndexed xs
      → last_place 0 orig it.address ≡ none
      → elem it.address orig ≡ false
      → IsStep it name xs (if is_gap it.current then (xs ++ e.added it name ∷ [], 1) else (xs, 0))
  grown_lem it name xs v h q = elim (Bool-cases (is_gap it.current)) [
    | inr g ↦ rw g (v, λ a. unfold named_after in ground (arith, nat_beq_iff it.address a))
    | inl g ↦ rw g (
      record {
        extra = v.extra ++ it.address ∷ [];
        layout =
            map_append xs (e.added it name)
            ∙ ap (λ t. t ++ e.address (e.added it name) ∷ []) v.layout
            ∙ append_assoc orig v.extra (e.address (e.added it name) ∷ [])
            ∙ ap (λ t. orig ++ (v.extra ++ t ∷ [])) (e.address-added it name);
        new = λ b m. elim ((In-append b v.extra (it.address ∷ [])).0 m) [
          | inl n ↦ v.new b n
          | inr (inl p) ↦ rw p h
          | inr (inr f) ↦ absurd f
        ];
      },
      λ a.
          unfold named_after in
          ground (
            arith,
            last_named-append e xs (e.added it name) a,
            e.address-added it name,
            e.name-added it name,
          ),
    )
  ]
    where
      map_append :
          (ys : List A) (y : A)
          → map e.address (ys ++ y ∷ []) ≡ map e.address ys ++ e.address y ∷ []
      map_append [] y = refl
      map_append (z ∷ ys) y = ap (λ t. e.address z ∷ t) (map_append ys y)

  edited_lem :
      (it : ReconcileItem) (name : Text) (xs : List A) (i : ℕ) (x : A)
      → IsIndexed xs
      → last_place 0 (map e.address xs) it.address ≡ some i
      → elem it.address orig ≡ true
      → last_named e xs it.address ≡ some (e.name x)
      → IsStep it name xs (if e.name x == name then (xs, 0) else (rename_at e xs i name, 1))
  edited_lem it name xs i x v h q r = elim (Bool-cases (e.name x == name)) [
    | inl g ↦ rw g (
      v,
      λ a.
          unfold named_after in
          ground
            (arith, nat_beq_iff it.address a, text_beq_iff (e.name x) name, ap (last_named e xs)),
    )
    | inr g ↦ rw g (
      record { extra = v.extra; layout = addresses-rename_at e xs i name ∙ v.layout; new = v.new },
      λ a.
          unfold named_after in
          ground (arith, nat_beq_iff it.address a, last_named-rename_at e xs 0 it.address i name a),
    )
  ]

  apply_item-none :
      (index : Dict ℕ ℕ) (it : ReconcileItem) (name : Text) (xs : List A)
      → get index it.address ≡ none
      → apply_item e index it name xs
        ≡ (if is_gap it.current then (xs ++ e.added it name ∷ [], 1) else (xs, 0))
  unfolding apply_item
  apply_item-none index it name xs h = ground arith

  apply_item-some :
      (index : Dict ℕ ℕ) (it : ReconcileItem) (name : Text) (xs : List A) (i : ℕ) (x : A)
      → get index it.address ≡ some i
      → get_elem? xs i ≡ some x
      → apply_item e index it name xs
        ≡ (if e.name x == name then (xs, 0) else (rename_at e xs i name, 1))
  unfolding apply_item
  apply_item-some index it name xs i x h p = ground arith

  pub apply_item_lem :
      (it : ReconcileItem) (name : Text) (xs : List A)
      → IsIndexed xs
      → IsStep it name xs (apply_item e (index_of orig) it name xs)
  apply_item_lem it name xs v = elim (last_place-elem orig 0 it.address) [
    | inl (h, q) ↦
        subst (IsStep it name xs)
          (sym (apply_item-none (index_of orig) it name xs (get-index_of orig it.address ∙ h)))
          (grown_lem it name xs v h q)
    | inr (i, h, q) ↦
        let placed = place_lem xs it.address i v h in
        let (x, p, s, r) = get_last e xs 0 it.address i (placed ∙ ap some (omega arith)) in
        subst (IsStep it name xs)
          (sym
            (apply_item-some (index_of orig) it name xs i x (get-index_of orig it.address ∙ h) p))
          (edited_lem it name xs i x v placed q r)
  ]
