-- ===== src/Enrich/Apply/Last.antt =====
-- The last entry at an address, which the index of apply_verdicts of rom_analyzer/enrich.py finds, and
-- its name.
use rom_analyzer.Common.{
  ℕ, zero, suc, ◌+◌, ◌≤◌, ◌≡◌, refl, ap, ◌∙◌, inl, inr, Option, none, some, List, [], ◌∷◌, ◌++◌,
  map, ◌==◌, nat_eq, nat_beq_iff, if◌then◌else◌, get_elem?, In, arith, Option-cases,
}
use mathlib.Core.List.{foldl}
use rom_analyzer.Common.Text.{Text, text_eq}
use rom_analyzer.Common.Dict.{Dict, get, put, dict_of, get-put}
use rom_analyzer.Enrich.Apply.{Entries, places, index_of, rename_at}

-- The place, counted from `k`, of the last occurrence.
unfoldable pub last_place : ℕ → List ℕ → ℕ → Option ℕ
last_place k [] a = none
last_place k (b ∷ bs) a = elim (last_place (suc k) bs a) [
  | some i ↦ some i
  | none ↦ if b == a then some k else none
]

-- A value that is there, or else another.
abbrev first_of : Option ℕ → Option ℕ → Option ℕ
first_of none d = d
first_of (some i) d = some i

foldl-places :
    (bs : List ℕ) (k : ℕ) (d : Dict ℕ ℕ) (a : ℕ)
    → get (foldl (λ (d : Dict ℕ ℕ) (p : ℕ × ℕ). put d p.0 p.1) d (places k bs)) a
      ≡ first_of (last_place k bs a) (get d a)
unfolding places last_place
foldl-places [] k d a = refl
foldl-places (b ∷ bs) k d a =
    foldl-places bs (suc k) (put d b k) a ∙ ground (arith, get-put d b a k)

pub get-index_of : (bs : List ℕ) (a : ℕ) → get (index_of bs) a ≡ last_place 0 bs a
unfolding index_of dict_of
get-index_of bs a = foldl-places bs 0 [] a ∙ ends (last_place 0 bs a)
  where
    ends : (o : Option ℕ) → first_of o (get [] a) ≡ o
    ends none = unfold get in refl
    ends (some i) = refl

-- Values behind that are not `a` do not move the last place of `a`.
pub last_place-append :
    (bs extra : List ℕ) (k a : ℕ)
    → (In a extra → ⊥)
    → last_place k (bs ++ extra) a ≡ last_place k bs a
unfolding last_place
last_place-append [] [] k a h = refl
last_place-append [] (b ∷ extra) k a h =
    ground (arith, last_place-append [] extra (suc k) a (λ m. h (inr m)), λ (e : a ≡ b). h (inl e))
last_place-append (b ∷ bs) extra k a h = ground (arith, last_place-append bs extra (suc k) a h)

last_place-ge : (bs : List ℕ) (k a i : ℕ) → last_place k bs a ≡ some i → k ≤ i
unfolding last_place
last_place-ge [] k a i h = cc
last_place-ge (b ∷ bs) k a i h = ground (arith, last_place-ge bs (suc k) a i)

module _ {A : Type 0} (e : Entries A) where
  -- The name of the last entry at an address.
  unfoldable pub last_named : List A → ℕ → Option Text
  last_named [] a = none
  last_named (x ∷ xs) a = elim (last_named xs a) [
    | some n ↦ some n
    | none ↦ if e.address x == a then some (e.name x) else none
  ]

  pub last_named-append :
      (xs : List A) (x : A) (a : ℕ)
      → last_named (xs ++ x ∷ []) a
        ≡ (if e.address x == a then some (e.name x) else last_named xs a)
  unfolding last_named
  last_named-append [] x a = ground arith
  last_named-append (y ∷ ys) x a = ground (arith, last_named-append ys x a)

  pub addresses-rename_at :
      (xs : List A) (i : ℕ) (n : Text) → map e.address (rename_at e xs i n) ≡ map e.address xs
  unfolding rename_at
  addresses-rename_at [] i n = refl
  addresses-rename_at (x ∷ xs) zero n = ap (λ t. t ∷ map e.address xs) (e.address-renamed x n)
  addresses-rename_at (x ∷ xs) (suc i) n = ap (λ t. e.address x ∷ t) (addresses-rename_at xs i n)

  -- No last place, no name.
  last_named-none :
      (xs : List A) (k a : ℕ) → last_place k (map e.address xs) a ≡ none → last_named xs a ≡ none
  unfolding last_named last_place
  last_named-none [] k a h = refl
  last_named-none (x ∷ xs) k a h = ground (arith, last_named-none xs (suc k) a)

  -- The entry at the last place has the name.
  pub get_last :
      (xs : List A) (k a i : ℕ)
      → last_place k (map e.address xs) a ≡ some (k + i)
      → (x : A) × (get_elem? xs i ≡ some x)
        × (e.address x ≡ a)
        × (last_named xs a ≡ some (e.name x))
  unfolding last_named last_place
  get_last [] k a i h = cc
  get_last (x ∷ xs) k a zero h = elim (Option-cases (last_place (suc k) (map e.address xs) a)) [
    | inl n ↦ (
      x,
      refl,
      ground (arith, nat_beq_iff (e.address x) a),
      ground (arith, last_named-none xs (suc k) a n),
    )
    | inr (j, n) ↦ absurd (ground (arith, last_place-ge (map e.address xs) (suc k) a j n))
  ]
  get_last (x ∷ xs) k a (suc i) h = elim (Option-cases (last_place (suc k) (map e.address xs) a)) [
    | inl n ↦ absurd (ground arith)
    | inr (j, n) ↦
        let (y, p, q, r) = get_last xs (suc k) a i (ground arith) in (y, p, q, ground arith)
  ]

  rename_head :
      (x : A) (xs : List A) (a b : ℕ) (n : Text)
      → last_named xs a ≡ none
      → e.address x ≡ a
      → last_named (e.renamed x n ∷ xs) b ≡ (if a == b then some n else last_named (x ∷ xs) b)
  unfolding last_named
  rename_head x xs a b n h q =
      ground (arith, e.address-renamed x n, e.name-renamed x n, nat_beq_iff a b, ap (last_named xs))

  rename_behind :
      (x : A) (xs : List A) (i a b : ℕ) (n : Text)
      → last_named (rename_at e xs i n) b ≡ (if a == b then some n else last_named xs b)
      → last_named (x ∷ rename_at e xs i n) b ≡ (if a == b then some n else last_named (x ∷ xs) b)
  unfolding last_named
  rename_behind x xs i a b n h = ground arith

  -- Renaming the last entry at `a` gives the address that name, and no other address another.
  pub last_named-rename_at :
      (xs : List A) (k a i : ℕ) (n : Text) (b : ℕ)
      → last_place k (map e.address xs) a ≡ some (k + i)
      → last_named (rename_at e xs i n) b ≡ (if a == b then some n else last_named xs b)
  unfolding rename_at last_place
  last_named-rename_at [] k a i n b h = cc
  last_named-rename_at (x ∷ xs) k a zero n b h =
      elim (Option-cases (last_place (suc k) (map e.address xs) a)) [
        | inl o ↦
            rename_head x xs a b n (last_named-none xs (suc k) a o)
              (ground (arith, nat_beq_iff (e.address x) a))
        | inr (j, o) ↦ absurd (ground (arith, last_place-ge (map e.address xs) (suc k) a j o))
      ]
  last_named-rename_at (x ∷ xs) k a (suc i) n b h =
      elim (Option-cases (last_place (suc k) (map e.address xs) a)) [
        | inl o ↦ absurd (ground arith)
        | inr (j, o) ↦
            rename_behind x xs i a b n (last_named-rename_at xs (suc k) a i n b (ground arith))
      ]
