-- ===== src/Common/Dict/Group.antt =====
-- Values grouped by a key: `d.setdefault(key(x), []).append(x)`, or a `defaultdict(list)`.
use mathlib.Core.Path.{◌≡◌, refl, sym, ap, ◌∙◌}
use mathlib.Core.Logic.{◌↔◌, inl, inr}
use mathlib.Core.Option.{Option, none, some}
use mathlib.Core.List.{List, [], ◌∷◌, ◌++◌, foldl, append-nil, append_assoc}
use native.Mathlib.Omega.{arith}
use rom_analyzer.Common.Tests.{if◌then◌else◌, Eq, ◌==◌, Bool-cases}
use rom_analyzer.Common.Lists.{In, Distinct, filter}
use rom_analyzer.Common.Dict.{
  Dict, keys, get, get_or, put, get-put, Distinct-put, get-In, get_of_In,
}

module _ {A : Type 0} where
  -- A group that holds nothing is not there.
  abbrev pub non_empty : List A → Option (List A)
  non_empty [] = none
  non_empty (x ∷ xs) = some (x ∷ xs)

  pub non_empty-some : (xs g : List A) → non_empty xs ≡ some g → xs ≡ g
  non_empty-some [] g h = cc
  non_empty-some (x ∷ xs) g h = cc

module _ {K A : Type 0} ⦃e : Eq K⦄ (key : A → K) where
  pub add_to_group : Dict K (List A) → A → Dict K (List A)
  add_to_group d x = put d (key x) (get_or d (key x) [] ++ x ∷ [])

  unfoldable pub group_by : List A → Dict K (List A)
  unfolding add_to_group
  group_by = foldl add_to_group []

  -- The values with the key, in their order.
  abbrev pub with_key : K → List A → List A
  with_key k = filter (λ x. key x == k)

  members : Dict K (List A) → K → List A
  members d k = get_or d k []

  add_to_group-get :
      (d : Dict K (List A)) (x : A) (k : K)
      → get (add_to_group d x) k ≡ (if key x == k then some (members d k ++ x ∷ []) else get d k)
  unfolding add_to_group members
  add_to_group-get d x k =
      ground (arith, get-put d (key x) k (get_or d (key x) [] ++ x ∷ []), e.beq_iff (key x) k)

  add_to_group-members :
      (d : Dict K (List A)) (x : A) (k : K)
      → members (add_to_group d x) k ≡ (if key x == k then members d k ++ x ∷ [] else members d k)
  unfolding members get_or
  add_to_group-members d x k = ground (arith, add_to_group-get d x k)

  foldl-members :
      (xs : List A) (d : Dict K (List A)) (k : K)
      → members (foldl add_to_group d xs) k ≡ members d k ++ with_key k xs
  foldl-members [] d k = sym (append-nil (members d k))
  foldl-members (x ∷ xs) d k = elim (Bool-cases (key x == k)) [
    | inl h ↦ rw h (
        foldl-members xs (add_to_group d x) k
        ∙ ap (λ g. g ++ with_key k xs) (ground (arith, add_to_group-members d x k))
        ∙ append_assoc (members d k) (x ∷ []) (with_key k xs))
    | inr h ↦ rw h (
        foldl-members xs (add_to_group d x) k
        ∙ ap (λ g. g ++ with_key k xs) (ground (arith, add_to_group-members d x k)))
  ]

  -- No group of a dictionary that is built here is empty.
  abbrev NoEmpty : Dict K (List A) → Type 0
  NoEmpty d = (k : K) → get d k ≡ non_empty (members d k)

  non_empty-append : (xs : List A) (x : A) → non_empty (xs ++ x ∷ []) ≡ some (xs ++ x ∷ [])
  non_empty-append [] x = refl
  non_empty-append (y ∷ ys) x = refl

  foldl-NoEmpty :
      (xs : List A) (d : Dict K (List A)) → NoEmpty d → NoEmpty (foldl add_to_group d xs)
  foldl-NoEmpty [] d h = h
  foldl-NoEmpty (x ∷ xs) d h = foldl-NoEmpty xs (add_to_group d x) (λ k. step k)
    where
      step : (k : K) → get (add_to_group d x) k ≡ non_empty (members (add_to_group d x) k)
      step k = ground (
        arith,
        add_to_group-get d x k,
        add_to_group-members d x k,
        h k,
        non_empty-append (members d k) x,
      )

  foldl-Distinct :
      (xs : List A) (d : Dict K (List A))
      → Distinct (keys d)
      → Distinct (keys (foldl add_to_group d xs))
  foldl-Distinct [] d h = h
  foldl-Distinct (x ∷ xs) d h =
      foldl-Distinct xs (add_to_group d x)
        (unfold add_to_group in Distinct-put d (key x) (get_or d (key x) [] ++ x ∷ []) h)

  pub Distinct-group_by : (xs : List A) → Distinct (keys (group_by xs))
  Distinct-group_by xs = unfold group_by in foldl-Distinct xs [] tt

  -- The group of a key holds the values with the key, in their order, and is there if one is.
  pub get-group_by : (xs : List A) (k : K) → get (group_by xs) k ≡ non_empty (with_key k xs)
  get-group_by xs k =
      unfold group_by in
      (foldl-NoEmpty xs [] (λ j. unfold members get_or get in refl) k
        ∙ ap non_empty (foldl-members xs [] k ∙ unfold members get_or get in refl))

  pub In-group_by :
      (xs : List A) (k : K) (g : List A)
      → In (k, g) (group_by xs) ↔ (non_empty (with_key k xs) ≡ some g)
  In-group_by xs k g = (
    λ m. sym (get-group_by xs k) ∙ get_of_In (group_by xs) k g (Distinct-group_by xs) m,
    λ h. get-In (group_by xs) k g (get-group_by xs k ∙ h),
  )
