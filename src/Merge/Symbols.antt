-- ===== src/Merge/Symbols.antt =====
-- arbitrate_symbols of rom_analyzer/merge.py: the winners and their order.
use rom_analyzer.Common.{
  ℕ, ◌<◌, ◌≡◌, ◌≢◌, refl, sym, ap, subst, ◌∙◌, ◌↔◌, inl, inr, Bool, some, List, [], ◌∷◌, arith,
  ◌==◌, nat_eq, In, In-append, In-filter, In-All, All-of_In, Pairwise-of_map,
}
use rom_analyzer.Common.Text.{text_eq}
use rom_analyzer.Common.Dict.Group.{
  group_by, with_key, non_empty, non_empty-some, In-group_by, Distinct-group_by,
}
use rom_analyzer.Common.Sort.{
  sort, by_key, max_by, greatest, greatest_lem, In-sort, IsAscending, sort-IsAscending,
}
use rom_analyzer.Types.{PropagatedSymbol}
use rom_analyzer.Merge.Rank.{symbol_leb-IsOrder}
use rom_analyzer.Merge.{
  Priorities, symbol_leb, arbitrate_group, arbitrate_groups, arbitrate_symbols,
}

pub non_empty_of_greatest :
    {A : Type 0} (le : A → A → Bool) (xs : List A) (a : A)
    → greatest le xs ≡ some a
    → non_empty xs ≡ some xs
non_empty_of_greatest le [] a h = cc
non_empty_of_greatest le (x ∷ xs) a h = refl

abbrev pub Groups : Type 0
Groups = List (ℕ × List PropagatedSymbol)

module _ (priority : Priorities) where
  winners : ℕ → List PropagatedSymbol → List PropagatedSymbol
  winners a g = (arbitrate_group priority a g).0

  In-winners :
      (a : ℕ) (g : List PropagatedSymbol) (s : PropagatedSymbol)
      → In s (winners a g) ↔ (greatest (symbol_leb priority) g ≡ some s)
  unfolding winners arbitrate_group
  In-winners a [] s = (λ m. absurd m, λ h. cc)
  In-winners a (t ∷ g) s = ground arith

  In-final :
      (groups : Groups) (s : PropagatedSymbol)
      → In s (arbitrate_groups priority groups).0
      → (p : ℕ × List PropagatedSymbol) × In p groups
        × (greatest (symbol_leb priority) p.1 ≡ some s)
  unfolding arbitrate_groups
  In-final [] s m = absurd m
  In-final ((a, g) ∷ groups) s m =
      elim ((In-append s (winners a g) (arbitrate_groups priority groups).0).0
        (unfold winners in m)) [
          | inl here ↦ ((a, g), inl refl, (In-winners a g s).0 here)
          | inr there ↦ let (p, i, h) = In-final groups s there in (p, inr i, h)
        ]

  final-In :
      (groups : Groups) (s : PropagatedSymbol) (a : ℕ) (g : List PropagatedSymbol)
      → In (a, g) groups
      → greatest (symbol_leb priority) g ≡ some s
      → In s (arbitrate_groups priority groups).0
  unfolding arbitrate_groups winners
  final-In [] s a g m h = absurd m
  final-In ((b, f) ∷ groups) s a g m h =
      (In-append s (winners b f) (arbitrate_groups priority groups).0).1 (elim m [
        | inl e ↦
            inl (
              (In-winners b f s).1
                (ap (greatest (symbol_leb priority)) (sym (ap (λ p. p.1) e)) ∙ h))
        | inr n ↦ inr (final-In groups s a g n h)
      ])

  -- Each group has one winner at most, and ascending groups have ascending winners.
  final-IsAscending :
      (groups : Groups)
      → IsAscending (λ p. p.0) groups
      → ((p : ℕ × List PropagatedSymbol) (s : PropagatedSymbol)
          → In p groups
          → greatest (symbol_leb priority) p.1 ≡ some s
          → s.new_address ≡ p.0)
      → IsAscending (λ s. s.new_address) (arbitrate_groups priority groups).0
  unfolding arbitrate_groups arbitrate_group
  final-IsAscending [] asc h = tt
  final-IsAscending ((a, []) ∷ groups) asc h =
      final-IsAscending groups asc.1 (λ p s i. h p s (inr i))
  final-IsAscending ((a, s ∷ g) ∷ groups) asc h = (
    All-of_In (arbitrate_groups priority groups).0 (λ t m. later t (In-final groups t m)),
    final-IsAscending groups asc.1 (λ p s i. h p s (inr i)),
  )
    where
      later :
          (t : PropagatedSymbol)
          → (p : ℕ × List PropagatedSymbol) × In p groups
            × (greatest (symbol_leb priority) p.1 ≡ some t)
          → (max_by (symbol_leb priority) s g).new_address < t.new_address
      later t (p, i, e) = omega (
        arith,
        h (a, s ∷ g) (max_by (symbol_leb priority) s g) (inl refl) refl,
        h p t (inr i) e,
        In-All (λ q. a < q.0) groups asc.0 p i,
      )

  module _ (symbols : List PropagatedSymbol) where
    abbrev pub groups : Groups
    groups = sort (by_key (λ p. p.0)) (group_by (λ s. s.new_address) symbols)

    -- The symbols that are proposed for an address.
    abbrev pub proposed : ℕ → List PropagatedSymbol
    proposed a = with_key (λ (s : PropagatedSymbol). s.new_address) a symbols

    pub In-groups :
        (a : ℕ) (g : List PropagatedSymbol) → In (a, g) groups ↔ (non_empty (proposed a) ≡ some g)
    In-groups a g = ground (
      arith,
      In-sort (by_key (λ (p : ℕ × List PropagatedSymbol). p.0)) (a, g)
          (group_by (λ (s : PropagatedSymbol). s.new_address) symbols),
      In-group_by (λ (s : PropagatedSymbol). s.new_address) symbols a g,
    )

    groups-IsAscending : IsAscending (λ p. p.0) groups
    groups-IsAscending =
        sort-IsAscending (λ p. p.0) (group_by (λ s. s.new_address) symbols)
          (Pairwise-of_map ◌≢◌ (λ p. p.0) (group_by (λ s. s.new_address) symbols)
            (Distinct-group_by (λ s. s.new_address) symbols))

    -- The winner of a group stands at the group's address.
    winner-address :
        (p : ℕ × List PropagatedSymbol) (s : PropagatedSymbol)
        → In p groups
        → greatest (symbol_leb priority) p.1 ≡ some s
        → s.new_address ≡ p.0
    winner-address (a, g) s i h =
        let e : proposed a ≡ g = non_empty-some (proposed a) g ((In-groups a g).0 i) in
        let (m, _) = greatest_lem (symbol_leb priority) (symbol_leb-IsOrder priority) g s h in
        let (_, at) =
          (In-filter (λ (s : PropagatedSymbol). s.new_address == a) s symbols).0
            (subst (In s) (sym e) m) in
        ground arith

    -- The result has ascending addresses, so no address twice.
    pub arbitrate_symbols-IsAscending :
        IsAscending (λ s. s.new_address) (arbitrate_symbols priority symbols).0
    unfolding arbitrate_symbols
    arbitrate_symbols-IsAscending = final-IsAscending groups groups-IsAscending winner-address

    -- A symbol is in the result exactly when it is the first of the highest rank (confidence tier,
    -- registry priority, score) among the symbols that are proposed for its address.
    pub arbitrate_symbols_iff :
        (s : PropagatedSymbol)
        → In s (arbitrate_symbols priority symbols).0
          ↔ (greatest (symbol_leb priority) (proposed s.new_address) ≡ some s)
    unfolding arbitrate_symbols
    arbitrate_symbols_iff s = (
      λ m.
          let ((a, g), i, h) = In-final groups s m in
          let e : proposed a ≡ g = non_empty-some (proposed a) g ((In-groups a g).0 i) in
          ap (λ b. greatest (symbol_leb priority) (proposed b)) (winner-address (a, g) s i h)
          ∙ ap (greatest (symbol_leb priority)) e
          ∙ h,
      λ h.
          final-In groups s s.new_address (proposed s.new_address)
            ((In-groups s.new_address (proposed s.new_address)).1
              (non_empty_of_greatest (symbol_leb priority) (proposed s.new_address) s h))
            h,
    )
