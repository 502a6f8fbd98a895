-- ===== src/Merge/Disputes.antt =====
-- arbitrate_symbols of rom_analyzer/merge.py: the disagreements that it records.
use rom_analyzer.Common.{
  ℕ, ◌≡◌, ◌≢◌, refl, sym, ap, subst, ◌∙◌, ◌↔◌, inl, inr, true, not, some, List, [], ◌∷◌, map, arith,
  ◌==◌, nat_eq, In, In-append, Bool-cases, any_iff, any_of_In,
}
use rom_analyzer.Common.Text.{text_eq, text_beq_iff}
use rom_analyzer.Common.Dict.Group.{non_empty-some}
use rom_analyzer.Common.Sort.{sort, max_by, greatest}
use rom_analyzer.Types.{PropagatedSymbol}
use rom_analyzer.Merge.{
  Priorities, symbol_leb, Disagreement, pair_leb, names_differ, arbitrate_group, arbitrate_groups,
  arbitrate_symbols,
}
use rom_analyzer.Merge.Symbols.{Groups, groups, proposed, In-groups, non_empty_of_greatest}

-- Two of the symbols have different names.
abbrev pub HasTwoNames : List PropagatedSymbol → Type 0
HasTwoNames g =
    (s : PropagatedSymbol) × (t : PropagatedSymbol) × In s g × In t g × (s.name ≢ t.name)

names_differ_iff :
    (s : PropagatedSymbol) (g : List PropagatedSymbol)
    → (names_differ s g ≡ true) ↔ HasTwoNames (s ∷ g)
names_differ_iff s g = (forth, back)
  where
    forth : names_differ s g ≡ true → HasTwoNames (s ∷ g)
    forth h =
        let (t, m, ne) =
          any_iff (λ (t : PropagatedSymbol). not (t.name == s.name)) g (unfold names_differ in h) in
        (t, s, inr m, inl refl, λ e. ground (arith, text_beq_iff t.name s.name))

    differs : (t : PropagatedSymbol) → In t (s ∷ g) → t.name ≢ s.name → names_differ s g ≡ true
    differs t (inl e) ne = absurd (ne (ap (λ (u : PropagatedSymbol). u.name) e))
    differs t (inr m) ne =
        unfold names_differ in
        any_of_In (λ (t : PropagatedSymbol). not (t.name == s.name)) t g m
          (ground (arith, text_beq_iff t.name s.name))

    back : HasTwoNames (s ∷ g) → names_differ s g ≡ true
    back (t, u, m, n, ne) = elim (Bool-cases (t.name == s.name)) [
      | inl same ↦ differs u n (λ e. ne (ground (arith, text_beq_iff t.name s.name)))
      | inr other ↦ differs t m (λ e. ground (arith, text_beq_iff t.name s.name))
    ]

module _ (priority : Priorities) where
  -- What a recorded disagreement says about the symbols of its address.
  pub record IsDisagreement (symbols : List PropagatedSymbol) (d : Disagreement) : Type 0 where
    pub two_names : HasTwoNames (proposed priority symbols d.new_address)
    pub candidates :
        d.candidates
        ≡ sort pair_leb (
            map
              (λ (t : PropagatedSymbol). (t.reference, t.name))
              (proposed priority symbols d.new_address))
    pub best : PropagatedSymbol
    pub wins : greatest (symbol_leb priority) (proposed priority symbols d.new_address) ≡ some best
    pub winner : d.winner ≡ best.name

  abbrev disputes : ℕ → List PropagatedSymbol → List Disagreement
  disputes a g = (arbitrate_group priority a g).1

  record IsDispute (a : ℕ) (g : List PropagatedSymbol) (d : Disagreement) : Type 0 where
    at : d.new_address ≡ a
    two_names : HasTwoNames g
    candidates :
        d.candidates ≡ sort pair_leb (map (λ (t : PropagatedSymbol). (t.reference, t.name)) g)
    best : PropagatedSymbol
    wins : greatest (symbol_leb priority) g ≡ some best
    winner : d.winner ≡ best.name

  In-disputes :
      (a : ℕ) (g : List PropagatedSymbol) (d : Disagreement) → In d (disputes a g) ↔ IsDispute a g d
  unfolding arbitrate_group
  In-disputes a [] d = (λ m. absurd m, λ h. cc (h.wins))
  In-disputes a (s ∷ g) d = (
    λ m. record {
      at = ground arith;
      two_names = (names_differ_iff s g).0 (ground arith);
      candidates = ground arith;
      best = max_by (symbol_leb priority) s g;
      wins = refl;
      winner = ground arith;
    },
    λ h. ground (arith, (names_differ_iff s g).1 h.two_names, h.at, h.candidates, h.wins, h.winner),
  )

  In-disagreements :
      (groups : Groups) (d : Disagreement)
      → In d (arbitrate_groups priority groups).1
      → (p : ℕ × List PropagatedSymbol) × In p groups × IsDispute p.0 p.1 d
  unfolding arbitrate_groups
  In-disagreements [] d m = absurd m
  In-disagreements ((a, g) ∷ groups) d m =
      elim ((In-append d (disputes a g) (arbitrate_groups priority groups).1).0 m) [
        | inl here ↦ ((a, g), inl refl, (In-disputes a g d).0 here)
        | inr there ↦ let (p, i, h) = In-disagreements groups d there in (p, inr i, h)
      ]

  disagreements-In :
      (groups : Groups) (d : Disagreement) (a : ℕ) (g : List PropagatedSymbol)
      → In (a, g) groups
      → IsDispute a g d
      → In d (arbitrate_groups priority groups).1
  unfolding arbitrate_groups
  disagreements-In [] d a g m h = absurd m
  disagreements-In ((b, f) ∷ groups) d a g m h =
      (In-append d (disputes b f) (arbitrate_groups priority groups).1).1 (elim m [
        | inl e ↦ inl (
            subst (λ (p : ℕ × List PropagatedSymbol). In d (disputes p.0 p.1)) e
              ((In-disputes a g d).1 h))
        | inr n ↦ inr (disagreements-In groups d a g n h)
      ])

  -- A disagreement is recorded exactly for the addresses for which two different names are
  -- proposed, with all the proposals, sorted, and the name of the winner.
  pub arbitrate_symbols-disagreements_iff :
      (symbols : List PropagatedSymbol) (d : Disagreement)
      → In d (arbitrate_symbols priority symbols).1 ↔ IsDisagreement symbols d
  unfolding arbitrate_symbols
  arbitrate_symbols-disagreements_iff symbols d = (
    λ m.
        let ((a, g), i, h) = In-disagreements (groups priority symbols) d m in
        let e : proposed priority symbols d.new_address ≡ g =
          ap (proposed priority symbols) h.at
          ∙ non_empty-some (proposed priority symbols a) g ((In-groups priority symbols a g).0 i) in
        record {
          two_names = subst HasTwoNames (sym e) h.two_names;
          candidates = rw e h.candidates;
          best = h.best;
          wins = ap (greatest (symbol_leb priority)) e ∙ h.wins;
          winner = h.winner;
        },
    λ h.
        disagreements-In (groups priority symbols) d d.new_address
          (proposed priority symbols d.new_address)
          ((In-groups priority symbols d.new_address (proposed priority symbols d.new_address)).1 (
            non_empty_of_greatest (symbol_leb priority) (proposed priority symbols d.new_address)
              h.best h.wins))
          (record {
            at = refl;
            two_names = h.two_names;
            candidates = h.candidates;
            best = h.best;
            wins = h.wins;
            winner = h.winner;
          }),
  )
