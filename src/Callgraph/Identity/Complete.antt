-- ===== src/Callgraph/Identity/Complete.antt =====
-- That bytecode_identity_match of rom_analyzer/callgraph.py leaves no pair out.
use rom_analyzer.Common.{
  ℕ, ◌≤◌, ◌≡◌, refl, sym, ap, subst, ◌∙◌, ◌⊎◌, inl, inr, true, Option, none, some, List, [], ◌∷◌,
  map, nat_eq, arith, elem_iff, In, In-All, Option-cases,
}
use rom_analyzer.Common.Dict.{Dict}
use rom_analyzer.Common.Sort.{by_key, In-sort}
use rom_analyzer.Types.{ReferenceSymbol, MatchedFunction}
use rom_analyzer.Callgraph.{HeadlessRun, sorted_entries}
use rom_analyzer.Callgraph.Identity.{
  slice, has_size, locate, identity, bytecode_identity_match, gap_to,
}
use rom_analyzer.Callgraph.Identity.Unique.{find_unique_aligned_iff}
use rom_analyzer.Callgraph.Identity.Matches.{
  IsBetween, IsIdentical, IsRest, IsRest-tail, IsOneToOne, found, located, found_none, found_some,
  sorted_entries-IsRest, bytecode_identity_match-IsOneToOne,
}

module _ (ref_bytes new_bytes : List ℕ) (ref_run : HeadlessRun) (by_addr : Dict ℕ ReferenceSymbol)
    (min_size max_size : ℕ) where
  -- One of the two addresses has a match already, or is in one of `ms`.
  abbrev pub IsTaken : List ℕ → List ℕ → List MatchedFunction → ℕ → ℕ → Type 0
  IsTaken refs news ms addr q =
      In addr refs
      ⊎ In q news
      ⊎ ((m : MatchedFunction) × In m ms × ((m.ref_address ≡ addr) ⊎ (m.new_address ≡ q)))

  abbrev looped : List ℕ → List ℕ → List ℕ → List MatchedFunction
  looped = found ref_bytes new_bytes ref_run by_addr min_size max_size

  abbrev at_entry : List ℕ → List ℕ → ℕ → ℕ → Option ℕ
  at_entry = located ref_bytes new_bytes ref_run by_addr min_size max_size

  abbrev Same : ℕ → ℕ → ℕ → Type 0
  Same = IsIdentical ref_bytes new_bytes ref_run by_addr min_size max_size

  abbrev Between : ℕ → ℕ → Type 0
  Between = IsBetween ref_bytes new_bytes ref_run by_addr min_size max_size

  abbrev Rest : List ℕ → Type 0
  Rest = IsRest ref_bytes new_bytes ref_run by_addr min_size max_size

  located_or :
      (refs news : List ℕ) (addr size q : ℕ)
      → Same addr q size
      → In addr refs ⊎ In q news ⊎ (at_entry refs news addr size ≡ some q)
  unfolding locate has_size
  located_or refs news addr size q v =
      let unique =
        (find_unique_aligned_iff new_bytes (slice ref_bytes addr size) 4 q).1 (v.stands, v.once) in
      ground (arith, elem_iff addr refs, elem_iff q news, unique, v.at_least, v.at_most, v.inside)

  -- The gap is the size, unless the same entry stands there again.
  gap_or :
      (addr size : ℕ) (rest : List ℕ)
      → Rest (addr ∷ rest)
      → Between addr size
      → (gap_to addr rest ≡ size) ⊎ In addr rest
  unfolding gap_to
  gap_or addr size [] v (next, m, lt, only, e) =
      absurd (ground (arith, v.passed next addr m (inl refl)))
  gap_or addr size (b ∷ rest) v (next, m, lt, only, e) = ground (
    arith,
    v.passed next addr m (inl refl),
    In-All (λ e. (e ≤ addr) ⊎ (next ≤ e)) ref_run.functions only b (v.entry b (inr (inl refl))),
    In-All (λ c. by_key (λ e. e) addr c ≡ true) (b ∷ rest) v.ordered.0 b (inl refl),
    In-All (λ c. by_key (λ e. e) b c ≡ true) rest v.ordered.1.0 next,
  )

  abbrev match : ℕ → ℕ → MatchedFunction
  match = identity ref_bytes new_bytes ref_run by_addr min_size max_size

  -- What is taken behind a new match is taken.
  taken_cons :
      (refs news : List ℕ) (ms : List MatchedFunction) (x p addr q : ℕ)
      → IsTaken (x ∷ refs) (p ∷ news) ms addr q
      → IsTaken refs news (match x p ∷ ms) addr q
  unfolding identity
  taken_cons refs news ms x p addr q (inl (inl e)) = inr (inr (match x p, inl refl, inl (sym e)))
  taken_cons refs news ms x p addr q (inl (inr m)) = inl m
  taken_cons refs news ms x p addr q (inr (inl (inl e))) =
      inr (inr (match x p, inl refl, inr (sym e)))
  taken_cons refs news ms x p addr q (inr (inl (inr m))) = inr (inl m)
  taken_cons refs news ms x p addr q (inr (inr (m, i, o))) = inr (inr (m, inr i, o))

  taken_head :
      (refs news : List ℕ) (ms : List MatchedFunction) (addr p q : ℕ)
      → IsTaken refs news (match addr p ∷ ms) addr q
  unfolding identity
  taken_head refs news ms addr p q = inr (inr (match addr p, inl refl, inl refl))

  -- An entry that is skipped is taken, or stands there again.
  passed :
      (refs news rest : List ℕ) (x addr size q : ℕ) (ms : List MatchedFunction)
      → Rest (x ∷ rest)
      → In addr (x ∷ rest)
      → Between addr size
      → Same addr q size
      → at_entry refs news x (gap_to x rest) ≡ none
      → (In addr rest → IsTaken refs news ms addr q)
      → IsTaken refs news ms addr q
  passed refs news rest x addr size q ms v (inr n) b s e later = later n
  passed refs news rest x addr size q ms v (inl same) b s e later =
      elim (gap_or addr size rest (subst (λ y. Rest (y ∷ rest)) (sym same) v) b) [
        | inr n ↦ later n
        | inl gap ↦ elim (located_or refs news addr size q s) [
          | inl m ↦ inl m
          | inr (inl m) ↦ inr (inl m)
          | inr (inr h) ↦
              let none_is : none ≡ some q =
                sym e
                ∙ ap (λ y. at_entry refs news y (gap_to y rest)) (sym same)
                ∙ ap (at_entry refs news addr) gap
                ∙ h in
              cc
        ]
      ]

  loop_taken :
      (refs news entries : List ℕ) (addr size q : ℕ)
      → Rest entries
      → In addr entries
      → Between addr size
      → Same addr q size
      → IsTaken refs news (looped refs news entries) addr q
  loop_taken refs news [] addr size q v m b s = absurd m
  loop_taken refs news (x ∷ rest) addr size q v m b s =
      let later = λ (refs' news' : List ℕ) (n : In addr rest).
        loop_taken refs' news' rest addr size q
          (IsRest-tail ref_bytes new_bytes ref_run by_addr min_size max_size x rest v) n b s in
      elim (Option-cases (at_entry refs news x (gap_to x rest))) [
        | inl e ↦
            subst (λ ms. IsTaken refs news ms addr q)
              (sym (
                found_none ref_bytes new_bytes ref_run by_addr min_size max_size refs news rest x
                  e))
              (passed refs news rest x addr size q (looped refs news rest) v m b s e
                (later refs news))
        | inr (p, e) ↦
            subst (λ ms. IsTaken refs news ms addr q)
              (sym (
                found_some ref_bytes new_bytes ref_run by_addr min_size max_size refs news rest x p
                  e))
              (elim m [
                | inl same ↦
                    subst
                      (λ y.
                        IsTaken refs news (match y p ∷ looped (x ∷ refs) (p ∷ news) rest) addr q)
                      same (taken_head refs news (looped (x ∷ refs) (p ∷ news) rest) addr p q)
                | inr n ↦
                    taken_cons refs news (looped (x ∷ refs) (p ∷ news) rest) x p addr q
                      (later (x ∷ refs) (p ∷ news) n)
              ])
      ]

  -- For every entry that reaches to the next one, and whose bytes have a size in the limits and stand at
  -- one multiple of 4 in the new image, one of the two addresses is taken.
  pub record IsComplete (refs news : List ℕ) (ms : List MatchedFunction) : Type 0 where
    pub taken :
        (addr size q : ℕ)
        → In addr ref_run.functions
        → Between addr size
        → Same addr q size
        → IsTaken refs news ms addr q

  -- Every match of bytecode_identity_match joins an entry of the reference that has no match yet, of
  -- a size in the limits, to an address that has no match yet and is the only multiple of 4 at which
  -- the bytes from the entry to the next one stand in the new image; the size of the last entry is 0.
  -- No two of the matches share an address on either side. No such pair is left out: for every entry
  -- with a next one and such an address, one of the two has a match, now or before.
  pub bytecode_identity_match-IsComplete :
      (existing : List MatchedFunction)
      → let refs = map (λ (m : MatchedFunction). m.ref_address) existing in
        let news = map (λ (m : MatchedFunction). m.new_address) existing in
        let matches =
          bytecode_identity_match ref_bytes new_bytes ref_run by_addr min_size max_size existing in
        IsOneToOne ref_bytes new_bytes ref_run by_addr min_size max_size refs news matches
        × IsComplete refs news matches
  unfolding bytecode_identity_match
  bytecode_identity_match-IsComplete existing = (
    bytecode_identity_match-IsOneToOne ref_bytes new_bytes ref_run by_addr min_size max_size
        existing,
    record {
      taken = λ addr size q m b s.
          loop_taken (map (λ m. m.ref_address) existing) (map (λ m. m.new_address) existing)
            (sorted_entries ref_run) addr size q all
            ((In-sort (by_key (λ e. e)) addr ref_run.functions).1 m) b s;
    },
  )
    where
      all : Rest (sorted_entries ref_run)
      all = sorted_entries-IsRest ref_bytes new_bytes ref_run by_addr min_size max_size
