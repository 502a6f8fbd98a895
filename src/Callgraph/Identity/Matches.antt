-- ===== src/Callgraph/Identity/Matches.antt =====
-- What bytecode_identity_match of rom_analyzer/callgraph.py pairs, and that it pairs one to one.
use rom_analyzer.Common.{
  ℕ, ◌+◌, ◌≤◌, ◌≡◌, sym, ap, subst, ◌∙◌, inl, inr, Option, none, some, List, [], ◌∷◌, map, arith,
  ◌<◌, ◌⊎◌, refl, true, ltb, All, In-All, Bool-cases, nat_eq, length, elem_iff, In, Distinct,
  All-of_In, In-map, Option-cases,
}
use rom_analyzer.Common.Dict.{Dict}
use rom_analyzer.Common.Sort.{by_key, by_key-IsOrder, IsSorted, sort-IsSorted, In-sort}
use rom_analyzer.Types.{ReferenceSymbol, MatchedFunction}
use rom_analyzer.Callgraph.{HeadlessRun, sorted_entries}
use rom_analyzer.Callgraph.Identity.{
  slice, has_size, locate, identity, identity_loop, find_unique_aligned, bytecode_identity_match,
  gap_to,
}
use rom_analyzer.Callgraph.Identity.Unique.{IsAlignedAt, find_unique_aligned_iff}

module _ (ref_bytes new_bytes : List ℕ) (ref_run : HeadlessRun) (by_addr : Dict ℕ ReferenceSymbol)
    (min_size max_size : ℕ) where
  -- The function at `addr` reaches to the next entry.
  abbrev pub IsBetween : ℕ → ℕ → Type 0
  IsBetween addr size =
      (next : ℕ) × In next ref_run.functions
      × (addr < next)
      × All (λ e. (e ≤ addr) ⊎ (next ≤ e)) ref_run.functions
      × (addr + size ≡ next)

  -- The last entry has the size 0.
  abbrev pub IsExtent : ℕ → ℕ → Type 0
  IsExtent addr size = IsBetween addr size ⊎ (size ≡ 0)

  -- The bytes of the function stand once, at a multiple of 4, in the new image.
  pub record IsIdentical (addr new_addr size : ℕ) : Type 0 where
    pub at_least : min_size ≤ size
    pub at_most : size ≤ max_size
    pub inside : addr + size ≤ length ref_bytes
    pub stands : IsAlignedAt new_bytes (slice ref_bytes addr size) 4 new_addr
    pub once : (q : ℕ) → IsAlignedAt new_bytes (slice ref_bytes addr size) 4 q → q ≡ new_addr

  locate_lem :
      (refs news : List ℕ) (addr size q : ℕ)
      → locate ref_bytes new_bytes ref_run by_addr min_size max_size refs news addr size ≡ some q
      → (In addr refs → ⊥) × (In q news → ⊥) × IsIdentical addr q size
  unfolding locate has_size
  locate_lem refs news addr size q h =
      let needle = slice ref_bytes addr size in
      elim (Option-cases (find_unique_aligned new_bytes needle 4)) [
        | inl e ↦ absurd (ground arith)
        | inr (k, e) ↦
            let same : k ≡ q = ground arith in
            let (a, once) = (find_unique_aligned_iff new_bytes needle 4 q).0 (e ∙ ap some same) in
            (
              ground (arith, elem_iff addr refs),
              ground (arith, elem_iff q news, same),
              record {
                at_least = ground arith;
                at_most = ground arith;
                inside = ground arith;
                stands = a;
                once = once;
              },
            )
      ]

  abbrev pub found : List ℕ → List ℕ → List ℕ → List MatchedFunction
  found = identity_loop ref_bytes new_bytes ref_run by_addr min_size max_size

  abbrev pub located : List ℕ → List ℕ → ℕ → ℕ → Option ℕ
  located = locate ref_bytes new_bytes ref_run by_addr min_size max_size

  pub found_none :
      (refs news rest : List ℕ) (addr : ℕ)
      → located refs news addr (gap_to addr rest) ≡ none
      → found refs news (addr ∷ rest) ≡ found refs news rest
  unfolding identity_loop
  found_none refs news rest addr e = ground arith

  pub found_some :
      (refs news rest : List ℕ) (addr q : ℕ)
      → located refs news addr (gap_to addr rest) ≡ some q
      → found refs news (addr ∷ rest)
        ≡ identity ref_bytes new_bytes ref_run by_addr min_size max_size addr q
          ∷ found (addr ∷ refs) (q ∷ news) rest
  unfolding identity_loop
  found_some refs news rest addr q e = ground arith

  -- A match of the loop: it is new on both sides, and the function has an entry, and is identical.
  abbrev pub IsNewMatch : List ℕ → List ℕ → MatchedFunction → Type 0
  IsNewMatch refs news m =
      (In m.ref_address refs → ⊥)
      × (In m.new_address news → ⊥)
      × In m.ref_address ref_run.functions
      × ((size : ℕ) × IsExtent m.ref_address size × IsIdentical m.ref_address m.new_address size)

  -- The matches of a list are new, and no two share an address on either side.
  abbrev pub IsOneToOne : List ℕ → List ℕ → List MatchedFunction → Type 0
  IsOneToOne refs news ms =
      ((m : MatchedFunction) → In m ms → IsNewMatch refs news m)
      × Distinct (map (λ m. m.ref_address) ms)
      × Distinct (map (λ m. m.new_address) ms)

  -- What is left of the entries, in their order: no other entry is behind its first one.
  pub record IsRest (entries : List ℕ) : Type 0 where
    pub ordered : IsSorted (by_key (λ e. e)) entries
    pub entry : (e : ℕ) → In e entries → In e ref_run.functions
    pub passed : (e a : ℕ) → In e ref_run.functions → In a entries → In e entries ⊎ (e ≤ a)

  pub IsRest-tail : (addr : ℕ) (rest : List ℕ) → IsRest (addr ∷ rest) → IsRest rest
  IsRest-tail addr rest v = record {
    ordered = v.ordered.1;
    entry = λ e m. v.entry e (inr m);
    passed = λ e a m n. ground (
      arith,
      v.passed e a m (inr n),
      In-All (λ b. by_key (λ e. e) addr b ≡ true) rest v.ordered.0 a n,
    );
  }

  gap_to-IsExtent :
      (addr : ℕ) (rest : List ℕ) → IsRest (addr ∷ rest) → IsExtent addr (gap_to addr rest)
  unfolding gap_to
  gap_to-IsExtent addr [] v = inr refl
  gap_to-IsExtent addr (next ∷ rest) v = elim (Bool-cases (ltb addr next)) [
    | inl lt ↦ inl (
      next,
      v.entry next (inr (inl refl)),
      ground arith,
      All-of_In ref_run.functions (λ e m. ground (
        arith,
        v.passed e addr m (inl refl),
        In-All (λ b. by_key (λ e. e) next b ≡ true) rest v.ordered.1.0 e,
      )),
      ground arith,
    )
    | inr ge ↦ inr (ground arith)
  ]

  add_match :
      (refs news : List ℕ) (n : MatchedFunction) (ms : List MatchedFunction)
      → IsNewMatch refs news n
      → IsOneToOne (n.ref_address ∷ refs) (n.new_address ∷ news) ms
      → IsOneToOne refs news (n ∷ ms)
  add_match refs news n ms new (all_new, distinct_refs, distinct_news) = (
    λ m i. elim i [
      | inl e ↦ subst (IsNewMatch refs news) (sym e) new
      | inr k ↦
          let (r, s, entry, extent) = all_new m k in (λ t. r (inr t), λ t. s (inr t), entry, extent)
    ],
    (
      All-of_In (map (λ m. m.ref_address) ms) (λ a i e.
          let (m, k, p) = In-map (λ (m : MatchedFunction). m.ref_address) a ms i in
          (all_new m k).0 (inl (p ∙ sym e))),
      distinct_refs,
    ),
    (
      All-of_In (map (λ m. m.new_address) ms) (λ a i e.
          let (m, k, p) = In-map (λ (m : MatchedFunction). m.new_address) a ms i in
          (all_new m k).1 (inl (p ∙ sym e))),
      distinct_news,
    ),
  )

  add_identity :
      (refs news : List ℕ) (addr q size : ℕ) (ms : List MatchedFunction)
      → (In addr refs → ⊥) × (In q news → ⊥) × IsIdentical addr q size
      → In addr ref_run.functions
      → IsExtent addr size
      → IsOneToOne (addr ∷ refs) (q ∷ news) ms
      → IsOneToOne refs news
          (identity ref_bytes new_bytes ref_run by_addr min_size max_size addr q ∷ ms)
  unfolding identity
  add_identity refs news addr q size ms (r, n, i) m x ih =
      add_match refs news (identity ref_bytes new_bytes ref_run by_addr min_size max_size addr q) ms
        (r, n, m, (size, x, i)) ih

  found-IsOneToOne :
      (refs news entries : List ℕ) → IsRest entries → IsOneToOne refs news (found refs news entries)
  found-IsOneToOne refs news [] v = unfold identity_loop in (λ m i. absurd i, tt, tt)
  found-IsOneToOne refs news (addr ∷ rest) v =
      elim (Option-cases (located refs news addr (gap_to addr rest))) [
        | inl e ↦
            subst (IsOneToOne refs news) (sym (found_none refs news rest addr e))
              (found-IsOneToOne refs news rest (IsRest-tail addr rest v))
        | inr (q, e) ↦ subst (IsOneToOne refs news) (sym (found_some refs news rest addr q e)) (
            add_identity refs news addr q (gap_to addr rest) (found (addr ∷ refs) (q ∷ news) rest)
              (locate_lem refs news addr (gap_to addr rest) q e) (v.entry addr (inl refl))
              (gap_to-IsExtent addr rest v)
              (found-IsOneToOne (addr ∷ refs) (q ∷ news) rest (IsRest-tail addr rest v)))
      ]

  pub sorted_entries-IsRest : IsRest (sorted_entries ref_run)
  sorted_entries-IsRest = record {
    ordered = sort-IsSorted (by_key (λ e. e)) (by_key-IsOrder (λ e. e)) ref_run.functions;
    entry = λ e m. (In-sort (by_key (λ e. e)) e ref_run.functions).0 m;
    passed = λ e a m n. inl ((In-sort (by_key (λ e. e)) e ref_run.functions).1 m);
  }

  -- Every match of bytecode_identity_match joins an entry of the reference that has no match yet, of
  -- a size in the limits, to an address that has no match yet and is the only multiple of 4 at which
  -- the bytes from the entry to the next one stand in the new image; no two of the matches share an
  -- address on either side. The size of the last entry is 0.
  pub bytecode_identity_match-IsOneToOne :
      (existing : List MatchedFunction)
      → IsOneToOne
          (map (λ m. m.ref_address) existing)
          (map (λ m. m.new_address) existing)
          (bytecode_identity_match ref_bytes new_bytes ref_run by_addr min_size max_size existing)
  unfolding bytecode_identity_match
  bytecode_identity_match-IsOneToOne existing =
      found-IsOneToOne (map (λ m. m.ref_address) existing) (map (λ m. m.new_address) existing)
        (sorted_entries ref_run) sorted_entries-IsRest
