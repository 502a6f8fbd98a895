-- ===== src/Callgraph/Gap/Result.antt =====
-- gap_fill of rom_analyzer/callgraph.py pairs one to one what the call graph connects to the matches
-- it starts from.
use rom_analyzer.Common.{
  ℕ, suc, ◌≡◌, ◌≢◌, sym, subst, ◌↔◌, ◌⊎◌, inl, inr, false, Option, some, List, [], ◌∷◌, ◌++◌, map,
  arith, ◌==◌, nat_eq, length, In, In-append, map-In, In-map, Distinct, All-of_In, In-All,
  Bool-cases,
}
use rom_analyzer.Common.Dict.{Dict, keys, get, put, get-put, keys-put, dict_of, keys-dict_of}
use rom_analyzer.Types.{MatchedFunction}
use rom_analyzer.Callgraph.{HeadlessRun}
use rom_analyzer.Callgraph.Gap.{
  Gap, is_blocked, add_pair, gap_match, aligned_callees, start_gap, final_gap, gap_fill,
  all_callees,
}
use rom_analyzer.Callgraph.Similarity.{is_unrelated}
use rom_analyzer.Callgraph.Gap.Step.{IsNext, free_ref, free_new}
use rom_analyzer.Callgraph.Gap.Loop.{keeps_loop}

module _ (ref_run new_run : HeadlessRun) (images : Option (List ℕ × List ℕ)) where
  -- Two addresses are paired: from the start, or by the callees of a caller that is paired.
  pub data IsPaired (paired : Dict ℕ ℕ) : ℕ → ℕ → Type 0 where
    given : (r n : ℕ) → get paired r ≡ some n → IsPaired paired r n
    called :
        (r n caller new_caller : ℕ) (callees : List ℕ)
        → IsPaired paired caller new_caller
        → In (caller, callees) ref_run.callees
        → In (r, n) (aligned_callees ref_run new_run images new_caller callees)
        → is_unrelated ref_run new_run images r n ≡ false
        → IsPaired paired r n

  abbrev pub refs : List MatchedFunction → List ℕ
  refs = map (λ m. m.ref_address)

  abbrev pub news : List MatchedFunction → List ℕ
  news = map (λ m. m.new_address)

  -- What the variables say of each other, `old` being those at the start.
  record IsConsistent (old g : Gap) : Type 0 where
    old_refs : (a : ℕ) → In a (keys old.matched_ref) → In a (keys g.matched_ref)
    old_news : (a : ℕ) → In a old.matched_new → In a g.matched_new
    found_refs : (a : ℕ) → In a (refs g.results) → In a (keys g.matched_ref)
    found_news : (a : ℕ) → In a (news g.results) → In a g.matched_new
    fresh_refs : (a : ℕ) → In a (refs g.results) → In a (keys old.matched_ref) → ⊥
    fresh_news : (a : ℕ) → In a (news g.results) → In a old.matched_new → ⊥
    distinct_refs : Distinct (refs g.results)
    distinct_news : Distinct (news g.results)
    paired : (r n : ℕ) → get g.matched_ref r ≡ some n → IsPaired old.matched_ref r n
    found :
        (m : MatchedFunction)
        → In m g.results
        → IsPaired old.matched_ref m.ref_address m.new_address

  add_address :
      (f : MatchedFunction → ℕ) (ms : List MatchedFunction) (m : MatchedFunction) (a : ℕ)
      → In a (map f (ms ++ m ∷ [])) ↔ (In a (map f ms) ⊎ (a ≡ f m))
  add_address f [] m a = ground arith
  add_address f (x ∷ ms) m a = ground (arith, add_address f ms m a)

  Distinct-add :
      (f : MatchedFunction → ℕ) (ms : List MatchedFunction) (m : MatchedFunction)
      → Distinct (map f ms)
      → (In (f m) (map f ms) → ⊥)
      → Distinct (map f (ms ++ m ∷ []))
  Distinct-add f [] m d h = (tt, tt)
  Distinct-add f (x ∷ ms) m d h = (
    All-of_In (map f (ms ++ m ∷ []))
        (λ a i. ground (arith, add_address f ms m a, In-All (λ t. f x ≢ t) (map f ms) d.0 a)),
    Distinct-add f ms m d.1 (λ i. h (inr i)),
  )

  related :
      (g : Gap) (r n : ℕ)
      → is_blocked ref_run new_run images g r n ≡ false
      → is_unrelated ref_run new_run images r n ≡ false
  unfolding is_blocked
  related g r n h = ground arith

  paired-put :
      (d old : Dict ℕ ℕ) (r n : ℕ)
      → IsPaired old r n
      → ((x y : ℕ) → get d x ≡ some y → IsPaired old x y)
      → (x y : ℕ) → get (put d r n) x ≡ some y
      → IsPaired old x y
  paired-put d old r n pair h x y e = elim (Bool-cases (r == x)) [
    | inl t ↦
        let p : r ≡ x = ground arith in
        let q : n ≡ y = ground (arith, get-put d r x n) in
        subst (λ a. IsPaired old a y) p (subst (IsPaired old r) q pair)
    | inr t ↦ h x y (ground (arith, get-put d r x n))
  ]

  IsConsistent-add :
      (old g : Gap) (r n : ℕ)
      → IsNext ref_run new_run images g r n
      → IsConsistent old g
      → IsConsistent old (add_pair ref_run new_run images g r n)
  unfolding add_pair gap_match
  IsConsistent-add old g r n h c =
      let m = gap_match ref_run new_run images r n in
      let no_ref = free_ref ref_run new_run images g r n h.free in
      let no_new = free_new ref_run new_run images g r n h.free in
      let pair : IsPaired old.matched_ref r n =
        called r n h.caller h.new_caller h.callees (c.paired h.caller h.new_caller h.is_paired)
          h.is_caller h.is_aligned (related g r n h.free) in
      let key = λ (a : ℕ). keys-put g.matched_ref r n a in
      let new_refs = λ (a : ℕ). add_address (λ m. m.ref_address) g.results m a in
      let new_news = λ (a : ℕ). add_address (λ m. m.new_address) g.results m a in
      record {
        old_refs = λ a i. (key a).1 (inl (c.old_refs a i));
        old_news = λ a i. inr (c.old_news a i);
        found_refs = λ a i. ground (arith, key a, new_refs a, c.found_refs a);
        found_news = λ a i. ground (arith, new_news a, c.found_news a);
        fresh_refs = λ a i j. ground (arith, new_refs a, c.fresh_refs a, no_ref, c.old_refs r);
        fresh_news = λ a i j. ground (arith, new_news a, c.fresh_news a, no_new, c.old_news n);
        distinct_refs =
            Distinct-add (λ m. m.ref_address) g.results m c.distinct_refs
              (λ i. no_ref (c.found_refs r i));
        distinct_news =
            Distinct-add (λ m. m.new_address) g.results m c.distinct_news
              (λ i. no_new (c.found_news n i));
        paired = paired-put g.matched_ref old.matched_ref r n pair c.paired;
        found = λ x i. elim ((In-append x g.results (m ∷ [])).0 i) [
          | inl k ↦ c.found x k
          | inr (inl e) ↦
              subst (λ (t : MatchedFunction). IsPaired old.matched_ref t.ref_address t.new_address)
                (sym e) pair
          | inr (inr k) ↦ absurd k
        ];
      }

  start_IsConsistent :
      (existing : List MatchedFunction)
      → IsConsistent
          (start_gap ref_run new_run images existing)
          (start_gap ref_run new_run images existing)
  unfolding start_gap
  start_IsConsistent existing = record {
    old_refs = λ a i. i;
    old_news = λ a i. i;
    found_refs = λ a i. absurd i;
    found_news = λ a i. absurd i;
    fresh_refs = λ a i j. i;
    fresh_news = λ a i j. i;
    distinct_refs = tt;
    distinct_news = tt;
    paired = λ r n e. given r n e;
    found = λ m i. absurd i;
  }

  start_refs :
      (existing : List MatchedFunction) (m : MatchedFunction) (a : ℕ)
      → In a (refs existing)
      → In a (keys (start_gap ref_run new_run images existing).matched_ref)
  unfolding start_gap
  start_refs existing m a i =
      let (x, k, p) = In-map (λ (m : MatchedFunction). m.ref_address) a existing i in
      let pairs : List (ℕ × ℕ) = map (λ m. (m.ref_address, m.new_address)) existing in
      let j = map-In {B = ℕ × ℕ} (λ m. (m.ref_address, m.new_address)) x existing k in
      let l = map-In (λ (q : ℕ × ℕ). q.0) (x.ref_address, x.new_address) pairs j in
      (keys-dict_of pairs a).1 (subst (λ t. In t (map (λ q. q.0) pairs)) p l)

  start_news :
      (existing : List MatchedFunction) (a : ℕ)
      → In a (news existing)
      → In a (start_gap ref_run new_run images existing).matched_new
  unfolding start_gap
  start_news existing a i = i

  module _ (existing : List MatchedFunction) where
    abbrev pub known : Dict ℕ ℕ
    known = dict_of (map (λ m. (m.ref_address, m.new_address)) existing)

    start : Gap
    start = start_gap ref_run new_run images existing

    consistent : IsConsistent start (final_gap ref_run new_run images existing)
    unfolding start final_gap
    consistent =
        keeps_loop ref_run new_run images (IsConsistent (start_gap ref_run new_run images existing))
          (IsConsistent-add (start_gap ref_run new_run images existing))
          (suc (length (all_callees ref_run new_run images)))
          (start_gap ref_run new_run images existing) (start_IsConsistent existing)

    -- Every match of gap_fill is connected to the existing matches: a caller of its function is
    -- paired, by a match or in the same way, and the alignment of the callees of that pair joins
    -- its two addresses, whose bytes are not unrelated.
    pub gap_fill-IsPaired :
        (m : MatchedFunction)
        → In m (gap_fill ref_run new_run images existing)
        → IsPaired known m.ref_address m.new_address
    unfolding gap_fill
    gap_fill-IsPaired m i = unfold start start_gap in consistent.found m i

    -- No two matches of gap_fill share an address on either side, and none has an address that an
    -- existing match has on that side.
    pub gap_fill-IsOneToOne :
        Distinct (refs (gap_fill ref_run new_run images existing))
        × Distinct (news (gap_fill ref_run new_run images existing))
        × ((m : MatchedFunction)
            → In m (gap_fill ref_run new_run images existing)
            → (In m.ref_address (refs existing) → ⊥) × (In m.new_address (news existing) → ⊥))
    unfolding gap_fill start
    gap_fill-IsOneToOne = (
      consistent.distinct_refs,
      consistent.distinct_news,
      λ m i. (
        λ k.
            consistent.fresh_refs m.ref_address (map-In (λ m. m.ref_address) m results i)
              (start_refs existing m m.ref_address k),
        λ k.
            consistent.fresh_news m.new_address (map-In (λ m. m.new_address) m results i)
              (start_news existing m.new_address k),
      ),
    )
      where
        results : List MatchedFunction
        results = (final_gap ref_run new_run images existing).results
