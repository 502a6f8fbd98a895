-- ===== src/Callgraph/Anchors/Pairs.antt =====
-- The anchors that a vector table gives in rom_analyzer/callgraph.py.
use rom_analyzer.Common.{
  ℕ, zero, suc, ◌+◌, ◌≤◌, ◌<◌, ◌≡◌, refl, sym, ap, subst, ◌∙◌, ◌⊎◌, inl, inr, true, false, ◌||◌,
  Option, none, some, List, [], ◌∷◌, map, arith, ◌==◌, nat_eq, elem, elem_iff, In, Distinct,
  All-of_In, Option-cases, Bool-cases,
}
use rom_analyzer.Common.Text.{Text, codes}
use rom_analyzer.Common.Dict.{Dict}
use rom_analyzer.Types.{ReferenceSymbol, MatchedFunction}
use rom_analyzer.Callgraph.{HeadlessRun}
use rom_analyzer.Callgraph.Identity.{full_score}
use rom_analyzer.Callgraph.Anchors.{
  anchor, table_loop, icu_slot, icu_name, bootstrap_icu_vector_table, vector_slot, vector_name,
  vector_anchors,
}

abbrev pub refs : List MatchedFunction → List ℕ
refs = map (λ m. m.ref_address)

abbrev pub news : List MatchedFunction → List ℕ
news = map (λ m. m.new_address)

-- What the anchors of the slots from `first` on are, `old_refs` and `old_news` being taken.
pub record IsTable (decode : ℕ → Option (ℕ × ℕ)) (first slots : ℕ) (old_refs old_news : List ℕ)
    (ms : List MatchedFunction) : Type 0 where
  -- Each is the pair of a slot, and new on both sides.
  pub from_slot :
      (m : MatchedFunction)
      → In m ms
      → (i : ℕ) × (first ≤ i)
        × (i < first + slots)
        × (decode i ≡ some (m.ref_address, m.new_address))
  pub new_refs : (a : ℕ) → In a (refs ms) → In a old_refs → ⊥
  pub new_news : (a : ℕ) → In a (news ms) → In a old_news → ⊥
  pub distinct_refs : Distinct (refs ms)
  pub distinct_news : Distinct (news ms)
  -- The pair of every slot has a handler that is taken.
  pub covers :
      (i r n : ℕ)
      → first ≤ i
      → i < first + slots
      → decode i ≡ some (r, n)
      → (In r (refs ms) ⊎ In r old_refs) ⊎ (In n (news ms) ⊎ In n old_news)

module _ (decode : ℕ → Option (ℕ × ℕ)) (name : ℕ → ℕ → Text) (source : Text) where
  abbrev loop : ℕ → ℕ → List ℕ → List ℕ → List MatchedFunction
  loop = table_loop decode name source

  loop_skip :
      (slots i : ℕ) (rs ns : List ℕ)
      → decode i ≡ none
      → loop (suc slots) i rs ns ≡ loop slots (suc i) rs ns
  unfolding table_loop
  loop_skip slots i rs ns e = ground arith

  loop_seen :
      (slots i r n : ℕ) (rs ns : List ℕ)
      → decode i ≡ some (r, n)
      → (elem r rs || elem n ns) ≡ true
      → loop (suc slots) i rs ns ≡ loop slots (suc i) rs ns
  unfolding table_loop
  loop_seen slots i r n rs ns e t = ground arith

  loop_take :
      (slots i r n : ℕ) (rs ns : List ℕ)
      → decode i ≡ some (r, n)
      → (elem r rs || elem n ns) ≡ false
      → loop (suc slots) i rs ns
        ≡ anchor (name i r) r n full_score source ∷ loop slots (suc i) (r ∷ rs) (n ∷ ns)
  unfolding table_loop
  loop_take slots i r n rs ns e t = ground arith

  -- A slot in front that gives no anchor.
  pass_over :
      (first slots : ℕ) (rs ns : List ℕ) (ms : List MatchedFunction)
      → ((r n : ℕ) → decode first ≡ some (r, n) → In r rs ⊎ In n ns)
      → IsTable decode (suc first) slots rs ns ms
      → IsTable decode first (suc slots) rs ns ms
  pass_over first slots rs ns ms taken t = record {
    from_slot = λ m k. let (i, low, high, e) = t.from_slot m k in (i, omega arith, omega arith, e);
    new_refs = t.new_refs;
    new_news = t.new_news;
    distinct_refs = t.distinct_refs;
    distinct_news = t.distinct_news;
    covers = λ i r n low high e. elim (Bool-cases (i == first)) [
      | inl q ↦
          let same : i ≡ first = ground arith in
          ground (arith, taken r n (ap decode (sym same) ∙ e))
      | inr q ↦ t.covers i r n (ground arith) (omega arith) e
    ];
  }

  take_up :
      (first slots : ℕ) (m : MatchedFunction) (rs ns : List ℕ) (ms : List MatchedFunction)
      → decode first ≡ some (m.ref_address, m.new_address)
      → (In m.ref_address rs → ⊥)
      → (In m.new_address ns → ⊥)
      → IsTable decode (suc first) slots (m.ref_address ∷ rs) (m.new_address ∷ ns) ms
      → IsTable decode first (suc slots) rs ns (m ∷ ms)
  take_up first slots m rs ns ms d no_r no_n t = record {
    from_slot = λ x k. elim k [
      | inl q ↦ (
        first,
        omega arith,
        omega arith,
        subst (λ (u : MatchedFunction). decode first ≡ some (u.ref_address, u.new_address)) (sym q)
            d,
      )
      | inr j ↦ let (i, low, high, e) = t.from_slot x j in (i, omega arith, omega arith, e)
    ];
    new_refs = λ a k j. ground (arith, t.new_refs a, no_r);
    new_news = λ a k j. ground (arith, t.new_news a, no_n);
    distinct_refs = (All-of_In (refs ms) (λ a k q. t.new_refs a k (inl (sym q))), t.distinct_refs);
    distinct_news = (All-of_In (news ms) (λ a k q. t.new_news a k (inl (sym q))), t.distinct_news);
    covers = λ i x y low high e. elim (Bool-cases (i == first)) [
      | inl q ↦
          let same : i ≡ first = ground arith in
          let pair : ◌≡◌ {A = Option (ℕ × ℕ)} (some (x, y)) (some (m.ref_address, m.new_address)) =
            sym e ∙ ap decode same ∙ d in
          let here : x ≡ m.ref_address = cc in inl (inl (inl here))
      | inr q ↦ ground (arith, t.covers i x y (ground arith) (omega arith) e)
    ];
  }

  end_of_IsTable : (first : ℕ) (rs ns : List ℕ) → IsTable decode first 0 rs ns []
  end_of_IsTable first rs ns = record {
    from_slot = λ m k. absurd k;
    new_refs = λ a k j. k;
    new_news = λ a k j. k;
    distinct_refs = tt;
    distinct_news = tt;
    covers = λ i r n low high e. absurd (omega arith);
  }

  loop_end : (i : ℕ) (rs ns : List ℕ) → loop 0 i rs ns ≡ []
  unfolding table_loop
  loop_end i rs ns = refl

  pub table_loop-IsTable :
      (slots i : ℕ) (rs ns : List ℕ)
      → IsTable decode i slots rs ns (table_loop decode name source slots i rs ns)
  table_loop-IsTable zero i rs ns =
      subst (IsTable decode i 0 rs ns) (sym (loop_end i rs ns)) (end_of_IsTable i rs ns)
  table_loop-IsTable (suc slots) i rs ns = elim (Option-cases (decode i)) [
    | inl e ↦ subst (IsTable decode i (suc slots) rs ns) (sym (loop_skip slots i rs ns e)) (
        pass_over i slots rs ns (loop slots (suc i) rs ns) (λ r n d. ground arith)
          (table_loop-IsTable slots (suc i) rs ns))
    | inr ((r, n), e) ↦ elim (Bool-cases (elem r rs || elem n ns)) [
      | inl t ↦ subst (IsTable decode i (suc slots) rs ns) (sym (loop_seen slots i r n rs ns e t)) (
          pass_over i slots rs ns (loop slots (suc i) rs ns) (taken i r n rs ns e t)
            (table_loop-IsTable slots (suc i) rs ns))
      | inr t ↦ subst (IsTable decode i (suc slots) rs ns) (sym (loop_take slots i r n rs ns e t)) (
          take_up i slots (anchor (name i r) r n full_score source) rs ns
            (loop slots (suc i) (r ∷ rs) (n ∷ ns)) e (ground (arith, elem_iff r rs))
            (ground (arith, elem_iff n ns)) (table_loop-IsTable slots (suc i) (r ∷ rs) (n ∷ ns)))
    ]
  ]
    where
      taken :
          (i r n : ℕ) (rs ns : List ℕ)
          → decode i ≡ some (r, n)
          → (elem r rs || elem n ns) ≡ true
          → (x y : ℕ) → decode i ≡ some (x, y)
          → In x rs ⊎ In y ns
      taken i r n rs ns e t x y d =
          let pair : ◌≡◌ {A = Option (ℕ × ℕ)} (some (r, n)) (some (x, y)) = sym e ∙ d in
          let p : r ≡ x = cc in
          let q : n ≡ y = cc in
          let h : (elem x rs || elem y ns) ≡ true = rw (sym p, sym q) t in
          ground (arith, elem_iff x rs, elem_iff y ns)

-- Every anchor of the ICU vector table is the pair of a slot; no two share a handler on either side;
-- and of the pair of every slot, one handler at least has an anchor.
pub bootstrap_icu_vector_table-IsTable :
    (ref_bytes new_bytes : List ℕ) (ref_run new_run : HeadlessRun)
    (by_addr : Dict ℕ ReferenceSymbol)
    → IsTable
        (icu_slot ref_bytes new_bytes ref_run new_run by_addr)
        0
        32
        []
        []
        (bootstrap_icu_vector_table ref_bytes new_bytes ref_run new_run by_addr)
unfolding bootstrap_icu_vector_table
bootstrap_icu_vector_table-IsTable ref_bytes new_bytes ref_run new_run by_addr =
    table_loop-IsTable (icu_slot ref_bytes new_bytes ref_run new_run by_addr)
      (icu_name ref_bytes new_bytes ref_run new_run by_addr) (codes "icu_vector_table") 32 0 [] []

-- Every anchor of the vector table, without the one that is derived for main, is the pair of a slot;
-- no two share a handler on either side; and of the pair of every slot, one handler at least has an
-- anchor.
pub vector_anchors-IsTable :
    (ref_bytes new_bytes : List ℕ) (ref_run new_run : HeadlessRun)
    (by_addr : Dict ℕ ReferenceSymbol)
    → IsTable
        (vector_slot ref_bytes new_bytes ref_run new_run by_addr)
        0
        64
        []
        []
        (vector_anchors ref_bytes new_bytes ref_run new_run by_addr)
unfolding vector_anchors
vector_anchors-IsTable ref_bytes new_bytes ref_run new_run by_addr =
    table_loop-IsTable (vector_slot ref_bytes new_bytes ref_run new_run by_addr)
      (vector_name ref_bytes new_bytes ref_run new_run by_addr) (codes "vector_table") 64 0 [] []
