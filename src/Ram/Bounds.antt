-- ===== src/Ram/Bounds.antt =====
-- The pairs of boundaries that find_free_ram_blocks of rom_analyzer/ram_space.py compares.
use rom_analyzer.Common.{
  ℕ, ◌+◌, ◌-◌, ◌≤◌, ◌<◌, ◌≡◌, refl, ap, ◌⊎◌, inl, inr, List, [], ◌∷◌, ◌++◌, map, arith, ltb, zip,
  In, Bool-cases, In-All,
}
use rom_analyzer.Common.Sort.{IsAscending}
use rom_analyzer.Types.{RamFreeBlock}
use rom_analyzer.Ram.{ram_end, ram_block, blocks_of}

-- The pairs of boundaries behind a first start `s`.
pub gaps : ℕ → List ℕ → List (ℕ × ℕ)
gaps s [] = (s, ram_end) ∷ []
gaps s (a ∷ xs) = (s, a) ∷ gaps (a + 1) xs

pub zip-eq-gaps :
    (s : ℕ) (xs : List ℕ) → zip (s ∷ map (λ a. a + 1) xs) (xs ++ ram_end ∷ []) ≡ gaps s xs
unfolding gaps
zip-eq-gaps s [] = refl
zip-eq-gaps s (a ∷ xs) = ap (◌∷◌ (s, a)) (zip-eq-gaps (a + 1) xs)

abbrev IsGapPair : ℕ → ℕ → RamFreeBlock → ℕ × ℕ → Type 0
IsGapPair min_length large b p = (p.0 + min_length ≤ p.1) × (b ≡ ram_block large p.0 p.1)

-- A block is reported exactly for the pairs that are far enough apart.
pub blocks_of_sound :
    (min_length large : ℕ) (b : RamFreeBlock) (pairs : List (ℕ × ℕ))
    → In b (blocks_of min_length large pairs)
    → (p : ℕ × ℕ) × In p pairs × IsGapPair min_length large b p
unfolding blocks_of
blocks_of_sound min_length large b [] m = absurd m
blocks_of_sound min_length large b ((s, e) ∷ pairs) m = elim (Bool-cases (ltb e (s + min_length))) [
  | inl short ↦
      let (p, i, q) = blocks_of_sound min_length large b pairs (ground arith) in (p, inr i, q)
  | inr long ↦ elim (rw long at m) [
    | inl new ↦ ((s, e), inl refl, (ground arith, new))
    | inr old ↦ let (p, i, q) = blocks_of_sound min_length large b pairs old in (p, inr i, q)
  ]
]

pub blocks_of_complete :
    (min_length large : ℕ) (b : RamFreeBlock) (p : ℕ × ℕ) (pairs : List (ℕ × ℕ))
    → In p pairs
    → IsGapPair min_length large b p
    → In b (blocks_of min_length large pairs)
unfolding blocks_of
blocks_of_complete min_length large b p [] m q = absurd m
blocks_of_complete min_length large b (g, f) ((s, e) ∷ pairs) m q =
    ground (arith, m, blocks_of_complete min_length large b (g, f) pairs)

-- The pairs that the ascending addresses `xs`, which start at or behind `s`, bound.
pub record Bounds (s : ℕ) (xs : List ℕ) (g e : ℕ) : Type 0 where
  pub ordered : g ≤ e
  pub within : e ≤ ram_end
  pub from : s ≤ g
  pub free : (a : ℕ) → g ≤ a → a < e → ¬ In a xs
  pub before : (g ≡ s) ⊎ In (g - 1) xs × (s < g)
  pub after : (e ≡ ram_end) ⊎ In e xs

-- Addresses between two bounds.
abbrev pub Inside : ℕ → List ℕ → Type 0
Inside s xs = (a : ℕ) → In a xs → (s ≤ a) × (a < ram_end)

Inside-tail :
    (s a : ℕ) (xs : List ℕ) → Inside s (a ∷ xs) → IsAscending (λ a. a) (a ∷ xs) → Inside (a + 1) xs
Inside-tail s a xs h asc b m = (omega (arith, In-All (λ c. a < c) xs asc.0 b m), (h b (inr m)).1)

-- No address stands between the bound and the first one.
first_free :
    (s a : ℕ) (xs : List ℕ)
    → Inside s (a ∷ xs)
    → IsAscending (λ a. a) (a ∷ xs)
    → (c : ℕ) → s ≤ c
    → c < a
    → ¬ In c (a ∷ xs)
first_free s a xs h asc c le lt (inl p) = omega arith
first_free s a xs h asc c le lt (inr m) = omega (arith, In-All (λ d. a < d) xs asc.0 c m)

gap_first :
    (s a : ℕ) (xs : List ℕ)
    → Inside s (a ∷ xs)
    → IsAscending (λ a. a) (a ∷ xs)
    → (g e : ℕ) → Bounds s (a ∷ xs) g e
    → g ≡ s
    → ◌≡◌ {A = ℕ × ℕ} (g, e) (s, a)
gap_first s a xs h asc g e b first =
    ground (arith, h a (inl refl), b.free a, b.after, In-All (λ d. a < d) xs asc.0 e)

Bounds-tail :
    (s a : ℕ) (xs : List ℕ)
    → Inside s (a ∷ xs)
    → IsAscending (λ a. a) (a ∷ xs)
    → (g e : ℕ) → Bounds s (a ∷ xs) g e
    → In (g - 1) (a ∷ xs) × (s < g)
    → Bounds (a + 1) xs g e
Bounds-tail s a xs h asc g e b (m, lt) = record {
  ordered = b.ordered;
  within = b.within;
  from = ground (arith, In-All (λ d. a < d) xs asc.0 (g - 1));
  free = λ c p q n. b.free c p q (inr n);
  before = ground (arith, In-All (λ d. a < d) xs asc.0 (g - 1));
  after = ground (arith, b.after, b.ordered, In-All (λ d. a < d) xs asc.0 (g - 1));
}

pub gaps_sound :
    (s : ℕ) (xs : List ℕ)
    → s ≤ ram_end
    → Inside s xs
    → IsAscending (λ a. a) xs
    → (g e : ℕ) → In (g, e) (gaps s xs)
    → Bounds s xs g e
unfolding gaps
gaps_sound s [] le h asc g e (inl p) = record {
  ordered = ground arith;
  within = ground arith;
  from = ground arith;
  free = λ a i j m. m;
  before = inl (ground arith);
  after = inl (ground arith);
}
gaps_sound s [] le h asc g e (inr m) = absurd m
gaps_sound s (a ∷ xs) le h asc g e (inl p) =
    let first : g ≡ s = ground arith in
    let last : e ≡ a = ground arith in
    record {
      ordered = omega (arith, h a (inl refl));
      within = omega (arith, h a (inl refl));
      from = omega arith;
      free = λ c i j m. first_free s a xs h asc c (omega arith) (omega arith) m;
      before = inl first;
      after = inr (inl last);
    }
gaps_sound s (a ∷ xs) le h asc g e (inr m) =
    let (le_a, lt_a) = h a (inl refl) in
    let b = gaps_sound (a + 1) xs (omega arith) (Inside-tail s a xs h asc) asc.1 g e m in
    record {
      ordered = b.ordered;
      within = b.within;
      from = omega (arith, b.from);
      free = λ c p q. ground (arith, b.free c, b.from);
      before = ground (arith, b.before, b.from);
      after = ground (arith, b.after);
    }

pub gaps_complete :
    (s : ℕ) (xs : List ℕ)
    → s ≤ ram_end
    → Inside s xs
    → IsAscending (λ a. a) xs
    → (g e : ℕ) → Bounds s xs g e
    → In (g, e) (gaps s xs)
unfolding gaps
gaps_complete s [] le h asc g e b = inl (ground (arith, b.before, b.after))
gaps_complete s (a ∷ xs) le h asc g e b =
    let (le_a, lt_a) = h a (inl refl) in
    let later = gaps_complete (a + 1) xs (omega arith) (Inside-tail s a xs h asc) asc.1 g e in
    elim b.before [
      | inl first ↦ inl (gap_first s a xs h asc g e b first)
      | inr behind ↦ inr (later (Bounds-tail s a xs h asc g e b behind))
    ]
