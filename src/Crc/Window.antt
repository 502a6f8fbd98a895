-- ===== src/Crc/Window.antt =====
-- The four instructions behind a load in rom_analyzer/crc.py: whether they store, and the comparison
-- that decides the end of the region.
use rom_analyzer.Common.{
  ℕ, zero, suc, ◌+◌, ◌<◌, ◌≡◌, refl, sym, ap, subst, ◌∙◌, ◌↔◌, ◌⊎◌, inl, inr, Bool, true, some,
  List, [], ◌∷◌, ◌==◌, arith, get_elem?, take, drop, any, Bool-cases,
}
use rom_analyzer.Common.Text.{Text, codes, lower, text_eq, text_beq_iff}
use rom_analyzer.Common.Int.{ℤ, pos, ◌+ℤ◌}
use rom_analyzer.Crc.{
  Instruction, ConstLoad, has_mnemonic, window, without_spaces, first_operand_is, is_compare,
  end_in_window, is_stored,
}

-- What stands behind a load.
abbrev pub behind : List Instruction → ConstLoad → List Instruction
behind instrs load = drop (load.index + load.width) instrs

-- The instruction is one of the first `n`.
abbrev pub IsNear : List Instruction → ℕ → Instruction → Type 0
IsNear instrs n a = (j : ℕ) × (j < n) × (get_elem? instrs j ≡ some a)

IsNear-cons :
    (p : Instruction → Bool) (n : ℕ) (x : Instruction) (xs : List Instruction)
    → (any p (take n xs) ≡ true) ↔ ((a : Instruction) × IsNear xs n a × (p a ≡ true))
    → (any p (take (suc n) (x ∷ xs)) ≡ true)
      ↔ ((a : Instruction) × IsNear (x ∷ xs) (suc n) a × (p a ≡ true))
IsNear-cons p n x xs ih = (
  λ h. elim (Bool-cases (p x)) [
    | inl e ↦ (x, (0, omega arith, refl), e)
    | inr e ↦ let (a, (j, lt, q), t) = ih.0 (ground arith) in (a, (suc j, omega arith, q), t)
  ],
  back,
)
  where
    back :
        (a : Instruction) × IsNear (x ∷ xs) (suc n) a × (p a ≡ true)
        → any p (take (suc n) (x ∷ xs)) ≡ true
    back (a, (zero, lt, q), t) = ground arith
    back (a, (suc j, lt, q), t) = let rest = ih.1 (a, (j, omega arith, q), t) in ground arith

taken_iff :
    (p : Instruction → Bool) (n : ℕ) (xs : List Instruction)
    → (any p (take n xs) ≡ true) ↔ ((a : Instruction) × IsNear xs n a × (p a ≡ true))
taken_iff p zero xs = (λ h. cc, λ (a, (j, lt, e), t). absurd (omega arith))
taken_iff p (suc n) [] = (λ h. cc, λ (a, (j, lt, e), t). cc)
taken_iff p (suc n) (x ∷ xs) = IsNear-cons p n x xs (taken_iff p n xs)

-- A store follows the load within four instructions.
abbrev pub IsStored : List Instruction → ConstLoad → Type 0
IsStored instrs load =
    (a : Instruction) × IsNear (behind instrs load) 4 a × (lower a.mnemonic ≡ codes "st")

pub is_stored_iff :
    (instrs : List Instruction) (load : ConstLoad)
    → (is_stored instrs load ≡ true) ↔ IsStored instrs load
unfolding is_stored window has_mnemonic
is_stored_iff instrs load = (
  λ h.
      let (a, near, t) =
        (taken_iff (λ a. lower a.mnemonic == codes "st") 4 (behind instrs load)).0 h in
      (a, near, (text_beq_iff (lower a.mnemonic) (codes "st")).0 t),
  λ (a, near, t).
      (taken_iff (λ a. lower a.mnemonic == codes "st") 4 (behind instrs load)).1
        (a, near, (text_beq_iff (lower a.mnemonic) (codes "st")).1 t),
)

abbrev pub IsComparison : Instruction → Type 0
IsComparison a = (lower a.mnemonic ≡ codes "cmpu") ⊎ (lower a.mnemonic ≡ codes "cmp")

is_compare_iff : (a : Instruction) → (is_compare a ≡ true) ↔ IsComparison a
unfolding is_compare has_mnemonic
is_compare_iff a = ground (
  arith,
  text_beq_iff (lower a.mnemonic) (codes "cmpu"),
  text_beq_iff (lower a.mnemonic) (codes "cmp"),
)

-- The first of two or more operands is the register, spaces and case aside.
abbrev pub HasFirst : Text → List Text → Type 0
HasFirst reg operands =
    (r : Text) × (t : Text) × (more : List Text) × (operands ≡ r ∷ t ∷ more)
    × (without_spaces (lower r) ≡ without_spaces reg)

first_operand_iff :
    (reg : Text) (operands : List Text)
    → (first_operand_is reg operands ≡ true) ↔ HasFirst reg operands
unfolding first_operand_is
first_operand_iff reg [] = (λ h. cc, λ (r, t, more, e, q). cc)
first_operand_iff reg (x ∷ []) = (λ h. cc, λ (r, t, more, e, q). cc)
first_operand_iff reg (x ∷ y ∷ ys) = (
  λ h. (x, y, ys, refl, (text_beq_iff (without_spaces (lower x)) (without_spaces reg)).0 h),
  λ (r, t, more, e, q).
      let same : x ≡ r = cc in
      (text_beq_iff (without_spaces (lower x)) (without_spaces reg)).1
        (ap (λ u. without_spaces (lower u)) same ∙ q),
)

-- The first comparison of the first `n` instructions stands at `j`.
pub record IsFirstComparison (instrs : List Instruction) (n j : ℕ) (a : Instruction) : Type 0 where
  pub near : j < n
  pub place : get_elem? instrs j ≡ some a
  pub compares : IsComparison a
  pub none_before :
      (k : ℕ) (b : Instruction) → k < j → get_elem? instrs k ≡ some b → ¬ IsComparison b

-- The exclusive end for a bound that is loaded into `reg`: it is one above the bound if the first
-- comparison of the first `n` instructions has the register as its first operand, and the bound if that has
-- another first operand, or if there is no comparison.
pub data IsEnd (instrs : List Instruction) (n : ℕ) (reg : Text) (bound end : ℤ) : Type 0 where
  inclusive :
      (j : ℕ) (a : Instruction)
      → IsFirstComparison instrs n j a
      → HasFirst reg a.operands
      → end ≡ bound +ℤ pos 1
      → IsEnd instrs n reg bound end
  exclusive :
      (j : ℕ) (a : Instruction)
      → IsFirstComparison instrs n j a
      → ¬ HasFirst reg a.operands
      → end ≡ bound
      → IsEnd instrs n reg bound end
  no_comparison :
      ((j : ℕ) (a : Instruction) → j < n → get_elem? instrs j ≡ some a → ¬ IsComparison a)
      → end ≡ bound
      → IsEnd instrs n reg bound end

-- What holds behind the first instruction, if that is no comparison, holds of all.
IsFirstComparison-cons :
    (x : Instruction) (xs : List Instruction) (n j : ℕ) (a : Instruction)
    → ¬ IsComparison x
    → IsFirstComparison xs n j a
    → IsFirstComparison (x ∷ xs) (suc n) (suc j) a
IsFirstComparison-cons x xs n j a other v = record {
  near = omega (arith, v.near);
  place = v.place;
  compares = v.compares;
  none_before = before;
}
  where
    before :
        (k : ℕ) (b : Instruction) → k < suc j → get_elem? (x ∷ xs) k ≡ some b → ¬ IsComparison b
    before zero b lt e c = let same : x ≡ b = cc in other (subst IsComparison (sym same) c)
    before (suc k) b lt e c = v.none_before k b (omega arith) e c

IsEnd-cons :
    (x : Instruction) (xs : List Instruction) (n : ℕ) (reg : Text) (bound end : ℤ)
    → ¬ IsComparison x
    → IsEnd xs n reg bound end
    → IsEnd (x ∷ xs) (suc n) reg bound end
IsEnd-cons x xs n reg bound end other (inclusive j a v f e) =
    inclusive (suc j) a (IsFirstComparison-cons x xs n j a other v) f e
IsEnd-cons x xs n reg bound end other (exclusive j a v f e) =
    exclusive (suc j) a (IsFirstComparison-cons x xs n j a other v) f e
IsEnd-cons x xs n reg bound end other (no_comparison f e) = no_comparison absent e
  where
    absent :
        (j : ℕ) (a : Instruction) → j < suc n → get_elem? (x ∷ xs) j ≡ some a → ¬ IsComparison a
    absent zero a lt q c = let same : x ≡ a = cc in other (subst IsComparison (sym same) c)
    absent (suc j) a lt q c = f j a (omega arith) q c

at_front :
    (x : Instruction) (xs : List Instruction) (n : ℕ)
    → IsComparison x
    → IsFirstComparison (x ∷ xs) (suc n) 0 x
at_front x xs n c = record {
  near = omega arith;
  place = refl;
  compares = c;
  none_before = λ k b lt e d. absurd (omega arith);
}

end_in_window-IsEnd :
    (reg : Text) (bound : ℤ) (n : ℕ) (xs : List Instruction)
    → IsEnd xs n reg bound (end_in_window reg bound (take n xs))
unfolding end_in_window
end_in_window-IsEnd reg bound zero xs = no_comparison (λ j a lt e c. omega arith) refl
end_in_window-IsEnd reg bound (suc n) [] = no_comparison (λ j a lt e c. cc) refl
end_in_window-IsEnd reg bound (suc n) (x ∷ xs) = elim (Bool-cases (is_compare x)) [
  | inl e ↦
      let c = (is_compare_iff x).0 e in
      elim (Bool-cases (first_operand_is reg x.operands)) [
        | inl f ↦
            rw (e, f)
              (inclusive 0 x (at_front x xs n c) ((first_operand_iff reg x.operands).0 f) refl)
        | inr f ↦
            rw (e, f)
              (exclusive 0 x (at_front x xs n c)
                (λ h. cc (f, (first_operand_iff reg x.operands).1 h)) refl)
      ]
  | inr e ↦ rw e (
      IsEnd-cons x xs n reg bound (end_in_window reg bound (take n xs))
        (λ c. cc (e, (is_compare_iff x).1 c)) (end_in_window-IsEnd reg bound n xs))
]

-- There is one end at most.
places_agree :
    (instrs : List Instruction) (n i j : ℕ) (a b : Instruction)
    → IsFirstComparison instrs n i a
    → IsFirstComparison instrs n j b
    → a ≡ b
places_agree instrs n i j a b v w = elim (order i j) [
  | inl lt ↦ absurd (w.none_before i a lt v.place v.compares)
  | inr (inl gt) ↦ absurd (v.none_before j b gt w.place w.compares)
  | inr (inr e) ↦ some_injective (sym v.place ∙ ap (get_elem? instrs) e ∙ w.place)
]
  where
    order : (i j : ℕ) → (i < j) ⊎ (j < i) ⊎ (i ≡ j)
    order i j = ground arith

    some_injective : some a ≡ some b → a ≡ b
    some_injective h = cc

pub IsEnd-unique :
    (instrs : List Instruction) (n : ℕ) (reg : Text) (bound u v : ℤ)
    → IsEnd instrs n reg bound u
    → IsEnd instrs n reg bound v
    → u ≡ v
IsEnd-unique instrs n reg bound u v (inclusive i a x f e) (inclusive j b y g d) = e ∙ sym d
IsEnd-unique instrs n reg bound u v (inclusive i a x f e) (exclusive j b y g d) =
    absurd (
      g (
        subst (λ (c : Instruction). HasFirst reg c.operands) (places_agree instrs n i j a b x y) f))
IsEnd-unique instrs n reg bound u v (inclusive i a x f e) (no_comparison g d) =
    absurd (g i a x.near x.place x.compares)
IsEnd-unique instrs n reg bound u v (exclusive i a x f e) (inclusive j b y g d) = absurd (
    f (
      subst (λ (c : Instruction). HasFirst reg c.operands) (sym (places_agree instrs n i j a b x y))
        g))
IsEnd-unique instrs n reg bound u v (exclusive i a x f e) (exclusive j b y g d) = e ∙ sym d
IsEnd-unique instrs n reg bound u v (exclusive i a x f e) (no_comparison g d) = e ∙ sym d
IsEnd-unique instrs n reg bound u v (no_comparison f e) (inclusive j b y g d) =
    absurd (f j b y.near y.place y.compares)
IsEnd-unique instrs n reg bound u v (no_comparison f e) (exclusive j b y g d) = e ∙ sym d
IsEnd-unique instrs n reg bound u v (no_comparison f e) (no_comparison g d) = e ∙ sym d

pub window-IsEnd :
    (instrs : List Instruction) (load : ConstLoad) (bound : ℤ)
    → IsEnd
        (behind instrs load)
        4
        load.reg
        bound
        (end_in_window load.reg bound (window instrs load))
unfolding window
window-IsEnd instrs load bound = end_in_window-IsEnd load.reg bound 4 (behind instrs load)
