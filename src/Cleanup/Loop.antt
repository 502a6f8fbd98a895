-- ===== src/Cleanup/Loop.antt =====
-- The loop of dedup_symbol_names in rom_analyzer/cleanup.py, and the names at the places of its result.
use rom_analyzer.Common.{
  ℕ, zero, suc, ◌+◌, ◌≤◌, ◌<◌, ◌≡◌, ◌≢◌, refl, sym, ap, subst, ◌∙◌, inl, inr, List, [], ◌∷◌, ◌++◌,
  map, arith, ◌==◌, nat_eq, length, elem, elem_iff, In, Pairwise, Distinct, In-All, All-of_In,
  length-append, Bool-cases,
}
use rom_analyzer.Common.Text.{Text, codes, text_eq, hex}
use rom_analyzer.Cleanup.{Label, Obj, objects, longest, fresh, new_name, dedup, name_at}

longest_lem : (used : List Text) (name : Text) → In name used → length name ≤ longest used
unfolding longest
longest_lem [] name m = absurd m
longest_lem (n ∷ used) name (inl e) = ground (arith, ap (λ (t : Text). length t) e)
longest_lem (n ∷ used) name (inr m) = ground (arith, longest_lem used name m)

-- With enough fuel the loop ends on a name that is not used.
fresh_lem :
    (fuel : ℕ) (used : List Text) (name : Text)
    → longest used < length name + fuel
    → In (fresh fuel used name) used
    → ⊥
unfolding fresh
fresh_lem zero used name h = λ m. omega (arith, longest_lem used name m)
fresh_lem (suc fuel) used name h = elim (Bool-cases (elem name used)) [
  | inl e ↦
      rw e (
        fresh_lem fuel used (name ++ codes "_x")
          (omega (arith, h, length-append name (codes "_x"))))
  | inr e ↦ rw e (ground (arith, elem_iff name used))
]

new_name_lem : (used : List Text) (obj : Obj) → In (new_name used obj) used → ⊥
unfolding new_name
new_name_lem used obj =
    fresh_lem (suc (longest used)) used (obj.name ++ codes "_" ++ hex obj.address) (omega arith)

abbrev pub HasNewNames : List Text → List Obj → Type 0
HasNewNames used objs = (o : Obj) → In o objs → In o.name used → ⊥

abbrev pub DifferInName : List Obj → Type 0
DifferInName = Pairwise (λ a b. a.name ≢ b.name)

take_name :
    (used : List Text) (obj : Obj) (rest : List Obj)
    → (In obj.name used → ⊥)
    → HasNewNames (obj.name ∷ used) rest × DifferInName rest
    → HasNewNames used (obj ∷ rest) × DifferInName (obj ∷ rest)
take_name used obj rest new (h, d) = (
  λ o m n. elim m [ inl e ↦ new (subst (λ (t : Obj). In t.name used) e n) | inr i ↦ h o i (inr n) ],
  (All-of_In rest (λ o m e. h o m (inl (sym e))), d),
)

pub dedup_lem :
    (used : List Text) (objs : List Obj)
    → HasNewNames used (dedup used objs).0 × DifferInName (dedup used objs).0
unfolding dedup
dedup_lem used [] = (λ o m. absurd m, tt)
dedup_lem used (obj ∷ objs) = elim (Bool-cases (elem obj.name used)) [
  | inl e ↦ rw e (
      take_name used (record obj { name = new_name used obj })
        (dedup (new_name used obj ∷ used) objs).0 (new_name_lem used obj)
        (dedup_lem (new_name used obj ∷ used) objs))
  | inr e ↦ rw e (
      take_name used obj (dedup (obj.name ∷ used) objs).0 (ground (arith, elem_iff obj.name used))
        (dedup_lem (obj.name ∷ used) objs))
]

-- The places stay as they are.
pub dedup-place :
    (used : List Text) (objs : List Obj)
    → map (λ o. o.place) (dedup used objs).0 ≡ map (λ o. o.place) objs
unfolding dedup
dedup-place used [] = refl
dedup-place used (obj ∷ objs) = elim (Bool-cases (elem obj.name used)) [
  | inl e ↦ rw e (ap (λ t. obj.place ∷ t) (dedup-place (new_name used obj ∷ used) objs))
  | inr e ↦ rw e (ap (λ t. obj.place ∷ t) (dedup-place (obj.name ∷ used) objs))
]

pub objects-place :
    (i p : ℕ) (ls : List Label)
    → i ≤ p
    → p < i + length ls
    → In p (map (λ o. o.place) (objects i ls))
unfolding objects
objects-place i p [] h k = absurd (omega arith)
objects-place i p (l ∷ ls) h k = elim (Bool-cases (i == p)) [
  | inl e ↦ inl (ground arith)
  | inr e ↦ inr (objects-place (suc i) p ls (ground arith) (omega arith))
]

name_at_lem :
    (objs : List Obj) (p : ℕ) (default : Text)
    → In p (map (λ o. o.place) objs)
    → (o : Obj) × In o objs × (o.place ≡ p) × (name_at objs p default ≡ o.name)
unfolding name_at
name_at_lem [] p default m = absurd m
name_at_lem (o ∷ objs) p default m = elim (Bool-cases (o.place == p)) [
  | inl e ↦ rw e (o, inl refl, ground arith, refl)
  | inr e ↦ rw e (let (q, i, h, k) = name_at_lem objs p default (ground arith) in (q, inr i, h, k))
]

-- Two objects that differ in name, or are one.
same_name :
    (objs : List Obj) (a b : Obj)
    → DifferInName objs
    → In a objs
    → In b objs
    → a.name ≡ b.name
    → a ≡ b
same_name [] a b d m n e = absurd m
same_name (o ∷ objs) a b d (inl p) (inl q) e = p ∙ sym q
same_name (o ∷ objs) a b d (inl p) (inr n) e =
    absurd
      (In-All (λ (t : Obj). o.name ≢ t.name) objs d.0 b n (ap (λ (t : Obj). t.name) (sym p) ∙ e))
same_name (o ∷ objs) a b d (inr m) (inl q) e =
    absurd (
      In-All (λ (t : Obj). o.name ≢ t.name) objs d.0 a m (ap (λ (t : Obj). t.name) (sym q) ∙ sym e))
same_name (o ∷ objs) a b d (inr m) (inr n) e = same_name objs a b d.1 m n e

-- The names that are written back, place by place.
abbrev pub names_from : List Obj → ℕ → List Text → List Text
names_from objs i [] = []
names_from objs i (name ∷ names) = name_at objs i name ∷ names_from objs (suc i) names

names_from-In :
    (objs : List Obj) (i : ℕ) (names : List Text) (t : Text)
    → In t (names_from objs i names)
    → (p : ℕ) × (default : Text) × (i ≤ p) × (p < i + length names) × (t ≡ name_at objs p default)
names_from-In objs i [] t m = absurd m
names_from-In objs i (name ∷ names) t (inl e) = (i, name, omega arith, omega arith, e)
names_from-In objs i (name ∷ names) t (inr m) =
    let (p, default, h, k, e) = names_from-In objs (suc i) names t m in
    (p, default, omega arith, omega arith, e)

pub names_from-Distinct :
    (objs : List Obj) (i : ℕ) (names : List Text)
    → DifferInName objs
    → ((p : ℕ) → i ≤ p → p < i + length names → In p (map (λ o. o.place) objs))
    → Distinct (names_from objs i names)
names_from-Distinct objs i [] d h = tt
names_from-Distinct objs i (name ∷ names) d h = (
  All-of_In (names_from objs (suc i) names) (λ t m e.
      let (p, default, low, high, q) = names_from-In objs (suc i) names t m in
      let (a, ma, pa, na) = name_at_lem objs i name (h i (omega arith) (omega arith)) in
      let (b, mb, pb, nb) = name_at_lem objs p default (h p (omega arith) (omega arith)) in
      let same = same_name objs a b d ma mb (sym na ∙ e ∙ q ∙ nb) in
      omega (arith, pa, pb, ap (λ (o : Obj). o.place) same)),
  names_from-Distinct objs (suc i) names d (λ p low high. h p (omega arith) (omega arith)),
)
