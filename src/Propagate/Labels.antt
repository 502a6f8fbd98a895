-- ===== src/Propagate/Labels.antt =====
-- Which labels propagate_function_labels of rom_analyzer/propagate.py emits.
use rom_analyzer.Common.{
  ℕ, ◌<◌, ◌≤◌, ◌≡◌, ◌≢◌, refl, ap, subst, ◌∙◌, ◌↔◌, ◌⊎◌, inl, inr, Bool, true, ◌&&◌, Option, none,
  some, List, [], ◌∷◌, map, arith, ◌==◌, nat_eq, if◌then◌else◌, In, In-append, filter, Bool-cases,
}
use rom_analyzer.Common.Text.{Text}
use rom_analyzer.Common.Dict.{Dict, get, get-put, put, dict_of}
use mathlib.Core.List.{foldl}
use rom_analyzer.Types.{Score, ReferenceSymbol, MatchedFunction, PropagatedSymbol}
use rom_analyzer.Propagate.{
  medium_threshold, tier_for_score, is_function, is_low, functions_by_address, or_text,
  name_or_empty, label_name, function_label, emit_named, emit_label, emit_labels,
  propagate_function_labels,
}

-- The last function symbol at an address.
abbrev pub last_function : ℕ → List ReferenceSymbol → Option ReferenceSymbol
last_function a [] = none
last_function a (s ∷ symbols) = elim (last_function a symbols) [
  | some t ↦ some t
  | none ↦ if is_function s.category && (s.address == a) then some s else none
]

-- Whether the score is enough for a label.
abbrev pub IsTrusted : Bool → MatchedFunction → Type 0
IsTrusted force m = (force ≡ true) ⊎ (medium_threshold ≤ m.similarity)

-- The name that a match gives: its own, or else that of the function symbol at its address.
abbrev pub match_label : List ReferenceSymbol → MatchedFunction → Text
match_label symbols m = or_text m.ref_name (name_or_empty (last_function m.ref_address symbols))

-- `p` is the label of one match that has a name and is trusted.
pub record IsLabel (symbols : List ReferenceSymbol) (matches : List MatchedFunction) (force : Bool)
    (p : PropagatedSymbol) : Type 0 where
  pub match : MatchedFunction
  pub is_match : In match matches
  pub named : match_label symbols match ≢ []
  pub trusted : IsTrusted force match
  pub label : p ≡ function_label match (match_label symbols match)

is_low-tier_for_score : (s : Score) → (is_low (tier_for_score s) ≡ true) ↔ (s < medium_threshold)
unfolding is_low tier_for_score
is_low-tier_for_score s = ground arith

In-emit_named :
    (force : Bool) (m : MatchedFunction) (name : Text) (p : PropagatedSymbol)
    → In p (emit_named force m name)
      ↔ ((name ≢ []) × IsTrusted force m × (p ≡ function_label m name))
unfolding emit_named
In-emit_named force m [] p = (λ h. absurd h, λ h. absurd (h.0 refl))
In-emit_named force m (c ∷ cs) p = ground (arith, is_low-tier_for_score m.similarity)

get-add_all :
    (symbols : List ReferenceSymbol) (d : Dict ℕ ReferenceSymbol) (a : ℕ)
    → get
        (foldl
          (λ (d : Dict ℕ ReferenceSymbol) (p : ℕ × ReferenceSymbol). put d p.0 p.1)
          d
          (map (λ s. (s.address, s)) (filter (λ s. is_function s.category) symbols)))
        a
      ≡ elim (last_function a symbols) [ some t ↦ some t | none ↦ get d a ]
get-add_all [] d a = refl
get-add_all (s ∷ symbols) d a = elim (Bool-cases (is_function s.category)) [
  | inl e ↦
      rw e (get-add_all symbols (put d s.address s) a ∙ ground (arith, get-put d s.address a s))
  | inr e ↦ rw e (get-add_all symbols d a ∙ ground arith)
]

get-functions_by_address :
    (symbols : List ReferenceSymbol) (a : ℕ)
    → get (functions_by_address symbols) a ≡ last_function a symbols
unfolding functions_by_address dict_of
get-functions_by_address symbols a =
    let empty : get {V = ReferenceSymbol} [] a ≡ none = unfold get in refl in
    ground (arith, get-add_all symbols [] a, empty)

label_name_lem :
    (symbols : List ReferenceSymbol) (m : MatchedFunction)
    → label_name (functions_by_address symbols) m ≡ match_label symbols m
unfolding label_name
label_name_lem symbols m =
    ap (λ o. or_text m.ref_name (name_or_empty o)) (get-functions_by_address symbols m.ref_address)

In-emit_label :
    (symbols : List ReferenceSymbol) (force : Bool) (m : MatchedFunction) (p : PropagatedSymbol)
    → In p (emit_label (functions_by_address symbols) force m) ↔ (
        (match_label symbols m ≢ [])
        × IsTrusted force m
        × (p ≡ function_label m (match_label symbols m)))
unfolding emit_label
In-emit_label symbols force m p =
    rw (label_name_lem symbols m) (In-emit_named force m (match_label symbols m) p)

In-emit_labels :
    (symbols : List ReferenceSymbol) (force : Bool) (matches : List MatchedFunction)
    (p : PropagatedSymbol)
    → In p (emit_labels (functions_by_address symbols) force matches)
    → IsLabel symbols matches force p
unfolding emit_labels
In-emit_labels symbols force [] p m = absurd m
In-emit_labels symbols force (q ∷ matches) p m =
    elim ((In-append p (emit_label (functions_by_address symbols) force q)
        (emit_labels (functions_by_address symbols) force matches)).0
      m) [
        | inl here ↦
            let (named, trusted, label) = (In-emit_label symbols force q p).0 here in
            record {
              match = q;
              is_match = inl refl;
              named = named;
              trusted = trusted;
              label = label;
            }
        | inr there ↦
            let l = In-emit_labels symbols force matches p there in
            record {
              match = l.match;
              is_match = inr l.is_match;
              named = l.named;
              trusted = l.trusted;
              label = l.label;
            }
      ]

emit_labels-In :
    (symbols : List ReferenceSymbol) (force : Bool) (matches : List MatchedFunction)
    (p : PropagatedSymbol) (q : MatchedFunction)
    → In q matches
    → In p (emit_label (functions_by_address symbols) force q)
    → In p (emit_labels (functions_by_address symbols) force matches)
unfolding emit_labels
emit_labels-In symbols force [] p q m i = absurd m
emit_labels-In symbols force (r ∷ matches) p q m i =
    (In-append p (emit_label (functions_by_address symbols) force r)
        (emit_labels (functions_by_address symbols) force matches)).1
      (elim m [
        | inl e ↦ inl (subst (λ t. In p (emit_label (functions_by_address symbols) force t)) e i)
        | inr n ↦ inr (emit_labels-In symbols force matches p q n i)
      ])

-- A symbol is emitted by propagate_function_labels exactly when it is the label of one of the
-- matches: the match has a name, its own or that of the last function symbol at its reference
-- address, and its similarity is at least 0.70 unless forced; the tier is that of the similarity.
pub propagate_function_labels_iff :
    (symbols : List ReferenceSymbol) (matches : List MatchedFunction) (force : Bool)
    (p : PropagatedSymbol)
    → In p (propagate_function_labels symbols matches force) ↔ IsLabel symbols matches force p
unfolding propagate_function_labels
propagate_function_labels_iff symbols matches force p = (
  In-emit_labels symbols force matches p,
  λ l.
      emit_labels-In symbols force matches p l.match l.is_match
        ((In-emit_label symbols force l.match p).1 (l.named, l.trusted, l.label)),
)
