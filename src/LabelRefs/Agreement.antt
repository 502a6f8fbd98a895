-- ===== src/LabelRefs/Agreement.antt =====
-- What the tier of a label says of its proposals in rom_analyzer/data_refs.py.
use rom_analyzer.Common.{
  ℕ, ◌≡◌, ◌≢◌, sym, ap, subst, ◌∙◌, inl, inr, not, List, [], ◌∷◌, map, arith, any_of_In, ◌==◌,
  nat_eq, In, In-filter,
}
use rom_analyzer.Common.Text.{Text, text_eq, text_beq_iff}
use rom_analyzer.Common.Dict.{Dict, dict_of}
use rom_analyzer.Common.Dict.Group.{group_by, with_key, non_empty-some, In-group_by}
use rom_analyzer.Types.{low, ReferenceSymbol, MatchedFunction, PropagatedSymbol}
use rom_analyzer.DataRefs.{DataRef}
use rom_analyzer.LabelRefs.{
  Kind, Proposal, proposals, final_tier, label_of, labels_of, propagate_labels,
}

module _ (kind : Kind) (by_addr : Dict ℕ ReferenceSymbol) (window : ℕ) where
  agreed :
      (p : Proposal) (rest : List Proposal)
      → final_tier kind by_addr window p rest ≢ low
      → (q : Proposal) → In q (p ∷ rest)
      → q.new_addr ≡ p.new_addr
  unfolding final_tier
  agreed p rest h q (inl e) = ap (λ (t : Proposal). t.new_addr) e
  agreed p rest h q (inr m) =
      ground (arith, any_of_In (λ (q : Proposal). not (q.new_addr == p.new_addr)) q rest m)

  In-labels_of :
      (ref_addrs : Dict Text ℕ) (groups : List (Text × List Proposal)) (s : PropagatedSymbol)
      → In s (labels_of kind by_addr window ref_addrs groups)
      → s.confidence ≢ low
      → (g : List Proposal) × In (s.name, g) groups
        × ((q : Proposal) → In q g → q.new_addr ≡ s.new_address)
  unfolding labels_of label_of
  In-labels_of ref_addrs [] s m h = absurd m
  In-labels_of ref_addrs ((name, []) ∷ groups) s m h =
      let (g, i, f) = In-labels_of ref_addrs groups s m h in (g, inr i, f)
  In-labels_of ref_addrs ((name, p ∷ rest) ∷ groups) s (inl e) h = (
    p ∷ rest,
    inl (ap (λ (t : PropagatedSymbol). (t.name, p ∷ rest)) e),
    λ q i.
        agreed p rest (λ c. h (ap (λ (t : PropagatedSymbol). t.confidence) e ∙ c)) q i
        ∙ sym (ap (λ (t : PropagatedSymbol). t.new_address) e),
  )
  In-labels_of ref_addrs ((name, p ∷ rest) ∷ groups) s (inr m) h =
      let (g, i, f) = In-labels_of ref_addrs groups s m h in (g, inr i, f)

  -- A label of data or RAM with more than low confidence has the address that every proposal for its
  -- name has.
  pub propagate_labels-agree :
      (ref_refs new_refs : Dict ℕ (List DataRef)) (matches : List MatchedFunction)
      (s : PropagatedSymbol) (q : Proposal)
      → In s (propagate_labels kind by_addr window ref_refs new_refs matches)
      → s.confidence ≢ low
      → In q (proposals kind by_addr window ref_refs new_refs matches)
      → q.name ≡ s.name
      → q.new_addr ≡ s.new_address
  unfolding propagate_labels
  propagate_labels-agree ref_refs new_refs matches s q m h i e =
      let all = proposals kind by_addr window ref_refs new_refs matches in
      let addrs = dict_of (map (λ (p : Proposal). (p.name, p.ref_addr)) all) in
      let (g, k, same) = In-labels_of addrs (group_by (λ p. p.name) all) s m h in
      let group = (In-group_by (λ (p : Proposal). p.name) all s.name g).0 k in
      let is_group = non_empty-some (with_key (λ (p : Proposal). p.name) s.name all) g group in
      let here =
        (In-filter (λ (p : Proposal). p.name == s.name) q all).1
          (i, (text_beq_iff q.name s.name).1 e) in
      same q (subst (In q) is_group here)
