-- ===== src/RamSignature/Total.antt =====
-- match_by_ram_signature of rom_analyzer/ram_signature.py does not divide by zero.
use rom_analyzer.Common.{
  ℕ, ◌≤◌, ◌<◌, ◌≡◌, refl, Bool, not, Option, none, some, List, [], ◌∷◌, map, arith, filter, elem,
  nat_eq, length, length-append, flatten,
}
use rom_analyzer.Common.Text.{Text, text_eq}
use rom_analyzer.Common.Dict.{Dict}
use rom_analyzer.Common.Sets.{inter, union}
use rom_analyzer.Common.Json.{each_total}
use rom_analyzer.Types.{Score, MatchedFunction, ReferenceSymbol}
use rom_analyzer.RamSignature.{
  Candidate, candidate, candidates_of, all_candidates, best_candidates, signature_match,
  match_by_ram_signature,
}

length-filter : {A : Type 0} (p : A → Bool) (xs : List A) → length (filter p xs) ≤ length xs
length-filter p [] = omega arith
length-filter p (x ∷ xs) = ground (arith, length-filter p xs)

inter-le-union : (s t : List Text) → length (inter s t) ≤ length (union s t)
unfolding inter union
inter-le-union s t =
    ground
      (arith, length-filter (λ a. elem a t) s, length-append s (filter (λ a. not (elem a s)) t))

module _ (min_shared : ℕ) (min_jaccard : Score) (h : 0 < min_shared) where
  candidate_total :
      (ref_addr : ℕ) (ref_sig : List Text) (new_addr : ℕ) (new_sig : List Text)
      → (cs : List Candidate) × (candidate min_shared min_jaccard ref_addr ref_sig new_addr new_sig
          ≡ some cs)
  candidate_total ref_addr ref_sig new_addr new_sig =
      go (candidate min_shared min_jaccard ref_addr ref_sig new_addr new_sig) refl
    where
      go :
          (o : Option (List Candidate))
          → candidate min_shared min_jaccard ref_addr ref_sig new_addr new_sig ≡ o
          → (cs : List Candidate) × (o ≡ some cs)
      go (some cs) e = (cs, refl)
      go none e = absurd (impossible e)
        where
          impossible : candidate min_shared min_jaccard ref_addr ref_sig new_addr new_sig ≡ none → ⊥
          impossible q = unfold candidate in ground (arith, inter-le-union ref_sig new_sig)

  all_candidates_total :
      (already_ref already_new : List ℕ) (ref_sigs new_sigs : Dict ℕ (List Text))
      → (cands : List Candidate) × (all_candidates min_shared min_jaccard already_ref already_new
            ref_sigs new_sigs
          ≡ some cands)
  unfolding all_candidates candidates_of
  all_candidates_total already_ref already_new ref_sigs new_sigs =
      let row : (p : ℕ × List Text)
          → (found : List (List Candidate)) × (candidates_of min_shared min_jaccard already_new
                new_sigs p.0 p.1
              ≡ some found) =
        λ p.
          each_total (λ (q : ℕ × List Text). candidate min_shared min_jaccard p.0 p.1 q.0 q.1)
            (λ q. candidate_total p.0 p.1 q.0 q.1)
            (filter (λ (q : ℕ × List Text). not (elem q.0 already_new)) new_sigs) in
      let (found, e) =
        each_total
          (λ (p : ℕ × List Text). candidates_of min_shared min_jaccard already_new new_sigs p.0 p.1)
          row (filter (λ (p : ℕ × List Text). not (elem p.0 already_ref)) ref_sigs) in
      (flatten (flatten found), rw e)

  -- With a positive number of names to share there is always a list of matches.
  pub match_by_ram_signature_total :
      (ref_sigs new_sigs : Dict ℕ (List Text)) (existing : List MatchedFunction)
      (ref_symbols_by_addr : Dict ℕ ReferenceSymbol)
      → (matches : List MatchedFunction) × (match_by_ram_signature ref_sigs new_sigs existing
            ref_symbols_by_addr min_shared min_jaccard
          ≡ some matches)
  unfolding match_by_ram_signature
  match_by_ram_signature_total ref_sigs new_sigs existing ref_symbols_by_addr =
      let (cands, e) =
        all_candidates_total (map (λ (m : MatchedFunction). m.ref_address) existing)
          (map (λ (m : MatchedFunction). m.new_address) existing) ref_sigs new_sigs in
      (map (signature_match ref_symbols_by_addr) (best_candidates cands), rw e)
