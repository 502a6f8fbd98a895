-- ===== src/RamSignature/Matches.antt =====
-- The matches of match_by_ram_signature of rom_analyzer/ram_signature.py.
use rom_analyzer.Common.{
  ℕ, ◌≡◌, ◌≢◌, sym, subst, inl, inr, some, List, map, In, Pairwise, arith, In-filter, In-map,
  Option-cases, ◌==◌, nat_eq,
}
use rom_analyzer.Common.Text.{Text, text_eq}
use rom_analyzer.Common.Dict.{Dict}
use rom_analyzer.Common.Mapped.{Pairwise-map}
use rom_analyzer.Types.{Score, MatchedFunction, ReferenceSymbol}
use rom_analyzer.RamSignature.{
  Candidate, all_candidates, best_candidates, signature_match, match_by_ram_signature,
}
use rom_analyzer.RamSignature.Candidates.{IsCandidate, all_candidates_lem}
use rom_analyzer.RamSignature.Mutual.{
  IsMutual, In-best_candidates, best_candidates-new, best_candidates-ref,
}

-- Every match of match_by_ram_signature joins two functions that have no match yet, whose signatures
-- share at least `min_shared` names and are at least as similar as `min_jaccard`; the pair has a higher
-- similarity than any other candidate of its reference function, and than any other such pair of its
-- function in the new image; and no two matches share an address on either side.
pub match_by_ram_signature-IsOneToOne :
    (ref_sigs new_sigs : Dict ℕ (List Text)) (existing : List MatchedFunction)
    (ref_symbols_by_addr : Dict ℕ ReferenceSymbol) (min_shared : ℕ) (min_jaccard : Score)
    (matches : List MatchedFunction)
    → match_by_ram_signature ref_sigs new_sigs existing ref_symbols_by_addr min_shared min_jaccard
      ≡ some matches
    → let already_ref = map (λ (m : MatchedFunction). m.ref_address) existing in
      let already_new = map (λ (m : MatchedFunction). m.new_address) existing in
      (cands : List Candidate) × (all_candidates min_shared min_jaccard already_ref already_new
          ref_sigs new_sigs
        ≡ some cands)
      × ((m : MatchedFunction)
          → In m matches
          → (c : Candidate) × IsCandidate ref_sigs new_sigs already_ref already_new min_shared
              min_jaccard c
            × IsMutual c cands
            × (signature_match ref_symbols_by_addr c ≡ m))
      × Pairwise (λ (a b : MatchedFunction). a.ref_address ≢ b.ref_address) matches
      × Pairwise (λ (a b : MatchedFunction). a.new_address ≢ b.new_address) matches
unfolding match_by_ram_signature
match_by_ram_signature-IsOneToOne ref_sigs new_sigs existing ref_symbols_by_addr min_shared
      min_jaccard matches h =
    let already_ref : List ℕ = map (λ (m : MatchedFunction). m.ref_address) existing in
    let already_new : List ℕ = map (λ (m : MatchedFunction). m.new_address) existing in
    elim (Option-cases
      (all_candidates min_shared min_jaccard already_ref already_new ref_sigs new_sigs)) [
        | inl e ↦ cc
        | inr (cands, e) ↦
            let q : map (signature_match ref_symbols_by_addr) (best_candidates cands) ≡ matches =
              ground arith in
            (
              cands,
              e,
              λ m i.
                  let (c, n, p) =
                    In-map (signature_match ref_symbols_by_addr) m (best_candidates cands)
                      (subst (In m) (sym q) i) in
                  let j = In-best_candidates cands c n in
                  (
                    c,
                    all_candidates_lem min_shared min_jaccard already_ref already_new ref_sigs
                        new_sigs cands e c
                        ((In-filter (λ (d : Candidate). d.ref_addr == c.ref_addr) c cands).0
                          j.ref_best.member).0,
                    j,
                    p,
                  ),
              subst (Pairwise (λ (a b : MatchedFunction). a.ref_address ≢ b.ref_address)) q (
                  Pairwise-map (signature_match ref_symbols_by_addr)
                    (λ (a b : MatchedFunction). a.ref_address ≢ b.ref_address)
                    (best_candidates cands) (unfold signature_match in best_candidates-ref cands)),
              subst (Pairwise (λ (a b : MatchedFunction). a.new_address ≢ b.new_address)) q (
                  Pairwise-map (signature_match ref_symbols_by_addr)
                    (λ (a b : MatchedFunction). a.new_address ≢ b.new_address)
                    (best_candidates cands) (unfold signature_match in best_candidates-new cands)),
            )
      ]
