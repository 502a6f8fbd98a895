-- ===== src/RamSignature/Mutual.antt =====
-- What the two tie filters of match_by_ram_signature leave: mutual bests, one for each address.
use rom_analyzer.Common.{◌≢◌, List, In, Pairwise, In-filter, ◌==◌, nat_eq}
use rom_analyzer.Common.Text.{text_eq}
use rom_analyzer.Common.Dict.Group.{with_key}
use rom_analyzer.Common.Keyed.{inherited}
use rom_analyzer.RamSignature.{Candidate, without_ties, best_candidates}
use rom_analyzer.RamSignature.Best.{IsBest, In-without_ties, without_ties-Pairwise}

-- Best among the candidates of its reference function, and best among those that are so and have its
-- function of the new image.
pub record IsMutual (c : Candidate) (cands : List Candidate) : Type 0 where
  pub ref_best : IsBest c (with_key (λ (d : Candidate). d.ref_addr) c.ref_addr cands)
  pub new_best : IsBest c (
      with_key
        (λ (d : Candidate). d.new_addr)
        c.new_addr
        (without_ties (λ (d : Candidate). d.ref_addr) cands))

pub In-best_candidates :
    (cands : List Candidate) (c : Candidate) → In c (best_candidates cands) → IsMutual c cands
unfolding best_candidates
In-best_candidates cands c m =
    let best =
      In-without_ties (λ (d : Candidate). d.new_addr)
        (without_ties (λ (d : Candidate). d.ref_addr) cands) c m in
    record {
      ref_best =
          In-without_ties (λ (d : Candidate). d.ref_addr) cands c
            ((In-filter (λ (d : Candidate). d.new_addr == c.new_addr) c
                (without_ties (λ (d : Candidate). d.ref_addr) cands)).0
              best.member).0;
      new_best = best;
    }

pub best_candidates-new :
    (cands : List Candidate) → Pairwise (λ c d. c.new_addr ≢ d.new_addr) (best_candidates cands)
unfolding best_candidates
best_candidates-new cands =
    without_ties-Pairwise (λ (d : Candidate). d.new_addr)
      (without_ties (λ (d : Candidate). d.ref_addr) cands)

survives :
    (cands : List Candidate) (c : Candidate)
    → In c (best_candidates cands)
    → In c (without_ties (λ (d : Candidate). d.ref_addr) cands)
survives cands c m =
    ((In-filter (λ (d : Candidate). d.new_addr == c.new_addr) c
        (without_ties (λ (d : Candidate). d.ref_addr) cands)).0
      (In-best_candidates cands c m).new_best.member).0

pub best_candidates-ref :
    (cands : List Candidate) → Pairwise (λ c d. c.ref_addr ≢ d.ref_addr) (best_candidates cands)
best_candidates-ref cands =
    inherited (λ (c : Candidate). c.new_addr) (λ (c : Candidate). c.ref_addr)
      (without_ties (λ (d : Candidate). d.ref_addr) cands) (best_candidates cands)
      (without_ties-Pairwise (λ (d : Candidate). d.ref_addr) cands) (best_candidates-new cands)
      (survives cands)
