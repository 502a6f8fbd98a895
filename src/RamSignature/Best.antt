-- ===== src/RamSignature/Best.antt =====
-- The tie filters of rom_analyzer/ram_signature.py: what is left is the only best of its group.
use rom_analyzer.Common.{
  ℕ, ◌≤◌, ◌<◌, ◌≡◌, ◌≢◌, refl, sym, ap, subst, ◌⊎◌, inl, inr, true, List, [], ◌∷◌, In, Pairwise,
  arith, filter, In-filter, Bool-cases, ◌==◌, nat_eq, nat_beq_iff,
}
use rom_analyzer.Common.Dict.Group.{with_key}
use rom_analyzer.Common.Dict.Reduced.{IsReduction, reduced-group_by-Pairwise, In-reduced-group_by}
use rom_analyzer.Common.Sort.{max_by, le-max_by, IsOrder}
use rom_analyzer.RamSignature.{Candidate, score_leb, untied, unique_best, without_ties}

-- The candidate is in the list, and any other there has a lower score.
pub record IsBest (c : Candidate) (cands : List Candidate) : Type 0 where
  pub member : In c cands
  pub best : (d : Candidate) → In d cands → (d ≡ c) ⊎ (d.score < c.score)

score_leb-IsOrder : IsOrder score_leb
unfolding score_leb
score_leb-IsOrder = record { total = λ c d h. ground arith; trans = λ c d e h k. ground arith }

score_leb-le : (c d : Candidate) → score_leb c d ≡ true → c.score ≤ d.score
unfolding score_leb
score_leb-le c d h = ground arith

single_lem : (tied : List Candidate) (c : Candidate) → In c (untied tied) → tied ≡ c ∷ []
single_lem [] c m = absurd m
single_lem (d ∷ []) c (inl e) = ap (λ t. t ∷ []) (sym e)
single_lem (d ∷ []) c (inr m) = absurd m
single_lem (d ∷ e ∷ tied) c m = absurd m

In-unique_best :
    (cands : List Candidate) (c : Candidate) → In c (unique_best cands) → IsBest c cands
unfolding unique_best
In-unique_best [] c m = absurd m
In-unique_best (x ∷ xs) c m =
    let best_j : ℕ = (max_by score_leb x xs).score in
    let tied = single_lem (filter (λ d. d.score == best_j) (x ∷ xs)) c m in
    let in_tied =
      (In-filter (λ d. d.score == best_j) c (x ∷ xs)).0 (subst (In c) (sym tied) (inl refl)) in
    record {
      member = in_tied.0;
      best = λ d n. elim (Bool-cases (d.score == best_j)) [
        | inl e ↦
            inl
              (elim (subst (In d) tied ((In-filter (λ d. d.score == best_j) d (x ∷ xs)).1 (n, e))) [
                | inl p ↦ p
                | inr f ↦ absurd f
              ])
        | inr e ↦ inr (
            ground (
              arith,
              nat_beq_iff d.score best_j,
              nat_beq_iff c.score best_j,
              in_tied.1,
              score_leb-le d (max_by score_leb x xs)
                  (le-max_by score_leb score_leb-IsOrder x xs d n),
            ))
      ];
    }

untied_lem : (tied : List Candidate) (R : Candidate → Candidate → Type 0) → Pairwise R (untied tied)
untied_lem [] R = tt
untied_lem (c ∷ []) R = (tt, tt)
untied_lem (c ∷ d ∷ tied) R = tt

unique_best-Pairwise :
    (cands : List Candidate) (R : Candidate → Candidate → Type 0) → Pairwise R (unique_best cands)
unfolding unique_best
unique_best-Pairwise [] R = tt
unique_best-Pairwise (x ∷ xs) R =
    untied_lem (filter (λ d. d.score == (max_by score_leb x xs).score) (x ∷ xs)) R

module _ (side : Candidate → ℕ) where
  unique_best-IsReduction : IsReduction side side unique_best
  unique_best-IsReduction = record {
    keeps = λ g c m. (c, (In-unique_best g c m).member, refl);
    alone = λ g. unique_best-Pairwise g (λ c d. side c ≢ side d);
  }

  -- No two of those that are left are of the same group.
  pub without_ties-Pairwise :
      (cands : List Candidate) → Pairwise (λ c d. side c ≢ side d) (without_ties side cands)
  unfolding without_ties
  without_ties-Pairwise = reduced-group_by-Pairwise side side unique_best unique_best-IsReduction

  -- Each is one of the candidates, and all others of its group have lower scores.
  pub In-without_ties :
      (cands : List Candidate) (c : Candidate)
      → In c (without_ties side cands)
      → IsBest c (with_key side (side c) cands)
  unfolding without_ties
  In-without_ties cands c m =
      In-unique_best (with_key side (side c) cands) c
        (In-reduced-group_by side side unique_best unique_best-IsReduction cands c m)
