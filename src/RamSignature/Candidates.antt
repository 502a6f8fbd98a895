-- ===== src/RamSignature/Candidates.antt =====
-- The candidates that the loops of match_by_ram_signature of rom_analyzer/ram_signature.py collect.
use rom_analyzer.Common.{
  ℕ, ◌≤◌, ◌≡◌, sym, subst, inl, inr, true, not, some, List, [], ◌∷◌, In, arith, filter, In-filter,
  Option-cases, nat_eq, flatten, elem, elem_iff, length,
}
use rom_analyzer.Common.Text.{Text, text_eq}
use rom_analyzer.Common.Dict.{Dict}
use rom_analyzer.Common.Mapped.{flatten_In}
use rom_analyzer.Common.Sets.{inter, union}
use rom_analyzer.Common.Fraction.{fraction}
use rom_analyzer.Common.Json.{each, In-each}
use rom_analyzer.Types.{Score}
use rom_analyzer.RamSignature.{Candidate, candidate, candidates_of, all_candidates}

-- Two functions without a match whose signatures are alike.
pub record IsCandidate (ref_sigs new_sigs : Dict ℕ (List Text)) (already_ref already_new : List ℕ)
    (min_shared : ℕ) (min_jaccard : Score) (c : Candidate) : Type 0 where
  pub ref_sig : List Text
  pub new_sig : List Text
  pub ref_there : In {A = ℕ × List Text} (c.ref_addr, ref_sig) ref_sigs
  pub new_there : In {A = ℕ × List Text} (c.new_addr, new_sig) new_sigs
  pub ref_open : In c.ref_addr already_ref → ⊥
  pub new_open : In c.new_addr already_new → ⊥
  pub enough : min_shared ≤ length (inter ref_sig new_sig)
  pub score_lem :
      c.score ≡ fraction (length (inter ref_sig new_sig)) (length (union ref_sig new_sig))
  pub similar : min_jaccard ≤ c.score

module _ (min_shared : ℕ) (min_jaccard : Score) where
  candidate_lem :
      (ref_addr : ℕ) (ref_sig : List Text) (new_addr : ℕ) (new_sig : List Text)
      (cs : List Candidate) (c : Candidate)
      → candidate min_shared min_jaccard ref_addr ref_sig new_addr new_sig ≡ some cs
      → In c cs
      → (c.ref_addr ≡ ref_addr)
        × (c.new_addr ≡ new_addr)
        × (min_shared ≤ length (inter ref_sig new_sig))
        × (c.score ≡ fraction (length (inter ref_sig new_sig)) (length (union ref_sig new_sig)))
        × (min_jaccard ≤ c.score)
  unfolding candidate
  candidate_lem ref_addr ref_sig new_addr new_sig [] c h m = absurd m
  candidate_lem ref_addr ref_sig new_addr new_sig (d ∷ []) c h (inl e) = ground arith
  candidate_lem ref_addr ref_sig new_addr new_sig (d ∷ []) c h (inr m) = absurd m
  candidate_lem ref_addr ref_sig new_addr new_sig (d ∷ e ∷ cs) c h m = ground arith

  open_lem : (a : ℕ) (already : List ℕ) → not (elem a already) ≡ true → In a already → ⊥
  open_lem a already h m = ground (arith, elem_iff a already)

  candidates_of_lem :
      (already_new : List ℕ) (new_sigs : Dict ℕ (List Text)) (ref_addr : ℕ) (ref_sig : List Text)
      (found : List (List Candidate)) (cs : List Candidate)
      → candidates_of min_shared min_jaccard already_new new_sigs ref_addr ref_sig ≡ some found
      → In cs found
      → (p : ℕ × List Text) × In p new_sigs
        × (In p.0 already_new → ⊥)
        × (candidate min_shared min_jaccard ref_addr ref_sig p.0 p.1 ≡ some cs)
  unfolding candidates_of
  candidates_of_lem already_new new_sigs ref_addr ref_sig found cs h m =
      let (p, n, e) =
        In-each (λ (p : ℕ × List Text). candidate min_shared min_jaccard ref_addr ref_sig p.0 p.1)
          (filter (λ (p : ℕ × List Text). not (elem p.0 already_new)) new_sigs) found h cs m in
      let (o, t) = (In-filter (λ (p : ℕ × List Text). not (elem p.0 already_new)) p new_sigs).0 n in
      (p, o, open_lem p.0 already_new t, e)

  -- What the two loops collect.
  pub all_candidates_lem :
      (already_ref already_new : List ℕ) (ref_sigs new_sigs : Dict ℕ (List Text))
      (cands : List Candidate)
      → all_candidates min_shared min_jaccard already_ref already_new ref_sigs new_sigs ≡ some cands
      → (c : Candidate) → In c cands
      → IsCandidate ref_sigs new_sigs already_ref already_new min_shared min_jaccard c
  unfolding all_candidates
  all_candidates_lem already_ref already_new ref_sigs new_sigs cands h c m =
      elim (Option-cases (
        each
          (λ (p : ℕ × List Text). candidates_of min_shared min_jaccard already_new new_sigs p.0 p.1)
          (filter (λ (p : ℕ × List Text). not (elem p.0 already_ref)) ref_sigs))) [
            | inl e ↦ cc
            | inr (found, e) ↦
                let q : flatten (flatten found) ≡ cands = ground arith in
                let (cs, n, i) = flatten_In c (flatten found) (subst (In c) (sym q) m) in
                let (row, o, j) = flatten_In cs found n in
                let (p, r, k) =
                  In-each
                    (λ (p : ℕ × List Text).
                      candidates_of min_shared min_jaccard already_new new_sigs p.0 p.1)
                    (filter (λ (p : ℕ × List Text). not (elem p.0 already_ref)) ref_sigs) found e
                    row o in
                let (s, t) =
                  (In-filter (λ (p : ℕ × List Text). not (elem p.0 already_ref)) p ref_sigs).0 r in
                let (z, u, free, v) = candidates_of_lem already_new new_sigs p.0 p.1 row cs k j in
                let (a, b, enough, score, similar) = candidate_lem p.0 p.1 z.0 z.1 cs c v i in
                record {
                  ref_sig = p.1;
                  new_sig = z.1;
                  ref_there = subst (λ (t : ℕ). In {A = ℕ × List Text} (t, p.1) ref_sigs) (sym a) s;
                  new_there = subst (λ (t : ℕ). In {A = ℕ × List Text} (t, z.1) new_sigs) (sym b) u;
                  ref_open =
                      subst (λ (t : ℕ). In t already_ref → ⊥) (sym a) (open_lem p.0 already_ref t);
                  new_open = subst (λ (t : ℕ). In t already_new → ⊥) (sym b) free;
                  enough = enough;
                  score_lem = score;
                  similar = similar;
                }
          ]
