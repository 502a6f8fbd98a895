-- ===== src/RamSignature.antt =====
-- rom_analyzer/ram_signature.py: functions that are matched by the named RAM variables they refer to.
pub mod Best
pub mod Candidates
pub mod Total
pub mod Mutual
pub mod Matches
mod Examples
use rom_analyzer.Common.{
  ℕ, zero, suc, ◌-◌, Bool, true, false, not, ◌||◌, Option, none, some, List, [], ◌∷◌, ◌++◌, map,
  ltb, leb, ◌==◌, nat_eq, if◌then◌else◌, length, filter, elem, flatten,
}
use rom_analyzer.Common.Text.{Text, codes, text_eq, hex}
use rom_analyzer.Common.Dict.{Dict, get, values}
use rom_analyzer.Common.Dict.Group.{group_by}
use rom_analyzer.Common.Sort.{max_by}
use rom_analyzer.Common.Sets.{members, inter, union}
use rom_analyzer.Common.Fraction.{fraction}
use rom_analyzer.Common.Format.{padded_hex}
use rom_analyzer.Common.Json.{◌>>=◌, each}
use rom_analyzer.Types.{Score, ReferenceSymbol, MatchedFunction}
use rom_analyzer.DataRefs.{DataRef}

-- The names in a comprehension with `if r.referenced_address in label_map`.
unfoldable pub labels_in : Dict ℕ Text → List DataRef → List Text
labels_in label_map [] = []
labels_in label_map (r ∷ refs) = elim (get label_map r.referenced_address) [
  | none ↦ labels_in label_map refs
  | some name ↦ name ∷ labels_in label_map refs
]

-- The keys of a dict are distinct, so `result[func_addr] = names` puts a new key behind the others.
unfoldable pub build_ram_signatures : Dict ℕ (List DataRef) → Dict ℕ Text → Dict ℕ (List Text)
unfolding labels_in
build_ram_signatures [] label_map = []
build_ram_signatures ((func_addr, refs) ∷ by_func) label_map =
    elim (members (labels_in label_map refs)) [
      | [] ↦ build_ram_signatures by_func label_map
      | name ∷ names ↦ (func_addr, name ∷ names) ∷ build_ram_signatures by_func label_map
    ]

-- An entry `(j, new_addr)` of ref_candidates, with its key.
pub record Candidate : Type 0 where
  pub ref_addr : ℕ
  pub new_addr : ℕ
  pub score : Score

module _ (min_shared : ℕ) (min_jaccard : Score) where
  -- The body of the inner loop, without the test for a match that exists: the candidates that it
  -- adds, of which there is one at most. `none` is the ZeroDivisionError of two empty signatures,
  -- which only a `min_shared` of 0 lets pass.
  unfoldable pub candidate : ℕ → List Text → ℕ → List Text → Option (List Candidate)
  candidate ref_addr ref_sig new_addr new_sig =
      let shared = length (inter ref_sig new_sig) in
      let total = length (union ref_sig new_sig) in
      let j = fraction shared total in
      if ltb shared min_shared
      then some []
      else if total == 0
      then none
      else if ltb j min_jaccard
      then some []
      else some (record { ref_addr = ref_addr; new_addr = new_addr; score = j } ∷ [])

  unfoldable pub candidates_of :
      List ℕ → Dict ℕ (List Text) → ℕ → List Text → Option (List (List Candidate))
  unfolding candidate
  candidates_of already_new new_sigs ref_addr ref_sig =
      each (λ (p : ℕ × List Text). candidate ref_addr ref_sig p.0 p.1)
        (filter (λ (p : ℕ × List Text). not (elem p.0 already_new)) new_sigs)

  -- The two loops; `continue` leaves the function out.
  unfoldable pub all_candidates :
      List ℕ → List ℕ → Dict ℕ (List Text) → Dict ℕ (List Text) → Option (List Candidate)
  unfolding candidates_of
  all_candidates already_ref already_new ref_sigs new_sigs = do
    found ←
        each (λ (p : ℕ × List Text). candidates_of already_new new_sigs p.0 p.1)
          (filter (λ (p : ℕ × List Text). not (elem p.0 already_ref)) ref_sigs)
    some (flatten (flatten found))

-- `j` of the first is not above that of the second.
unfoldable pub score_leb : Candidate → Candidate → Bool
score_leb c d = leb c.score d.score

-- `if len(best) > 1: continue`, and else `best[0]`; the list holds one candidate at least.
abbrev pub untied : List Candidate → List Candidate
untied (best ∷ []) = best ∷ []
untied _ = []

-- The candidate of the best score, if only one has it.
unfoldable pub unique_best : List Candidate → List Candidate
unique_best [] = []
unique_best (c ∷ cs) =
    let best_j = (max_by score_leb c cs).score in untied (filter (λ d. d.score == best_j) (c ∷ cs))

-- One of the two tie filters: the unique best of every group, in the order of the groups.
unfoldable pub without_ties : (Candidate → ℕ) → List Candidate → List Candidate
unfolding unique_best
without_ties side cands = flatten (map unique_best (values (group_by side cands)))

unfoldable pub ref_name : Dict ℕ ReferenceSymbol → ℕ → Text
unfolding padded_hex
ref_name ref_symbols_by_addr ref_addr = elim (get ref_symbols_by_addr ref_addr) [
  | some s ↦ s.name
  | none ↦ codes "FUN_" ++ padded_hex 8 ref_addr
]

unfoldable pub signature_match : Dict ℕ ReferenceSymbol → Candidate → MatchedFunction
unfolding ref_name
signature_match ref_symbols_by_addr c = record {
  ref_name = ref_name ref_symbols_by_addr c.ref_addr;
  ref_address = c.ref_addr;
  new_address = c.new_addr;
  similarity = c.score;
  source = codes "ram_signature";
  reference = [];
}

unfoldable pub best_candidates : List Candidate → List Candidate
unfolding without_ties
best_candidates cands =
    without_ties (λ (c : Candidate). c.new_addr)
      (without_ties (λ (c : Candidate). c.ref_addr) cands)

unfoldable pub match_by_ram_signature :
    Dict ℕ (List Text)
    → Dict ℕ (List Text)
    → List MatchedFunction
    → Dict ℕ ReferenceSymbol
    → ℕ
    → Score
    → Option (List MatchedFunction)
unfolding all_candidates best_candidates signature_match
match_by_ram_signature ref_sigs new_sigs existing_matches ref_symbols_by_addr min_shared
      min_jaccard =
    do
      let already_ref = map (λ (m : MatchedFunction). m.ref_address) existing_matches
      let already_new = map (λ (m : MatchedFunction). m.new_address) existing_matches
      cands ← all_candidates min_shared min_jaccard already_ref already_new ref_sigs new_sigs
      some (map (signature_match ref_symbols_by_addr) (best_candidates cands))
