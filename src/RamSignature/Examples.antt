-- ===== src/RamSignature/Examples.antt =====
-- A run of rom_analyzer/ram_signature.py, and its theorem at the same input.
use rom_analyzer.Common.{ℕ, ◌≡◌, ◌≢◌, refl, some, none, List, [], ◌∷◌, In, Pairwise}
use rom_analyzer.Common.Text.{Text, codes, hex}
use rom_analyzer.Common.Dict.{Dict, get, get_or, put}
use rom_analyzer.Common.Dict.Group.{group_by}
use rom_analyzer.Common.Sort.{max_by}
use rom_analyzer.Common.Sets.{members, inter, union}
use rom_analyzer.Common.Fraction.{fraction}
use rom_analyzer.Types.{MatchedFunction}
use rom_analyzer.DataRefs.{DataRef, read}
use rom_analyzer.RamSignature.{
  labels_in, build_ram_signatures, Candidate, all_candidates, score_leb, signature_match,
  match_by_ram_signature,
}
use rom_analyzer.RamSignature.Candidates.{IsCandidate}
use rom_analyzer.RamSignature.Mutual.{IsMutual}
use rom_analyzer.RamSignature.Matches.{match_by_ram_signature-IsOneToOne}

abbrev reads : ℕ → DataRef
reads a = record { instruction_offset = 0; referenced_address = a; label = none; ref_type = read }

abbrev labels : Dict ℕ Text
labels = (0x804000, codes "rpm") ∷ (0x804002, codes "load") ∷ (0x804004, codes "tps") ∷ []

built :
    build_ram_signatures
      ((0x100, reads 0x804000 ∷ reads 0x804008 ∷ reads 0x804000 ∷ [])
        ∷ (0x200, reads 0x804008 ∷ [])
        ∷ [])
      labels
    ≡ (0x100, codes "rpm" ∷ []) ∷ []
unfolding build_ram_signatures labels_in get members
built = refl

-- The last function of the new image is as similar to the second of the reference as the one in front
-- of it.
abbrev ref_sigs : Dict ℕ (List Text)
ref_sigs =
    (0x100, codes "rpm" ∷ codes "load" ∷ codes "tps" ∷ [])
    ∷ (0x200, codes "iat" ∷ codes "ect" ∷ [])
    ∷ []

abbrev new_sigs : Dict ℕ (List Text)
new_sigs =
    (0x110, codes "tps" ∷ codes "rpm" ∷ [])
    ∷ (0x120, codes "load" ∷ codes "tps" ∷ codes "rpm" ∷ [])
    ∷ (0x210, codes "iat" ∷ codes "ect" ∷ [])
    ∷ (0x220, codes "ect" ∷ codes "iat" ∷ [])
    ∷ []

abbrev expected : MatchedFunction
expected = record {
  ref_name = codes "FUN_00000100";
  ref_address = 0x100;
  new_address = 0x120;
  similarity = 0x3ff0000000000000;
  source = codes "ram_signature";
  reference = [];
}

matched : match_by_ram_signature ref_sigs new_sigs [] [] 2 0x3fe3333333333333 ≡ some (expected ∷ [])
unfolding match_by_ram_signature get get_or put group_by max_by members inter union fraction hex
    score_leb
matched = refl

match_by_ram_signature-IsOneToOne_example :
    (cands : List Candidate) × (all_candidates 2 0x3fe3333333333333 [] [] ref_sigs new_sigs
      ≡ some cands)
    × ((m : MatchedFunction)
        → In m (expected ∷ [])
        → (c : Candidate) × IsCandidate ref_sigs new_sigs [] [] 2 0x3fe3333333333333 c
          × IsMutual c cands
          × (signature_match [] c ≡ m))
    × Pairwise (λ (a b : MatchedFunction). a.ref_address ≢ b.ref_address) (expected ∷ [])
    × Pairwise (λ (a b : MatchedFunction). a.new_address ≢ b.new_address) (expected ∷ [])
match_by_ram_signature-IsOneToOne_example =
    match_by_ram_signature-IsOneToOne ref_sigs new_sigs [] [] 2 0x3fe3333333333333 (expected ∷ [])
      matched
