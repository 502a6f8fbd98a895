-- ===== src/Callgraph/Examples.antt =====
-- The theorems on rom_analyzer/callgraph.py at two small programs.
use mathlib.Core.List.{reverse}
use rom_analyzer.Common.{ℕ, ◌+◌, ◌≤◌, ◌≡◌, refl, Bool, some, List, [], ◌∷◌, length, leb, arith}
use rom_analyzer.Common.Text.{codes}
use rom_analyzer.Types.{MatchedFunction}
use rom_analyzer.Callgraph.{HeadlessRun, align}
use rom_analyzer.Callgraph.Align.{IsAlignment, align_longest}
use rom_analyzer.Callgraph.Decode.{decode_bra_target}
use rom_analyzer.Callgraph.Decode.Branch.{decode_bra_target-IsBranch}
use rom_analyzer.Callgraph.Anchors.{vector_slot, vector_anchors}
use rom_analyzer.Callgraph.Anchors.Pairs.{IsTable, vector_anchors-IsTable}
use rom_analyzer.Callgraph.Identity.{bytecode_identity_match}
use rom_analyzer.Callgraph.Identity.Matches.{IsOneToOne}
use rom_analyzer.Callgraph.Identity.Complete.{IsComplete, bytecode_identity_match-IsComplete}

abbrev within_two : ℕ → ℕ → Bool
within_two a b = leb a (b + 2)

align_longest_example :
    IsAlignment within_two
      (1 ∷ 9 ∷ [])
      (2 ∷ [])
      2
      1
      (reverse (align within_two (1 ∷ 9 ∷ []) (2 ∷ [])))
    × ((ps : List (ℕ × ℕ))
        → IsAlignment within_two (1 ∷ 9 ∷ []) (2 ∷ []) 2 1 ps
        → length ps ≤ length (align within_two (1 ∷ 9 ∷ []) (2 ∷ [])))
align_longest_example = align_longest within_two (1 ∷ 9 ∷ []) (2 ∷ [])

-- `bra` at 0 to 8.
abbrev image : List ℕ
image = 0xff ∷ 0 ∷ 0 ∷ 2 ∷ 0x70 ∷ 0 ∷ 0x70 ∷ 0 ∷ 0x1f ∷ 0xce ∷ 0xf0 ∷ 0 ∷ []

decode_bra_target-IsBranch_example : decode_bra_target image 0 ≡ some 8
decode_bra_target-IsBranch_example =
    decode_bra_target-IsBranch image 0 8
      (record { forward = omega arith; backward = omega arith; aligned = refl })
      (record { opcode = refl; high = refl; middle = refl; low = refl }) (omega arith) (omega arith)
      (omega arith)

abbrev ref_run : HeadlessRun
ref_run = record {
  functions = 0 ∷ 8 ∷ 12 ∷ [];
  symbols = [];
  callees = (0, 8 ∷ []) ∷ [];
  data_refs = [];
}

abbrev reset : MatchedFunction
reset = record {
  ref_name = codes "reset";
  ref_address = 0;
  new_address = 4;
  similarity = 0;
  source = codes "vector_table";
  reference = [];
}

bytecode_identity_match-IsComplete_example :
    let matches = bytecode_identity_match image (1 ∷ image) ref_run [] 4 128 (reset ∷ []) in
    IsOneToOne image (1 ∷ image) ref_run [] 4 128 (0 ∷ []) (4 ∷ []) matches
    × IsComplete image (1 ∷ image) ref_run [] 4 128 (0 ∷ []) (4 ∷ []) matches
bytecode_identity_match-IsComplete_example =
    bytecode_identity_match-IsComplete image (1 ∷ image) ref_run [] 4 128 (reset ∷ [])

vector_anchors-IsTable_example :
    IsTable
      (vector_slot image image ref_run ref_run [])
      0
      64
      []
      []
      (vector_anchors image image ref_run ref_run [])
vector_anchors-IsTable_example = vector_anchors-IsTable image image ref_run ref_run []
