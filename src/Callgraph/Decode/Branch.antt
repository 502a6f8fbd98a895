-- ===== src/Callgraph/Decode/Branch.antt =====
-- _decode_bra_target of rom_analyzer/callgraph.py inverts the encoding of a branch.
use rom_analyzer.Common.{
  ℕ, suc, ◌+◌, ◌-◌, ◌*◌, ◌/◌, ◌%◌, ◌≤◌, ◌<◌, ◌≡◌, ap, ◌∙◌, some, List, arith, leb, nat_eq,
  if◌then◌else◌, length, get_elem?, inl, inr, Bool-cases,
}
use rom_analyzer.Common.Int.{pos, negsuc, ◌+ℤ◌, scale}
use rom_analyzer.Callgraph.Decode.{byte, signed24, branch_target, inside, decode_bra_target}

-- The 24 bits of the displacement from `p` to `t` in words, in two's complement.
abbrev pub displacement : ℕ → ℕ → ℕ
displacement p t = if leb p t then (t - p) / 4 else 0x1000000 - (p - t) / 4

-- The distance is a number of words that 24 bits hold with a sign.
pub record IsReachable (p t : ℕ) : Type 0 where
  pub forward : t < p + 4 * 0x800000
  pub backward : p ≤ t + 4 * 0x800000
  pub aligned : p % 4 ≡ t % 4

-- The four bytes at `p` are those of the branch to `t`.
pub record IsBranch (rom : List ℕ) (p t : ℕ) : Type 0 where
  pub opcode : get_elem? rom p ≡ some 0xff
  pub high : get_elem? rom (p + 1) ≡ some (displacement p t / 0x10000)
  pub middle : get_elem? rom (p + 2) ≡ some (displacement p t / 0x100 % 0x100)
  pub low : get_elem? rom (p + 3) ≡ some (displacement p t % 0x100)

byte_lem : (rom : List ℕ) (i b : ℕ) → get_elem? rom i ≡ some b → byte rom i ≡ b
unfolding byte
byte_lem rom i b h = ground arith

signed24_pos : (d : ℕ) → d < 0x800000 → signed24 d ≡ pos d
unfolding signed24
signed24_pos d h = ground arith

signed24_neg : (k : ℕ) → k < 0x800000 → signed24 (0x1000000 - suc k) ≡ negsuc k
unfolding signed24
signed24_neg k h = ground arith

add_scaled_pos : (p d : ℕ) → pos p +ℤ scale (pos d) 4 ≡ pos (p + d * 4)
unfolding ◌+ℤ◌ scale
add_scaled_pos p d = ground arith

add_scaled_neg : (p k : ℕ) → suc k * 4 ≤ p → pos p +ℤ scale (negsuc k) 4 ≡ pos (p - suc k * 4)
unfolding ◌+ℤ◌ scale
add_scaled_neg p k h = ground arith

forward_lem :
    (p t : ℕ) → IsReachable p t → p ≤ t → ((t - p) / 4 < 0x800000) × (p + (t - p) / 4 * 4 ≡ t)
forward_lem p t r h = omega (arith, r.forward, r.aligned)

backward_lem :
    (p t : ℕ)
    → IsReachable p t
    → t < p
    → (k : ℕ) × ((p - t) / 4 ≡ suc k) × (k < 0x800000) × (suc k * 4 ≤ p) × (p - suc k * 4 ≡ t)
backward_lem p t r h =
    let k = (p - t) / 4 - 1 in
    (
      k,
      omega (arith, r.aligned),
      omega (arith, r.backward, r.aligned),
      omega (arith, r.aligned),
      omega (arith, r.aligned),
    )

signed24-displacement :
    (p t : ℕ) → IsReachable p t → pos p +ℤ scale (signed24 (displacement p t)) 4 ≡ pos t
signed24-displacement p t r = elim (Bool-cases (leb p t)) [
  | inl e ↦
      let (small, same) = forward_lem p t r (ground arith) in
      let d = (t - p) / 4 in
      let disp : displacement p t ≡ d = ground arith in
      ap (λ x. pos p +ℤ scale x 4) (ap signed24 disp ∙ signed24_pos d small)
      ∙ add_scaled_pos p d
      ∙ ap pos same
  | inr e ↦
      let (k, q, small, fits, same) = backward_lem p t r (ground arith) in
      let disp : displacement p t ≡ 0x1000000 - suc k = ground (arith, q) in
      ap (λ x. pos p +ℤ scale x 4) (ap signed24 disp ∙ signed24_neg k small)
      ∙ add_scaled_neg p k fits
      ∙ ap pos same
]

displacement_bytes : (d : ℕ) → d / 0x10000 * 0x10000 + d / 0x100 % 0x100 * 0x100 + d % 0x100 ≡ d
displacement_bytes d = omega arith

-- Where the bytes of a branch to a reachable target inside the image stand, that target is decoded.
pub decode_bra_target-IsBranch :
    (rom : List ℕ) (p t : ℕ)
    → IsReachable p t
    → IsBranch rom p t
    → p + 4 ≤ length rom
    → 0 < t
    → t < length rom
    → decode_bra_target rom p ≡ some t
unfolding decode_bra_target branch_target
decode_bra_target-IsBranch rom p t r b fits above below =
    let d = displacement p t in
    let target : branch_target rom p ≡ pos t =
      rw
        (
          byte_lem rom (p + 1) (d / 0x10000) b.high,
          byte_lem rom (p + 2) (d / 0x100 % 0x100) b.middle,
          byte_lem rom (p + 3) (d % 0x100) b.low,
          displacement_bytes d,
        )
        (signed24-displacement p t r) in
    let found : inside (length rom) (pos t) ≡ some t = unfold inside in ground arith in
    ground (arith, byte_lem rom p 0xff b.opcode, ap (inside (length rom)) target, found)
