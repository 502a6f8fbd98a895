-- ===== src/Flash/Runs.antt =====
-- rom_analyzer/flash_space.py against its specification: the blocks are the maximal runs.
use rom_analyzer.Common.{
  ℕ, zero, suc, ◌+◌, ◌-◌, ◌≤◌, ◌<◌, ◌≡◌, refl, ◌∙◌, ap, inl, inr, ◌↔◌, true, false, List, [], ◌++◌,
  arith, ltb, length, In, In-append, Pairwise, Pairwise-append, Bool-cases,
}
use rom_analyzer.Types.{CrcRegion, FlashFreeBlock}
use rom_analyzer.Flash.Align.{align_down-le}
use rom_analyzer.Flash.{byte_is, align_down, run_end, block, emit, scan, find_free_blocks}
use rom_analyzer.Flash.Stops.{byte_is-lt, Clear, run_end-Stops}

-- [s, e) is a run of `pad` that cannot be extended on either side.
pub record IsRun (rom : List ℕ) (pad s e : ℕ) : Type 0 where
  pub nonempty : s < e
  pub inside : (j : ℕ) → s ≤ j → j < e → byte_is rom j pad ≡ true
  pub before : (j : ℕ) → suc j ≡ s → byte_is rom j pad ≡ false
  pub after : byte_is rom e pad ≡ false

module _ (rom : List ℕ) (crc : CrcRegion) (min_length alignment pad : ℕ) where
  abbrev blocks_from : ℕ → ℕ → List FlashFreeBlock
  blocks_from = scan rom crc min_length alignment pad

  -- The run [s, e) is long enough once its end is rounded down.
  abbrev pub Fits : ℕ → ℕ → Type 0
  Fits s e = s + min_length ≤ align_down e alignment

  emit_iff :
      (s e : ℕ) (b : FlashFreeBlock)
      → In b (emit rom crc min_length alignment pad s e)
        ↔ (Fits s e × (b ≡ block crc s (align_down e alignment)))
  unfolding emit
  emit_iff s e b = ground arith

  -- What a block of the result stands for.
  pub record IsBlock (b : FlashFreeBlock) : Type 0 where
    pub from : ℕ
    pub to : ℕ
    pub run : IsRun rom pad from to
    pub fits : Fits from to
    pub value : b ≡ block crc from (align_down to alignment)

  scan_end : (fuel i : ℕ) → length rom ≤ i → blocks_from fuel i ≡ []
  unfolding scan
  scan_end zero i h = refl
  scan_end (suc fuel) i h = ground arith

  scan_skip :
      (fuel i : ℕ)
      → i < length rom
      → byte_is rom i pad ≡ false
      → blocks_from (suc fuel) i ≡ blocks_from fuel (i + 1)
  unfolding scan
  scan_skip fuel i h k = ground arith

  abbrev stop : ℕ → ℕ
  stop i = run_end rom pad (length rom) i

  scan_run :
      (fuel i : ℕ)
      → i < length rom
      → byte_is rom i pad ≡ true
      → blocks_from (suc fuel) i
        ≡ emit rom crc min_length alignment pad i (stop i) ++ blocks_from fuel (stop i)
  unfolding scan
  scan_run fuel i h k = ground arith

  stop-IsRun : (i : ℕ) → byte_is rom i pad ≡ true → Clear rom pad i → IsRun rom pad i (stop i)
  unfolding Clear
  stop-IsRun i h (inl c) = cc
  stop-IsRun i h (inr c) =
      let s = run_end-Stops rom pad (length rom) i (omega arith) in
      record {
        nonempty = ground (arith, s.from, s.at);
        inside = s.inside;
        before = c;
        after = s.at;
      }

  run_covers :
      (fuel i : ℕ)
      → Clear rom pad i
      → (b : FlashFreeBlock) → byte_is rom i pad ≡ true
      → In b (emit rom crc min_length alignment pad i (stop i) ++ blocks_from fuel (stop i))
      → ((i : ℕ)
          → Clear rom pad i
          → (b : FlashFreeBlock) → In b (blocks_from fuel i)
          → IsBlock b × (i ≤ b.start))
      → IsBlock b × (i ≤ b.start)
  unfolding block
  run_covers fuel i c b e m ih =
      elim ((In-append b (emit rom crc min_length alignment pad i (stop i))
          (blocks_from fuel (stop i))).0
        m) [
          | inl new ↦
              let (fits, value) = (emit_iff i (stop i) b).0 new in
              let run = stop-IsRun i e c in
              (
                record { from = i; to = stop i; run = run; fits = fits; value = value },
                ground (arith, value),
              )
          | inr old ↦
              let t = run_end-Stops rom pad (length rom) i (omega arith) in
              let (k, le) = ih (stop i) (unfold Clear in inl t.at) b old in
              (k, omega (arith, t.from))
        ]

  scan_sound :
      (fuel i : ℕ)
      → Clear rom pad i
      → (b : FlashFreeBlock) → In b (blocks_from fuel i)
      → IsBlock b × (i ≤ b.start)
  scan_sound zero i c b m = absurd (unfold scan in m)
  scan_sound (suc fuel) i c b m = elim (Bool-cases (ltb i (length rom))) [
    | inr past ↦ absurd (rw (scan_end (suc fuel) i (ground arith)) at m)
    | inl lt ↦ elim (Bool-cases (byte_is rom i pad)) [
      | inr e ↦
          let (k, le) =
            scan_sound fuel (i + 1) (unfold Clear in inr (λ j p. ground arith)) b
              (rw (scan_skip fuel i (ground arith) e) at m) in
          (k, omega arith)
      | inl e ↦
          run_covers fuel i c b e (rw (scan_run fuel i (ground arith) e) at m) (scan_sound fuel)
    ]
  ]

  stop_unique : (s e : ℕ) → IsRun rom pad s e → e ≡ stop s
  stop_unique s e r =
      let t = run_end-Stops rom pad (length rom) s (omega arith) in
      ground (arith, t.inside e, r.inside (stop s), r.after, t.at, t.from, r.nonempty)

  -- A run that begins behind `i` begins behind the run at `i`.
  past_stop : (i s e : ℕ) → IsRun rom pad s e → i < s → stop i ≤ s
  past_stop i s e r lt =
      let t = run_end-Stops rom pad (length rom) i (omega arith) in
      ground (arith, t.inside (s - 1), r.before (s - 1))

  run-lt : (s e : ℕ) → IsRun rom pad s e → s < length rom
  run-lt s e r = byte_is-lt rom s pad (r.inside s (omega arith) r.nonempty)

  scan_complete :
      (fuel i s e : ℕ)
      → length rom < fuel + i
      → IsRun rom pad s e
      → i ≤ s
      → Fits s e
      → In (block crc s (align_down e alignment)) (blocks_from fuel i)
  scan_complete zero i s e enough r le fits = absurd (omega (arith, run-lt s e r))
  scan_complete (suc fuel) i s e enough r le fits = elim (Bool-cases (byte_is rom i pad)) [
    | inr h ↦ rw (scan_skip fuel i (omega (arith, run-lt s e r)) h) (
        scan_complete fuel (i + 1) s e (omega arith) r (ground (arith, r.inside s, r.nonempty))
          fits)
    | inl h ↦
        let out = emit rom crc min_length alignment pad i (stop i) in
        let found =
          In-append (block crc s (align_down e alignment)) out (blocks_from fuel (stop i)) in
        let t = run_end-Stops rom pad (length rom) i (omega arith) in
        let stops_behind : i < stop i = ground (arith, t.from, t.at) in
        rw (scan_run fuel i (omega (arith, run-lt s e r)) h) (
          found.1 (elim (Bool-cases (ltb i s)) [
            | inl behind ↦ inr (
                scan_complete fuel (stop i) s e (omega arith) r (past_stop i s e r (ground arith))
                  fits)
            | inr same ↦
                let at_i : s ≡ i = ground arith in
                let ends : e ≡ stop i = stop_unique s e r ∙ ap stop at_i in
                inl ((emit_iff i (stop i) _).1 (ground arith, ground arith))
          ]))
  ]

  -- A record is a block of the result exactly when some maximal run of pad bytes, with its end
  -- rounded down, is at least min_length long and the record describes it.
  pub find_free_blocks_iff :
      (b : FlashFreeBlock) → In b (find_free_blocks rom crc min_length alignment pad) ↔ IsBlock b
  unfolding find_free_blocks
  find_free_blocks_iff b = (
    λ m.
        (scan_sound (suc (length rom)) 0 (unfold Clear in inr (λ j p. absurd (omega arith))) b m).0,
    λ h.
        rw (h.value)
          (scan_complete (suc (length rom)) 0 h.from h.to (omega arith) h.run (omega arith) h.fits),
  )

  emit-le :
      (s e : ℕ) (b : FlashFreeBlock) → In b (emit rom crc min_length alignment pad s e) → b.end ≤ e
  unfolding emit block
  emit-le s e b m = ground (arith, align_down-le e alignment)

  emit-ordered :
      (s e : ℕ)
      → Pairwise
          (λ (a b : FlashFreeBlock). a.end ≤ b.start)
          (emit rom crc min_length alignment pad s e)
  unfolding emit
  emit-ordered s e = ground arith

  scan-ordered :
      (fuel i : ℕ)
      → Clear rom pad i
      → Pairwise (λ (a b : FlashFreeBlock). a.end ≤ b.start) (blocks_from fuel i)
  scan-ordered zero i c = unfold scan in tt
  scan-ordered (suc fuel) i c = elim (Bool-cases (ltb i (length rom))) [
    | inr past ↦ rw (scan_end (suc fuel) i (ground arith)) tt
    | inl lt ↦ elim (Bool-cases (byte_is rom i pad)) [
      | inr e ↦
          rw (scan_skip fuel i (ground arith) e)
            (scan-ordered fuel (i + 1) (unfold Clear in inr (λ j p. ground arith)))
      | inl e ↦
          let t = run_end-Stops rom pad (length rom) i (omega arith) in
          let clear : Clear rom pad (stop i) = unfold Clear in inl t.at in
          rw (scan_run fuel i (ground arith) e) (
            Pairwise-append (emit rom crc min_length alignment pad i (stop i))
              (blocks_from fuel (stop i)) (emit-ordered i (stop i))
              (scan-ordered fuel (stop i) clear)
              (λ a b m n.
                omega (arith, emit-le i (stop i) a m, (scan_sound fuel (stop i) clear b n).1)))
    ]
  ]

  -- The blocks are reported in ascending order, and no two of them overlap.
  pub find_free_blocks-ordered :
      Pairwise
        (λ (a b : FlashFreeBlock). a.end ≤ b.start)
        (find_free_blocks rom crc min_length alignment pad)
  unfolding find_free_blocks
  find_free_blocks-ordered =
      scan-ordered (suc (length rom)) 0 (unfold Clear in inr (λ j p. absurd (omega arith)))
