-- ===== src/CanSlots/Best.antt =====
-- The two tables that locate_sid_tables of rom_analyzer/can_slots.py finds.
use rom_analyzer.Common.{
  ℕ, ◌≤◌, ◌<◌, ◌≡◌, ◌≢◌, refl, sym, ap, subst, ◌∙◌, ◌↔◌, ◌⊎◌, inl, inr, true, false, none, some,
  List, [], ◌∷◌, ◌++◌, In, All, All-of_In, arith, Bool-cases, nat_beq_iff, ◌==◌, nat_eq, In-append,
  ltb,
}
use rom_analyzer.CanSlots.{
  find_ld24_immediates, score_table_pair, Located, row, ordered_pairs, best_pair, locate_sid_tables,
}

-- What the loop keeps is not worse than a pair, nor than what it began with; and it is one of these.
record IsKept (score : ℕ × ℕ → ℕ) (pairs : List (ℕ × ℕ)) (first last : Located) : Type 0 where
  pub grows : first.score ≤ last.score
  pub best : (p : ℕ × ℕ) → In p pairs → score p ≤ last.score
  pub origin :
      (last ≡ first)
      ⊎ ((p : ℕ × ℕ) × In p pairs
          × (last ≡ record { tables = some p; score = score p })
          × (0 < score p))

next_lem :
    (score : ℕ × ℕ → ℕ) (p : ℕ × ℕ) (best : Located)
    → ((ltb best.score (score p) ≡ true) × (best.score < score p))
      ⊎ ((ltb best.score (score p) ≡ false) × (score p ≤ best.score))
next_lem score p best = ground arith

best_pair_lem :
    (score : ℕ × ℕ → ℕ) (pairs : List (ℕ × ℕ)) (best : Located)
    → IsKept score pairs best (best_pair score pairs best)
unfolding best_pair
best_pair_lem score [] best = record {
  grows = omega arith;
  best = λ p m. absurd m;
  origin = inl refl;
}
best_pair_lem score (p ∷ pairs) best = elim (next_lem score p best) [
  | inl (h, l) ↦
      let v = best_pair_lem score pairs (record { tables = some p; score = score p }) in
      rw h (record {
        grows = omega (arith, l, v.grows);
        best = λ q m. elim m [ inl e ↦ rw e v.grows | inr n ↦ v.best q n ];
        origin = elim v.origin [
          | inl e ↦ inr (p, inl refl, e, omega (arith, l))
          | inr (q, n, e, z) ↦ inr (q, inr n, e, z)
        ];
      })
  | inr (h, l) ↦
      let v = best_pair_lem score pairs best in
      rw h (record {
        grows = v.grows;
        best = λ q m. elim m [ inl e ↦ rw e (omega (arith, l, v.grows)) | inr n ↦ v.best q n ];
        origin = elim v.origin [ inl e ↦ inl e | inr (q, n, e, z) ↦ inr (q, inr n, e, z) ];
      })
]

row_iff :
    (x : ℕ) (all : List ℕ) (a b : ℕ)
    → In {A = ℕ × ℕ} (a, b) (row x all) ↔ ((a ≡ x) × In b all × (a ≢ b))
row_iff x [] a b = (λ m. absurd (unfold row in m), λ h. absurd h.1)
row_iff x (y ∷ all) a b = step (Bool-cases (x == y)) (row_iff x all a b)
  where
    step :
        ((x == y) ≡ true) ⊎ ((x == y) ≡ false)
        → In {A = ℕ × ℕ} (a, b) (row x all) ↔ ((a ≡ x) × In b all × (a ≢ b))
        → In {A = ℕ × ℕ} (a, b) (row x (y ∷ all)) ↔ ((a ≡ x) × In b (y ∷ all) × (a ≢ b))
    step (inl h) ih =
        let same : x ≡ y = (nat_beq_iff x y).0 h in
        unfold row in
        rw h (
          λ m. let (e, i, ne) = ih.0 m in (e, inr i, ne),
          λ (e, i, ne). elim i [ inl q ↦ absurd (ne (e ∙ same ∙ sym q)) | inr n ↦ ih.1 (e, n, ne) ],
        )
    step (inr h) ih =
        let other : x ≢ y = λ e. cc (h, (nat_beq_iff x y).1 e) in
        unfold row in
        rw h (
          λ m. elim m [
            | inl e ↦
                let p = ap (λ (t : ℕ × ℕ). t.0) e in
                let q = ap (λ (t : ℕ × ℕ). t.1) e in (p, inl q, λ r. other (sym p ∙ r ∙ q))
            | inr n ↦ let (e, i, ne) = ih.0 n in (e, inr i, ne)
          ],
          λ (e, i, ne). elim i [
            | inl q ↦ inl (ap (λ t. (t, b)) e ∙ ap (λ t. (x, t)) q)
            | inr n ↦ inr (ih.1 (e, n, ne))
          ],
        )

pairs_step :
    (x : ℕ) (imms all : List ℕ) → ordered_pairs (x ∷ imms) all ≡ row x all ++ ordered_pairs imms all
unfolding ordered_pairs
pairs_step x imms all = refl

pairs_iff :
    (imms all : List ℕ) (a b : ℕ)
    → In {A = ℕ × ℕ} (a, b) (ordered_pairs imms all) ↔ (In a imms × In b all × (a ≢ b))
pairs_iff [] all a b = (λ m. absurd (unfold ordered_pairs in m), λ h. absurd h.0)
pairs_iff (x ∷ imms) all a b =
    let both = In-append {A = ℕ × ℕ} (a, b) (row x all) (ordered_pairs imms all) in
    let ih = pairs_iff imms all a b in
    (
      λ m. elim (both.0 (subst (In {A = ℕ × ℕ} (a, b)) (pairs_step x imms all) m)) [
        | inl n ↦ let (e, i, ne) = (row_iff x all a b).0 n in (inl e, i, ne)
        | inr n ↦ let (i, j, ne) = ih.0 n in (inr i, j, ne)
      ],
      λ (i, j, ne). subst (In {A = ℕ × ℕ} (a, b)) (sym (pairs_step x imms all)) (elim i [
        | inl e ↦ both.1 (inl ((row_iff x all a b).1 (e, j, ne)))
        | inr n ↦ both.1 (inr (ih.1 (n, j, ne)))
      ]),
    )

-- Of the pairs of different immediates of the function, locate_sid_tables gives one that decodes to as
-- many known identifiers as any, with their number; it gives none, and 0, exactly if no pair decodes to
-- a known one.
pub locate_sid_tables-best :
    (rom_bytes : List ℕ) (check_sid_addr count : ℕ)
    → let imms = find_ld24_immediates rom_bytes check_sid_addr 0x80 in
      let found = locate_sid_tables rom_bytes check_sid_addr count in
      All (λ a. All (λ b. (a ≡ b) ⊎ (score_table_pair rom_bytes a b count ≤ found.score)) imms) imms
      × (((found.tables ≡ none) × (found.score ≡ 0))
          ⊎ ((p : ℕ × ℕ) × (found.tables ≡ some p)
              × In p.0 imms
              × In p.1 imms
              × (p.0 ≢ p.1)
              × (found.score ≡ score_table_pair rom_bytes p.0 p.1 count)
              × (0 < found.score)))
unfolding locate_sid_tables
locate_sid_tables-best rom_bytes check_sid_addr count =
    let imms = find_ld24_immediates rom_bytes check_sid_addr 0x80 in
    let score : ℕ × ℕ → ℕ = λ p. score_table_pair rom_bytes p.0 p.1 count in
    let v = best_pair_lem score (ordered_pairs imms imms) (record { tables = none; score = 0 }) in
    (
      All-of_In imms (λ a m. All-of_In imms (λ b n. elim (Bool-cases (a == b)) [
        | inl h ↦ inl ((nat_beq_iff a b).0 h)
        | inr h ↦
            let ne : a ≢ b = λ e. cc (h, (nat_beq_iff a b).1 e) in
            inr (v.best (a, b) ((pairs_iff imms imms a b).1 (m, n, ne)))
      ])),
      elim v.origin [
        | inl e ↦ inl (ap (λ (t : Located). t.tables) e, ap (λ (t : Located). t.score) e)
        | inr (p, m, e, z) ↦
            let (i, j, ne) = (pairs_iff imms imms p.0 p.1).0 m in
            let q = ap (λ (t : Located). t.score) e in
            inr (p, ap (λ (t : Located). t.tables) e, i, j, ne, q, omega (arith, q, z))
      ],
    )
