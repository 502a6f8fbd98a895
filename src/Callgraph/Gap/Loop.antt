-- ===== src/Callgraph/Gap/Loop.antt =====
-- The outer loop of gap_fill in rom_analyzer/callgraph.py: it ends, and what a step keeps it keeps.
use rom_analyzer.Common.{
  In-flatten, ℕ, zero, suc, ◌<◌, ◌≡◌, refl, sym, ap, subst, ◌∙◌, ◌⊎◌, inl, inr, Bool, true, false,
  Option, List, [], arith, nat_eq, length, In, map-In, Bool-cases,
}
use rom_analyzer.Common.Dict.{values, get_or}
use rom_analyzer.Types.{MatchedFunction}
use rom_analyzer.Callgraph.{HeadlessRun, lcs_align, size_ratio_ok, tolerance_50}
use rom_analyzer.Callgraph.Align.{In-align}
use rom_analyzer.Callgraph.Gap.{
  Gap, add_pair, aligned_callees, fill_callers, gap_loop, start_gap, final_gap, all_callees,
}
use rom_analyzer.Callgraph.Gap.Step.{
  IsNext, free_ref, keeps_pass, unpaired, unpaired-put, unpaired-le,
}

module _ (ref_run new_run : HeadlessRun) (images : Option (List ℕ × List ℕ)) where
  abbrev pub add : Gap → ℕ → ℕ → Gap
  add = add_pair ref_run new_run images

  abbrev pub pass : Gap → Gap × Bool
  pass g = fill_callers ref_run new_run images ref_run.callees g false

  is_callee :
      (g : Gap) (r n : ℕ)
      → IsNext ref_run new_run images g r n
      → In r (all_callees ref_run new_run images)
  unfolding aligned_callees lcs_align
  is_callee g r n h =
      let (m, _, _) =
        In-align (size_ratio_ok ref_run new_run tolerance_50) h.callees
          (get_or new_run.callees h.new_caller []) r n h.is_aligned in
      In-flatten r h.callees (values ref_run.callees)
        (map-In (λ (p : ℕ × List ℕ). p.1) (h.caller, h.callees) ref_run.callees h.is_caller) m

  left : Gap → ℕ
  left g = unpaired g.matched_ref (all_callees ref_run new_run images)

  -- Nothing was changed, or less is left.
  abbrev HasMoved : Gap → Gap → Bool → Type 0
  HasMoved g g' changed = ((changed ≡ false) × (g' ≡ g)) ⊎ ((changed ≡ true) × (left g' < left g))

  add-left : (g : Gap) (r n : ℕ) → IsNext ref_run new_run images g r n → left (add g r n) < left g
  unfolding left add_pair
  add-left g r n h =
      (unpaired-put g.matched_ref r n (all_callees ref_run new_run images)).1 (is_callee g r n h)
        (free_ref ref_run new_run images g r n h.free)

  HasMoved-add :
      (g g' : Gap) (changed : Bool) (r n : ℕ)
      → IsNext ref_run new_run images g' r n
      → HasMoved g g' changed
      → HasMoved g (add g' r n) true
  HasMoved-add g g' changed r n h (inl (_, e)) =
      inr (refl, subst (λ t. left (add g' r n) < left t) e (add-left g' r n h))
  HasMoved-add g g' changed r n h (inr (_, l)) = inr (refl, omega (arith, l, add-left g' r n h))

  HasMoved-pass : (g : Gap) → HasMoved g (pass g).0 (pass g).1
  HasMoved-pass g =
      keeps_pass ref_run new_run images (HasMoved g) (HasMoved-add g) g (inl (refl, refl))

  -- A pass over it changes nothing.
  abbrev pub IsStable : Gap → Type 0
  IsStable g = pass g ≡ (g, false)

  loop_again :
      (fuel : ℕ) (g : Gap)
      → (pass g).1 ≡ true
      → gap_loop ref_run new_run images (suc fuel) g
        ≡ gap_loop ref_run new_run images fuel (pass g).0
  unfolding gap_loop
  loop_again fuel g e = ground arith

  loop_done :
      (fuel : ℕ) (g : Gap)
      → (pass g).1 ≡ false
      → gap_loop ref_run new_run images (suc fuel) g ≡ (pass g).0
  unfolding gap_loop
  loop_done fuel g e = ground arith

  -- With enough fuel the loop ends because nothing changes.
  gap_loop-IsStable :
      (fuel : ℕ) (g : Gap) → left g < fuel → IsStable (gap_loop ref_run new_run images fuel g)
  gap_loop-IsStable zero g h = absurd (omega arith)
  gap_loop-IsStable (suc fuel) g h = elim (HasMoved-pass g) [
    | inl (e, same) ↦
        subst IsStable (sym (loop_done fuel g e ∙ same))
          (ap (λ t. (t, (pass g).1)) same ∙ ap (λ t. (g, t)) e)
    | inr (e, l) ↦
        subst IsStable (sym (loop_again fuel g e)) (gap_loop-IsStable fuel (pass g).0 (omega arith))
  ]

  module _ (P : Gap → Type 0)
      (keeps : (g : Gap) (r n : ℕ)
        → IsNext ref_run new_run images g r n
        → P g
        → P (add g r n)) where
    pub keeps_loop : (fuel : ℕ) (g : Gap) → P g → P (gap_loop ref_run new_run images fuel g)
    keeps_loop zero g h = unfold gap_loop in h
    keeps_loop (suc fuel) g h =
        let next =
          keeps_pass ref_run new_run images (λ g changed. P g) (λ g changed r n. keeps g r n) g h in
        elim (Bool-cases (pass g).1) [
          | inl e ↦ subst P (sym (loop_again fuel g e)) (keeps_loop fuel (pass g).0 next)
          | inr e ↦ subst P (sym (loop_done fuel g e)) next
        ]

  -- gap_fill ends with a pass over the callers that pairs no more.
  pub final_gap-IsStable :
      (existing : List MatchedFunction) → IsStable (final_gap ref_run new_run images existing)
  unfolding final_gap left
  final_gap-IsStable existing =
      let callees = all_callees ref_run new_run images in
      let g = start_gap ref_run new_run images existing in
      gap_loop-IsStable (suc (length callees)) g (omega (arith, unpaired-le g.matched_ref callees))
