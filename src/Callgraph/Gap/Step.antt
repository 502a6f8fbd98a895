-- ===== src/Callgraph/Gap/Step.antt =====
-- What holds of the variables of gap_fill in rom_analyzer/callgraph.py before a pair is added holds
-- throughout, if adding a pair keeps it; and every pass that adds a pair leaves less to add.
use rom_analyzer.Common.{
  ℕ, ◌≤◌, ◌<◌, ◌≡◌, ◌≢◌, refl, sym, subst, inl, inr, Bool, true, false, not, Option, none, some,
  List, [], ◌∷◌, arith, nat_eq, length, elem, elem_iff, filter, In, map-In, Option-cases,
  Bool-cases,
}
use rom_analyzer.Common.Dict.{Dict, keys, get, put, get-put, keys-put, get-In}
use rom_analyzer.Callgraph.{HeadlessRun}
use rom_analyzer.Callgraph.Gap.{
  Gap, is_blocked, add_pair, fill_pairs, aligned_callees, fill_caller, fill_callers,
}

module _ (ref_run new_run : HeadlessRun) (images : Option (List ℕ × List ℕ)) where
  abbrev Pairs : Type 0
  Pairs = List (ℕ × ℕ)

  -- The pair is of callees of a caller that is paired, it is aligned, and it is not blocked.
  pub record IsNext (g : Gap) (r n : ℕ) : Type 0 where
    pub caller : ℕ
    pub new_caller : ℕ
    pub callees : List ℕ
    pub is_caller : In (caller, callees) ref_run.callees
    pub is_paired : get g.matched_ref caller ≡ some new_caller
    pub is_aligned : In (r, n) (aligned_callees ref_run new_run images new_caller callees)
    pub free : is_blocked ref_run new_run images g r n ≡ false

  pub free_ref :
      (g : Gap) (r n : ℕ)
      → is_blocked ref_run new_run images g r n ≡ false
      → In r (keys g.matched_ref)
      → ⊥
  unfolding is_blocked
  free_ref g r n h m = ground (arith, elem_iff r (keys g.matched_ref))

  pub free_new :
      (g : Gap) (r n : ℕ) → is_blocked ref_run new_run images g r n ≡ false → In n g.matched_new → ⊥
  unfolding is_blocked
  free_new g r n h m = ground (arith, elem_iff n g.matched_new)

  -- A caller that is paired keeps its pair.
  caller_kept :
      (g : Gap) (r n c c' : ℕ)
      → is_blocked ref_run new_run images g r n ≡ false
      → get g.matched_ref c ≡ some c'
      → get (add_pair ref_run new_run images g r n).matched_ref c ≡ some c'
  unfolding add_pair
  caller_kept g r n c c' h e =
      let key = map-In (λ (p : ℕ × ℕ). p.0) (c, c') g.matched_ref (get-In g.matched_ref c c' e) in
      let other : r ≢ c =
        λ q. free_ref g r n h (subst (λ t. In t (keys g.matched_ref)) (sym q) key) in
      ground (arith, get-put g.matched_ref r c n, other)

  fill_caller-none :
      (caller : ℕ) (callees : List ℕ) (g : Gap) (changed : Bool)
      → get g.matched_ref caller ≡ none
      → fill_caller ref_run new_run images caller callees g changed ≡ (g, changed)
  unfolding fill_caller
  fill_caller-none caller callees g changed e = ground arith

  fill_caller-some :
      (caller c : ℕ) (callees : List ℕ) (g : Gap) (changed : Bool)
      → get g.matched_ref caller ≡ some c
      → fill_caller ref_run new_run images caller callees g changed
        ≡ fill_pairs ref_run new_run images
            (aligned_callees ref_run new_run images c callees)
            g
            changed
  unfolding fill_caller
  fill_caller-some caller c callees g changed e = ground arith

  module _ (P : Gap → Bool → Type 0)
      (keeps : (g : Gap) (changed : Bool) (r n : ℕ)
        → IsNext g r n
        → P g changed
        → P (add_pair ref_run new_run images g r n) true) where
    keeps-fill_pairs :
        (caller new_caller : ℕ) (callees : List ℕ)
        → In (caller, callees) ref_run.callees
        → (pairs : Pairs)
        → ((p : ℕ × ℕ)
            → In p pairs
            → In p (aligned_callees ref_run new_run images new_caller callees))
        → (g : Gap) (changed : Bool) → get g.matched_ref caller ≡ some new_caller
        → P g changed
        → P
            (fill_pairs ref_run new_run images pairs g changed).0
            (fill_pairs ref_run new_run images pairs g changed).1
    unfolding fill_pairs
    keeps-fill_pairs caller new_caller callees i [] sub g changed e h = h
    keeps-fill_pairs caller new_caller callees i ((r, n) ∷ pairs) sub g changed e h =
        elim (Bool-cases (is_blocked ref_run new_run images g r n)) [
          | inl b ↦ rw b (
              keeps-fill_pairs caller new_caller callees i pairs (λ p m. sub p (inr m)) g changed e
                h)
          | inr b ↦ rw b (
              keeps-fill_pairs caller new_caller callees i pairs (λ p m. sub p (inr m))
                (add_pair ref_run new_run images g r n) true
                (caller_kept g r n caller new_caller b e)
                (keeps g changed r n
                  (record {
                    caller = caller;
                    new_caller = new_caller;
                    callees = callees;
                    is_caller = i;
                    is_paired = e;
                    is_aligned = sub (r, n) (inl refl);
                    free = b;
                  })
                  h))
        ]

    keeps-fill_caller :
        (caller : ℕ) (callees : List ℕ)
        → In (caller, callees) ref_run.callees
        → (g : Gap) (changed : Bool) → P g changed
        → P
            (fill_caller ref_run new_run images caller callees g changed).0
            (fill_caller ref_run new_run images caller callees g changed).1
    keeps-fill_caller caller callees i g changed h =
        elim (Option-cases (get g.matched_ref caller)) [
          | inl e ↦ subst (λ t. P t.0 t.1) (sym (fill_caller-none caller callees g changed e)) h
          | inr (c, e) ↦
              subst (λ t. P t.0 t.1) (sym (fill_caller-some caller c callees g changed e))
                (keeps-fill_pairs caller c callees i
                  (aligned_callees ref_run new_run images c callees) (λ p m. m) g changed e h)
        ]

    keeps-fill_callers :
        (callers : Dict ℕ (List ℕ))
        → ((p : ℕ × List ℕ) → In p callers → In p ref_run.callees)
        → (g : Gap) (changed : Bool) → P g changed
        → P
            (fill_callers ref_run new_run images callers g changed).0
            (fill_callers ref_run new_run images callers g changed).1
    unfolding fill_callers
    keeps-fill_callers [] sub g changed h = h
    keeps-fill_callers ((caller, callees) ∷ callers) sub g changed h =
        let next = fill_caller ref_run new_run images caller callees g changed in
        keeps-fill_callers callers (λ p m. sub p (inr m)) next.0 next.1
          (keeps-fill_caller caller callees (sub (caller, callees) (inl refl)) g changed h)

    -- A pass keeps it.
    pub keeps_pass :
        (g : Gap)
        → P g false
        → P
            (fill_callers ref_run new_run images ref_run.callees g false).0
            (fill_callers ref_run new_run images ref_run.callees g false).1
    keeps_pass g h = keeps-fill_callers ref_run.callees (λ p m. m) g false h

-- How many callees of the reference are not paired.
abbrev pub unpaired : Dict ℕ ℕ → List ℕ → ℕ
unpaired d refs = length (filter (λ r. not (elem r (keys d))) refs)

pub unpaired-put :
    (d : Dict ℕ ℕ) (r n : ℕ) (refs : List ℕ)
    → (unpaired (put d r n) refs ≤ unpaired d refs)
      × (In r refs → (In r (keys d) → ⊥) → unpaired (put d r n) refs < unpaired d refs)
unpaired-put d r n [] = (omega arith, λ m. absurd m)
unpaired-put d r n (x ∷ refs) =
    let (le, lt) = unpaired-put d r n refs in
    ground (arith, le, lt, keys-put d r n x, elem_iff x (keys d), elem_iff x (keys (put d r n)))

pub unpaired-le : (d : Dict ℕ ℕ) (refs : List ℕ) → unpaired d refs ≤ length refs
unpaired-le d [] = omega arith
unpaired-le d (x ∷ refs) = ground (arith, unpaired-le d refs)
