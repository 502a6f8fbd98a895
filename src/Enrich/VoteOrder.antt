-- ===== src/Enrich/VoteOrder.antt =====
-- The order of the votes that merge_candidates of rom_analyzer/enrich.py counts.
use rom_analyzer.Common.{ℕ, ◌<◌, ◌≡◌, ◌⊎◌, inl, inr, true, List, length, nat_eq, arith, Bool-cases}
use rom_analyzer.Common.Text.{Text, text_eq, text_leb}
use rom_analyzer.Common.TextOrder.{text_leb_total, text_leb_trans}
use rom_analyzer.Common.Dict.{Dict}
use rom_analyzer.Common.Dict.Group.{with_key}
use rom_analyzer.Common.Sort.{IsOrder}
use rom_analyzer.Enrich.{LabelCandidate}
use rom_analyzer.Enrich.Gather.{best_rank, vote_leb}

-- A name and those who propose it.
abbrev pub Vote : Type 0
Vote = Text × List LabelCandidate

abbrev pub voters : Text → List LabelCandidate → List LabelCandidate
voters = with_key (λ (c : LabelCandidate). c.proposed)

pub vote_leb-IsOrder : (priority : Dict Text ℕ) → IsOrder (vote_leb priority)
unfolding vote_leb
vote_leb-IsOrder priority = record {
  total = λ v w h. ground (arith, text_leb_total v.0 w.0);
  trans = λ u v w h k. ground (arith, text_leb_trans u.0 v.0 w.0);
}

pub vote_leb_refl : (priority : Dict Text ℕ) (v : Vote) → vote_leb priority v v ≡ true
vote_leb_refl priority v = elim (Bool-cases (vote_leb priority v v)) [
  | inl h ↦ h
  | inr h ↦ (vote_leb-IsOrder priority).total v v h
]

-- Fewer voters; or as many, and all of a lower priority than the best of the other; or as many, with as
-- high a priority, and a name that does not stand behind the other in the alphabet.
abbrev pub IsNotAbove : Dict Text ℕ → Vote → Vote → Type 0
IsNotAbove priority (name, cs) (other, ds) =
    (length cs < length ds)
    ⊎ ((length cs ≡ length ds)
        × ((best_rank priority cs < best_rank priority ds)
            ⊎ ((best_rank priority cs ≡ best_rank priority ds) × (text_leb name other ≡ true))))

pub vote_leb_ranks :
    (priority : Dict Text ℕ) (v w : Vote) → vote_leb priority v w ≡ true → IsNotAbove priority v w
unfolding vote_leb
vote_leb_ranks priority v w h = ground arith
