-- ===== src/Agent/Rescore.antt =====
-- Rescoring in rom_analyzer/agent_enrich.py: who gains, and in which order the queue stands then.
use rom_analyzer.Common.{
  ℕ, ◌+◌, ◌≤◌, ◌<◌, ◌≡◌, refl, sym, subst, ◌↔◌, inl, true, some, List, [], ◌∷◌, ◌++◌, map, In,
  arith, Pairwise-weaken, length, In-map, map-In,
}
use rom_analyzer.Common.Text.{Text, text_eq}
use rom_analyzer.Common.Sets.{members, inter, In-members, In-inter}
use rom_analyzer.Common.Mapped.{Pairwise-map, Pairwise-take-drop, take-append-drop}
use rom_analyzer.Common.Sort.{sort, sort-IsSorted, IsOrder, In-sort, by_key_desc}
use rom_analyzer.Agent.{
  QueueEntry, StateDir, overlap, boost, rescore, rescore_neighbors, pair_desc, rescored_pair,
  rescore_var_neighbors, by_priority, pop_batch, load_queue, save_queue, load_var_queue,
  save_var_queue,
}
use rom_analyzer.Agent.Queue.{
  Descends, by_priority-Descends, load_queue-save_queue, load_var_queue-save_var_queue,
}

length_pos : {A : Type 0} (a : A) (xs : List A) → In a xs → 0 < length xs
length_pos a [] m = absurd m
length_pos a (x ∷ xs) m = omega arith

length-ne_zero : {A : Type 0} (xs : List A) → 0 < length xs → (a : A) × In a xs
length-ne_zero [] h = absurd (omega arith)
length-ne_zero (x ∷ xs) h = (x, inl refl)

-- The two sets have a member in common.
abbrev pub Meets : List Text → List Text → Type 0
Meets addresses named = (a : Text) × In a addresses × In a named

overlap_iff : (addresses named : List Text) → (0 < overlap addresses named) ↔ Meets addresses named
unfolding overlap
overlap_iff addresses named = (
  λ h.
      let (a, m) = length-ne_zero (inter (members addresses) named) h in
      let (n, t) = (In-inter a (members addresses) named).0 m in
      (a, (In-members a addresses).0 n, t),
  λ (a, m, n).
      length_pos a (inter (members addresses) named)
        ((In-inter a (members addresses) named).1 ((In-members a addresses).1 m, n)),
)

boost_priority : (gain : ℕ) (e : QueueEntry) → (boost gain e).priority ≡ e.priority + gain
unfolding boost
boost_priority gain e = ground arith

pub rescore_rises :
    (newly_named : List Text) (e : QueueEntry)
    → (e.priority < (rescore newly_named e).priority) ↔ Meets e.neighbor_addresses newly_named
unfolding rescore
rescore_rises newly_named e = ground (
  arith,
  boost_priority (overlap e.neighbor_addresses newly_named) e,
  overlap_iff e.neighbor_addresses newly_named,
)

pair_desc-IsOrder : IsOrder pair_desc
unfolding pair_desc
pair_desc-IsOrder = record { total = λ p q h. ground arith; trans = λ p q r h k. ground arith }

pair_desc-le : (p q : QueueEntry × ℕ) → pair_desc p q ≡ true → q.0.priority ≤ p.0.priority
unfolding pair_desc
pair_desc-le p q h = ground arith

pub rescore_var_neighbors-Descends :
    (queue : List QueueEntry) (newly_named newly_named_vars : List Text)
    → Descends (rescore_var_neighbors queue newly_named newly_named_vars)
unfolding rescore_var_neighbors
rescore_var_neighbors-Descends queue newly_named newly_named_vars =
    let pairs : List (QueueEntry × ℕ) = map (rescored_pair newly_named newly_named_vars) queue in
    Pairwise-map (λ (p : QueueEntry × ℕ). p.0) (λ a b. b.priority ≤ a.priority)
      (sort pair_desc pairs)
      (Pairwise-weaken (λ p q. pair_desc p q ≡ true) (λ p q. q.0.priority ≤ p.0.priority)
        pair_desc-le (sort pair_desc pairs) (sort-IsSorted pair_desc pair_desc-IsOrder pairs))

rescore_neighbors-Descends :
    (queue : List QueueEntry) (newly_named : List Text)
    → Descends (rescore_neighbors queue newly_named)
unfolding rescore_neighbors
rescore_neighbors-Descends queue newly_named =
    by_priority-Descends (map (rescore newly_named) queue)

-- A queue that has been rescored, and saved, is loaded with the entries in the same order: by
-- descending priority, of the functions and of the variables.
pub load_queue-rescored :
    (d : StateDir) (queue : List QueueEntry) (newly_named newly_named_vars : List Text)
    → (load_queue (save_queue d (rescore_neighbors queue newly_named))
        ≡ some (rescore_neighbors queue newly_named))
      × (load_var_queue
            (save_var_queue d (rescore_var_neighbors queue newly_named newly_named_vars))
          ≡ some (rescore_var_neighbors queue newly_named newly_named_vars))
load_queue-rescored d queue newly_named newly_named_vars = (
  load_queue-save_queue d (rescore_neighbors queue newly_named)
      (rescore_neighbors-Descends queue newly_named),
  load_var_queue-save_var_queue d (rescore_var_neighbors queue newly_named newly_named_vars)
      (rescore_var_neighbors-Descends queue newly_named newly_named_vars),
)

In-rescore_neighbors :
    (queue : List QueueEntry) (newly_named : List Text) (e : QueueEntry)
    → In e (rescore_neighbors queue newly_named)
      ↔ ((f : QueueEntry) × In f queue × (rescore newly_named f ≡ e))
unfolding rescore_neighbors by_priority
In-rescore_neighbors queue newly_named e =
    let moved =
      In-sort (by_key_desc (λ (f : QueueEntry). f.priority)) e (map (rescore newly_named) queue) in
    (
      λ m. In-map (rescore newly_named) e queue (moved.0 m),
      λ (f, m, q). moved.1 (
          subst (λ t. In t (map (rescore newly_named) queue)) q
            (map-In (rescore newly_named) f queue m)),
    )

-- After rescoring, the batch and the rest hold the rescored entries of the queue and no other, no
-- entry of the rest has a higher priority than one of the batch, and an entry's priority has risen
-- exactly if one of its neighbours is among the functions named in this round.
pub pop_batch-rescored :
    (queue : List QueueEntry) (newly_named : List Text) (k : ℕ) (e : QueueEntry)
    → let (batch, remaining) = pop_batch (rescore_neighbors queue newly_named) k in
      (In e (batch ++ remaining) ↔ ((f : QueueEntry) × In f queue × (rescore newly_named f ≡ e)))
      × ((b r : QueueEntry) → In b batch → In r remaining → r.priority ≤ b.priority)
      × ((e.priority < (rescore newly_named e).priority) ↔ Meets e.neighbor_addresses newly_named)
unfolding pop_batch
pop_batch-rescored queue newly_named k e =
    let rescored = rescore_neighbors queue newly_named in
    (
      subst (λ t. In e t ↔ ((f : QueueEntry) × In f queue × (rescore newly_named f ≡ e)))
          (sym (take-append-drop k rescored)) (In-rescore_neighbors queue newly_named e),
      λ b r m n.
          Pairwise-take-drop (λ (x y : QueueEntry). y.priority ≤ x.priority) k rescored b r
            (rescore_neighbors-Descends queue newly_named) m n,
      rescore_rises newly_named e,
    )
