-- ===== src/Agent/Examples.antt =====
-- Runs of rom_analyzer/agent_enrich.py, and its theorems at the same inputs.
use rom_analyzer.Common.{
  ℕ, ◌≤◌, ◌<◌, ◌≡◌, refl, ◌↔◌, true, false, none, some, List, [], ◌∷◌, ◌++◌, In, map, arith,
}
use rom_analyzer.Common.Text.{Text, codes, text_eq}
use rom_analyzer.Common.Sort.{sort, insert}
use rom_analyzer.Common.Sets.{members, inter}
use rom_analyzer.Common.Json.{◌>>=◌}
use rom_analyzer.Agent.{
  QueueEntry, StateDir, rescore_neighbors, rescore, boost, overlap, by_priority, pop_batch,
  load_queue, save_queue, load_var_queue, save_var_queue, rescore_var_neighbors,
  check_stop_condition, check_var_stop_condition,
}
use rom_analyzer.Agent.Rescore.{load_queue-rescored, pop_batch-rescored, Meets}
use rom_analyzer.Agent.Stop.{
  Round, IsQuiet, append_rounds, append_var_rounds, check_stop_condition_iff,
}

abbrev empty_dir : StateDir
empty_dir = record {
  queue = none;
  queue_vars = none;
  yield_history = none;
  yield_history_vars = none;
  done = false;
  done_vars = false;
}

abbrev entry : Text → ℕ → List Text → QueueEntry
entry address priority neighbors = record {
  rom = codes "r";
  address = address;
  current_name = codes "FUN_1";
  prog_name = [];
  named_neighbor_count = priority;
  priority = priority;
  neighbor_addresses = neighbors;
  item_type = codes "function";
  category = [];
  sibling_addresses = [];
}

-- The second has three neighbours, one of them twice.
abbrev queue : List QueueEntry
queue =
    entry (codes "0x10") 2 (codes "0x30" ∷ [])
    ∷ entry (codes "0x20") 1 (codes "0x40" ∷ codes "0x50" ∷ codes "0x40" ∷ [])
    ∷ []

abbrev named : List Text
named = codes "0x40" ∷ codes "0x50" ∷ []

rescored_queue :
    map {B = Text × ℕ} (λ (e : QueueEntry). (e.address, e.priority)) (rescore_neighbors queue named)
    ≡ (codes "0x20", 3) ∷ (codes "0x10", 2) ∷ []
unfolding rescore_neighbors rescore boost overlap members inter by_priority sort insert
rescored_queue = refl

load_queue-rescored_example :
    (load_queue (save_queue empty_dir (rescore_neighbors queue named))
      ≡ some (rescore_neighbors queue named))
    × (load_var_queue (save_var_queue empty_dir (rescore_var_neighbors queue named []))
        ≡ some (rescore_var_neighbors queue named []))
load_queue-rescored_example = load_queue-rescored empty_dir queue named []

pop_batch-rescored_example :
    let (batch, remaining) = pop_batch (rescore_neighbors queue named) 1 in
    let e = entry (codes "0x20") 1 (codes "0x40" ∷ codes "0x50" ∷ codes "0x40" ∷ []) in
    (In e (batch ++ remaining) ↔ ((f : QueueEntry) × In f queue × (rescore named f ≡ e)))
    × ((b r : QueueEntry) → In b batch → In r remaining → r.priority ≤ b.priority)
    × ((e.priority < (rescore named e).priority) ↔ Meets e.neighbor_addresses named)
pop_batch-rescored_example =
    pop_batch-rescored queue named 1
      (entry (codes "0x20") 1 (codes "0x40" ∷ codes "0x50" ∷ codes "0x40" ∷ []))

abbrev round : ℕ → ℕ → Round
round n applied = record { round_num = n; applied = applied; review = 0 }

check_stop_condition_iff_example :
    (((append_rounds (round 1 5 ∷ round 2 1 ∷ []) empty_dir >>= λ e. check_stop_condition e 2 2)
        ≡ some true)
      ↔ IsQuiet 2 2 (round 1 5 ∷ round 2 1 ∷ []))
    × (((append_var_rounds (round 1 5 ∷ round 2 1 ∷ []) empty_dir >>= λ e.
            check_var_stop_condition e 2 2)
          ≡ some true)
        ↔ IsQuiet 2 2 (round 1 5 ∷ round 2 1 ∷ []))
check_stop_condition_iff_example =
    check_stop_condition_iff empty_dir (round 1 5 ∷ round 2 1 ∷ []) 2 2 refl refl (omega arith)
