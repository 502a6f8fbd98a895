-- ===== src/Agent/Queue.antt =====
-- The queues of rom_analyzer/agent_enrich.py: what is saved is loaded, and the batch is the best.
use rom_analyzer.Common.{◌≤◌, ◌≡◌, ap, ◌∙◌, true, some, List, arith, Pairwise, Pairwise-weaken}
use rom_analyzer.Agent.{
  QueueEntry, StateDir, to_dict, from_dict, by_priority, read_queue, write_queue, load_queue,
  save_queue, load_var_queue, save_var_queue,
}
use rom_analyzer.Common.Dict.{get}
use rom_analyzer.Common.Sort.{sort, by_key_desc, by_key_desc-IsOrder, sort-IsSorted, IsSorted}
use rom_analyzer.Common.Sort.Idem.{sort_sorted}
use rom_analyzer.Common.Json.{as_texts-text_list, as_list_of-list_value, required, defaulted}

from_dict-to_dict : (e : QueueEntry) → from_dict (to_dict e) ≡ some e
unfolding from_dict to_dict required defaulted get
from_dict-to_dict e =
    rw (as_texts-text_list e.neighbor_addresses, as_texts-text_list e.sibling_addresses)

read_queue-write_queue :
    (queue : List QueueEntry) → read_queue (some (write_queue queue)) ≡ some (by_priority queue)
unfolding read_queue write_queue
read_queue-write_queue queue = rw (as_list_of-list_value from_dict to_dict from_dict-to_dict queue)

abbrev pub Descends : List QueueEntry → Type 0
Descends = Pairwise (λ (a b : QueueEntry). b.priority ≤ a.priority)

Descends-IsSorted :
    (queue : List QueueEntry)
    → Descends queue
    → IsSorted (by_key_desc (λ (e : QueueEntry). e.priority)) queue
Descends-IsSorted queue =
    Pairwise-weaken (λ (a b : QueueEntry). b.priority ≤ a.priority)
      (λ a b. by_key_desc (λ (e : QueueEntry). e.priority) a b ≡ true) (λ a b h. ground arith) queue

pub by_priority-Descends : (queue : List QueueEntry) → Descends (by_priority queue)
unfolding by_priority
by_priority-Descends queue =
    Pairwise-weaken (λ a b. by_key_desc (λ (e : QueueEntry). e.priority) a b ≡ true)
      (λ (a b : QueueEntry). b.priority ≤ a.priority) (λ a b h. ground arith)
      (sort (by_key_desc (λ (e : QueueEntry). e.priority)) queue)
      (sort-IsSorted (by_key_desc (λ (e : QueueEntry). e.priority))
        (by_key_desc-IsOrder (λ (e : QueueEntry). e.priority)) queue)

by_priority_lem : (queue : List QueueEntry) → Descends queue → by_priority queue ≡ queue
unfolding by_priority
by_priority_lem queue h =
    sort_sorted (by_key_desc (λ (e : QueueEntry). e.priority)) queue (Descends-IsSorted queue h)

-- A queue in descending order is loaded as it was saved.
pub load_queue-save_queue :
    (d : StateDir) (queue : List QueueEntry)
    → Descends queue
    → load_queue (save_queue d queue) ≡ some queue
unfolding load_queue save_queue
load_queue-save_queue d queue h = read_queue-write_queue queue ∙ ap some (by_priority_lem queue h)

pub load_var_queue-save_var_queue :
    (d : StateDir) (queue : List QueueEntry)
    → Descends queue
    → load_var_queue (save_var_queue d queue) ≡ some queue
unfolding load_var_queue save_var_queue
load_var_queue-save_var_queue d queue h =
    read_queue-write_queue queue ∙ ap some (by_priority_lem queue h)
