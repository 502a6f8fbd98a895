-- ===== src/Agent.antt =====
-- rom_analyzer/agent_enrich.py: the queues and the history that the naming loop keeps in its state
-- directory. A file holds the JSON value that was dumped into it; `none` is an absent file.

mod Examples
pub mod Queue
pub mod Stop
pub mod Rescore
use rom_analyzer.Common.{
  ℕ, ◌+◌, ◌-◌, Bool, true, false, ◌&&◌, ◌||◌, Option, none, some, List, [], ◌∷◌, ◌++◌, map, ltb,
  leb, if◌then◌else◌, ◌==◌, nat_eq, length, filter, elem, take, drop,
}
use rom_analyzer.Common.Text.{Text, codes, text_eq}
use rom_analyzer.Common.Dict.{Dict}
use rom_analyzer.Common.Sets.{members, inter}
use rom_analyzer.Common.Sort.{sort, by_key_desc}
use rom_analyzer.Common.Json.{
  Json, number, string, list_value, dict_value, text_list, as_number, as_text, as_texts, as_list,
  as_dict, as_list_of, required, defaulted, ◌>>=◌,
}

pub record QueueEntry : Type 0 where
  pub rom : Text
  pub address : Text
  pub current_name : Text
  pub prog_name : Text
  pub named_neighbor_count : ℕ
  pub priority : ℕ
  pub neighbor_addresses : List Text
  pub item_type : Text
  pub category : Text
  pub sibling_addresses : List Text

unfoldable pub to_dict : QueueEntry → Json
to_dict e = dict_value fields
  where
    fields : Dict Text Json
    fields =
        (codes "rom", string e.rom)
        ∷ (codes "address", string e.address)
        ∷ (codes "current_name", string e.current_name)
        ∷ (codes "prog_name", string e.prog_name)
        ∷ (codes "named_neighbor_count", number e.named_neighbor_count)
        ∷ (codes "priority", number e.priority)
        ∷ (codes "neighbor_addresses", text_list e.neighbor_addresses)
        ∷ (codes "item_type", string e.item_type)
        ∷ (codes "category", string e.category)
        ∷ (codes "sibling_addresses", text_list e.sibling_addresses)
        ∷ []

unfoldable pub from_dict : Json → Option QueueEntry
unfolding required defaulted
from_dict v = do
  d ← as_dict v
  rom ← required as_text d (codes "rom")
  address ← required as_text d (codes "address")
  current_name ← required as_text d (codes "current_name")
  prog_name ← defaulted as_text [] d (codes "prog_name")
  named_neighbor_count ← required as_number d (codes "named_neighbor_count")
  priority ← required as_number d (codes "priority")
  neighbor_addresses ← defaulted as_texts [] d (codes "neighbor_addresses")
  item_type ← defaulted as_text (codes "function") d (codes "item_type")
  category ← defaulted as_text [] d (codes "category")
  sibling_addresses ← defaulted as_texts [] d (codes "sibling_addresses")
  some (record {
    rom = rom;
    address = address;
    current_name = current_name;
    prog_name = prog_name;
    named_neighbor_count = named_neighbor_count;
    priority = priority;
    neighbor_addresses = neighbor_addresses;
    item_type = item_type;
    category = category;
    sibling_addresses = sibling_addresses;
  })

-- The files of the state directory that this module reads or writes.
pub record StateDir : Type 0 where
  pub queue : Option Json
  pub queue_vars : Option Json
  pub yield_history : Option Json
  pub yield_history_vars : Option Json
  pub done : Bool
  pub done_vars : Bool

-- `entries.sort(key=lambda e: e.priority, reverse=True)`
unfoldable pub by_priority : List QueueEntry → List QueueEntry
by_priority = sort (by_key_desc (λ (e : QueueEntry). e.priority))

unfoldable pub read_queue : Option Json → Option (List QueueEntry)
unfolding from_dict by_priority
read_queue none = some []
read_queue (some v) = do entries ← as_list_of from_dict v; some (by_priority entries)

unfoldable pub write_queue : List QueueEntry → Json
unfolding to_dict
write_queue queue = list_value (map to_dict queue)

unfoldable pub load_queue : StateDir → Option (List QueueEntry)
unfolding read_queue
load_queue d = read_queue d.queue

unfoldable pub save_queue : StateDir → List QueueEntry → StateDir
unfolding write_queue
save_queue d queue = record d { queue = some (write_queue queue) }

unfoldable pub load_var_queue : StateDir → Option (List QueueEntry)
unfolding read_queue
load_var_queue d = read_queue d.queue_vars

unfoldable pub save_var_queue : StateDir → List QueueEntry → StateDir
unfolding write_queue
save_var_queue d queue = record d { queue_vars = some (write_queue queue) }

unfoldable pub pop_batch : List QueueEntry → ℕ → List QueueEntry × List QueueEntry
pop_batch queue k = (take k queue, drop k queue)

-- `len(set(addresses) & named)`
unfoldable pub overlap : List Text → List Text → ℕ
unfolding members inter
overlap addresses named = length (inter (members addresses) named)

unfoldable pub boost : ℕ → QueueEntry → QueueEntry
boost gain e =
    if ltb 0 gain
    then record e {
      named_neighbor_count = e.named_neighbor_count + gain;
      priority = e.priority + gain;
    }
    else e

unfoldable pub rescore : List Text → QueueEntry → QueueEntry
unfolding boost overlap
rescore newly_named e = boost (overlap e.neighbor_addresses newly_named) e

unfoldable pub rescore_neighbors : List QueueEntry → List Text → List QueueEntry
unfolding rescore by_priority
rescore_neighbors queue newly_named = by_priority (map (rescore newly_named) queue)

unfoldable pub total_gain : List Text → List Text → QueueEntry → ℕ
unfolding overlap
total_gain newly_named newly_named_vars e =
    overlap e.neighbor_addresses newly_named + overlap e.sibling_addresses newly_named_vars

-- `(e.priority, gain)` of the first is not below that of the second.
unfoldable pub pair_desc : QueueEntry × ℕ → QueueEntry × ℕ → Bool
pair_desc (e, g) (f, h) = ltb f.priority e.priority || (f.priority == e.priority && leb h g)

unfoldable pub rescored_pair : List Text → List Text → QueueEntry → QueueEntry × ℕ
unfolding boost total_gain
rescored_pair newly_named newly_named_vars e =
    let gain = total_gain newly_named newly_named_vars e in (boost gain e, gain)

unfoldable pub rescore_var_neighbors : List QueueEntry → List Text → List Text → List QueueEntry
unfolding rescored_pair pair_desc
rescore_var_neighbors queue newly_named newly_named_vars =
    map (λ p. p.0) (sort pair_desc (map (rescored_pair newly_named newly_named_vars) queue))

unfoldable pub read_history : Option Json → Option (List Json)
read_history none = some []
read_history (some v) = as_list v

unfoldable pub load_yield_history : StateDir → Option (List Json)
unfolding read_history
load_yield_history d = read_history d.yield_history

unfoldable pub load_var_yield_history : StateDir → Option (List Json)
unfolding read_history
load_var_yield_history d = read_history d.yield_history_vars

unfoldable pub yield_entry : Text → Text → ℕ → ℕ → ℕ → Json
yield_entry applied_key review_key round_num applied review = dict_value fields
  where
    fields : Dict Text Json
    fields =
        (codes "round", number round_num)
        ∷ (applied_key, number applied)
        ∷ (review_key, number review)
        ∷ []

unfoldable pub append_yield : StateDir → ℕ → ℕ → ℕ → Option StateDir
unfolding load_yield_history yield_entry
append_yield d round_num applied review = do
  history ← load_yield_history d
  let entry = yield_entry (codes "applied") (codes "review") round_num applied review
  some (record d { yield_history = some (list_value (history ++ entry ∷ [])) })

unfoldable pub append_var_yield : StateDir → ℕ → ℕ → ℕ → Option StateDir
unfolding load_var_yield_history yield_entry
append_var_yield d round_num vars_applied vars_review = do
  history ← load_var_yield_history d
  let entry =
      yield_entry (codes "vars_applied") (codes "vars_review") round_num vars_applied vars_review
  some (record d { yield_history_vars = some (list_value (history ++ entry ∷ [])) })

-- `history[-window:]`, where -0 is 0.
unfoldable pub last_rounds : ℕ → List Json → List Json
last_rounds window history = if window == 0 then history else drop (length history - window) history

-- `all(r[key] < threshold for r in recent)`, which ends at the first that is not below.
unfoldable pub all_below : Text → ℕ → List Json → Option Bool
unfolding required
all_below key threshold [] = some true
all_below key threshold (r ∷ rs) =
    let rest = all_below key threshold rs in
    do
      applied ← (as_dict r >>= λ d. required as_number d key)
      if ltb applied threshold then rest else some false

unfoldable pub stops : Text → List Json → ℕ → ℕ → Option Bool
unfolding all_below last_rounds
stops key history window threshold =
    if ltb (length history) window
    then some false
    else all_below key threshold (last_rounds window history)

unfoldable pub check_stop_condition : StateDir → ℕ → ℕ → Option Bool
unfolding load_yield_history stops
check_stop_condition d window threshold = do
  history ← load_yield_history d
  stops (codes "applied") history window threshold

unfoldable pub check_var_stop_condition : StateDir → ℕ → ℕ → Option Bool
unfolding load_var_yield_history stops
check_var_stop_condition d window threshold = do
  history ← load_var_yield_history d
  stops (codes "vars_applied") history window threshold

pub is_done : StateDir → Bool
is_done d = d.done

pub write_done : StateDir → StateDir
write_done d = record d { done = true }

pub is_var_done : StateDir → Bool
is_var_done d = d.done_vars

pub write_var_done : StateDir → StateDir
write_var_done d = record d { done_vars = true }
