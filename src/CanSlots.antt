-- ===== src/CanSlots.antt =====
-- rom_analyzer/can_slots.py: the identifiers of the CAN slots, decoded from two tables of the image.
pub mod Best
mod Examples
use rom_analyzer.Common.{
  ℕ, zero, suc, ◌+◌, ◌-◌, ◌*◌, ◌/◌, ◌%◌, min, Bool, true, false, ◌&&◌, ◌||◌, Option, none, some,
  List, [], ◌∷◌, ◌++◌, map, ltb, leb, ◌==◌, nat_eq, if◌then◌else◌, length, get_elem?, elem, filter,
  flatten,
}
use rom_analyzer.Common.Text.{Text, codes}
use rom_analyzer.Common.Dict.{Dict, get, keys}
use rom_analyzer.Common.Format.{decimal}
use rom_analyzer.Callgraph.Decode.{byte}

abbrev pub can_sid_names : Dict ℕ Text
can_sid_names =
    (0x139, codes "apps_tps")
    ∷ (0x13d, codes "rpm")
    ∷ (0x14d, codes "dash_revolutions_odometer_coolant")
    ∷ (0x152, codes "trip_computer")
    ∷ (0x159, codes "engine_flaggy")
    ∷ (0x210, codes "rpm_apps")
    ∷ (0x312, codes "asc_torques")
    ∷ (0x7e8, codes "obd_tool")
    ∷ (0x7e0, codes "obd_tool")
    ∷ (0x1b1, codes "engine_rx_1b1")
    ∷ (0x231, codes "abs")
    ∷ (0x2f1, codes "eps")
    ∷ (0x300, codes "asc")
    ∷ (0x443, codes "ac")
    ∷ []

pub record CanSlot : Type 0 where
  pub slot : ℕ
  pub sid : ℕ
  pub semantic : Option Text
  pub rx_handler : Option ℕ
  pub tx_handler : Option ℕ

-- The low bits of a byte; the two parts of an identifier share no bit.
unfoldable pub sid_of : ℕ → ℕ → ℕ
sid_of sid0 sid1 = sid0 % 32 * 64 + sid1 % 64

-- The loop from a slot on, with the number of slots that are left.
unfoldable pub decode_from : List ℕ → ℕ → ℕ → ℕ → ℕ → List (ℕ × ℕ)
unfolding sid_of byte
decode_from rom_bytes sid0_addr sid1_addr zero slot = []
decode_from rom_bytes sid0_addr sid1_addr (suc count) slot =
    if leb (length rom_bytes) (sid0_addr + slot) || leb (length rom_bytes) (sid1_addr + slot)
    then []
    else (slot, sid_of (byte rom_bytes (sid0_addr + slot)) (byte rom_bytes (sid1_addr + slot)))
      ∷ decode_from rom_bytes sid0_addr sid1_addr count (slot + 1)

unfoldable pub decode_can_sids : List ℕ → ℕ → ℕ → ℕ → List (ℕ × ℕ)
unfolding decode_from
decode_can_sids rom_bytes sid0_addr sid1_addr count =
    decode_from rom_bytes sid0_addr sid1_addr count 0

unfoldable pub sid_semantic : ℕ → Option Text
unfolding get
sid_semantic sid = get can_sid_names sid

unfoldable pub immediate24 : List ℕ → ℕ → ℕ
unfolding byte
immediate24 rom_bytes off =
    byte rom_bytes (off + 1) * 0x10000 + byte rom_bytes (off + 2) * 0x100 + byte rom_bytes (off + 3)

-- The loop over the words from `off` on; `imms` holds what `seen` holds.
unfoldable pub collect_imms : List ℕ → ℕ → ℕ → List ℕ → List ℕ
unfolding immediate24 byte
collect_imms rom_bytes zero off imms = imms
collect_imms rom_bytes (suc count) off imms =
    let imm = immediate24 rom_bytes off in
    let is_new = ltb imm (length rom_bytes) && (if elem imm imms then false else true) in
    collect_imms rom_bytes count (off + 4)
      (if byte rom_bytes off / 16 == 0xe && is_new then imms ++ imm ∷ [] else imms)

-- The range has a step of 4.
unfoldable pub find_ld24_immediates : List ℕ → ℕ → ℕ → List ℕ
unfolding collect_imms
find_ld24_immediates rom_bytes func_addr window =
    let end = min (func_addr + window) (length rom_bytes - 3) in
    collect_imms rom_bytes ((end - func_addr + 3) / 4) func_addr []

unfoldable pub score_table_pair : List ℕ → ℕ → ℕ → ℕ → ℕ
unfolding decode_can_sids
score_table_pair rom_bytes a b count =
    length
      (filter (λ (p : ℕ × ℕ). elem p.1 (keys can_sid_names)) (decode_can_sids rom_bytes a b count))

-- `best`; the pair is missing while nothing scores.
pub record Located : Type 0 where
  pub tables : Option (ℕ × ℕ)
  pub score : ℕ

-- The pairs of the inner loop.
unfoldable pub row : ℕ → List ℕ → List (ℕ × ℕ)
row a [] = []
row a (b ∷ bs) = let rest = row a bs in if a == b then rest else (a, b) ∷ rest

-- The pairs of the two loops, in their order.
unfoldable pub ordered_pairs : List ℕ → List ℕ → List (ℕ × ℕ)
unfolding row
ordered_pairs [] all = []
ordered_pairs (a ∷ imms) all = row a all ++ ordered_pairs imms all

unfoldable pub best_pair : (ℕ × ℕ → ℕ) → List (ℕ × ℕ) → Located → Located
best_pair score [] best = best
best_pair score (p ∷ pairs) best =
    best_pair score pairs
      (if ltb best.score (score p) then record { tables = some p; score = score p } else best)

unfoldable pub locate_sid_tables : List ℕ → ℕ → ℕ → Located
unfolding find_ld24_immediates score_table_pair ordered_pairs best_pair
locate_sid_tables rom_bytes check_sid_addr count =
    let imms = find_ld24_immediates rom_bytes check_sid_addr 0x80 in
    best_pair (λ p. score_table_pair rom_bytes p.0 p.1 count) (ordered_pairs imms imms)
      (record { tables = none; score = 0 })

abbrev pub Handlers : Type 0
Handlers = Dict ℕ (Option ℕ × Option ℕ)

unfoldable pub can_slot : Handlers → ℕ × ℕ → CanSlot
unfolding get sid_semantic
can_slot handlers (slot, sid) =
    let found : Option ℕ × Option ℕ = elim (get handlers slot) [
      | none ↦ (none, none)
      | some pair ↦ pair
    ] in
    record {
      slot = slot;
      sid = sid;
      semantic = sid_semantic sid;
      rx_handler = found.0;
      tx_handler = found.1;
    }

-- No handlers are as good as an empty dict.
unfoldable pub analyze_can_slots : List ℕ → ℕ → Handlers → ℕ → List CanSlot
unfolding locate_sid_tables can_slot decode_can_sids
analyze_can_slots rom_bytes check_sid_addr slot_handlers count =
    elim ((locate_sid_tables rom_bytes check_sid_addr count).tables) [
      | none ↦ []
      | some (sid0, sid1) ↦ map (can_slot slot_handlers) (decode_can_sids rom_bytes sid0 sid1 count)
    ]

unfoldable pub propose_handler_name : ℕ → Option Text → Text → Text
unfolding decimal
propose_handler_name slot semantic direction =
    let middle : Text = elim semantic [
      | none ↦ []
      | some [] ↦ []
      | some (c ∷ t) ↦ (c ∷ t) ++ codes "_"
    ] in
    codes "can0_slot" ++ decimal slot ++ codes "_" ++ middle ++ direction ++ codes "_update"
