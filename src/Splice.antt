-- ===== src/Splice.antt =====
-- rom_analyzer/mode23_bindings.py: the call sites that the mode 0x23 patch replaces.
pub mod Nearest
mod Examples
use rom_analyzer.Common.{
  ℕ, zero, suc, ◌+◌, ◌-◌, Bool, true, false, not, ◌&&◌, ◌||◌, Option, none, some, List, [], ◌∷◌,
  ◌++◌, map, ltb, leb, ◌==◌, nat_eq, if◌then◌else◌, length, get_elem?, elem,
}
use rom_analyzer.Common.Text.{Text, codes, text_eq}
use rom_analyzer.Common.Dict.{Dict, get}
use rom_analyzer.Common.Sets.{members}
use rom_analyzer.Common.Sort.{sort, by_key, max_by}
use rom_analyzer.Common.Format.{decimal, join}
use rom_analyzer.Common.PyInt.Print.{hex_literal}
use rom_analyzer.Types.{ConfidenceTier, low, medium, high}
use rom_analyzer.Callgraph.Decode.{byte}

pub record SpliceResolution : Type 0 where
  pub address : Option ℕ
  pub confidence : ConfidenceTier

-- `sorted(set(sites))`
unfoldable pub sorted_set : List ℕ → List ℕ
unfolding sort members
sorted_set sites = sort (by_key (λ a. a)) (members sites)

unfoldable pub unique_of : List ℕ → SpliceResolution
unique_of [] = record { address = none; confidence = low }
unique_of (a ∷ []) = record { address = some a; confidence = high }
unique_of (a ∷ b ∷ s) = record { address = some a; confidence = low }

unfoldable pub resolve_unique_site : List ℕ → SpliceResolution
unfolding sorted_set unique_of
resolve_unique_site sites = unique_of (sorted_set sites)

abbrev pub slot12_name : Text
slot12_name = codes "canrx12_15_call_location_slot12"

abbrev pub slot15_name : Text
slot15_name = codes "canrx12_15_call_location_slot15"

pub record CanSiteBinding : Type 0 where
  pub name : Text
  pub resolution : SpliceResolution

-- A caller whose slot is not read, or not there, has none.
abbrev pub SlotOf : Type 0
SlotOf = Dict ℕ (Option ℕ)

unfoldable pub slot_at : SlotOf → ℕ → Option ℕ
unfolding get
slot_at slot_of a = elim (get slot_of a) [ none ↦ none | some slot ↦ slot ]

-- The two callers with the slots 2 and 1, in this order.
unfoldable pub happy_pair : SlotOf → List ℕ → Option (ℕ × ℕ)
unfolding slot_at
happy_pair slot_of (a ∷ b ∷ []) = elim (slot_at slot_of a) [
  | none ↦ none
  | some s ↦ elim (slot_at slot_of b) [
    | none ↦ none
    | some t ↦
        if s == 2 && t == 1 then some (a, b) else if s == 1 && t == 2 then some (b, a) else none
  ]
]
happy_pair slot_of _ = none

unfoldable pub can_binding : Text → Option ℕ → ConfidenceTier → CanSiteBinding
can_binding name address confidence = record {
  name = name;
  resolution = record { address = address; confidence = confidence };
}

-- f"{slot_of.get(a)}"
unfoldable pub slot_text : Option ℕ → Text
unfolding decimal
slot_text none = codes "None"
slot_text (some slot) = decimal slot

unfoldable pub site_text : SlotOf → ℕ → Text
unfolding slot_at slot_text
site_text slot_of a = hex_literal a ++ codes ":slot=" ++ slot_text (slot_at slot_of a)

unfoldable pub detail_of : SlotOf → List ℕ → Text
unfolding site_text
detail_of slot_of [] = codes "none"
detail_of slot_of (a ∷ uniq) = join (codes ", ") (map (site_text slot_of) (a ∷ uniq))

unfoldable pub verify_text : SlotOf → List ℕ → Text
unfolding detail_of decimal
verify_text slot_of uniq =
    codes "/* VERIFY: expected 2 callers with slots {2,1}; got "
    ++ decimal (length uniq)
    ++ codes " ["
    ++ detail_of slot_of uniq
    ++ codes "] — confirm each site's buffer by hand */\n"

unfoldable pub resolve_can_call_sites : List ℕ → SlotOf → List CanSiteBinding × Text
unfolding sorted_set happy_pair can_binding verify_text
resolve_can_call_sites callers slot_of =
    let uniq = sorted_set callers in
    elim (happy_pair slot_of uniq) [
      | some (two, one) ↦ (
        can_binding slot12_name (some two) high ∷ can_binding slot15_name (some one) high ∷ [],
        codes "/* VERIFY: canrx12 slot=2, canrx15 slot=1 (matches hardcoded trampoline) */\n",
      )
      | none ↦ (
        can_binding slot12_name (get_elem? uniq 0) low
            ∷ can_binding slot15_name (get_elem? uniq 1) low
            ∷ [],
        verify_text slot_of uniq,
      )
    ]

-- A byte with its top bit set begins a 32-bit instruction.
unfoldable pub is_ldi_r0 : List ℕ → ℕ → Bool
unfolding byte
is_ldi_r0 rom off =
    ltb (off + 1) (length rom)
    && byte rom off == 0x60
    && not (leb 2 off && leb 0x80 (byte rom (off - 2)))

-- The loop from `off` down to `low` in steps of 2; the fuel bounds their number.
unfoldable pub ldi_scan : List ℕ → ℕ → ℕ → ℕ → Option ℕ
unfolding is_ldi_r0 byte
ldi_scan rom zero lowest off = none
ldi_scan rom (suc fuel) lowest off =
    let rest = ldi_scan rom fuel lowest (off - 2) in
    if ltb off lowest
    then none
    else if is_ldi_r0 rom off
    then some (byte rom (off + 1))
    else if ltb off 2
    then none
    else rest

-- A distance of `max_back` bytes takes no more steps than that.
unfoldable pub decode_ldi_r0_before : List ℕ → ℕ → ℕ → Option ℕ
unfolding ldi_scan
decode_ldi_r0_before rom call_site max_back =
    if ltb call_site 2
    then none
    else ldi_scan rom (suc max_back) (call_site - max_back) (call_site - 2)

-- `abs(a - b)`
unfoldable pub distance : ℕ → ℕ → ℕ
distance a b = a - b + (b - a)

-- `(abs(b - expected), b)` is not greater than that of `a`, so that `max_by` gives the first minimum.
unfoldable pub farther_leb : ℕ → ℕ → ℕ → Bool
unfolding distance
farther_leb expected a b =
    ltb (distance b expected) (distance a expected)
    || (distance b expected == distance a expected && leb b a)

unfoldable pub nearest_of : ℕ → List ℕ → SpliceResolution
unfolding farther_leb
nearest_of expected [] = record { address = none; confidence = low }
nearest_of expected (a ∷ []) = record { address = some a; confidence = high }
nearest_of expected (a ∷ b ∷ s) =
    if elem expected (a ∷ b ∷ s)
    then record { address = some expected; confidence = high }
    else record { address = some (max_by (farther_leb expected) a (b ∷ s)); confidence = medium }

-- A single candidate has high confidence, whether it is the expected one or not.
unfoldable pub resolve_nearest_site : List ℕ → ℕ → SpliceResolution
unfolding sorted_set nearest_of
resolve_nearest_site sites expected = nearest_of expected (sorted_set sites)
