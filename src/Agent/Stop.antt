-- ===== src/Agent/Stop.antt =====
-- When the naming loop of rom_analyzer/agent_enrich.py stops.
use rom_analyzer.Common.{
  ℕ, ◌-◌, ◌≤◌, ◌<◌, ◌≡◌, refl, sym, ap, subst, ◌∙◌, ◌↔◌, Bool, true, false, Option, none, some,
  List, [], ◌∷◌, ◌++◌, map, All, drop, arith, length, ltb, ◌==◌, if◌then◌else◌, nat_eq,
}
use rom_analyzer.Common.Text.{Text, codes, text_eq}
use rom_analyzer.Common.Dict.{get}
use rom_analyzer.Common.Mapped.{length-map, drop-map}
use mathlib.Core.List.{append_assoc, append-nil}
use rom_analyzer.Common.Json.{
  Json, list_value, values_of-items, as_dict, as_number, required, ◌>>=◌,
}
use rom_analyzer.Agent.{
  StateDir, yield_entry, append_yield, append_var_yield, load_yield_history, load_var_yield_history,
  read_history, all_below, last_rounds, stops, check_stop_condition, check_var_stop_condition,
}

-- What a round reports: its number, and how many names were applied and left for review.
pub record Round : Type 0 where
  pub round_num : ℕ
  pub applied : ℕ
  pub review : ℕ

-- The last `window` rounds, when there are so many, applied fewer than `threshold` names each.
pub record IsQuiet (window threshold : ℕ) (rounds : List Round) : Type 0 where
  pub enough : window ≤ length rounds
  pub few : All (λ (r : Round). r.applied < threshold) (drop (length rounds - window) rounds)

module _ (key : Text) (entry : Round → Json)
    (reads : (r : Round)
      → (as_dict (entry r) >>= λ d. required as_number d key) ≡ some r.applied) where
  all_below_step :
      (threshold : ℕ) (r : Round) (rs : List Json)
      → all_below key threshold (entry r ∷ rs)
        ≡ (if ltb r.applied threshold then all_below key threshold rs else some false)
  unfolding all_below
  all_below_step threshold r rs = rw (reads r)

  all_below_iff :
      (threshold : ℕ) (rounds : List Round)
      → (all_below key threshold (map entry rounds) ≡ some true)
        ↔ All (λ (r : Round). r.applied < threshold) rounds
  all_below_iff threshold [] = (λ h. tt, λ h. unfold all_below in refl)
  all_below_iff threshold (r ∷ rounds) =
      ground (arith, all_below_step threshold r (map entry rounds), all_below_iff threshold rounds)

  last_rounds_lem :
      (window : ℕ) (rounds : List Round)
      → 0 < window
      → last_rounds window (map entry rounds) ≡ map entry (drop (length rounds - window) rounds)
  unfolding last_rounds
  last_rounds_lem window rounds h =
      let tested : (window == 0) ≡ false = ground arith in
      rw tested (rw (length-map entry rounds) (drop-map entry (length rounds - window) rounds))

  stops_iff :
      (window threshold : ℕ) (rounds : List Round)
      → 0 < window
      → (stops key (map entry rounds) window threshold ≡ some true)
        ↔ IsQuiet window threshold rounds
  unfolding stops
  stops_iff window threshold rounds h = ground (
    arith,
    length-map entry rounds,
    ap (all_below key threshold) (last_rounds_lem window rounds h),
    all_below_iff threshold (drop (length rounds - window) rounds),
  )

abbrev pub entry_of : Round → Json
entry_of r = yield_entry (codes "applied") (codes "review") r.round_num r.applied r.review

abbrev pub var_entry_of : Round → Json
var_entry_of r =
    yield_entry (codes "vars_applied") (codes "vars_review") r.round_num r.applied r.review

-- The calls of append_yield, one for each round.
unfoldable pub append_rounds : List Round → StateDir → Option StateDir
unfolding append_yield
append_rounds [] d = some d
append_rounds (r ∷ rounds) d =
    append_yield d r.round_num r.applied r.review >>= append_rounds rounds

unfoldable pub append_var_rounds : List Round → StateDir → Option StateDir
unfolding append_var_yield
append_var_rounds [] d = some d
append_var_rounds (r ∷ rounds) d =
    append_var_yield d r.round_num r.applied r.review >>= append_var_rounds rounds

after_append :
    (d : StateDir) (h : List Json) (r : Round)
    → load_yield_history d ≡ some h
    → append_yield d r.round_num r.applied r.review
      ≡ some (record d { yield_history = some (list_value (h ++ entry_of r ∷ [])) })
unfolding append_yield
after_append d h r e = rw e

load_appended :
    (d : StateDir) (h : List Json)
    → load_yield_history (record d { yield_history = some (list_value h) }) ≡ some h
unfolding load_yield_history read_history
load_appended d h = ap some (values_of-items h)

after_var_append :
    (d : StateDir) (h : List Json) (r : Round)
    → load_var_yield_history d ≡ some h
    → append_var_yield d r.round_num r.applied r.review
      ≡ some (record d { yield_history_vars = some (list_value (h ++ var_entry_of r ∷ [])) })
unfolding append_var_yield
after_var_append d h r e = rw e

load_var_appended :
    (d : StateDir) (h : List Json)
    → load_var_yield_history (record d { yield_history_vars = some (list_value h) }) ≡ some h
unfolding load_var_yield_history read_history
load_var_appended d h = ap some (values_of-items h)

history_after :
    (rounds : List Round) (d : StateDir) (h : List Json) (use_it : List Json → Option Bool)
    → load_yield_history d ≡ some h
    → (append_rounds rounds d >>= λ e. load_yield_history e >>= use_it)
      ≡ use_it (h ++ map entry_of rounds)
unfolding append_rounds
history_after [] d h use_it e = rw (e, append-nil h)
history_after (r ∷ rounds) d h use_it e = rw (after_append d h r e) (
    history_after rounds (record d { yield_history = some (list_value (h ++ entry_of r ∷ [])) })
      (h ++ entry_of r ∷ []) use_it (load_appended d (h ++ entry_of r ∷ []))
    ∙ ap use_it (append_assoc h (entry_of r ∷ []) (map entry_of rounds)))

var_history_after :
    (rounds : List Round) (d : StateDir) (h : List Json) (use_it : List Json → Option Bool)
    → load_var_yield_history d ≡ some h
    → (append_var_rounds rounds d >>= λ e. load_var_yield_history e >>= use_it)
      ≡ use_it (h ++ map var_entry_of rounds)
unfolding append_var_rounds
var_history_after [] d h use_it e = rw (e, append-nil h)
var_history_after (r ∷ rounds) d h use_it e = rw (after_var_append d h r e) (
    var_history_after rounds
      (record d { yield_history_vars = some (list_value (h ++ var_entry_of r ∷ [])) })
      (h ++ var_entry_of r ∷ []) use_it (load_var_appended d (h ++ var_entry_of r ∷ []))
    ∙ ap use_it (append_assoc h (var_entry_of r ∷ []) (map var_entry_of rounds)))

stops_iff_rounds :
    (d : StateDir) (rounds : List Round) (window threshold : ℕ)
    → d.yield_history ≡ none
    → 0 < window
    → ((append_rounds rounds d >>= λ e. check_stop_condition e window threshold) ≡ some true)
      ↔ IsQuiet window threshold rounds
unfolding check_stop_condition
stops_iff_rounds d rounds window threshold h pos_window =
    subst (λ t. (t ≡ some true) ↔ IsQuiet window threshold rounds)
      (sym (
        history_after rounds d [] (λ history. stops (codes "applied") history window threshold)
          (unfold load_yield_history read_history in rw h)))
      (stops_iff (codes "applied") entry_of (λ r. unfold yield_entry required get in refl) window
        threshold rounds pos_window)

var_stops_iff_rounds :
    (d : StateDir) (rounds : List Round) (window threshold : ℕ)
    → d.yield_history_vars ≡ none
    → 0 < window
    → ((append_var_rounds rounds d >>= λ e. check_var_stop_condition e window threshold)
        ≡ some true)
      ↔ IsQuiet window threshold rounds
unfolding check_var_stop_condition
var_stops_iff_rounds d rounds window threshold h pos_window =
    subst (λ t. (t ≡ some true) ↔ IsQuiet window threshold rounds)
      (sym (
        var_history_after rounds d []
          (λ history. stops (codes "vars_applied") history window threshold)
          (unfold load_var_yield_history read_history in rw h)))
      (stops_iff (codes "vars_applied") var_entry_of (λ r. unfold yield_entry required get in refl)
        window threshold rounds pos_window)

-- In a state directory without a history, after the given rounds have been recorded, the loop over
-- the functions stops, and likewise that over the variables, exactly when the last `window` rounds
-- applied fewer than `threshold` names each and there are so many; `window` is not 0.
pub check_stop_condition_iff :
    (d : StateDir) (rounds : List Round) (window threshold : ℕ)
    → d.yield_history ≡ none
    → d.yield_history_vars ≡ none
    → 0 < window
    → (((append_rounds rounds d >>= λ e. check_stop_condition e window threshold) ≡ some true)
        ↔ IsQuiet window threshold rounds)
      × (((append_var_rounds rounds d >>= λ e. check_var_stop_condition e window threshold)
            ≡ some true)
          ↔ IsQuiet window threshold rounds)
check_stop_condition_iff d rounds window threshold h hv pos_window = (
  stops_iff_rounds d rounds window threshold h pos_window,
  var_stops_iff_rounds d rounds window threshold hv pos_window,
)
