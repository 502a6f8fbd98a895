-- ===== src/Enrich/Gather.antt =====
-- gather_candidates and merge_candidates of rom_analyzer/enrich.py.
use rom_analyzer.Common.{
  ℕ, Bool, true, Option, none, some, List, [], ◌∷◌, ◌++◌, map, max, leb, ◌==◌, nat_eq, Eq, pair_eq,
  if◌then◌else◌, length, flatten,
}
use rom_analyzer.Common.Text.{Text, codes, text_eq, text_leb}
use rom_analyzer.Common.Dict.{Dict, get, get_or, dict_of, values}
use rom_analyzer.Common.Dict.Group.{group_by}
use rom_analyzer.Common.Sort.{max_by}
use rom_analyzer.Common.Format.{fixed2, join}
use rom_analyzer.Types.{function, MatchedFunction}
use rom_analyzer.Types.Names.{category_name}
use rom_analyzer.Enrich.{Direction, forward, back, LabelCandidate}

-- `__post_init__`
unfoldable pub with_source : LabelCandidate → LabelCandidate
with_source c = elim c.corroborating_sources [
  | [] ↦ record c { corroborating_sources = c.source ∷ [] }
  | _ ↦ c
]

unfoldable pub evidence_of : MatchedFunction → Text
unfolding fixed2
evidence_of m = codes "bytecode match sim=" ++ fixed2 m.similarity

-- `{v: k for k, v in names.items()}`
unfoldable pub by_name : Dict ℕ Text → Dict Text ℕ
unfolding dict_of
by_name names = dict_of (map (λ p. (p.1, p.0)) names)

-- `clash is None or clash == address`
unfoldable pub is_free_at : Dict Text ℕ → Text → ℕ → Bool
unfolding get
is_free_at by_name name address = elim (get by_name name) [ none ↦ true | some a ↦ a == address ]

unfoldable pub side :
    Text
    → Direction
    → ℕ
    → Option Text
    → Text
    → Text
    → MatchedFunction
    → Dict Text ℕ
    → List LabelCandidate
unfolding with_source evidence_of is_free_at
side target direction address current proposed source m owned =
    if proposed == []
    then []
    else if is_free_at owned proposed address
    then with_source (record {
      target = target;
      direction = direction;
      address = address;
      category = function;
      current = current;
      proposed = proposed;
      source = source;
      evidence = evidence_of m;
      corroborating_sources = [];
    })
      ∷ []
    else []

-- The back candidate needs a name of the new reference that is not empty.
unfoldable pub gather_match :
    Text → Text → Dict ℕ Text → Dict ℕ Text → MatchedFunction → List LabelCandidate
unfolding side by_name get get_or
gather_match new_id ref_id new_fn_names ref_fn_names m =
    let ref_name = get_or ref_fn_names m.ref_address m.ref_name in
    let new_name = get new_fn_names m.new_address in
    side new_id forward m.new_address new_name ref_name ref_id m (by_name new_fn_names)
    ++ elim new_name [
      | none ↦ []
      | some name ↦
          side ref_id back m.ref_address (get ref_fn_names m.ref_address) name new_id m
            (by_name ref_fn_names)
    ]

-- A list of RAM and data candidates that is not given adds as much as an empty one.
unfoldable pub gather_candidates :
    Text
    → Text
    → List MatchedFunction
    → Dict ℕ Text
    → Dict ℕ Text
    → List LabelCandidate
    → List LabelCandidate
unfolding gather_match
gather_candidates new_id ref_id matches new_fn_names ref_fn_names ram_data_candidates =
    flatten (map (gather_match new_id ref_id new_fn_names ref_fn_names) matches)
    ++ ram_data_candidates

-- The category stands in the key by its text.
unfoldable pub group_key : LabelCandidate → Text × (ℕ × Text)
unfolding category_name
group_key c = (c.target, (c.address, category_name c.category))

unfoldable pub votes : List LabelCandidate → Dict Text (List LabelCandidate)
unfolding group_by
votes group = group_by (λ (c : LabelCandidate). c.proposed) group

unfoldable pub source_rank : Dict Text ℕ → LabelCandidate → ℕ
unfolding get_or
source_rank priority c = get_or priority c.source 0

unfoldable pub best_rank : Dict Text ℕ → List LabelCandidate → ℕ
unfolding source_rank
best_rank priority [] = 0
best_rank priority (c ∷ cs) = max (source_rank priority c) (best_rank priority cs)

-- The `_score` of the first is not above that of the second.
unfoldable pub vote_leb :
    Dict Text ℕ → Text × List LabelCandidate → Text × List LabelCandidate → Bool
unfolding best_rank
vote_leb priority (name, cs) (other, ds) =
    if length cs == length ds
    then (if best_rank priority cs == best_rank priority ds
        then text_leb name other
        else leb (best_rank priority cs) (best_rank priority ds))
    else leb (length cs) (length ds)

-- What `"; ".join(c.evidence for c in group if c.evidence)` joins.
unfoldable pub evidences : List LabelCandidate → List Text
evidences [] = []
evidences (c ∷ cs) = let rest = evidences cs in if c.evidence == [] then rest else c.evidence ∷ rest

unfoldable pub source_leb : Dict Text ℕ → LabelCandidate → LabelCandidate → Bool
unfolding source_rank
source_leb priority c d = leb (source_rank priority c) (source_rank priority d)

-- The candidate of the winning name; a group of votes is not empty.
unfoldable pub winner_of :
    Dict Text ℕ → LabelCandidate → List LabelCandidate → Text × List LabelCandidate → LabelCandidate
unfolding with_source join evidences source_leb
winner_of priority first group (name, []) = first
winner_of priority first group (name, d ∷ agreeing) = with_source (record {
  target = first.target;
  direction = first.direction;
  address = first.address;
  category = first.category;
  current = first.current;
  proposed = name;
  source = (max_by (source_leb priority) d agreeing).source;
  evidence = join (codes "; ") (evidences group);
  corroborating_sources = map (λ (c : LabelCandidate). c.source) (d ∷ agreeing);
})

unfoldable pub winning_vote :
    Dict Text ℕ → List LabelCandidate → Option (Text × List LabelCandidate)
unfolding votes vote_leb
winning_vote priority group = elim (votes group) [
  | [] ↦ none
  | v ∷ vs ↦ some (max_by (vote_leb priority) v vs)
]

unfoldable pub merge_group : Dict Text ℕ → List LabelCandidate → List LabelCandidate
unfolding winner_of winning_vote
merge_group priority [] = []
merge_group priority (c ∷ []) = c ∷ []
merge_group priority (c ∷ d ∷ group) = elim (winning_vote priority (c ∷ d ∷ group)) [
  | none ↦ []
  | some vote ↦ winner_of priority c (c ∷ d ∷ group) vote ∷ []
]

instance abbrev pub key_eq : Eq (Text × (ℕ × Text))
key_eq = pair_eq ⦃d = text_eq⦄ ⦃e = pair_eq ⦃d = nat_eq⦄ ⦃e = text_eq⦄⦄

unfoldable pub merge_candidates : List LabelCandidate → Dict Text ℕ → List LabelCandidate
unfolding merge_group group_key
merge_candidates candidates priority =
    flatten (map (merge_group priority) (values (group_by group_key candidates)))
