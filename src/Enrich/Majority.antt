-- ===== src/Enrich/Majority.antt =====
-- What merge_candidates of rom_analyzer/enrich.py makes of the candidates for one place.
use rom_analyzer.Common.{
  ℕ, ◌≡◌, refl, sym, ap, subst, ◌∙◌, ◌⊎◌, inl, inr, true, Option, none, some, List, [], ◌∷◌, map,
  ◌==◌, nat_eq, In, arith, In-filter,
}
use rom_analyzer.Common.Text.{Text, text_eq, text_beq_iff}
use rom_analyzer.Common.Dict.{Dict}
use rom_analyzer.Common.Dict.Group.{non_empty, In-group_by}
use rom_analyzer.Common.Sort.{max_by, In-max_by, le-max_by}
use rom_analyzer.Enrich.{LabelCandidate}
use rom_analyzer.Enrich.VoteOrder.{
  Vote, voters, IsNotAbove, vote_leb-IsOrder, vote_leb_refl, vote_leb_ranks,
}
use rom_analyzer.Enrich.Gather.{
  group_key, key_eq, votes, vote_leb, winner_of, winning_vote, with_source,
}

-- One of the names that are proposed. No other name has more voters, or as many and one of a higher
-- priority, or as many, of as high a priority, and stands behind it in the alphabet.
pub record IsMajority (priority : Dict Text ℕ) (name : Text) (group : List LabelCandidate)
    : Type 0 where
  pub proposer : LabelCandidate
  pub member : In proposer group
  pub proposes : proposer.proposed ≡ name
  pub most :
      (d : LabelCandidate)
      → In d group
      → IsNotAbove priority (d.proposed, voters d.proposed group) (name, voters name group)

non_empty-In : {A : Type 0} (xs : List A) (a : A) → In a xs → non_empty xs ≡ some xs
non_empty-In [] a m = absurd m
non_empty-In (x ∷ xs) a m = refl

In-voters :
    (group : List LabelCandidate) (d : LabelCandidate) → In d group → In d (voters d.proposed group)
In-voters group d m =
    (In-filter (λ (c : LabelCandidate). c.proposed == d.proposed) d group).1
      (m, (text_beq_iff d.proposed d.proposed).1 refl)

vote_of :
    (group : List LabelCandidate) (d : LabelCandidate)
    → In d group
    → In {A = Text × List LabelCandidate} (d.proposed, voters d.proposed group) (votes group)
unfolding votes
vote_of group d m =
    (In-group_by (λ (c : LabelCandidate). c.proposed) group d.proposed (voters d.proposed group)).1
      (non_empty-In (voters d.proposed group) d (In-voters group d m))

voters_of :
    (group : List LabelCandidate) (name : Text) (cs : List LabelCandidate)
    → In {A = Text × List LabelCandidate} (name, cs) (votes group)
    → (voters name group ≡ cs) × ((d : LabelCandidate) × In d cs × In d group × (d.proposed ≡ name))
unfolding votes
voters_of group name cs m =
    go (voters name group) refl
      ((In-group_by (λ (c : LabelCandidate). c.proposed) group name cs).0 m)
  where
    go :
        (vs : List LabelCandidate)
        → voters name group ≡ vs
        → non_empty vs ≡ some cs
        → (vs ≡ cs) × ((d : LabelCandidate) × In d cs × In d group × (d.proposed ≡ name))
    go [] e h = cc
    go (v ∷ vs) e h =
        let q : (v ∷ vs) ≡ cs = ground arith in
        let n =
          (In-filter (λ (c : LabelCandidate). c.proposed == name) v group).0
            (subst (In v) (sym e) (inl refl)) in
        (q, (v, subst (In v) q (inl refl), n.0, (text_beq_iff v.proposed name).0 n.1))

max_vote_lem :
    (priority : Dict Text ℕ) (group : List LabelCandidate) (vs : List Vote) (vote : Vote)
    → votes group ≡ vs
    → (elim vs as (λ _. Option Vote) [
      | [] ↦ none
      | v ∷ ws ↦ some (max_by (vote_leb priority) v ws)
    ])
      ≡ some vote
    → In vote (votes group)
      × ((d : LabelCandidate)
          → In d group
          → vote_leb priority (d.proposed, voters d.proposed group) vote ≡ true)
max_vote_lem priority group [] vote e h = cc
max_vote_lem priority group (v ∷ ws) vote e h =
    let q : max_by (vote_leb priority) v ws ≡ vote = ground arith in
    (
      subst (In vote) (sym e) (subst (λ t. In t (v ∷ ws)) q (In-max_by (vote_leb priority) v ws)),
      λ d m.
          subst (λ t. vote_leb priority (d.proposed, voters d.proposed group) t ≡ true) q
            (le-max_by (vote_leb priority) (vote_leb-IsOrder priority) v ws
              (d.proposed, voters d.proposed group)
              (subst (λ t. In {A = Vote} (d.proposed, voters d.proposed group) t) e
                (vote_of group d m))),
    )

winning_vote_lem :
    (priority : Dict Text ℕ) (group : List LabelCandidate) (name : Text) (cs : List LabelCandidate)
    → winning_vote priority group ≡ some (name, cs)
    → IsMajority priority name group × (voters name group ≡ cs) × ((d : LabelCandidate) × In d cs)
unfolding winning_vote
winning_vote_lem priority group name cs h =
    let (m, best) = max_vote_lem priority group (votes group) (name, cs) refl h in
    let (e, (d, n, o, p)) = voters_of group name cs m in
    (
      record {
        proposer = d;
        member = o;
        proposes = p;
        most = λ c k.
            vote_leb_ranks priority (c.proposed, voters c.proposed group) (name, voters name group)
              (subst (λ t. vote_leb priority (c.proposed, voters c.proposed group) (name, t) ≡ true)
                (sym e) (best c k));
      },
      e,
      (d, n),
    )

-- What is merged from the candidates for one place.
pub record IsMerged (priority : Dict Text ℕ) (r : LabelCandidate) (group : List LabelCandidate)
    : Type 0 where
  pub majority : IsMajority priority r.proposed group
  pub sources :
      (group ≡ r ∷ [])
      ⊎ (r.corroborating_sources ≡ map (λ (c : LabelCandidate). c.source) (voters r.proposed group))
  pub placed : (c : LabelCandidate) × In c group × (group_key c ≡ group_key r)

pub IsMajority-single :
    (priority : Dict Text ℕ) (c : LabelCandidate) → IsMajority priority c.proposed (c ∷ [])
IsMajority-single priority c = record {
  proposer = c;
  member = inl refl;
  proposes = refl;
  most = λ d m. elim m [
    | inl e ↦
        subst
          (λ (t : LabelCandidate).
            IsNotAbove priority (t.proposed, voters t.proposed (c ∷ []))
              (c.proposed, voters c.proposed (c ∷ [])))
          (sym e)
          (vote_leb_ranks priority (c.proposed, voters c.proposed (c ∷ []))
            (c.proposed, voters c.proposed (c ∷ []))
            (vote_leb_refl priority (c.proposed, voters c.proposed (c ∷ []))))
    | inr f ↦ absurd f
  ];
}

pub winner_lem :
    (priority : Dict Text ℕ) (first r : LabelCandidate) (group : List LabelCandidate) (name : Text)
    (cs : List LabelCandidate)
    → In first group
    → winning_vote priority group ≡ some (name, cs)
    → winner_of priority first group (name, cs) ≡ r
    → IsMerged priority r group
winner_lem priority first r group name [] i h e =
    let (d, m) = (winning_vote_lem priority group name [] h).2 in absurd m
winner_lem priority first r group name (x ∷ agreeing) i h e =
    let (major, voting, _) = winning_vote_lem priority group name (x ∷ agreeing) h in
    let named : name ≡ r.proposed =
      unfold winner_of with_source in ap (λ (t : LabelCandidate). t.proposed) e in
    record {
      majority = subst (λ t. IsMajority priority t group) named major;
      sources = inr (
          sources_lem e
          ∙ ap (map (λ (c : LabelCandidate). c.source))
              (sym voting ∙ ap (λ t. voters t group) named));
      placed = (first, i, key_lem e);
    }
  where
    sources_lem :
        winner_of priority first group (name, x ∷ agreeing) ≡ r
        → r.corroborating_sources ≡ map (λ (c : LabelCandidate). c.source) (x ∷ agreeing)
    sources_lem q =
        unfold winner_of with_source in sym (ap (λ (t : LabelCandidate). t.corroborating_sources) q)

    key_lem :
        winner_of priority first group (name, x ∷ agreeing) ≡ r → group_key first ≡ group_key r
    key_lem q = unfold winner_of with_source group_key in ap (λ (t : LabelCandidate). group_key t) q

some_vote :
    (priority : Dict Text ℕ) (vs : List Vote) (v : Vote)
    → In v vs
    → (name : Text) × (cs : List LabelCandidate) × ((elim vs as (λ _. Option Vote) [
      | [] ↦ none
      | w ∷ ws ↦ some (max_by (vote_leb priority) w ws)
    ])
        ≡ some (name, cs))
some_vote priority [] v m = absurd m
some_vote priority (w ∷ ws) v m =
    ((max_by (vote_leb priority) w ws).0, (max_by (vote_leb priority) w ws).1, refl)

-- A group that is not empty has a winning vote.
pub winning_vote-In :
    (priority : Dict Text ℕ) (c : LabelCandidate) (group : List LabelCandidate)
    → (name : Text) × (cs : List LabelCandidate) × (winning_vote priority (c ∷ group)
        ≡ some (name, cs))
unfolding winning_vote
winning_vote-In priority c group =
    some_vote priority (votes (c ∷ group)) (c.proposed, voters c.proposed (c ∷ group))
      (vote_of (c ∷ group) c (inl refl))
