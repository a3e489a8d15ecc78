-- ===== src/ScoreTracking/EndSet.antt =====
-- score_tracking.ts: when a set may be ended; match_sets.ts: how many sets are won.
use bracket.Base.{
  ℕ, refl, none, some, ◌⊎◌, inl, inr, Option-cases, ==_iff, ◌==◌, Bool-cases, ◌+◌, ◌-◌, min, ◌≤◌,
  ◌≡◌, ◌≢◌, ◌↔◌, Bool, true, false, List, [], ◌∷◌, arith, length, max, filter,
}
use bracket.ScoreTracking.{
  MatchSet, EndSetRules, end_set_limit, is_end_set_disabled, is_completed, get_sets_won,
}

-- The leading side of the set has the points that end it: the points of the last set, if the rules
-- have such and the set has the number of the last one, and else those of every set.
abbrev pub ReachesLimit : MatchSet → EndSetRules → Type 0
ReachesLimit set rules =
    let leading = max set.stage_item_input1_score set.stage_item_input2_score in
    ((last : ℕ)
      → rules.last_set_max_points ≡ some last
      → set.set_number ≡ rules.num_sets
      → last ≤ leading)
    × ((rules.last_set_max_points ≡ none) ⊎ (set.set_number ≢ rules.num_sets)
        → rules.max_points ≤ leading)

limit_last :
    (set : MatchSet) (rules : EndSetRules) (last : ℕ)
    → rules.last_set_max_points ≡ some last
    → set.set_number ≡ rules.num_sets
    → end_set_limit set rules ≡ last
unfolding end_set_limit
limit_last set rules last e n =
    let same : (set.set_number == rules.num_sets) ≡ true = (==_iff _ _).1 n in
    rw (end_set_limit, e) (rw same refl)

limit_other :
    (set : MatchSet) (rules : EndSetRules)
    → (rules.last_set_max_points ≡ none) ⊎ (set.set_number ≢ rules.num_sets)
    → end_set_limit set rules ≡ rules.max_points
unfolding end_set_limit
limit_other set rules (inl e) = rw (end_set_limit, e) refl
limit_other set rules (inr n) = elim (Option-cases rules.last_set_max_points) [
  | inl e ↦ rw (end_set_limit, e) refl
  | inr (last, e) ↦
      let other : (set.set_number == rules.num_sets) ≡ false = ground (arith, n) in
      rw (end_set_limit, e) (rw other refl)
]

reached-ReachesLimit :
    (set : MatchSet) (rules : EndSetRules)
    → end_set_limit set rules ≤ max set.stage_item_input1_score set.stage_item_input2_score
    → ReachesLimit set rules
reached-ReachesLimit set rules le = (
  (λ last e n. rw (← limit_last set rules last e n) le),
  (λ o. rw (← limit_other set rules o) le),
)

ReachesLimit-reached :
    (set : MatchSet) (rules : EndSetRules)
    → ReachesLimit set rules
    → end_set_limit set rules ≤ max set.stage_item_input1_score set.stage_item_input2_score
ReachesLimit-reached set rules (at_last, at_other) =
    elim (Bool-cases (set.set_number == rules.num_sets)) [
      | inl same ↦ elim (Option-cases rules.last_set_max_points) [
        | inl e ↦ rw (limit_other set rules (inl e)) (at_other (inl e))
        | inr (last, e) ↦
            let n : set.set_number ≡ rules.num_sets = (==_iff _ _).0 same in
            rw (limit_last set rules last e n) (at_last last e n)
      ]
      | inr other ↦
          let n : set.set_number ≢ rules.num_sets = λ e. ground (arith, other, e) in
          rw (limit_other set rules (inr n)) (at_other (inr n))
    ]

is_end_set_disabled_at_limit :
    (set : MatchSet) (rules : EndSetRules) (is_swapped : Bool)
    → (is_end_set_disabled set rules is_swapped ≡ false) ↔ (
        (end_set_limit set rules ≤ max set.stage_item_input1_score set.stage_item_input2_score)
        × (rules.two_point_advantage ≡ true
            → 2
              ≤ max set.stage_item_input1_score set.stage_item_input2_score
                - min set.stage_item_input1_score set.stage_item_input2_score)
        × (rules.draws_allowed ≡ false → set.stage_item_input1_score ≢ set.stage_item_input2_score))
unfolding is_end_set_disabled
is_end_set_disabled_at_limit set rules true = ground arith
is_end_set_disabled_at_limit set rules false = ground arith

-- A set may be ended exactly if the leading side has the points that end it, the sides are two points
-- apart when the rules ask for that, and they are not level when the rules forbid draws. The points
-- are those of the last set, if the rules have such and the set has the number of the last one, and
-- else those of every set. The sides on which the teams are shown play no role.
pub is_end_set_disabled_iff :
    (set : MatchSet) (rules : EndSetRules) (is_swapped : Bool)
    → (is_end_set_disabled set rules is_swapped ≡ false) ↔ (
        ReachesLimit set rules
        × (rules.two_point_advantage ≡ true
            → 2
              ≤ max set.stage_item_input1_score set.stage_item_input2_score
                - min set.stage_item_input1_score set.stage_item_input2_score)
        × (rules.draws_allowed ≡ false → set.stage_item_input1_score ≢ set.stage_item_input2_score))
is_end_set_disabled_iff set rules swapped =
    let (open_if, only_if) = is_end_set_disabled_at_limit set rules swapped in
    (
      (λ h. let (l, a, b) = open_if h in (reached-ReachesLimit set rules l, a, b)),
      (λ (l, a, b). only_if (ReachesLimit-reached set rules l, a, b)),
    )

-- The sides never win more sets together than there are completed ones.
pub get_sets_won-le :
    (sets : List MatchSet)
    → (get_sets_won sets).0 + (get_sets_won sets).1
      ≤ length (filter (λ s. is_completed s.state) sets)
unfolding get_sets_won
get_sets_won-le [] = omega arith
get_sets_won-le (s ∷ sets) = ground (arith, get_sets_won-le sets)
