-- ===== src/ScoreTracking.antt =====
-- frontend/src/logic/score_tracking.ts and the set wins of frontend/src/utils/match_sets.ts.
-- Scores are natural numbers; the texts of start times are compared as the instants they denote.
pub mod View
pub mod NextMatch
pub mod EndSet
mod Tests
use bracket.Base.{
  ℕ, zero, suc, ◌+◌, ◌-◌, Bool, true, false, not, ◌&&◌, ◌||◌, List, [], ◌∷◌, ◌++◌, Option, none,
  some, ◌==◌, ltb, if◌then◌else◌, is_num, is_some, opt_eq, length, get_elem?, drop, filter, find,
  max,
}
use mathlib.Core.Option
use bracket.Base.Int.{ℤ, pos, ◌+ℤ◌, ltb_ℤ, pos_part}
use bracket.Base.Order.{sort}

pub data MatchState : Type 0 where
  not_started in_progress completed : MatchState

pub record MatchSet : Type 0 where
  pub set_number : ℕ
  pub state : MatchState
  pub stage_item_input1_score : ℕ
  pub stage_item_input2_score : ℕ

pub data ScoreTrackingViewState : Type 0 where
  view_not_started : ScoreTrackingViewState
  playing : MatchSet → ScoreTrackingViewState
  between_sets : MatchSet → MatchSet → List MatchSet → ScoreTrackingViewState
  view_completed : ScoreTrackingViewState

unfoldable pub is_not_started : MatchState → Bool
is_not_started not_started = true
is_not_started in_progress = false
is_not_started completed = false

unfoldable pub is_in_progress : MatchState → Bool
is_in_progress not_started = false
is_in_progress in_progress = true
is_in_progress completed = false

unfoldable pub is_completed : MatchState → Bool
is_completed not_started = false
is_completed in_progress = false
is_completed completed = true

abbrev pub reverse : List MatchSet → List MatchSet
reverse [] = []
reverse (s ∷ sets) = reverse sets ++ s ∷ []

-- `sets.every(…)`
abbrev pub every : (MatchSet → Bool) → List MatchSet → Bool
every p [] = true
every p (s ∷ sets) = p s && every p sets

-- What is shown when no set is in progress.
pub no_set_in_progress : List MatchSet → Option MatchSet → Option MatchSet → ScoreTrackingViewState
unfolding is_not_started
no_set_in_progress sets (some last_completed) (some next_not_started) =
    between_sets last_completed next_not_started sets
no_set_in_progress sets (some last_completed) none =
    if every (λ s. is_not_started s.state) sets then view_not_started else view_completed
no_set_in_progress sets none next =
    if every (λ s. is_not_started s.state) sets then view_not_started else view_completed

pub open_match_view : List MatchSet → ScoreTrackingViewState
unfolding is_in_progress is_completed is_not_started no_set_in_progress
open_match_view sets = elim (find (λ s. is_in_progress s.state) sets) [
  | some s ↦ playing s
  | none ↦
      no_set_in_progress sets (find (λ s. is_completed s.state) (reverse sets))
        (find (λ s. is_not_started s.state) sets)
]

pub get_score_tracking_view_state : List MatchSet → Option MatchState → ScoreTrackingViewState
unfolding open_match_view
get_score_tracking_view_state sets (some completed) = view_completed
get_score_tracking_view_state sets (some in_progress) = open_match_view sets
get_score_tracking_view_state sets (some not_started) = open_match_view sets
get_score_tracking_view_state sets none = open_match_view sets

pub get_visible_sets : MatchState → List MatchSet → List MatchSet
unfolding is_not_started
get_visible_sets completed sets = filter (λ s. not (is_not_started s.state)) sets
get_visible_sets in_progress sets = sets
get_visible_sets not_started sets = sets

-- The first and the second score that are shown.
pub get_display_scores : MatchSet → Bool → ℕ × ℕ
get_display_scores set is_swapped =
    if is_swapped
    then (set.stage_item_input2_score, set.stage_item_input1_score)
    else (set.stage_item_input1_score, set.stage_item_input2_score)

pub record HighlightedDisplayScore : Type 0 where
  pub value : ℕ
  pub is_higher : Bool

pub get_highlighted_display_scores :
    MatchSet → Bool → HighlightedDisplayScore × HighlightedDisplayScore
unfolding get_display_scores
get_highlighted_display_scores set is_swapped =
    let (first, second) = get_display_scores set is_swapped in
    (
      record { value = first; is_higher = ltb second first },
      record { value = second; is_higher = ltb first second },
    )

pub data Slot : Type 0 where
  slot1 slot2 : Slot

-- `Math.max(0, score + delta)`
adjusted : ℕ → ℤ → ℕ
adjusted score delta = pos_part (pos score +ℤ delta)

pub next_scores_after_adjust : MatchSet → Slot → ℤ → ℕ × ℕ
unfolding adjusted
next_scores_after_adjust set slot1 delta =
    (adjusted set.stage_item_input1_score delta, adjusted set.stage_item_input2_score (pos 0))
next_scores_after_adjust set slot2 delta =
    (adjusted set.stage_item_input1_score (pos 0), adjusted set.stage_item_input2_score delta)

pub record MatchWithDetails : Type 0 where
  pub id : ℕ
  pub court_id : Option ℕ
  pub start_time : Option ℤ
  pub state : MatchState

-- `compareMatchesByScheduleThenId(a, b) < 0`
pub schedule_before : MatchWithDetails → MatchWithDetails → Bool
schedule_before a b = elim a.start_time [
  | none ↦ elim b.start_time [ none ↦ ltb a.id b.id | some _ ↦ false ]
  | some s ↦ elim b.start_time [
    | none ↦ true
    | some t ↦ if ltb_ℤ s t then true else if ltb_ℤ t s then false else ltb a.id b.id
  ]
]

pub find_match_index : ℕ → List MatchWithDetails → Option ℕ
find_match_index id [] = none
find_match_index id (m ∷ ms) =
    if m.id == id then some 0 else Option.map suc (find_match_index id ms)

pub same_court : ℕ → List MatchWithDetails → List MatchWithDetails
unfolding schedule_before sort
same_court court_id matches =
    sort schedule_before (filter (λ m. is_num m.court_id court_id) matches)

pub get_next_match_on_court : List MatchWithDetails → MatchWithDetails → Option MatchWithDetails
unfolding same_court find_match_index is_completed
get_next_match_on_court matches current = elim current.court_id [
  | none ↦ none
  | some court_id ↦ elim (find_match_index current.id (same_court court_id matches)) [
    | none ↦ none
    | some index ↦
        find (λ m. not (is_completed m.state)) (drop (suc index) (same_court court_id matches))
  ]
]

pub record EndSetRules : Type 0 where
  pub two_point_advantage : Bool
  pub max_points : ℕ
  pub last_set_max_points : Option ℕ
  pub num_sets : ℕ
  pub draws_allowed : Bool

-- The points that end the set.
pub end_set_limit : MatchSet → EndSetRules → ℕ
end_set_limit set rules = elim rules.last_set_max_points [
  | none ↦ rules.max_points
  | some last ↦ if set.set_number == rules.num_sets then last else rules.max_points
]

pub is_end_set_disabled : MatchSet → EndSetRules → Bool → Bool
unfolding end_set_limit
is_end_set_disabled set rules is_swapped =
    let s1 = if is_swapped then set.stage_item_input2_score else set.stage_item_input1_score in
    let s2 = if is_swapped then set.stage_item_input1_score else set.stage_item_input2_score in
    if ltb (max s1 s2) (end_set_limit set rules)
    then true
    else if rules.two_point_advantage && ltb ((s1 - s2) + (s2 - s1)) 2
    then true
    else not rules.draws_allowed && s1 == s2

-- match_sets.ts: the sets that each side has won.
pub get_sets_won : List MatchSet → ℕ × ℕ
unfolding is_completed
get_sets_won sets = (
  length (
      filter (λ s. is_completed s.state && ltb s.stage_item_input2_score s.stage_item_input1_score)
        sets),
  length (
      filter (λ s. is_completed s.state && ltb s.stage_item_input1_score s.stage_item_input2_score)
        sets),
)
