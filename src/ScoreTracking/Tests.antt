-- ===== src/ScoreTracking/Tests.antt =====
-- Tests of the score tracking, after frontend/src/logic/score_tracking.test.ts.
use bracket.Base.{
  ap, List, All, is_num, ℕ, ◌-◌, ◌≤◌, ◌≡◌, ◌≢◌, ◌↔◌, refl, true, false, [], ◌∷◌, none, some, max,
  min, arith,
}
use bracket.Base.Int.{pos}
use bracket.Base.Order.{sort}
use bracket.ScoreTracking.NextMatch.{IsOnly, NotBefore, is_later, get_next_match_on_court-IsNext}
use bracket.Base.Order.{Distinct}
use bracket.ScoreTracking.{
  schedule_before, MatchWithDetails, get_next_match_on_court, MatchSet, MatchState, not_started,
  in_progress, completed, playing, between_sets, view_completed, view_not_started,
  get_score_tracking_view_state, EndSetRules, is_end_set_disabled, is_completed,
}
use bracket.ScoreTracking.EndSet.{ReachesLimit, is_end_set_disabled_iff}
use bracket.ScoreTracking.View.{view_of_sequence}

abbrev set_of : ℕ → MatchState → ℕ → ℕ → MatchSet
set_of number state score1 score2 = record {
  set_number = number;
  state = state;
  stage_item_input1_score = score1;
  stage_item_input2_score = score2;
}

view_of_sequence_example :
    (get_score_tracking_view_state (set_of 2 in_progress 3 4 ∷ []) none
      ≡ playing (set_of 2 in_progress 3 4))
    × (get_score_tracking_view_state (set_of 1 completed 25 20 ∷ set_of 2 not_started 0 0 ∷ []) none
        ≡ between_sets
            (set_of 1 completed 25 20)
            (set_of 2 not_started 0 0)
            (set_of 1 completed 25 20 ∷ set_of 2 not_started 0 0 ∷ []))
    × (get_score_tracking_view_state [] none ≡ view_not_started)
    × (get_score_tracking_view_state (set_of 1 completed 25 20 ∷ []) none ≡ view_completed)
view_of_sequence_example =
    view_of_sequence [] (set_of 1 completed 25 20) (set_of 2 in_progress 3 4)
      (set_of 2 not_started 0 0) [] none tt refl refl refl tt (λ e. ground (arith, e))

abbrev rules : EndSetRules
rules = record {
  two_point_advantage = true;
  max_points = 25;
  last_set_max_points = some 15;
  num_sets = 3;
  draws_allowed = false;
}

abbrev score : ℕ → ℕ
score n = n

is_end_set_disabled_iff_example :
    (is_end_set_disabled (set_of 3 in_progress 15 14) rules true ≡ false) ↔ (
      ReachesLimit (set_of 3 in_progress 15 14) rules
      × (true ≡ true → 2 ≤ max 15 14 - min 15 14)
      × (false ≡ false → score 15 ≢ score 14))
is_end_set_disabled_iff_example = is_end_set_disabled_iff (set_of 3 in_progress 15 14) rules true

abbrev game : ℕ → ℕ → MatchState → MatchWithDetails
game id start state = record {
  id = id;
  court_id = some 1;
  start_time = some (pos start);
  state = state;
}

abbrev games : List MatchWithDetails
games = game 3 40 not_started ∷ game 1 0 in_progress ∷ game 2 20 completed ∷ []

next_match_test :
    get_next_match_on_court games (game 1 0 in_progress) ≡ some (game 3 40 not_started)
unfolding get_next_match_on_court sort is_completed
next_match_test = refl

games-IsOnly : IsOnly (game 1 0 in_progress) games
games-IsOnly = ((λ e. ground (arith, e)), ((λ e. refl), ((λ e. ground (arith, e)), tt)))

games-Distinct : Distinct games
games-Distinct = (
  ((λ e. ground (arith, ap (λ m. m.id) e)), ((λ e. ground (arith, ap (λ m. m.id) e)), tt)),
  (((λ e. ground (arith, ap (λ m. m.id) e)), tt), (tt, tt)),
)

get_next_match_on_court-IsNext_example :
    All
      (λ m.
        is_num m.court_id 1 ≡ true
        → is_later (game 1 0 in_progress) m ≡ true
        → NotBefore (get_next_match_on_court games (game 1 0 in_progress)) m)
      games
    × ((next : MatchWithDetails)
        → get_next_match_on_court games (game 1 0 in_progress) ≡ some next
        → (is_num next.court_id 1 ≡ true)
          × (schedule_before (game 1 0 in_progress) next ≡ true)
          × (is_completed next.state ≡ false))
get_next_match_on_court-IsNext_example =
    get_next_match_on_court-IsNext (game 1 0 in_progress) 1 refl games games-IsOnly games-Distinct
      refl
