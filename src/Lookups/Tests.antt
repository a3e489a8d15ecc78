-- ===== src/Lookups/Tests.antt =====
-- Tests of the lookups.
use bracket.Base.{ℕ, ◌≡◌, refl, true, List, [], ◌∷◌, some, any, any_pair, ◌==◌}
use bracket.Base.Store.{get, put}
use bracket.Lookups.{Match, Stage, get_match_lookup, get_assigned_team_ids, page_violations}
use bracket.Lookups.Numbers.{IsLookup, get_match_lookup-IsLookup}
use bracket.Lookups.Violations.{violation, page_violations_iff}

abbrev game : ℕ → Match
game id = record { id = id; has_start_time = true; court_id = some 1 }

-- A stage of one item with two rounds, and one with a single match, of the same level.
abbrev stages : List Stage
stages =
    record {
      id = 1;
      level_id = some 9;
      stage_items =
          record {
            id = 5;
            team_ids = some 3 ∷ some 4 ∷ some 3 ∷ [];
            rounds =
                record { id = 1; matches = game 10 ∷ game 11 ∷ [] }
                ∷ record { id = 2; matches = game 12 ∷ [] }
                ∷ [];
          }
          ∷ [];
    }
    ∷ record {
      id = 2;
      level_id = some 9;
      stage_items =
          record {
            id = 6;
            team_ids = some 4 ∷ [];
            rounds = record { id = 3; matches = game 20 ∷ [] } ∷ [];
          }
          ∷ [];
    }
    ∷ []

get_match_lookup-IsLookup_example : IsLookup stages 12 (get 12 (get_match_lookup stages))
get_match_lookup-IsLookup_example = get_match_lookup-IsLookup stages 12

-- The final is played before a match of the first stage.
abbrev courts : List (List Match)
courts = (game 10 ∷ game 20 ∷ game 12 ∷ []) ∷ (game 11 ∷ []) ∷ []

page_violations_iff_example :
    any (λ y. y == 20) (page_violations (get_match_lookup stages) stages courts)
    ≡ any (any_pair (violation (get_match_lookup stages) stages 20)) courts
page_violations_iff_example = page_violations_iff (get_match_lookup stages) stages courts 20

violations_test : page_violations (get_match_lookup stages) stages courts ≡ 20 ∷ []
unfolding page_violations get_match_lookup get put
violations_test = refl

assigned_test : get_assigned_team_ids stages ≡ 3 ∷ 4 ∷ []
unfolding get_assigned_team_ids
assigned_test = refl
