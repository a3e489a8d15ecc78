-- ===== src/Builder/Tests.antt =====
-- Tests of the assignment of teams.
use bracket.Requests.{word, number}
use bracket.Base.{
  ℕ, ◌≡◌, ◌≤◌, refl, Bool, true, false, List, [], ◌∷◌, ◌++◌, Option, none, some, arith, is_num, map,
  take, All,
}
use bracket.Builder.{
  StageItemInputChoice, StageItemInput, Stage, InputUpdate, empty_inputs, auto_assign_teams,
}
use bracket.Builder.Assigned.{count, IsShuffle, may_take, offers, auto_assign_teams_lem}

abbrev team_choice : ℕ → Bool → ℕ → StageItemInputChoice
team_choice team_id taken level = record {
  value = number team_id ∷ [];
  label = some (word "team" ∷ []);
  team_id = some team_id;
  winner_from_stage_item_id = none;
  winner_position = none;
  already_taken = taken;
  team_level_id = some level;
}

-- Two free teams of the level, one that is taken and one of another level.
abbrev choices : List StageItemInputChoice
choices =
    team_choice 1 false 7
    ∷ team_choice 2 true 7
    ∷ team_choice 3 false 8
    ∷ team_choice 4 false 7
    ∷ []

abbrev input : ℕ → Option ℕ → StageItemInput
input id team_id = record {
  id = id;
  team_id = team_id;
  winner_from_stage_item_id = none;
  winner_position = none;
}

abbrev stage : Stage
stage = record {
  id = 1;
  level_id = some 7;
  stage_items =
      record { id = 1; name = "A"; inputs = input 10 none ∷ input 11 (some 2) ∷ [] }
      ∷ record { id = 2; name = "B"; inputs = input 20 none ∷ input 21 none ∷ [] }
      ∷ [];
}

-- A shuffle that reverses the list.
abbrev reverse : List StageItemInputChoice → List StageItemInputChoice
reverse [] = []
reverse (c ∷ cs) = reverse cs ++ c ∷ []

count-append :
    (p : StageItemInputChoice → Bool) (cs : List StageItemInputChoice) (c : StageItemInputChoice)
    → count p (cs ++ c ∷ []) ≡ count p (c ∷ cs)
count-append p [] c = refl
count-append p (d ∷ cs) c = ground (arith, count-append p cs c)

reverse-IsShuffle : IsShuffle reverse
reverse-IsShuffle p [] = refl
reverse-IsShuffle p (c ∷ cs) = ground (arith, count-append p (reverse cs) c, reverse-IsShuffle p cs)

assigned_test :
    auto_assign_teams reverse stage choices
    ≡ some (
        record { input = record { stage_item_id = 1; input_id = 10 }; team_id = some 4 }
        ∷ record { input = record { stage_item_id = 2; input_id = 20 }; team_id = some 1 }
        ∷ [])
unfolding auto_assign_teams
assigned_test = refl

auto_assign_teams_lem_example :
    (updates : List InputUpdate) × (auto_assign_teams reverse stage choices ≡ some updates)
    × (map (λ u. u.input) updates
        ≡ take (count (may_take (some 7)) choices) (empty_inputs stage.stage_items))
    × All (λ u. offers (some 7) choices u.team_id ≡ true) updates
    × ((t : ℕ) → count (λ u. is_num u.team_id t) updates ≤ count (λ c. is_num c.team_id t) choices)
auto_assign_teams_lem_example = auto_assign_teams_lem reverse reverse-IsShuffle stage choices
