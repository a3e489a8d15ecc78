-- ===== src/Builder/Choices/Tests.antt =====
-- Tests of the choices for the inputs of a stage.
use bracket.Base.{ℕ, ◌≡◌, refl, false, List, [], ◌∷◌, Option, none, some, map}
use bracket.Base.Store.{get, put}
use bracket.Requests.{word, number}
use bracket.Builder.{StageItem, Stage}
use bracket.Builder.Choices.{
  Team, StageItemInputOption, tentative, final, format_stage_item_input_tentative, stage_choices,
}

abbrev stages_map : List (ℕ × StageItem)
stages_map = (1, record { id = 1; name = "A"; inputs = [] }) ∷ []

abbrev teams_map : List (ℕ × Team)
teams_map = (4, record { id = 4; name = "Blue"; level_id = some 7 }) ∷ []

-- The options of stage 1, of which one names an unknown team.
abbrev options : Option (List (ℕ × List StageItemInputOption))
options = some ((1, tentative 1 2 false ∷ final 4 false ∷ final 5 false ∷ []) ∷ [])

abbrev first_stage : Stage
first_stage = record { id = 1; level_id = none; stage_items = [] }

choices_test :
    map (λ c. c.value) (stage_choices stages_map teams_map options first_stage)
    ≡ (number 1 ∷ word "_" ∷ number 2 ∷ []) ∷ (number 4 ∷ []) ∷ (word "null" ∷ []) ∷ []
unfolding stage_choices put get
choices_test = refl

label_test :
    format_stage_item_input_tentative stages_map 1 2 ≡ word "2nd" ∷ word " of " ∷ word "A" ∷ []
unfolding format_stage_item_input_tentative
label_test = refl
