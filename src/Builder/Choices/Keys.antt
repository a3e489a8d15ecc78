-- ===== src/Builder/Choices/Keys.antt =====
-- builder.tsx: the key of an input finds the choice that it was set to.
use mathlib.Core.Path.{subst}
use bracket.Base.{
  ℕ, ◌≡◌, refl, ap, List, [], ◌∷◌, Option, none, some, arith, inl, inr, Option-cases, map, All,
}
use bracket.Requests.{number}
use bracket.Base.Store.{get, get-put_all_at}
use bracket.Builder.{StageItemInputChoice, StageItemInput, StageItem}
use bracket.Builder.Choices.{
  Team, StageItemInputOption, tentative, final, choice_of, choices_of, get_available_inputs,
  current_option_value,
}

-- The input after it was set to a choice.
abbrev pub set_to : StageItemInputChoice → ℕ → StageItemInput
set_to choice id = record {
  id = id;
  team_id = choice.team_id;
  winner_from_stage_item_id = choice.winner_from_stage_item_id;
  winner_position = choice.winner_position;
}

-- The key of an input that was set to a choice is the value of the choice.
abbrev pub HasKey : StageItemInputChoice → Type 0
HasKey choice = (id : ℕ) → current_option_value (set_to choice id) ≡ some choice.value

-- Every team stands under its own id.
abbrev pub ByOwnId : List (ℕ × Team) → Type 0
ByOwnId teams = (id : ℕ) (team : Team) → get id teams ≡ some team → team.id ≡ id

-- The same, of a choice if there is one.
abbrev KeyIfAny : Option StageItemInputChoice → Type 0
KeyIfAny none = Unit
KeyIfAny (some choice) = HasKey choice

module _ (stage_item_map : List (ℕ × StageItem)) (teams_map : List (ℕ × Team))
    (own : ByOwnId teams_map) where
  choice_of-KeyIfAny :
      (option : StageItemInputOption) → KeyIfAny (choice_of stage_item_map teams_map option)
  unfolding choice_of current_option_value
  choice_of-KeyIfAny (tentative item position taken) =
      elim (Option-cases (get item stage_item_map)) [
        | inl e ↦ rw (choice_of, KeyIfAny, e) tt
        | inr (found, e) ↦ rw (choice_of, KeyIfAny, e) (λ id. refl)
      ]
  choice_of-KeyIfAny (final team_id taken) = elim (Option-cases (get team_id teams_map)) [
    | inl e ↦ rw (choice_of, KeyIfAny, e) tt
    | inr (team, e) ↦
        rw (choice_of, KeyIfAny, e) (λ id. ap (λ n. some (number n ∷ [])) (own team_id team e))
  ]

  choices_of-HasKey :
      (options : List StageItemInputOption)
      → All HasKey (choices_of stage_item_map teams_map options)
  unfolding choices_of
  choices_of-HasKey [] = tt
  choices_of-HasKey (option ∷ options) =
      let key = choice_of-KeyIfAny option in
      elim (Option-cases (choice_of stage_item_map teams_map option)) [
        | inl e ↦ rw (All, choices_of, e) (choices_of-HasKey options)
        | inr (choice, e) ↦
            rw (All, choices_of, e) (subst KeyIfAny e key, choices_of-HasKey options)
      ]

  entries-All :
      (data_ : List (ℕ × List StageItemInputOption))
      → All
          (λ (e : ℕ × List StageItemInputChoice). All HasKey e.1)
          (map (λ entry. (entry.0, choices_of stage_item_map teams_map entry.1)) data_)
  entries-All [] = tt
  entries-All (entry ∷ data_) = (choices_of-HasKey entry.1, entries-All data_)

  -- In a stage, the key of an input that was set to an available choice is the value of the choice:
  -- the box shows the choice that was taken. Every team stands under its own id.
  pub get_available_inputs-HasKey :
      (response : Option (List (ℕ × List StageItemInputOption))) (stage_id : ℕ)
      (choices : List StageItemInputChoice)
      → get stage_id (get_available_inputs stage_item_map teams_map response) ≡ some choices
      → All HasKey choices
  unfolding get_available_inputs
  get_available_inputs-HasKey none stage_id choices h = absurd (ground (arith, h))
  get_available_inputs-HasKey (some data_) stage_id choices h =
      get-put_all_at (λ k v. All HasKey v)
        (map (λ entry. (entry.0, choices_of stage_item_map teams_map entry.1)) data_) []
        (entries-All data_) (λ k v e. absurd (cc e)) stage_id choices h
