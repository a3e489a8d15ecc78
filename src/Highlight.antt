-- ===== src/Highlight.antt =====
-- frontend/src/logic/planning/highlight.ts: the matches that a highlighted team or slot is, or may
-- come to be, part of. A text is the list of its UTF-16 code units.
pub mod Reach
mod Tests
use bracket.Base.{
  ℕ, zero, suc, Bool, true, false, ◌||◌, List, [], ◌∷◌, ◌++◌, Option, none, some, ◌==◌,
  if◌then◌else◌, is_num,
}
use bracket.Base.Store.{get}

abbrev pub Text : Type 0
Text = List ℕ

pub data HighlightTarget : Type 0 where
  team : (team_id : ℕ) → Text → HighlightTarget
  stage_item_input : (input_id : ℕ) → Text → HighlightTarget

-- `team_name` is `team?.name`.
pub record MatchInputLike : Type 0 where
  pub id : Option ℕ
  pub team_id : Option ℕ
  pub team_name : Option Text
  pub winner_from_stage_item_id : Option ℕ
  pub winner_position : Option ℕ

pub record MatchLike : Type 0 where
  pub id : ℕ
  pub stage_item_input1 : Option MatchInputLike
  pub stage_item_input2 : Option MatchInputLike
  pub stage_item_input1_winner_from_match_id : Option ℕ
  pub stage_item_input2_winner_from_match_id : Option ℕ

abbrev pub MatchLookupLike : Type 0
MatchLookupLike = List (ℕ × MatchLike)

pub input_involves_highlight : Option MatchInputLike → HighlightTarget → Bool
input_involves_highlight none target = false
input_involves_highlight (some input) (team team_id label) = is_num input.team_id team_id
input_involves_highlight (some input) (stage_item_input input_id label) = is_num input.id input_id

-- `[…].filter((id) => id != null)`
abbrev pub option_ids : Option ℕ → List ℕ
option_ids none = []
option_ids (some id) = id ∷ []

abbrev pub source_match_ids : MatchLike → List ℕ
source_match_ids m =
    option_ids m.stage_item_input1_winner_from_match_id
    ++ option_ids m.stage_item_input2_winner_from_match_id

pub is_direct : HighlightTarget → MatchLike → Bool
unfolding input_involves_highlight
is_direct target m =
    input_involves_highlight m.stage_item_input1 target
    || input_involves_highlight m.stage_item_input2 target

-- `sourceMatchIds.some(…)`, which stops at the first match that is involved. None stands for a call
-- that does not return.
pub some_source : (MatchLike → Option Bool) → MatchLookupLike → List ℕ → Option Bool
unfolding get
some_source involves lookup [] = some false
some_source involves lookup (id ∷ ids) =
    let rest = some_source involves lookup ids in
    elim (get id lookup) [
      | none ↦ rest
      | some source ↦ elim (involves source) [
        | none ↦ none
        | some found ↦ if found then some true else rest
      ]
    ]

-- The depth of the recursion is bounded by fuel; none when it runs out.
pub match_involves : ℕ → HighlightTarget → MatchLookupLike → MatchLike → Option Bool
unfolding is_direct some_source
match_involves zero target lookup m = none
match_involves (suc fuel) target lookup m =
    if is_direct target m
    then some true
    else some_source (match_involves fuel target lookup) lookup (source_match_ids m)

pub match_involves_highlight :
    ℕ → MatchLike → Option HighlightTarget → MatchLookupLike → Option Bool
unfolding match_involves
match_involves_highlight fuel m none lookup = some false
match_involves_highlight fuel m (some target) lookup = match_involves fuel target lookup m
