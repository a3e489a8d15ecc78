-- ===== src/Highlight/Tests.antt =====
-- Tests of the highlighting, after frontend/src/logic/planning/highlight.test.ts.
use bracket.Base.{
  ℕ, ◌+◌, ◌≤◌, ◌++◌, ap, if◌then◌else◌, ◌==◌, Bool-cases, ◌<◌, ◌≡◌, refl, ◌↔◌, Bool, true, [], ◌∷◌,
  Option, none, some, arith, inl, inr,
}
use bracket.Base.Store.{get}
use bracket.Highlight.{
  team, MatchInputLike, MatchLike, MatchLookupLike, match_involves_highlight, option_ids,
}
use bracket.Highlight.Reach.{Among, Reaches, IsRanked, match_involves_highlight-Reaches}

abbrev slot : ℕ → MatchInputLike
slot team_id = record {
  id = some 1;
  team_id = some team_id;
  team_name = none;
  winner_from_stage_item_id = none;
  winner_position = none;
}

abbrev semi : MatchLike
semi = record {
  id = 1;
  stage_item_input1 = some (slot 7);
  stage_item_input2 = none;
  stage_item_input1_winner_from_match_id = none;
  stage_item_input2_winner_from_match_id = none;
}

abbrev final : MatchLike
final = record {
  id = 2;
  stage_item_input1 = none;
  stage_item_input2 = none;
  stage_item_input1_winner_from_match_id = some 1;
  stage_item_input2_winner_from_match_id = none;
}

abbrev lookup : MatchLookupLike
lookup = (1, semi) ∷ (2, final) ∷ []

final_test : match_involves_highlight 2 final (some (team 7 [])) lookup ≡ some true
unfolding match_involves_highlight get
final_test = refl

-- One more than the rank of the match with the id, if it is known.
abbrev id_rank : ℕ → ℕ
id_rank id = if id == 1 then 1 else if id == 2 then 2 else 0

abbrev source_rank : Option ℕ → ℕ
source_rank none = 0
source_rank (some id) = id_rank id

abbrev rank : MatchLike → ℕ
rank m =
    source_rank m.stage_item_input1_winner_from_match_id
    + source_rank m.stage_item_input2_winner_from_match_id

known_rank : (id : ℕ) (source : MatchLike) → get id lookup ≡ some source → rank source < id_rank id
unfolding get
known_rank id source e = elim (Bool-cases (1 == id)) [
  | inl first ↦
      let same : source ≡ semi = ground (arith, e, first) in ground (arith, first, ap rank same)
  | inr other ↦ elim (Bool-cases (2 == id)) [
    | inl second ↦
        let same : source ≡ final = ground (arith, e, other, second) in
        ground (arith, second, ap rank same)
    | inr third ↦ ground (arith, e, other, third)
  ]
]

id_rank-le :
    (id : ℕ) (o1 o2 : Option ℕ)
    → Among id (option_ids o1 ++ option_ids o2)
    → id_rank id ≤ source_rank o1 + source_rank o2
id_rank-le id none none h = absurd h
id_rank-le id none (some j) (inl e) = ground (arith, e)
id_rank-le id none (some j) (inr h) = absurd h
id_rank-le id (some i) none (inl e) = ground (arith, e)
id_rank-le id (some i) none (inr h) = absurd h
id_rank-le id (some i) (some j) (inl e) = ground (arith, e)
id_rank-le id (some i) (some j) (inr (inl e)) = ground (arith, e)
id_rank-le id (some i) (some j) (inr (inr h)) = absurd h

rank-IsRanked : IsRanked (team 7 []) lookup rank
rank-IsRanked m source id among e = omega (
  arith,
  known_rank id source e,
  id_rank-le id m.stage_item_input1_winner_from_match_id m.stage_item_input2_winner_from_match_id
      among,
)

match_involves_highlight-Reaches_example :
    (b : Bool) × (match_involves_highlight 2 final (some (team 7 [])) lookup ≡ some b)
    × ((b ≡ true) ↔ Reaches (team 7 []) lookup final)
match_involves_highlight-Reaches_example =
    match_involves_highlight-Reaches (team 7 []) lookup rank 2 final rank-IsRanked (omega arith)
