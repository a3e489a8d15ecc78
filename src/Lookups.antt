-- ===== src/Lookups.antt =====
-- frontend/src/services/lookups.tsx: lookups over the stages and the violations of their order. The
-- objects made by `Object.fromEntries` are association lists with the last entry of each key.
pub mod Numbers
pub mod Violations
mod Tests
use bracket.Base.{
  ℕ, zero, suc, ◌+◌, ◌≡◌, Bool, true, false, not, ◌&&◌, List, [], ◌∷◌, ◌++◌, Option, none, some,
  ltb, ◌==◌, if◌then◌else◌, any, filter, flat_map, fold, length, map, opt_eq,
}
use bracket.Base.Store.{get, put_all, push, push_all, values}

-- The fields that the lookups read.
pub record Match : Type 0 where
  pub id : ℕ
  pub has_start_time : Bool
  pub court_id : Option ℕ

pub record Round : Type 0 where
  pub id : ℕ
  pub matches : List Match

pub record StageItem : Type 0 where
  pub id : ℕ
  -- The `team_id` of the inputs.
  pub team_ids : List (Option ℕ)
  pub rounds : List Round

pub record Stage : Type 0 where
  pub id : ℕ
  pub level_id : Option ℕ
  pub stage_items : List StageItem

pub record MatchLookupEntry : Type 0 where
  pub match_ : Match
  pub round : Round
  pub stage_item : StageItem
  pub stage : Stage
  pub match_number : ℕ
  pub round_number : ℕ

all_items : List Stage → List StageItem
all_items = flat_map (λ stage. stage.stage_items)

pub get_stage_item_lookup : Option (List Stage) → List (ℕ × StageItem)
unfolding all_items
get_stage_item_lookup none = []
get_stage_item_lookup (some stages) = put_all [] (map (λ item. (item.id, item)) (all_items stages))

pub get_stage_item_list : List Stage → List (List StageItem)
unfolding all_items
get_stage_item_list stages = map (λ item. item ∷ []) (all_items stages)

pub get_stage_item_team_ids_lookup : List Stage → List (ℕ × List (Option ℕ))
unfolding all_items
get_stage_item_team_ids_lookup stages =
    put_all [] (map (λ item. (item.id, item.team_ids)) (all_items stages))

-- `set.add(x)`: the set in the order of insertion.
pub add_to_set : List ℕ → ℕ → List ℕ
add_to_set xs x = if any (λ y. y == x) xs then xs else xs ++ x ∷ []

add_team_id : List ℕ → Option ℕ → List ℕ
unfolding add_to_set
add_team_id ids none = ids
add_team_id ids (some id) = add_to_set ids id

pub get_assigned_team_ids : List Stage → List ℕ
unfolding all_items add_team_id
get_assigned_team_ids stages =
    fold add_team_id [] (flat_map (λ item. item.team_ids) (all_items stages))

module _ (stage : Stage) (stage_item : StageItem) where
  -- The entries of a round whose first match has the number after `n`.
  round_entries : ℕ → ℕ → Round → List Match → List (ℕ × MatchLookupEntry)
  round_entries n round_number round [] = []
  round_entries n round_number round (m ∷ ms) =
      (
        m.id,
        record {
          match_ = m;
          round = round;
          stage_item = stage_item;
          stage = stage;
          match_number = suc n;
          round_number = round_number;
        },
      )
      ∷ round_entries (suc n) round_number round ms

  pub item_entries : ℕ → ℕ → List Round → List (ℕ × MatchLookupEntry)
  unfolding round_entries
  item_entries n round_idx [] = []
  item_entries n round_idx (round ∷ rounds) =
      round_entries n (round_idx + 1) round round.matches
      ++ item_entries (n + length round.matches) (suc round_idx) rounds

pub match_entries : List Stage → List (ℕ × MatchLookupEntry)
unfolding item_entries
match_entries =
    flat_map λ stage. flat_map (λ item. item_entries stage item 0 0 item.rounds) stage.stage_items

pub get_match_lookup : List Stage → List (ℕ × MatchLookupEntry)
unfolding match_entries
get_match_lookup stages = put_all [] (match_entries stages)

-- The matches in the order of the tree.
pub all_matches : List Stage → List Match
unfolding all_items
all_matches stages =
    flat_map (λ item. flat_map (λ round. round.matches) item.rounds) (all_items stages)

pub get_unscheduled_matches : List Stage → List Match
unfolding all_matches
get_unscheduled_matches stages = filter (λ m. not m.has_start_time) (all_matches stages)

pub get_stage_item_level_lookup : Option (List Stage) → List (ℕ × Option ℕ)
get_stage_item_level_lookup none = []
get_stage_item_level_lookup (some stages) =
    put_all []
      (flat_map (λ stage. map (λ item. (item.id, stage.level_id)) stage.stage_items) stages)

-- `findIndex` plus one: 0 for a stage that is not listed.
pub stage_idx : List Stage → ℕ → ℕ
stage_idx [] id = 0
stage_idx (s ∷ stages) id =
    if s.id == id then 1 else elim (stage_idx stages id) [ zero ↦ 0 | suc i ↦ suc (suc i) ]

-- A key of the map by level: 0 for `null`.
pub level_key : Option ℕ → ℕ
level_key none = 0
level_key (some id) = suc id

module _ (lookup : List (ℕ × MatchLookupEntry)) (stage_order : List Stage) where
  -- `matchLookup[m.id]?.stage.level_id ?? null`
  pub level_of : Match → Option ℕ
  unfolding get
  level_of m = elim (get m.id lookup) [ none ↦ none | some e ↦ e.stage.level_id ]

  -- The second match has an entry, of an earlier stage than the entry of the first one.
  earlier_than : MatchLookupEntry → Match → Bool
  unfolding get stage_idx
  earlier_than entry n = elim (get n.id lookup) [
    | none ↦ false
    | some other ↦ ltb (stage_idx stage_order other.stage.id) (stage_idx stage_order entry.stage.id)
  ]

  -- The loop over the later matches of the level, which ends at the first one of an earlier stage.
  pub violates : Match → List Match → Bool
  unfolding get earlier_than
  violates m later = elim (get m.id lookup) [
    | none ↦ false
    | some entry ↦ any (earlier_than entry) later
  ]

  pub level_violations : List ℕ → List Match → List ℕ
  unfolding violates add_to_set
  level_violations violations [] = violations
  level_violations violations (m ∷ ms) =
      level_violations (if violates m ms then add_to_set violations m.id else violations) ms

  by_level : List Match → List (ℕ × List Match)
  unfolding level_of level_key
  by_level matches = push_all [] (map (λ m. (level_key (level_of m), m)) matches)

  pub get_stage_order_violations : List Match → List ℕ
  unfolding by_level level_violations
  get_stage_order_violations court_matches =
      fold level_violations [] (values (by_level court_matches))

  -- schedule.tsx: the violations of the courts.
  pub page_violations : List (List Match) → List ℕ
  unfolding get_stage_order_violations add_to_set
  page_violations courts =
      fold (λ violations matches. fold add_to_set violations (get_stage_order_violations matches))
        [] courts
