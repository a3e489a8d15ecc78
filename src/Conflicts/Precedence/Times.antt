-- ===== src/Conflicts/Precedence/Times.antt =====
-- conflicts.ts: the latest end and the earliest start of the matches of an item, and the maps of them.
use bracket.Base.{
  ℕ, ◌≡◌, refl, ap, ◌∙◌, Bool, ◌&&◌, ◌||◌, List, [], ◌∷◌, Option, none, some, arith, inl, inr,
  Option-cases, ◌==◌, any, fold, All-intro,
}
use bracket.Base.Int.{ℤ, ltb_ℤ}
use bracket.Base.Keyed.{holds, UniqueBy, fold-flat_map, put_value, holds_filled}
use bracket.Base.Store.{get}
use bracket.Conflicts.{ConflictMatch, ConflictStageItem, ConflictStage, end_millis}
use bracket.Conflicts.Flags.{some_is}
use bracket.Conflicts.Described.{end_from, ends_after, all_items, matches_of}
use bracket.Conflicts.Precedence.{
  later, later_end, latest_end, earlier, earlier_start, put_some, get_stage_item_end_times,
  get_stage_item_start_times,
}

pub under_some : (o : Option ℤ) (p q : ℤ → Bool) → ((a : ℤ) → p a ≡ q a) → some_is p o ≡ holds q o
under_some none p q h = refl
under_some (some a) p q h = h a

later-any :
    (instant : ℤ) (latest : Option ℤ) (end : ℤ)
    → some_is (ltb_ℤ instant) (later latest end)
      ≡ (some_is (ltb_ℤ instant) latest || ltb_ℤ instant end)
unfolding later
later-any instant none end = refl
later-any instant (some l) end = ground arith

pub end_millis-end_from :
    (m : ConflictMatch) (start : ℤ) → m.start_time ≡ some start → end_millis m ≡ end_from m start
end_millis-end_from m start e = rw (end_millis, e) refl

later_end-any :
    (instant : ℤ) (latest : Option ℤ) (m : ConflictMatch)
    → some_is (ltb_ℤ instant) (later_end latest m)
      ≡ (some_is (ltb_ℤ instant) latest || ends_after instant m)
unfolding later_end
later_end-any instant latest m = elim (Option-cases m.start_time) [
  | inl e ↦ rw (later_end, e) (ground arith)
  | inr (start, e) ↦
      let ends : end_millis m ≡ end_from m start = end_millis-end_from m start e in
      rw (later_end, e) (rw ends (later-any instant latest (end_from m start)))
]

-- The latest end is after an instant if some end is.
pub latest_end-any :
    (instant : ℤ) (ms : List ConflictMatch) (latest : Option ℤ)
    → some_is (ltb_ℤ instant) (latest_end latest ms)
      ≡ (some_is (ltb_ℤ instant) latest || any (ends_after instant) ms)
unfolding latest_end
latest_end-any instant [] latest = ground arith
latest_end-any instant (m ∷ ms) latest =
    ground (arith, latest_end-any instant ms (later_end latest m), later_end-any instant latest m)

earlier-any :
    (instant : ℤ) (earliest : Option ℤ) (start : ℤ)
    → some_is (λ s. ltb_ℤ s instant) (earlier earliest start)
      ≡ (some_is (λ s. ltb_ℤ s instant) earliest || ltb_ℤ start instant)
unfolding earlier
earlier-any instant none start = refl
earlier-any instant (some l) start = ground arith

abbrev pub starts_by : ℤ → ConflictMatch → Bool
starts_by instant m = holds (λ s. ltb_ℤ s instant) m.start_time

earlier_start-any :
    (instant : ℤ) (earliest : Option ℤ) (m : ConflictMatch)
    → some_is (λ s. ltb_ℤ s instant) (earlier_start earliest m)
      ≡ (some_is (λ s. ltb_ℤ s instant) earliest || starts_by instant m)
unfolding earlier_start
earlier_start-any instant earliest m = elim (Option-cases m.start_time) [
  | inl e ↦ rw (earlier_start, e) (ground arith)
  | inr (start, e) ↦ rw (earlier_start, e) (earlier-any instant earliest start)
]

earliest-any :
    (instant : ℤ) (ms : List ConflictMatch) (earliest : Option ℤ)
    → some_is (λ s. ltb_ℤ s instant) (fold earlier_start earliest ms)
      ≡ (some_is (λ s. ltb_ℤ s instant) earliest || any (starts_by instant) ms)
earliest-any instant [] earliest = ground arith
earliest-any instant (m ∷ ms) earliest = ground (
  arith,
  earliest-any instant ms (earlier_start earliest m),
  earlier_start-any instant earliest m,
)

pub item_end : ConflictStageItem → Option ℤ
item_end item = fold (λ latest round. latest_end latest round.matches) none item.rounds

pub item_end-any :
    (instant : ℤ) (item : ConflictStageItem)
    → holds (ltb_ℤ instant) (item_end item) ≡ any (ends_after instant) (matches_of item)
unfolding item_end latest_end
item_end-any instant item =
    ap (some_is (ltb_ℤ instant)) (fold-flat_map later_end (λ round. round.matches) none item.rounds)
    ∙ latest_end-any instant (matches_of item) none

pub item_start : ConflictStageItem → Option ℤ
unfolding earlier_start
item_start item = fold (λ e round. fold earlier_start e round.matches) none item.rounds

pub item_start-any :
    (instant : ℤ) (item : ConflictStageItem)
    → holds (λ s. ltb_ℤ s instant) (item_start item) ≡ any (starts_by instant) (matches_of item)
unfolding item_start
item_start-any instant item =
    ap (some_is (λ s. ltb_ℤ s instant))
      (fold-flat_map earlier_start (λ round. round.matches) none item.rounds)
    ∙ earliest-any instant (matches_of item) none

-- The two maps of times are filled from the items, each under its id.
pub filled : (ConflictStageItem → Option ℤ) → List ConflictStage → List (ℕ × ℤ)
filled time stages = fold (put_value (λ item. item.id) time) [] (all_items stages)

put_some-put_value :
    (time : ConflictStageItem → Option ℤ) (times : List (ℕ × ℤ)) (item : ConflictStageItem)
    → put_some item.id (time item) times ≡ put_value (λ i. i.id) time times item
unfolding put_some
put_some-put_value time times item = elim (Option-cases (time item)) [
  | inl e ↦ rw (put_value, e) refl
  | inr (t, e) ↦ rw (put_value, e) refl
]

fold_congr :
    (time : ConflictStageItem → Option ℤ) (items : List ConflictStageItem) (times : List (ℕ × ℤ))
    → fold (λ acc item. put_some item.id (time item) acc) times items
      ≡ fold (put_value (λ i. i.id) time) times items
fold_congr time [] times = refl
fold_congr time (item ∷ items) times =
    fold_congr time items (put_some item.id (time item) times)
    ∙ ap (λ t. fold (put_value (λ i. i.id) time) t items) (put_some-put_value time times item)

pub end_times-filled :
    (stages : List ConflictStage) → get_stage_item_end_times stages ≡ filled item_end stages
unfolding get_stage_item_end_times filled item_end
end_times-filled stages =
    fold-flat_map (λ acc item. put_some item.id (item_end item) acc) (λ stage. stage.stage_items) []
      stages
    ∙ fold_congr item_end (all_items stages) []

pub start_times-filled :
    (stages : List ConflictStage) → get_stage_item_start_times stages ≡ filled item_start stages
unfolding get_stage_item_start_times filled item_start
start_times-filled stages =
    fold-flat_map (λ acc item. put_some item.id (item_start item) acc) (λ stage. stage.stage_items)
      [] stages
    ∙ fold_congr item_start (all_items stages) []

pub filled-any :
    (time : ConflictStageItem → Option ℤ) (p : ℤ → Bool) (id : ℕ) (stages : List ConflictStage)
    → UniqueBy (λ item. item.id) (all_items stages)
    → some_is p (get id (filled time stages))
      ≡ any (λ item. item.id == id && holds p (time item)) (all_items stages)
unfolding filled get
filled-any time p id stages u =
    holds_filled (λ item. item.id) time p id (all_items stages) [] u
      (All-intro (λ item. refl) (all_items stages))
