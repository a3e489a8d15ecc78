-- ===== src/Optimistic.antt =====
-- frontend/src/logic/planning/optimistic.ts: planning actions applied to the cached schedule.
-- The source mutates the match objects of a clone of the stages. Here the objects are a list of
-- matches, in the order of `allMatches`, and a reference to an object is its place in that list. The
-- generic stage type is that of the conflict preview. Offsets in minutes are held in milliseconds.
pub mod Refill
pub mod Frame
pub mod Written
pub mod Packing
pub mod CourtOrder
pub mod Tests
use bracket.Base.{
  ℕ, zero, suc, ◌+◌, ◌-◌, ◌≡◌, Bool, true, false, not, ◌&&◌, List, [], ◌∷◌, ◌++◌, Option, none,
  some, ◌==◌, if◌then◌else◌, is_some, is_num, length, get_elem?, set, take, drop, filter, fold, min,
  max,
}
use mathlib.Core.Option
use bracket.Base.Int.{ℤ, pos, ◌+ℤ◌, ◌-ℤ◌, ltb_ℤ, max_ℤ}
use bracket.Base.Store.{get, put, put_all}
use bracket.Base.Order.{sort}
use bracket.Conflicts.{
  ConflictMatch, ConflictRound, ConflictStageItem, ConflictStage, millis, get_all_matches,
}
use bracket.Selection.{
  PlanningAction, RescheduleBody, reschedule, swap, unschedule, resize_break, open_details,
}

abbrev pub Store : Type 0
Store = List ConflictMatch

-- The numbers from `i` on, one for each element.
abbrev pub places {ℓ} : {A : Type ℓ} → ℕ → List A → List ℕ
places i [] = []
places i (x ∷ xs) = i ∷ places (suc i) xs

id_entries : ℕ → Store → List (ℕ × ℕ)
id_entries i [] = []
id_entries i (m ∷ ms) = (m.id, i) ∷ id_entries (suc i) ms

-- `new Map(allMatches.map((match) => [match.id, match]))`
pub matches_by_id : Store → List (ℕ × ℕ)
unfolding id_entries put
matches_by_id store = put_all [] (id_entries 0 store)

-- `object.court_id = …; object.start_time = …;`
unfoldable pub write : ℕ → Option ℕ → Option ℤ → Store → Store
write ref court_id start_time store = elim (get_elem? store ref) [
  | none ↦ store
  | some m ↦ set store ref (record m { court_id = court_id; start_time = start_time })
]

-- `courtMatches.findIndex((m) => m.id === id)`
pub find_index : ℕ → Store → List ℕ → Option ℕ
find_index id store [] = none
find_index id store (ref ∷ refs) = elim (get_elem? store ref) [
  | none ↦ Option.map suc (find_index id store refs)
  | some m ↦ if m.id == id then some 0 else Option.map suc (find_index id store refs)
]

-- `delta === 0`
pub is_zero : ℤ → Bool
is_zero delta = not (ltb_ℤ delta (pos 0)) && not (ltb_ℤ (pos 0) delta)

-- The matches of the stages replaced by those of the store, in their order, with what is left.
pub refill_rounds : List ConflictRound → Store → List ConflictRound × Store
refill_rounds [] store = ([], store)
refill_rounds (r ∷ rs) store =
    let (rs', rest) = refill_rounds rs (drop (length r.matches) store) in
    (record r { matches = take (length r.matches) store } ∷ rs', rest)

pub refill_items : List ConflictStageItem → Store → List ConflictStageItem × Store
unfolding refill_rounds
refill_items [] store = ([], store)
refill_items (item ∷ items) store =
    let (rounds, rest) = refill_rounds item.rounds store in
    let (items', rest') = refill_items items rest in
    (record item { rounds = rounds } ∷ items', rest')

pub refill_stages : List ConflictStage → Store → List ConflictStage × Store
unfolding refill_items
refill_stages [] store = ([], store)
refill_stages (stage ∷ stages) store =
    let (items, rest) = refill_items stage.stage_items store in
    let (stages', rest') = refill_stages stages rest in
    (record stage { stage_items = items } ∷ stages', rest')

is_scheduled : ConflictMatch → Bool
is_scheduled m = is_some m.court_id && is_some m.start_time

-- The matches trade their slots, unless neither has one.
pub swap_objects : ℕ → ℕ → ConflictMatch → ConflictMatch → Store → Store
unfolding is_scheduled
swap_objects ref1 ref2 m1 m2 store =
    if is_scheduled m1 && is_scheduled m2
    then write ref2 m1.court_id m1.start_time (write ref1 m2.court_id m2.start_time store)
    else if is_scheduled m1
    then write ref1 none none (write ref2 m1.court_id m1.start_time store)
    else if is_scheduled m2
    then write ref2 none none (write ref1 m2.court_id m2.start_time store)
    else store

-- The object with an id, and its reference.
pub with_object : List (ℕ × ℕ) → ℕ → Store → (ℕ → ConflictMatch → Store) → Store
unfolding get
with_object by_id id store body = elim (get id by_id) [
  | none ↦ store
  | some ref ↦ elim (get_elem? store ref) [ none ↦ store | some m ↦ body ref m ]
]

module _ (tournament_start : ℤ) (default_break_minutes : ℕ) where
  pub minutes_after_start : ℤ → ℤ
  minutes_after_start offset = tournament_start +ℤ offset

  -- `new Date(null)` is the epoch; every caller but one has tested the start time.
  pub start_minutes : ConflictMatch → ℤ
  start_minutes m = elim m.start_time [
    | none ↦ pos 0 -ℤ tournament_start
    | some t ↦ t -ℤ tournament_start
  ]

  -- Is the object on the court, scheduled, and not the excluded one?
  pub on_court : ℕ → Option ℕ → Store → ℕ → Bool
  on_court court_id exclude store ref = elim (get_elem? store ref) [
    | none ↦ false
    | some m ↦ is_num m.court_id court_id && (is_some m.start_time && not (is_num exclude m.id))
  ]

  pub starts_earlier : Store → ℕ → ℕ → Bool
  unfolding start_minutes
  starts_earlier store i j = elim (get_elem? store i) [
    | none ↦ false
    | some m ↦ elim (get_elem? store j) [
      | none ↦ false
      | some n ↦ ltb_ℤ (start_minutes m) (start_minutes n)
    ]
  ]

  pub scheduled_on_court : ℕ → Option ℕ → Store → List ℕ
  unfolding on_court starts_earlier sort
  scheduled_on_court court_id exclude store =
      sort (starts_earlier store) (filter (on_court court_id exclude store) (places 0 store))

  -- `match.start_time == null ? 0 : startMinutes(match)`, and not before the previous end and break.
  pub packed_start : Option ℤ → ConflictMatch → ℤ
  unfolding start_minutes
  packed_start previous_end m =
      let current : ℤ = if is_some m.start_time then start_minutes m else pos 0 in
      elim previous_end [
        | none ↦ current
        | some e ↦ max_ℤ current (e +ℤ millis default_break_minutes)
      ]

  pub rewrite_court : ℕ → List ℕ → Option ℤ → Store → Store
  unfolding packed_start minutes_after_start
  rewrite_court court_id [] previous_end store = store
  rewrite_court court_id (ref ∷ refs) previous_end store = elim (get_elem? store ref) [
    | none ↦ rewrite_court court_id refs previous_end store
    | some m ↦
        rewrite_court court_id refs
          (some (packed_start previous_end m +ℤ millis m.duration_minutes))
          (write ref (some court_id) (some (minutes_after_start (packed_start previous_end m)))
            store)
  ]

  -- Positions are natural numbers, so `Math.max(position, 0)` is the position.
  pub insert_match_at : ℕ → ℕ → ℕ → Option ℕ → Store → Store
  unfolding scheduled_on_court rewrite_court
  insert_match_at court_id ref position exclude store =
      let court_matches = scheduled_on_court court_id exclude store in
      let index = min position (length court_matches) in
      rewrite_court court_id (take index court_matches ++ ref ∷ drop index court_matches) none
        (write ref (some court_id) none store)

  end_minutes : ConflictMatch → ℤ
  unfolding start_minutes
  end_minutes m = start_minutes m +ℤ millis m.duration_minutes

  -- The end of the object before the index, the tournament start for the first one.
  pub break_start : List ℕ → ℕ → Store → ℤ
  unfolding end_minutes
  break_start refs zero store = pos 0
  break_start refs (suc i) store = elim (get_elem? refs i) [
    | none ↦ pos 0
    | some ref ↦ elim (get_elem? store ref) [ none ↦ pos 0 | some m ↦ end_minutes m ]
  ]

  pub shift_all : ℤ → List ℕ → Store → Store
  unfolding minutes_after_start start_minutes
  shift_all delta [] store = store
  shift_all delta (ref ∷ refs) store = elim (get_elem? store ref) [
    | none ↦ shift_all delta refs store
    | some m ↦
        shift_all delta refs
          (write ref m.court_id (some (minutes_after_start (start_minutes m +ℤ delta))) store)
  ]

  pub resize_at : ℕ → ConflictMatch → List ℕ → Store → Option ℕ → Store
  unfolding break_start shift_all start_minutes is_zero
  resize_at new_duration_minutes m court_matches store none = store
  resize_at new_duration_minutes m court_matches store (some index) =
      let delta =
        (break_start court_matches index store +ℤ millis new_duration_minutes) -ℤ start_minutes m in
      if is_zero delta then store else shift_all delta (drop index court_matches) store

  resize_on_court : ℕ → ConflictMatch → ℕ → Store → Store
  unfolding scheduled_on_court find_index resize_at
  resize_on_court new_duration_minutes m court_id store =
      let court_matches = scheduled_on_court court_id none store in
      resize_at new_duration_minutes m court_matches store (find_index m.id store court_matches)

  pub resize_object : ℕ → ConflictMatch → Store → Store
  unfolding resize_on_court
  resize_object new_duration_minutes m store = elim m.court_id [
    | none ↦ store
    | some court_id ↦ elim m.start_time [
      | none ↦ store
      | some _ ↦ resize_on_court new_duration_minutes m court_id store
    ]
  ]

  pub apply_action : List (ℕ × ℕ) → Store → PlanningAction → Store
  unfolding with_object swap_objects insert_match_at resize_object
  apply_action by_id store (swap id1 id2) =
      with_object by_id id1 store
        λ ref1 m1. with_object by_id id2 store λ ref2 m2. swap_objects ref1 ref2 m1 m2 store
  apply_action by_id store (reschedule id body) =
      with_object by_id id store
        λ ref m. insert_match_at body.new_court_id ref body.new_position (some m.id) store
  apply_action by_id store (resize_break id new_duration_minutes) =
      with_object by_id id store λ ref m. resize_object new_duration_minutes m store
  apply_action by_id store (unschedule id) =
      with_object by_id id store λ ref m. write ref none none store
  apply_action by_id store (open_details id) = store

  pub apply_to_store : Store → List PlanningAction → Store
  unfolding apply_action matches_by_id
  apply_to_store store actions = fold (apply_action (matches_by_id store)) store actions

  -- The stages, with the objects as the actions leave them.
  unfoldable pub apply_planning_actions :
      List ConflictStage → List PlanningAction → List ConflictStage
  unfolding apply_to_store refill_stages get_all_matches
  apply_planning_actions stages actions =
      (refill_stages stages (apply_to_store (get_all_matches stages) actions)).0
