-- ===== src/Optimistic/Frame.antt =====
-- optimistic.ts: the actions change nothing but the courts and start times of the matches.
use bracket.Base.Store.{get}
use bracket.Base.{
  ℕ, zero, suc, ◌≡◌, refl, sym, ap, ◌∙◌, Bool, true, false, if◌then◌else◌, List, [], ◌∷◌, map,
  Option, none, some, arith, inl, inr, Option-cases, length, length-map, get_elem?, set, drop, fold,
}
use bracket.Base.Int.{ℤ, ◌+ℤ◌, ◌-ℤ◌}
use bracket.Conflicts.{ConflictMatch, ConflictStage, get_all_matches, millis}
use bracket.Selection.{PlanningAction, reschedule, swap, unschedule, resize_break, open_details}
use bracket.Optimistic.{
  Store, write, rewrite_court, insert_match_at, swap_objects, shift_all, resize_at, resize_object,
  with_object, apply_action, apply_to_store, apply_planning_actions, matches_by_id, break_start,
  start_minutes, is_zero,
}
use bracket.Optimistic.Refill.{get_all_matches-refill}

-- A match without its place in the schedule.
abbrev pub unplaced : ConflictMatch → ConflictMatch
unplaced m = record m { court_id = none; start_time = none }

set-unplaced :
    (store : Store) (ref : ℕ) (m n : ConflictMatch)
    → get_elem? store ref ≡ some m
    → unplaced n ≡ unplaced m
    → map unplaced (set store ref n) ≡ map unplaced store
set-unplaced [] ref m n h e = refl
set-unplaced (x ∷ xs) zero m n h e = ap (λ y. y ∷ map unplaced xs) (e ∙ ap unplaced (sym x-is-m))
  where
    x-is-m : x ≡ m
    x-is-m = ground arith
set-unplaced (x ∷ xs) (suc ref) m n h e = ap (λ ys. unplaced x ∷ ys) (set-unplaced xs ref m n h e)

pub write-unplaced :
    (ref : ℕ) (court_id : Option ℕ) (start_time : Option ℤ) (store : Store)
    → map unplaced (write ref court_id start_time store) ≡ map unplaced store
unfolding write
write-unplaced ref court_id start_time store = elim (Option-cases (get_elem? store ref)) [
  | inl e ↦ rw (e, write)
  | inr (m, e) ↦ rw (e, write) (set-unplaced store ref m _ e refl)
]

swap_objects-unplaced :
    (ref1 ref2 : ℕ) (m1 m2 : ConflictMatch) (store : Store)
    → map unplaced (swap_objects ref1 ref2 m1 m2 store) ≡ map unplaced store
unfolding swap_objects
swap_objects-unplaced ref1 ref2 m1 m2 store = ground (
  arith,
  write-unplaced ref2 m1.court_id m1.start_time (write ref1 m2.court_id m2.start_time store),
  write-unplaced ref1 m2.court_id m2.start_time store,
  write-unplaced ref1 none none (write ref2 m1.court_id m1.start_time store),
  write-unplaced ref2 m1.court_id m1.start_time store,
  write-unplaced ref2 none none (write ref1 m2.court_id m2.start_time store),
)

-- An object is found only by a reference to it.
with_object-unplaced :
    (by_id : List (ℕ × ℕ)) (id : ℕ) (store : Store) (body : ℕ → ConflictMatch → Store)
    → ((ref : ℕ) (m : ConflictMatch) → map unplaced (body ref m) ≡ map unplaced store)
    → map unplaced (with_object by_id id store body) ≡ map unplaced store
unfolding with_object
with_object-unplaced by_id id store body h = elim (Option-cases (get id by_id)) [
  | inl e ↦ rw (e, with_object)
  | inr (ref, e) ↦ rw (e, with_object) (found ref)
]
  where
    at :
        (ref : ℕ) (o : Option ConflictMatch)
        → map unplaced (elim o [ none ↦ store | some m ↦ body ref m ]) ≡ map unplaced store
    at ref none = refl
    at ref (some m) = h ref m

    found :
        (ref : ℕ)
        → map unplaced (elim (get_elem? store ref) [ none ↦ store | some m ↦ body ref m ])
          ≡ map unplaced store
    found ref = at ref (get_elem? store ref)

module _ (tournament_start : ℤ) (default_break_minutes : ℕ) where
  rewrite_court-unplaced :
      (court_id : ℕ) (refs : List ℕ) (previous_end : Option ℤ) (store : Store)
      → map unplaced
          (rewrite_court tournament_start default_break_minutes court_id refs previous_end store)
        ≡ map unplaced store
  unfolding rewrite_court
  rewrite_court-unplaced court_id [] previous_end store = refl
  rewrite_court-unplaced court_id (ref ∷ refs) previous_end store =
      elim (Option-cases (get_elem? store ref)) [
        | inl e ↦ rw (e, rewrite_court) (rewrite_court-unplaced court_id refs previous_end store)
        | inr (m, e) ↦
            rw (e, rewrite_court)
              (rewrite_court-unplaced court_id refs _ (write ref (some court_id) _ store)
                ∙ write-unplaced ref (some court_id) _ store)
      ]

  pub insert_match_at-unplaced :
      (court_id ref position : ℕ) (exclude : Option ℕ) (store : Store)
      → map unplaced (
          insert_match_at tournament_start default_break_minutes court_id ref position exclude
            store)
        ≡ map unplaced store
  unfolding insert_match_at
  insert_match_at-unplaced court_id ref position exclude store =
      rewrite_court-unplaced court_id _ none (write ref (some court_id) none store)
      ∙ write-unplaced ref (some court_id) none store

  shift_all-unplaced :
      (delta : ℤ) (refs : List ℕ) (store : Store)
      → map unplaced (shift_all tournament_start default_break_minutes delta refs store)
        ≡ map unplaced store
  unfolding shift_all
  shift_all-unplaced delta [] store = refl
  shift_all-unplaced delta (ref ∷ refs) store = elim (Option-cases (get_elem? store ref)) [
    | inl e ↦ rw (e, shift_all) (shift_all-unplaced delta refs store)
    | inr (m, e) ↦
        rw (e, shift_all)
          (shift_all-unplaced delta refs (write ref m.court_id _ store)
            ∙ write-unplaced ref m.court_id _ store)
  ]

  resize_at-unplaced :
      (new_duration_minutes : ℕ) (m : ConflictMatch) (refs : List ℕ) (store : Store)
      (index : Option ℕ)
      → map unplaced
          (resize_at tournament_start default_break_minutes new_duration_minutes m refs store index)
        ≡ map unplaced store
  unfolding resize_at
  resize_at-unplaced new_duration_minutes m refs store none = refl
  resize_at-unplaced new_duration_minutes m refs store (some index) = shifted (is_zero delta)
    where
      delta : ℤ
      delta =
          (break_start tournament_start default_break_minutes refs index store
            +ℤ millis new_duration_minutes)
          -ℤ start_minutes tournament_start default_break_minutes m

      shifted :
          (b : Bool)
          → map unplaced (
              if b
              then store
              else shift_all tournament_start default_break_minutes delta (drop index refs) store)
            ≡ map unplaced store
      shifted true = refl
      shifted false = shift_all-unplaced delta (drop index refs) store

  resize_object-unplaced :
      (new_duration_minutes : ℕ) (m : ConflictMatch) (store : Store)
      → map unplaced
          (resize_object tournament_start default_break_minutes new_duration_minutes m store)
        ≡ map unplaced store
  unfolding resize_object
  resize_object-unplaced new_duration_minutes m store = elim (Option-cases m.court_id) [
    | inl e ↦ rw (e, resize_object)
    | inr (court_id, e) ↦ elim (Option-cases m.start_time) [
      | inl f ↦ rw (e, f, resize_object)
      | inr (t, f) ↦ rw (e, f, resize_object) (resize_at-unplaced new_duration_minutes m _ store _)
    ]
  ]

  apply_action-unplaced :
      (by_id : List (ℕ × ℕ)) (store : Store) (action : PlanningAction)
      → map unplaced (apply_action tournament_start default_break_minutes by_id store action)
        ≡ map unplaced store
  unfolding apply_action
  apply_action-unplaced by_id store (swap id1 id2) =
      with_object-unplaced by_id id1 store _ λ ref1 m1.
        with_object-unplaced by_id id2 store _
          λ ref2 m2. swap_objects-unplaced ref1 ref2 m1 m2 store
  apply_action-unplaced by_id store (reschedule id body) =
      with_object-unplaced by_id id store _
        λ ref m. insert_match_at-unplaced body.new_court_id ref body.new_position (some m.id) store
  apply_action-unplaced by_id store (resize_break id new_duration_minutes) =
      with_object-unplaced by_id id store _
        λ ref m. resize_object-unplaced new_duration_minutes m store
  apply_action-unplaced by_id store (unschedule id) =
      with_object-unplaced by_id id store _ λ ref m. write-unplaced ref none none store
  apply_action-unplaced by_id store (open_details id) = refl

  fold-unplaced :
      (by_id : List (ℕ × ℕ)) (store : Store) (actions : List PlanningAction)
      → map unplaced
          (fold (apply_action tournament_start default_break_minutes by_id) store actions)
        ≡ map unplaced store
  fold-unplaced by_id store [] = refl
  fold-unplaced by_id store (a ∷ actions) =
      fold-unplaced by_id (apply_action tournament_start default_break_minutes by_id store a)
        actions
      ∙ apply_action-unplaced by_id store a

module _ (tournament_start : ℤ) (default_break_minutes : ℕ) where
  apply_to_store-unplaced :
      (store : Store) (actions : List PlanningAction)
      → map unplaced (apply_to_store tournament_start default_break_minutes store actions)
        ≡ map unplaced store
  unfolding apply_to_store
  apply_to_store-unplaced store actions =
      fold-unplaced tournament_start default_break_minutes (matches_by_id store) store actions

  -- The matches of the previewed stages are the store that the actions leave.
  pub get_all_matches-apply_planning_actions :
      (stages : List ConflictStage) (actions : List PlanningAction)
      → get_all_matches
          (apply_planning_actions tournament_start default_break_minutes stages actions)
        ≡ apply_to_store tournament_start default_break_minutes (get_all_matches stages) actions
  unfolding apply_planning_actions
  get_all_matches-apply_planning_actions stages actions =
      get_all_matches-refill stages _ (same_size _ _ (apply_to_store-unplaced _ actions))
    where
      same_size : (s t : Store) → map unplaced s ≡ map unplaced t → length s ≡ length t
      same_size s t h = sym (length-map unplaced s) ∙ ap length h ∙ length-map unplaced t

  -- Whatever the actions are, the previewed stages hold the same matches in the same order as the
  -- stages: no action adds, drops, moves or changes a match except for its court and start time.
  pub apply_planning_actions_frame :
      (stages : List ConflictStage) (actions : List PlanningAction)
      → map unplaced (
          get_all_matches
            (apply_planning_actions tournament_start default_break_minutes stages actions))
        ≡ map unplaced (get_all_matches stages)
  apply_planning_actions_frame stages actions =
      ap (map unplaced) (get_all_matches-apply_planning_actions stages actions)
      ∙ apply_to_store-unplaced (get_all_matches stages) actions
