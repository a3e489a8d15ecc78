-- ===== src/Optimistic/Refill.antt =====
-- optimistic.ts: the stages with the objects put back, and what is in them.
use bracket.Base.{
  ℕ, ◌-◌, ◌≡◌, refl, sym, ap, ◌∙◌, List, [], ◌∷◌, ◌++◌, arith, length, length-append, length-drop,
  length_zero, take-append-drop, take, drop, flat_map,
}
use mathlib.Core.List.{append-nil, append_assoc}
use bracket.Conflicts.{ConflictRound, ConflictStageItem, ConflictStage, get_all_matches}
use bracket.Optimistic.{Store, refill_rounds, refill_items, refill_stages}

-- What is put back into the stages, with what is left, is the store.
refill_rounds-store :
    (rounds : List ConflictRound) (store : Store)
    → flat_map (λ r. r.matches) (refill_rounds rounds store).0 ++ (refill_rounds rounds store).1
      ≡ store
unfolding refill_rounds
refill_rounds-store [] store = refl
refill_rounds-store (r ∷ rs) store =
    append_assoc (take n store) _ _
    ∙ ap (λ xs. take n store ++ xs) (refill_rounds-store rs (drop n store))
    ∙ take-append-drop n store
  where
    n : ℕ
    n = length r.matches

refill_items-store :
    (items : List ConflictStageItem) (store : Store)
    → flat_map (λ i. flat_map (λ r. r.matches) i.rounds) (refill_items items store).0
        ++ (refill_items items store).1
      ≡ store
unfolding refill_items
refill_items-store [] store = refl
refill_items-store (item ∷ items) store =
    append_assoc (flat_map (λ r. r.matches) filled.0) _ _
    ∙ ap (λ xs. flat_map (λ r. r.matches) filled.0 ++ xs) (refill_items-store items filled.1)
    ∙ refill_rounds-store item.rounds store
  where
    filled : List ConflictRound × Store
    filled = refill_rounds item.rounds store

refill_stages-store :
    (stages : List ConflictStage) (store : Store)
    → get_all_matches (refill_stages stages store).0 ++ (refill_stages stages store).1 ≡ store
unfolding refill_stages get_all_matches
refill_stages-store [] store = refl
refill_stages-store (stage ∷ stages) store =
    append_assoc (flat_map (λ i. flat_map (λ r. r.matches) i.rounds) filled.0) _ _
    ∙ ap (λ xs. flat_map (λ i. flat_map (λ r. r.matches) i.rounds) filled.0 ++ xs)
        (refill_stages-store stages filled.1)
    ∙ refill_items-store stage.stage_items store
  where
    filled : List ConflictStageItem × Store
    filled = refill_items stage.stage_items store

refill_rounds-rest :
    (rounds : List ConflictRound) (store : Store)
    → length (refill_rounds rounds store).1
      ≡ length store - length (flat_map (λ r. r.matches) rounds)
unfolding refill_rounds
refill_rounds-rest [] store = omega arith
refill_rounds-rest (r ∷ rs) store = omega (
  arith,
  refill_rounds-rest rs (drop (length r.matches) store),
  length-drop (length r.matches) store,
  length-append r.matches (flat_map (λ r. r.matches) rs),
)

refill_items-rest :
    (items : List ConflictStageItem) (store : Store)
    → length (refill_items items store).1
      ≡ length store - length (flat_map (λ i. flat_map (λ r. r.matches) i.rounds) items)
unfolding refill_items
refill_items-rest [] store = omega arith
refill_items-rest (item ∷ items) store = omega (
  arith,
  refill_items-rest items (refill_rounds item.rounds store).1,
  refill_rounds-rest item.rounds store,
  length-append (flat_map (λ r. r.matches) item.rounds)
      (flat_map (λ i. flat_map (λ r. r.matches) i.rounds) items),
)

refill_stages-rest :
    (stages : List ConflictStage) (store : Store)
    → length (refill_stages stages store).1 ≡ length store - length (get_all_matches stages)
unfolding refill_stages get_all_matches
refill_stages-rest [] store = omega arith
refill_stages-rest (stage ∷ stages) store = omega (
  arith,
  refill_stages-rest stages (refill_items stage.stage_items store).1,
  refill_items-rest stage.stage_items store,
  length-append (flat_map (λ i. flat_map (λ r. r.matches) i.rounds) stage.stage_items)
      (get_all_matches stages),
)

-- The matches of the refilled stages are those of a store of the same size.
pub get_all_matches-refill :
    (stages : List ConflictStage) (store : Store)
    → length store ≡ length (get_all_matches stages)
    → get_all_matches (refill_stages stages store).0 ≡ store
get_all_matches-refill stages store h =
    sym (append-nil _)
    ∙ ap (λ rest. get_all_matches (refill_stages stages store).0 ++ rest) (sym nothing_left)
    ∙ refill_stages-store stages store
  where
    nothing_left : (refill_stages stages store).1 ≡ []
    nothing_left = length_zero _ (omega (arith, refill_stages-rest stages store, h))
