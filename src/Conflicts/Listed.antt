-- ===== src/Conflicts/Listed.antt =====
-- conflicts.ts: every match that a pass meets is one of `getAllMatches(stages)`, so that the map of
-- flags has an entry for it.
use bracket.Base.{
  ℕ, ◌≡◌, refl, Bool, true, List, ◌==◌, any, All, All-map, All-flat_map, All-self, flat_map, ==_iff,
}
use bracket.Conflicts.{
  ConflictMatch, ConflictRound, ConflictStageItem, ConflictStage, get_all_matches,
}

-- `id` is the id of one of the matches.
abbrev pub is_listed : List ConflictMatch → ℕ → Bool
is_listed matches id = any (λ m. m.id == id) matches

-- The ids of the matches lie in `K`.
abbrev pub InMatches : (ℕ → Bool) → List ConflictMatch → Type 0
InMatches K = All (λ m. K m.id ≡ true)

abbrev pub InRounds : (ℕ → Bool) → List ConflictRound → Type 0
InRounds K = All (λ r. InMatches K r.matches)

abbrev pub InItems : (ℕ → Bool) → List ConflictStageItem → Type 0
InItems K = All (λ i. InRounds K i.rounds)

abbrev pub InStages : (ℕ → Bool) → List ConflictStage → Type 0
InStages K = All (λ s. InItems K s.stage_items)

pub listed-InMatches : (matches : List ConflictMatch) → InMatches (is_listed matches) matches
listed-InMatches = All-self (λ m n. m.id == n.id) (λ m. (==_iff m.id m.id).1 refl)

pub InMatches-InStages :
    (K : ℕ → Bool) (stages : List ConflictStage)
    → InMatches K (get_all_matches stages)
    → InStages K stages
unfolding get_all_matches
InMatches-InStages K stages h =
    All-map
      (λ s t.
        All-map (λ i u. All-flat_map (λ m. K m.id ≡ true) (λ r. r.matches) i.rounds u) s.stage_items
          (All-flat_map (λ m. K m.id ≡ true) (λ i. flat_map (λ r. r.matches) i.rounds) s.stage_items
            t))
      stages
      (All-flat_map (λ m. K m.id ≡ true)
        (λ s. flat_map (λ i. flat_map (λ r. r.matches) i.rounds) s.stage_items) stages h)
