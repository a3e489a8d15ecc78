-- ===== src/Conflicts/Compute/Exact.antt =====
-- conflicts.ts: `computeConflictFlags` never throws, and the flags that it returns.
use bracket.Base.{ℕ, ◌≡◌, refl, Bool, false, ◌&&◌, ◌||◌, List, [], ◌∷◌, arith, ◌==◌, map, ◌∙◌}
use bracket.Base.Store.{get, put, put_all, get-put}
use bracket.Conflicts.{ConflictMatch, ConflictStage, get_all_matches}
use bracket.Conflicts.Flags.{ConflictFlags, FlagKey, empty_flags, read, Flags, ok, flag_of, has}
use bracket.Conflicts.Sets.{Sets, Sets-seq, Sets-when}
use bracket.Conflicts.Listed.{is_listed, InMatches, InStages, listed-InMatches, InMatches-InStages}
use bracket.Conflicts.Precedence.Effect.{
  winner_flags, cross_stage_flags, cross_stage_feeder_flags,
  set_winner_of_precedence_conflicts-Sets, set_cross_stage_precedence_conflicts-Sets,
  set_cross_stage_feeder_precedence_conflicts-Sets,
}
use bracket.Conflicts.Rounds.{round_order_flags, set_round_order_conflicts-Sets}
use bracket.Conflicts.Breaks.{short_break_flags, set_short_break_conflicts-Sets}
use bracket.Conflicts.Slots.{slot_flags, set_slot_overlap_conflicts-Sets}
use bracket.Conflicts.Teams.Effect.{team_flags, set_team_overlap_conflicts-Sets}
use bracket.Conflicts.Referees.Effect.{referee_flags, set_referee_overlap_conflicts-Sets}
use bracket.Conflicts.Compute.{everything, initial_flags, set_all_conflicts, compute_conflict_flags}

-- The conflicts of a schedule: what each pass is about.
abbrev pub conflicts_of : List ConflictStage → ℕ → Bool → ℕ → FlagKey → Bool
conflicts_of stages default_break_minutes referees_enabled j k =
    team_flags stages j k
    || referees_enabled && referee_flags stages j k
    || slot_flags stages referees_enabled j k
    || winner_flags (get_all_matches stages) j k
    || cross_stage_flags stages j k
    || cross_stage_feeder_flags stages j k
    || short_break_flags (get_all_matches stages) default_break_minutes j k
    || round_order_flags stages j k

module _ (stages : List ConflictStage) (default_break_minutes : ℕ) (referees_enabled : Bool)
    (K : ℕ → Bool) where
  set_all_conflicts-Sets :
      InMatches K (get_all_matches stages)
      → Sets K
          (conflicts_of stages default_break_minutes referees_enabled)
          (set_all_conflicts stages default_break_minutes referees_enabled)
  unfolding set_all_conflicts
  set_all_conflicts-Sets h =
      Sets-seq _ _ _ _
        (Sets-seq _ _ _ _
          (Sets-seq _ _ _ _
            (Sets-seq _ _ _ _
              (Sets-seq _ _ _ _
                (Sets-seq _ _ _ _
                  (Sets-seq _ _ _ _ (set_team_overlap_conflicts-Sets K stages h) (
                    Sets-when referees_enabled _ _
                      (λ _. set_referee_overlap_conflicts-Sets K stages h)))
                  (set_slot_overlap_conflicts-Sets K stages referees_enabled h))
                (set_winner_of_precedence_conflicts-Sets K (get_all_matches stages) h))
              (set_cross_stage_precedence_conflicts-Sets K stages h))
            (set_cross_stage_feeder_precedence_conflicts-Sets K stages nested))
          (set_short_break_conflicts-Sets K (get_all_matches stages) default_break_minutes h))
        (set_round_order_conflicts-Sets K stages nested)
    where
      nested : InStages K stages
      nested = InMatches-InStages K stages h

has-put : (j k : ℕ) (f : ConflictFlags) (fs : Flags) → has (put k f fs) j ≡ (k == j || has fs j)
has-put j k f fs = ground (arith, get-put k j f fs)

-- Keys and flags of the map of empty flags.
initial-has :
    (matches : List ConflictMatch) (fs : Flags) (j : ℕ)
    → has (put_all fs (map (λ m. (m.id, empty_flags)) matches)) j
      ≡ (has fs j || is_listed matches j)
initial-has [] fs j = ground arith
initial-has (m ∷ ms) fs j =
    ground (arith, initial-has ms (put m.id empty_flags fs) j, has-put j m.id empty_flags fs)

initial-flag :
    (matches : List ConflictMatch) (fs : Flags) (j : ℕ) (k : FlagKey)
    → ((i : ℕ) → flag_of fs i k ≡ false)
    → flag_of (put_all fs (map (λ m. (m.id, empty_flags)) matches)) j k ≡ false
unfolding read
initial-flag [] fs j k h = h j
initial-flag (m ∷ ms) fs j k h =
    initial-flag ms (put m.id empty_flags fs) j k
      (λ i. ground (arith, get-put m.id i empty_flags fs, h i))

-- The map that the engine returns: `flags` has exactly the keys that `listed` names, and the flags
-- of `conflicts`.
pub record Returns (listed : ℕ → Bool) (conflicts : ℕ → FlagKey → Bool) (flags : Flags)
    : Type 0 where
  pub keys : (j : ℕ) → has flags j ≡ listed j
  pub exact : (j : ℕ) (k : FlagKey) → flag_of flags j k ≡ conflicts j k

-- The engine never throws, whatever the schedule. The map that it returns for all matches has an
-- entry for exactly the ids of the scheduled and unscheduled matches of the stages, and a flag is
-- set exactly for the conflicts that `conflicts_of` describes.
pub compute_exact :
    (stages : List ConflictStage) (default_break_minutes : ℕ) (referees_enabled : Bool)
    → (flags : Flags) × (compute_conflict_flags stages default_break_minutes everything
          referees_enabled
        ≡ ok flags)
      × Returns
          (is_listed (get_all_matches stages))
          (conflicts_of stages default_break_minutes referees_enabled)
          flags
unfolding compute_conflict_flags initial_flags get
compute_exact stages default_break_minutes referees_enabled =
    let matches = get_all_matches stages in
    let start : Flags = put_all [] (map (λ m. (m.id, empty_flags)) matches) in
    let (flags, e, added) =
      set_all_conflicts-Sets stages default_break_minutes referees_enabled (is_listed matches)
        (listed-InMatches matches) start (λ j l. rw (initial-has matches [] j) l) in
    (
      flags,
      rw e,
      record {
        keys = λ j. added.keys j ∙ initial-has matches [] j;
        exact = λ j k. ground (
          arith,
          added.flags j k,
          initial-has matches [] j,
          initial-flag matches [] j k (λ i. refl),
        );
      },
    )
