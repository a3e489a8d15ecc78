-- ===== src/Conflicts/Compute/Clean.antt =====
-- conflicts.ts: a schedule gets no flag exactly if it is free of the conflicts that Conflicts/Described
-- describes.
use bracket.Base.{ℕ, ◌≡◌, refl, sym, Bool, false, ◌&&◌, ◌||◌, List, arith, ◌↔◌, ◌∙◌}
use bracket.Base.{ap}
use bracket.Base.Keyed.{UniqueBy}
use bracket.Conflicts.{ConflictStage, get_all_matches}
use bracket.Conflicts.Described.{
  all_items, starts_before_feeder, starts_before_source, ends_after_dependent, starts_before_round,
  court_too_close, team_plays_twice, slot_in_two, referee_in_play, referee_in_two,
}
use bracket.Conflicts.Precedence.Feeders.{before_feeder-described}
use bracket.Conflicts.Precedence.Sources.{before_source-described}
use bracket.Conflicts.Precedence.Dependents.{after_dependent-described}
use bracket.Conflicts.Rounds.Described.{round_too_early-described}
use bracket.Conflicts.Breaks.Described.{break_too_short-described}
use bracket.Conflicts.Slots.Described.{double_booked_slot-described}
use bracket.Conflicts.Teams.Described.{double_booked_team-described}
use bracket.Conflicts.Referees.Described.{referee_plays-described, double_booked_referee-described}
use bracket.Conflicts.Flags.{FlagKey, Flags, ok, flag_of}
use bracket.Conflicts.Marks.{Marks, Marks-or, Marks-and}
use bracket.Conflicts.Precedence.Clean.{
  before_feeder, before_source, after_dependent, winner_flags-Marks, cross_stage_flags-Marks,
  cross_stage_feeder_flags-Marks,
}
use bracket.Conflicts.Rounds.{round_too_early, round_order_flags-Marks}
use bracket.Conflicts.Breaks.{break_too_short, short_break_flags-Marks}
use bracket.Conflicts.Slots.{double_booked_slot, slot_flags-Marks}
use bracket.Conflicts.Teams.Effect.{double_booked_team, team_flags-Marks}
use bracket.Conflicts.Referees.Clean.{referee_plays, double_booked_referee, referee_flags-Marks}
use bracket.Conflicts.Compute.{everything, compute_conflict_flags}
use bracket.Conflicts.Compute.Exact.{conflicts_of, compute_exact}

-- What a schedule without conflicts is free of.
pub record IsClean (stages : List ConflictStage) (default_break_minutes : ℕ)
    (referees_enabled : Bool) : Type 0 where
  pub teams : team_plays_twice stages ≡ false
  pub referees : (referees_enabled && (referee_in_play stages || referee_in_two stages)) ≡ false
  pub slots : slot_in_two stages referees_enabled ≡ false
  pub feeders : starts_before_feeder (get_all_matches stages) ≡ false
  pub sources : starts_before_source stages ≡ false
  pub dependents : ends_after_dependent stages ≡ false
  pub breaks : court_too_close (get_all_matches stages) default_break_minutes ≡ false
  pub rounds : starts_before_round stages ≡ false

abbrev has_conflict : List ConflictStage → ℕ → Bool → Bool
has_conflict stages default_break_minutes referees_enabled =
    double_booked_team stages
    || referees_enabled && (referee_plays stages || double_booked_referee stages)
    || double_booked_slot stages referees_enabled
    || before_feeder (get_all_matches stages)
    || before_source stages
    || after_dependent stages
    || break_too_short (get_all_matches stages) default_break_minutes
    || round_too_early stages

conflicts_of-Marks :
    (stages : List ConflictStage) (default_break_minutes : ℕ) (referees_enabled : Bool)
    → Marks
        (conflicts_of stages default_break_minutes referees_enabled)
        (has_conflict stages default_break_minutes referees_enabled)
conflicts_of-Marks stages default_break_minutes referees_enabled =
    Marks-or _ _ _ _
      (Marks-or _ _ _ _
        (Marks-or _ _ _ _
          (Marks-or _ _ _ _
            (Marks-or _ _ _ _
              (Marks-or _ _ _ _
                (Marks-or _ _ _ _ (team_flags-Marks stages)
                  (Marks-and referees_enabled _ _ (referee_flags-Marks stages)))
                (slot_flags-Marks stages referees_enabled))
              (winner_flags-Marks (get_all_matches stages)))
            (cross_stage_flags-Marks stages))
          (cross_stage_feeder_flags-Marks stages))
        (short_break_flags-Marks (get_all_matches stages) default_break_minutes))
      (round_order_flags-Marks stages)

-- A disjunction is false exactly if all its parts are.
no_part :
    (a b c d e f g h : Bool)
    → (a || b || c || d || e || f || g || h) ≡ false
    → (a ≡ false)
      × (b ≡ false)
      × (c ≡ false)
      × (d ≡ false)
      × (e ≡ false)
      × (f ≡ false)
      × (g ≡ false)
      × (h ≡ false)
no_part false false false false false false false false i =
    (refl, refl, refl, refl, refl, refl, refl, refl)
no_part a b c d e f g h i = ground arith

same_parts :
    {a b c d e f g h a' b' c' d' e' f' g' h' : Bool}
    → a ≡ a'
    → b ≡ b'
    → c ≡ c'
    → d ≡ d'
    → e ≡ e'
    → f ≡ f'
    → g ≡ g'
    → h ≡ h'
    → (a || b || c || d || e || f || g || h) ≡ (a' || b' || c' || d' || e' || f' || g' || h')
same_parts p q r s t u v w = rw (p, q, r, s, t, u, v, w) refl

all_parts :
    {a b c d e f g h : Bool}
    → a ≡ false
    → b ≡ false
    → c ≡ false
    → d ≡ false
    → e ≡ false
    → f ≡ false
    → g ≡ false
    → h ≡ false
    → (a || b || c || d || e || f || g || h) ≡ false
all_parts p q r s t u v w = ground arith

module _ (stages : List ConflictStage) (default_break_minutes : ℕ) (referees_enabled : Bool)
    (unique_matches : UniqueBy (λ m. m.id) (get_all_matches stages))
    (unique_items : UniqueBy (λ item. item.id) (all_items stages)) where
  described : Bool
  described =
      team_plays_twice stages
      || referees_enabled && (referee_in_play stages || referee_in_two stages)
      || slot_in_two stages referees_enabled
      || starts_before_feeder (get_all_matches stages)
      || starts_before_source stages
      || ends_after_dependent stages
      || court_too_close (get_all_matches stages) default_break_minutes
      || starts_before_round stages

  -- The engine's conflicts are the described ones.
  has_conflict-described : has_conflict stages default_break_minutes referees_enabled ≡ described
  unfolding described
  has_conflict-described =
      same_parts (double_booked_team-described stages)
        (ap (λ b. referees_enabled && b)
          (ap (λ b. b || double_booked_referee stages) (referee_plays-described stages)
            ∙ ap (λ b. referee_in_play stages || b) (double_booked_referee-described stages)))
        (double_booked_slot-described stages referees_enabled)
        (before_feeder-described (get_all_matches stages) unique_matches)
        (before_source-described stages unique_items)
        (after_dependent-described stages unique_items)
        (break_too_short-described (get_all_matches stages) default_break_minutes)
        (round_too_early-described stages)

  described-IsClean : described ≡ false → IsClean stages default_break_minutes referees_enabled
  unfolding described
  described-IsClean h =
      let (teams, referees, slots, feeders, sources, dependents, breaks, rounds) =
        no_part _ _ _ _ _ _ _ _ h in
      record {
        teams = teams;
        referees = referees;
        slots = slots;
        feeders = feeders;
        sources = sources;
        dependents = dependents;
        breaks = breaks;
        rounds = rounds;
      }

  IsClean-described : IsClean stages default_break_minutes referees_enabled → described ≡ false
  unfolding described
  IsClean-described c =
      all_parts c.teams c.referees c.slots c.feeders c.sources c.dependents c.breaks c.rounds

  -- The flags that the engine returns are all false exactly if the schedule is clean, in terms of the
  -- matches, their times and their slots: no team of definitive matches and no slot is in two
  -- overlapping matches; with referees enabled no referee plays or referees meanwhile; no match starts
  -- before a match that feeds it, or a match of an item from which it takes a team, has ended, or ends
  -- after a match of an item has started that takes a team from its own; the scheduled matches of a
  -- court that follow each other keep the default break; and where the rounds of an item have an
  -- order, no match starts before a match of the round in front of its own has ended. The ids of the
  -- matches and those of the stage items are unique.
  pub IsClean-iff :
      (flags : Flags)
      → compute_conflict_flags stages default_break_minutes everything referees_enabled ≡ ok flags
      → ((j : ℕ) (k : FlagKey) → flag_of flags j k ≡ false)
        ↔ IsClean stages default_break_minutes referees_enabled
  IsClean-iff flags e =
      let (flags', e', returned) = compute_exact stages default_break_minutes referees_enabled in
      let same : flags' ≡ flags = cc in
      let marks = conflicts_of-Marks stages default_break_minutes referees_enabled in
      (
        λ h. described-IsClean (
            sym has_conflict-described
            ∙ marks.1 (λ j k. sym (returned.exact j k) ∙ (rw same (h j k)))),
        λ c j k.
            rw (← same)
              (returned.exact j k ∙ marks.0 (has_conflict-described ∙ IsClean-described c) j k),
      )
