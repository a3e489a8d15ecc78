-- ===== src/Conflicts/Referees/Effect.antt =====
-- conflicts.ts: what the referee pass does to the flags.
use bracket.Base.{
  ℕ, ◌≡◌, refl, Bool, true, ◌&&◌, ◌||◌, List, [], ◌∷◌, ◌++◌, Option, none, some, ◌==◌, any,
  any_pair, All, All-map, All-flat_map_intro,
}
use bracket.Base.Grouping.{group}
use bracket.Base.Store.{get, values, push_all, push_all-All, push_all-append, get-All}
use bracket.Conflicts.{
  ConflictMatch, ConflictStage, PlayingWindow, matches_overlap, is_definitive, get_all_matches,
}
use bracket.Conflicts.Flags.{
  FlagKey, referee_key, Flags, Result, ok, throws, ◌>>=◌, Code, for_some, for_each, some_is, key_eq,
}
use bracket.Conflicts.Sets.{
  Sets, Sets-mark, Sets-seq, Sets-when, Sets-for_some, Sets-for_each, Sets-for_pairs,
}
use bracket.Conflicts.Listed.{InMatches}
use bracket.Conflicts.Teams.{get_team_playing_windows}
use bracket.Conflicts.Teams.Effect.{
  get_team_playing_windows-Belongs, set_stage_item_input_conflict-Sets, Belongs, window_flag,
}
use bracket.Conflicts.Referees.{
  referee_team, windows_of, plays_meanwhile, flag_playing, referee_step, referee_loop, flag_both,
  flag_refereeing, set_referee_overlap_conflicts, referee_entry, referee_entries,
}

-- Match m is refereed by a team that plays meanwhile: m gets the referee flag, and the match that
-- is played the flag of the team's slot, if it is definitive.
abbrev pub playing_flags : List ConflictStage → ConflictMatch → ℕ → FlagKey → Bool
playing_flags stages m j k =
    some_is
      (λ team_id.
        any
          (λ e.
            plays_meanwhile m e
            && ((m.id == j && key_eq referee_key k) || (is_definitive e.0 && window_flag e j k)))
          (windows_of (get_team_playing_windows stages) team_id))
      (referee_team m)

-- Two matches that one team referees overlap.
abbrev pub both_flags : ConflictMatch → ConflictMatch → ℕ → FlagKey → Bool
both_flags m1 m2 j k =
    matches_overlap m1 m2
    && ((m1.id == j && key_eq referee_key k) || (m2.id == j && key_eq referee_key k))

abbrev pub referee_flags : List ConflictStage → ℕ → FlagKey → Bool
referee_flags stages j k =
    any (λ m. playing_flags stages m j k) (get_all_matches stages)
    || any (λ ms. any_pair (λ m1 m2. both_flags m1 m2 j k) ms)
        (values (push_all [] (referee_entries (get_all_matches stages))))

-- The marks of one match that is refereed.
flag_windows : List (ℕ × List (ConflictMatch × PlayingWindow)) → ConflictMatch → Code
flag_windows windows m =
    for_some (referee_team m) (λ t. for_each (windows_of windows t) (flag_playing m))

referee_step_lem :
    (windows : List (ℕ × List (ConflictMatch × PlayingWindow))) (m : ConflictMatch) (o : Option ℕ)
    (by_team : List (ℕ × List ConflictMatch)) (flags : Flags)
    → referee_step windows m o by_team flags ≡ (
        for_some o (λ t. for_each (windows_of windows t) (flag_playing m)) flags >>= λ fs.
        ok (push_all by_team (referee_entry m o), fs))
unfolding referee_step referee_entry
referee_step_lem windows m none by_team flags = refl
referee_step_lem windows m (some t) by_team flags = refl

-- The loop is the loop over the flags alone, beside the grouping.
referee_loop_lem :
    (windows : List (ℕ × List (ConflictMatch × PlayingWindow))) (ms : List ConflictMatch)
    (by_team : List (ℕ × List ConflictMatch)) (flags : Flags)
    → referee_loop windows ms (by_team, flags) ≡ (
        for_each ms (flag_windows windows) flags >>= λ fs.
        ok (push_all by_team (referee_entries ms), fs))
unfolding referee_loop referee_entries flag_windows
referee_loop_lem windows [] by_team flags = refl
referee_loop_lem windows (m ∷ ms) by_team flags =
    rw (referee_step_lem windows m (referee_team m) by_team flags)
      (go (flag_windows windows m flags) (referee_loop_lem windows ms _))
  where
    here : List (ℕ × ConflictMatch)
    here = referee_entry m (referee_team m)

    go :
        (r : Result Flags)
        → ((fs : Flags)
            → referee_loop windows ms (push_all by_team here, fs) ≡ (
                for_each ms (flag_windows windows) fs >>= λ gs.
                ok (push_all (push_all by_team here) (referee_entries ms), gs)))
        → ((r >>= λ fs. ok (push_all by_team here, fs)) >>= referee_loop windows ms) ≡ (
            (r >>= for_each ms (flag_windows windows)) >>= λ fs.
            ok (push_all by_team (here ++ referee_entries ms), fs))
    go (throws e) ih = refl
    go (ok fs) ih = rw (push_all-append here (referee_entries ms) by_team) (ih fs)

module _ (K : ℕ → Bool) where
  flag_playing-Sets :
      (m : ConflictMatch) (e : ConflictMatch × PlayingWindow)
      → K m.id ≡ true
      → Belongs K e
      → Sets K
          (λ j k.
            plays_meanwhile m e
            && ((m.id == j && key_eq referee_key k) || (is_definitive e.0 && window_flag e j k)))
          (flag_playing m e)
  unfolding flag_playing
  flag_playing-Sets m (p, w) h own = Sets-when (plays_meanwhile m (p, w)) _ _ λ _.
      Sets-seq _ _ _ _ (Sets-mark referee_key m.id h)
        (Sets-when (is_definitive p) _ _ λ _. set_stage_item_input_conflict-Sets K p w own)

  windows_of-Belongs :
      (stages : List ConflictStage) (team_id : ℕ)
      → InMatches K (get_all_matches stages)
      → All (Belongs K) (windows_of (get_team_playing_windows stages) team_id)
  unfolding windows_of
  windows_of-Belongs stages team_id h = go (get team_id (get_team_playing_windows stages)) refl
    where
      go :
          (o : Option (List (ConflictMatch × PlayingWindow)))
          → get team_id (get_team_playing_windows stages) ≡ o
          → All (Belongs K) (group o)
      go none e = tt
      go (some ws) e =
          get-All (All (Belongs K)) team_id ws (get_team_playing_windows stages)
            (get_team_playing_windows-Belongs K stages h) e

  flag_windows-Sets :
      (stages : List ConflictStage) (m : ConflictMatch)
      → InMatches K (get_all_matches stages)
      → K m.id ≡ true
      → Sets K (playing_flags stages m) (flag_windows (get_team_playing_windows stages) m)
  unfolding flag_windows
  flag_windows-Sets stages m h listed = Sets-for_some _ _ (referee_team m) λ t _.
      Sets-for_each _ _ (windows_of (get_team_playing_windows stages) t)
        (All-map (λ e. flag_playing-Sets m e listed) _ (windows_of-Belongs stages t h))

  referee_entry-listed :
      (m : ConflictMatch) (o : Option ℕ)
      → K m.id ≡ true
      → All (λ e. K e.1.id ≡ true) (referee_entry m o)
  unfolding referee_entry
  referee_entry-listed m none h = tt
  referee_entry-listed m (some t) h = (h, tt)

  flag_refereeing-Sets :
      (ms : List ConflictMatch)
      → InMatches K ms
      → Sets K
          (λ j k.
            any
              (λ g. any_pair (λ m1 m2. both_flags m1 m2 j k) g)
              (values (push_all [] (referee_entries ms))))
          (λ flags. flag_refereeing (push_all [] (referee_entries ms), flags))
  unfolding flag_refereeing flag_both referee_entries
  flag_refereeing-Sets ms h = Sets-for_each _ _ (values (push_all [] (referee_entries ms))) (
      All-map (λ g t. Sets-for_pairs _ _ pair g t) _
        (push_all-All (λ m. K m.id ≡ true) (referee_entries ms) []
          (All-flat_map_intro _ (λ m. referee_entry m (referee_team m)) ms
            (All-map (λ m. referee_entry-listed m (referee_team m)) ms h))
          tt))
    where
      pair :
          (m1 m2 : ConflictMatch)
          → K m1.id ≡ true
          → K m2.id ≡ true
          → Sets K (both_flags m1 m2) (flag_both m1 m2)
      pair m1 m2 p q =
          Sets-when (matches_overlap m1 m2) _ _
            λ _. Sets-seq _ _ _ _ (Sets-mark referee_key m1.id p) (Sets-mark referee_key m2.id q)

  pub set_referee_overlap_conflicts-Sets :
      (stages : List ConflictStage)
      → InMatches K (get_all_matches stages)
      → Sets K (referee_flags stages) (set_referee_overlap_conflicts stages)
  unfolding set_referee_overlap_conflicts
  set_referee_overlap_conflicts-Sets stages h fs cover =
      let all = get_all_matches stages in
      let windows = get_team_playing_windows stages in
      let (fs', e, added) =
        Sets-seq _ _ (for_each all (flag_windows windows))
          (λ flags. flag_refereeing (push_all [] (referee_entries all), flags))
          (Sets-for_each _ _ all (All-map (λ m. flag_windows-Sets stages m h) all h))
          (flag_refereeing-Sets all h) fs cover in
      (
        fs',
        rw (referee_loop_lem windows all [] fs)
            (regroup (for_each all (flag_windows windows) fs) e),
        added,
      )
    where
      regroup :
          (r : Result Flags) {out : Flags}
          → (r >>= λ flags.
              flag_refereeing (push_all [] (referee_entries (get_all_matches stages)), flags))
            ≡ ok out
          → ((r >>= λ flags. ok (push_all [] (referee_entries (get_all_matches stages)), flags))
              >>= flag_refereeing)
            ≡ ok out
      regroup (ok flags) e = e
      regroup (throws x) e = e
