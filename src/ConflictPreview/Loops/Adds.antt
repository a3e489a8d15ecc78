-- ===== src/ConflictPreview/Loops/Adds.antt =====
-- conflict_preview.ts: what the loops over the courts and the matches add to the preview.
use bracket.Base.{
  ℕ, suc, ◌≡◌, refl, sym, ap, ◌∙◌, Bool, false, ◌&&◌, ◌||◌, List, [], ◌∷◌, none, ◌==◌,
  if◌then◌else◌, any,
}
use bracket.Conflicts.Flags.{Result, ok}
use bracket.Layout.{CourtTimeline, InsertionLine, MatchBlock, compute_insertion_lines}
use bracket.Selection.{
  PlanningAction, SelectionState, tap_insertion_line, tap_match, selection_reducer, move_mode,
}
use bracket.ConflictPreview.{
  ConflictPreview, has_line, has_target, add_line, add_target, transition_actions, mark_lines,
  mark_targets, mark_courts,
}
use bracket.ConflictPreview.Loops.{
  or_false, no_line, has_line_after, has_target_after, keeps_targets, keeps_lines, collect,
  collect_or,
}

-- The lines and targets that a piece of the loops adds to the preview.
pub record Adds (lines : ℕ → ℕ → Bool) (targets : ℕ → Bool) (before : ConflictPreview)
    (result : Result ConflictPreview) : Type 0 where
  pub after : ConflictPreview
  pub returns : result ≡ ok after
  pub added_lines : (c i : ℕ) → has_line after c i ≡ (has_line before c i || lines c i)
  pub added_targets : (id : ℕ) → has_target after id ≡ (has_target before id || targets id)

module _ (bad : List PlanningAction → Bool) (selection : SelectionState) where
  -- Does a tap on the line introduce a conflict?
  abbrev pub bad_line : ℕ → ℕ → Bool
  bad_line court_id index = bad (
      transition_actions
        (selection_reducer selection (tap_insertion_line court_id index) move_mode))

  -- Does a tap on the match introduce a conflict?
  abbrev pub bad_target : ℕ → ℕ → ℕ → Bool
  bad_target court_id position match_id = bad (
      transition_actions (
        selection_reducer selection
          (tap_match (record {
            match_id = match_id;
            court_id = court_id;
            position = position;
            played = none;
            locked = none;
          }))
          move_mode))

  -- Is it a match of one of the blocks, at the position of the block, with such a tap?
  abbrev pub any_target : ℕ → ℕ → List MatchBlock → ℕ → Bool
  any_target court_id position [] id = false
  any_target court_id position (block ∷ blocks) id =
      block.match_ref.id == id && bad_target court_id position block.match_ref.id
      || any_target court_id (suc position) blocks id

  -- The lines of a court whose taps introduce a conflict.
  abbrev pub court_line : ℕ → ℕ → CourtTimeline → Bool
  court_line c i timeline =
      timeline.court.id == c
      && any (λ l. l.index == i && bad_line timeline.court.id l.index)
          (compute_insertion_lines timeline.blocks)

  module _ (introduces_conflict : List PlanningAction → Result Bool)
      (exact : (actions : List PlanningAction)
        → introduces_conflict actions ≡ ok (bad actions)) where
    mark_lines-Adds :
        (court_id : ℕ) (lines : List InsertionLine) (preview : ConflictPreview)
        → Adds
            (λ c i. court_id == c && any (λ l. l.index == i && bad_line court_id l.index) lines)
            (λ id. false)
            preview
            (mark_lines introduces_conflict selection court_id lines preview)
    unfolding mark_lines
    mark_lines-Adds court_id [] preview = record {
      after = preview;
      returns = refl;
      added_lines = λ c i. no_line (has_line preview c i) (court_id == c);
      added_targets = λ id. or_false (has_target preview id);
    }
    mark_lines-Adds court_id (line ∷ lines) preview =
        let next =
          if bad_line court_id line.index then add_line court_id line.index preview else preview in
        let rest = mark_lines-Adds court_id lines next in
        record {
          after = rest.after;
          returns = rw (exact _) rest.returns;
          added_lines = λ c i.
              rest.added_lines c i
              ∙ collect (has_line preview c i) (has_line next c i) (court_id == c) (line.index == i)
                  (bad_line court_id line.index) _
                  (has_line_after (bad_line court_id line.index) court_id line.index c i preview);
          added_targets = λ id.
              rest.added_targets id
              ∙ ap (λ x. x || false)
                  (keeps_targets (bad_line court_id line.index) court_id line.index id preview);
        }

    mark_targets-Adds :
        (court_id position : ℕ) (blocks : List MatchBlock) (preview : ConflictPreview)
        → Adds
            (λ c i. false)
            (any_target court_id position blocks)
            preview
            (mark_targets introduces_conflict selection court_id position blocks preview)
    unfolding mark_targets
    mark_targets-Adds court_id position [] preview = record {
      after = preview;
      returns = refl;
      added_lines = λ c i. or_false (has_line preview c i);
      added_targets = λ id. or_false (has_target preview id);
    }
    mark_targets-Adds court_id position (block ∷ blocks) preview =
        let id' = block.match_ref.id in
        let bad' = bad_target court_id position id' in
        let next = if bad' then add_target id' preview else preview in
        let rest = mark_targets-Adds court_id (suc position) blocks next in
        record {
          after = rest.after;
          returns = rw (exact _) rest.returns;
          added_lines =
              λ c i. rest.added_lines c i ∙ ap (λ x. x || false) (keeps_lines bad' id' c i preview);
          added_targets = λ id.
              rest.added_targets id
              ∙ collect_or (has_target preview id) (has_target next id) (id' == id && bad') _
                  (has_target_after bad' id' id preview);
        }

    pub mark_courts-Adds :
        (timelines : List CourtTimeline) (preview : ConflictPreview)
        → Adds
            (λ c i. any (court_line c i) timelines)
            (λ id. any (λ timeline. any_target timeline.court.id 0 timeline.blocks id) timelines)
            preview
            (mark_courts introduces_conflict selection timelines preview)
    unfolding mark_courts
    mark_courts-Adds [] preview = record {
      after = preview;
      returns = refl;
      added_lines = λ c i. or_false (has_line preview c i);
      added_targets = λ id. or_false (has_target preview id);
    }
    mark_courts-Adds (timeline ∷ timelines) preview =
        let court_id = timeline.court.id in
        let lines = mark_lines-Adds court_id (compute_insertion_lines timeline.blocks) preview in
        let targets = mark_targets-Adds court_id 0 timeline.blocks lines.after in
        let rest = mark_courts-Adds timelines targets.after in
        record {
          after = rest.after;
          returns = rw (lines.returns, targets.returns) rest.returns;
          added_lines = λ c i.
              rest.added_lines c i
              ∙ collect_or (has_line preview c i) (has_line targets.after c i)
                  (court_line c i timeline) _
                  (targets.added_lines c i
                    ∙ sym (or_false (has_line lines.after c i))
                    ∙ lines.added_lines c i);
          added_targets = λ id.
              rest.added_targets id
              ∙ collect_or (has_target preview id) (has_target targets.after id)
                  (any_target court_id 0 timeline.blocks id) _
                  (targets.added_targets id
                    ∙ ap (λ x. x || any_target court_id 0 timeline.blocks id)
                        (lines.added_targets id ∙ sym (or_false (has_target preview id))));
        }
