-- ===== src/ConflictPreview/Exact.antt =====
-- conflict_preview.ts: what the preview contains.
use bracket.Base.{ℕ, ◌≡◌, Bool, List, some, any}
use bracket.Base.Int.{ℤ}
use bracket.Conflicts.{ConflictStage}
use bracket.Conflicts.Flags.{ok}
use bracket.Conflicts.Compute.Exact.{compute_exact}
use bracket.Layout.{ScheduleGridLayout}
use bracket.Selection.{SelectionState}
use bracket.ConflictPreview.{
  ConflictPreview, empty_preview, has_line, has_target, actions_introduce_conflict,
  compute_conflict_preview, get_selected_match_id,
}
use bracket.ConflictPreview.Introduces.{introduces, actions_introduce_conflict_exact}
use bracket.ConflictPreview.Loops.Adds.{mark_courts-Adds, court_line, any_target}

-- While a match is selected, the preview is computed without an error. It contains exactly the
-- insertion lines that the layout offers and whose tap leads to a schedule with a conflict that the
-- present schedule does not have, and exactly the ids of the blocks whose tap does.
pub preview_exact :
    (stages : List ConflictStage) (layout : ScheduleGridLayout) (selection : SelectionState)
    (tournament_start : ℤ) (referees_enabled : Bool) (selected : ℕ)
    → get_selected_match_id selection ≡ some selected
    → (preview : ConflictPreview) × (compute_conflict_preview stages layout selection
          tournament_start referees_enabled
        ≡ ok preview)
      × ((c i : ℕ)
          → has_line preview c i
            ≡ any
                (court_line
                  (introduces stages layout.default_break_minutes tournament_start referees_enabled)
                  selection
                  c
                  i)
                layout.courts)
      × ((id : ℕ)
          → has_target preview id
            ≡ any
                (λ timeline.
                  any_target
                    (introduces stages layout.default_break_minutes tournament_start
                      referees_enabled)
                    selection
                    timeline.court.id
                    0
                    timeline.blocks
                    id)
                layout.courts)
unfolding compute_conflict_preview
preview_exact stages layout selection tournament_start referees_enabled selected h =
    let dbm = layout.default_break_minutes in
    let (baseline, computed, returned) = compute_exact stages dbm referees_enabled in
    let marked =
      mark_courts-Adds (introduces stages dbm tournament_start referees_enabled) selection
        (actions_introduce_conflict stages dbm tournament_start referees_enabled baseline)
        (λ actions.
          actions_introduce_conflict_exact stages dbm tournament_start referees_enabled baseline
            actions returned.exact)
        layout.courts empty_preview in
    (
      marked.after,
      rw (compute_conflict_preview, h, computed) marked.returns,
      marked.added_lines,
      marked.added_targets,
    )
