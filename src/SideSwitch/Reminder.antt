-- ===== src/SideSwitch/Reminder.antt =====
-- side_switch.ts: when the reminder is shown.
use bracket.Base.{ℕ, zero, suc, ◌<◌, ◌≡◌, ◌≢◌, ◌↔◌, true, false, Option, none, some, arith}
use bracket.SideSwitch.{
  divides, should_show_side_switch_reminder, cleared_dismissal, crossed_new_threshold,
  compute_side_switch_state,
}

-- Unless it has just been dismissed, the reminder is shown exactly when the score has risen to a
-- positive multiple of n that is not the dismissed score; in particular only when the stateless test
-- asks for it.
pub show_reminder_iff :
    (new_combined prev_combined n : ℕ) (dismissed : Option ℕ)
    → ((compute_side_switch_state new_combined prev_combined (some n) false dismissed).show_reminder
        ≡ true)
      ↔ ((should_show_side_switch_reminder new_combined (some n) ≡ true)
          × (prev_combined < new_combined)
          × (dismissed ≢ some new_combined))
unfolding compute_side_switch_state should_show_side_switch_reminder divides cleared_dismissal
    crossed_new_threshold
show_reminder_iff new_combined prev_combined zero none = ground arith
show_reminder_iff new_combined prev_combined zero (some d) = ground arith
show_reminder_iff new_combined prev_combined (suc n) none = ground arith
show_reminder_iff new_combined prev_combined (suc n) (some d) = ground arith
