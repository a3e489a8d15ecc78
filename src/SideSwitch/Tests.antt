-- ===== src/SideSwitch/Tests.antt =====
-- Tests of the side switch reminder, after frontend/src/logic/side_switch.test.ts.
use bracket.Base.{ℕ, Option, ◌<◌, ◌≡◌, ◌≢◌, ◌↔◌, refl, true, false, none, some}
use bracket.SideSwitch.{compute_side_switch_state, should_show_side_switch_reminder}
use bracket.SideSwitch.Reminder.{show_reminder_iff}

crossing_test : (compute_side_switch_state 7 6 (some 7) false none).show_reminder ≡ true
unfolding compute_side_switch_state
crossing_test = refl

dismissed_test : (compute_side_switch_state 7 6 (some 7) false (some 7)).show_reminder ≡ false
unfolding compute_side_switch_state
dismissed_test = refl

abbrev not_dismissed : Option ℕ
not_dismissed = none

show_reminder_iff_example :
    ((compute_side_switch_state 7 6 (some 7) false none).show_reminder ≡ true)
    ↔ ((should_show_side_switch_reminder 7 (some 7) ≡ true) × (6 < 7) × (not_dismissed ≢ some 7))
show_reminder_iff_example = show_reminder_iff 7 6 7 none
