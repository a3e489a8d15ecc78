-- ===== src/SideSwitch.antt =====
-- frontend/src/logic/side_switch.ts: the reminder to switch sides at every n points.
pub mod Reminder
mod Tests
use bracket.Base.{
  ℕ, zero, suc, ◌%◌, Bool, true, false, not, ◌&&◌, ◌||◌, Option, none, some, ◌==◌, ltb,
  if◌then◌else◌, is_num,
}

-- `a % n === 0`, which is false for NaN, the remainder by zero.
divides : ℕ → ℕ → Bool
divides zero a = false
divides (suc n) a = a % suc n == 0

pub should_show_side_switch_reminder : ℕ → Option ℕ → Bool
unfolding divides
should_show_side_switch_reminder combined_score none = false
should_show_side_switch_reminder combined_score (some n) =
    if combined_score == 0 then false else divides n combined_score

pub record SideSwitchState : Type 0 where
  pub show_reminder : Bool
  pub dismissed_threshold : Option ℕ

pub cleared_dismissal : ℕ → Option ℕ → Option ℕ
cleared_dismissal new_combined none = none
cleared_dismissal new_combined (some d) = if ltb d new_combined then none else some d

pub crossed_new_threshold : ℕ → ℕ → Option ℕ → Option ℕ → Bool
unfolding divides cleared_dismissal
crossed_new_threshold new_combined prev_combined none dismissed_threshold = false
crossed_new_threshold new_combined prev_combined (some n) dismissed_threshold =
    ltb 0 new_combined
    && divides n new_combined
    && ltb prev_combined new_combined
    && not (is_num (cleared_dismissal new_combined dismissed_threshold) new_combined)

pub compute_side_switch_state : ℕ → ℕ → Option ℕ → Bool → Option ℕ → SideSwitchState
unfolding cleared_dismissal crossed_new_threshold
compute_side_switch_state new_combined prev_combined n just_dismissed dismissed_threshold =
    if just_dismissed
    then record { show_reminder = false; dismissed_threshold = some new_combined }
    else record {
      show_reminder = crossed_new_threshold new_combined prev_combined n dismissed_threshold;
      dismissed_threshold = cleared_dismissal new_combined dismissed_threshold;
    }
