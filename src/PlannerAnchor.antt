-- ===== src/PlannerAnchor.antt =====
-- frontend/src/components/scheduling/planner_anchor.ts: the court and the part of the schedule at a
-- point on the screen. What the browser knows of the courts is a parameter: the list of the elements
-- with their rectangles, in whole units of length.
pub mod Nearest
mod Tests
use bracket.Base.{
  ℕ, ◌≡◌, Bool, true, false, List, [], ◌∷◌, Option, none, some, ltb, ◌==◌, if◌then◌else◌, min,
}
use bracket.Base.Int.{ℤ, pos_part, ◌-ℤ◌, ltb_ℤ}
use bracket.Planner.{FocusTarget}

pub record Rect : Type 0 where
  pub left : ℤ
  pub right : ℤ
  pub top : ℤ
  pub height : ℕ

-- An element with the attribute of the courts, whose value is a number or not.
pub record Content : Type 0 where
  pub court_id : Option ℕ
  pub rect : Rect

-- A part of the height of the schedule.
pub record Fraction : Type 0 where
  pub numerator : ℕ
  pub denominator : ℕ

pub distance : ℤ → Content → ℕ
unfolding ◌-ℤ◌
distance client_x content =
    if ltb_ℤ client_x content.rect.left
    then pos_part (content.rect.left -ℤ client_x)
    else if ltb_ℤ content.rect.right client_x
    then pos_part (client_x -ℤ content.rect.right)
    else 0

-- The loop from an element that is the nearest so far.
pub nearest_from : ℤ → Content → List Content → Content
unfolding distance
nearest_from client_x nearest [] = nearest
nearest_from client_x nearest (content ∷ contents) =
    nearest_from client_x
      (if ltb (distance client_x content) (distance client_x nearest) then content else nearest)
      contents

-- The first distance is less than infinity.
pub find_nearest : ℤ → List Content → Option Content
unfolding nearest_from
find_nearest client_x [] = none
find_nearest client_x (content ∷ contents) = some (nearest_from client_x content contents)

-- `Math.min(Math.max((client_y - top) / height, 0), 1)`
pub fraction_at : ℤ → Rect → Fraction
unfolding ◌-ℤ◌
fraction_at client_y rect = record {
  numerator = min (pos_part (client_y -ℤ rect.top)) rect.height;
  denominator = rect.height;
}

pub anchor_on : ℤ → Content → Option (FocusTarget Fraction)
unfolding fraction_at
anchor_on client_y content = elim content.court_id [
  | none ↦ none
  | some court_id ↦
      if content.rect.height == 0
      then none
      else some (record { court_id = court_id; fraction = fraction_at client_y content.rect })
]

pub resolve_planner_anchor : List Content → ℤ → ℤ → Option (FocusTarget Fraction)
unfolding find_nearest anchor_on
resolve_planner_anchor contents client_x client_y = elim (find_nearest client_x contents) [
  | none ↦ none
  | some content ↦ anchor_on client_y content
]
