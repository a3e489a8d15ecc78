-- ===== src/PlannerAnchor/Tests.antt =====
-- Tests of the anchors.
use bracket.Base.{arith, ◌≡◌, refl, List, [], ◌∷◌, some}
use bracket.Base.Int.{pos}
use bracket.PlannerAnchor.{Content, resolve_planner_anchor}
use bracket.PlannerAnchor.Nearest.{IsAnchor, resolve_planner_anchor-IsAnchor}

-- Two columns with a gap between them.
abbrev contents : List Content
contents =
    record {
      court_id = some 7;
      rect = record { left = pos 40; right = pos 140; top = pos 100; height = 400 };
    }
    ∷ record {
      court_id = some 8;
      rect = record { left = pos 160; right = pos 260; top = pos 100; height = 400 };
    }
    ∷ []

-- The middle of the gap is as near to both columns.
gap_test :
    resolve_planner_anchor contents (pos 150) (pos 200)
    ≡ some (record { court_id = 7; fraction = record { numerator = 100; denominator = 400 } })
unfolding resolve_planner_anchor
gap_test = refl

below_test :
    resolve_planner_anchor contents (pos 155) (pos 900)
    ≡ some (record { court_id = 8; fraction = record { numerator = 400; denominator = 400 } })
unfolding resolve_planner_anchor
below_test = refl

resolve_planner_anchor-IsAnchor_example :
    IsAnchor contents (pos 155) (pos 900) (resolve_planner_anchor contents (pos 155) (pos 900))
resolve_planner_anchor-IsAnchor_example =
    resolve_planner_anchor-IsAnchor contents (pos 155) (pos 900) (omega arith, (omega arith, tt))
