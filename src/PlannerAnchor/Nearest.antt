-- ===== src/PlannerAnchor/Nearest.antt =====
-- planner_anchor.ts: the anchor is on the nearest court and inside the schedule.
use bracket.Base.{
  ℕ, ◌≤◌, ◌<◌, ◌≡◌, refl, sym, ap, false, List, [], ◌∷◌, ◌++◌, Option, none, some, arith, ltb,
  ltb→lt, ◌==◌, ◌⊎◌, inl, inr, Bool-cases, Option-cases, All, min, max,
}
use mathlib.Core.Path.{subst}
use bracket.Base.Int.{ℤ, pos, negsuc, pos_part, ◌≤ℤ◌, ◌-ℤ◌, ◌+ℤ◌}
use bracket.Planner.{FocusTarget}
use bracket.PlannerAnchor.{
  Content, Rect, Fraction, distance, nearest_from, find_nearest, anchor_on, fraction_at,
  resolve_planner_anchor,
}

not_ltb→le : (a b : ℕ) → ltb a b ≡ false → b ≤ a
not_ltb→le a b h = ground (arith, h)

-- How far a point is from the horizontal extent of an element: what is missing on the left or on the
-- right, none inside.
abbrev pub gap : ℤ → Content → ℕ
gap x c = max (pos_part (c.rect.left -ℤ x)) (pos_part (x -ℤ c.rect.right))

-- The left side of an element is not right of its right side.
abbrev pub IsRect : Content → Type 0
IsRect c = c.rect.left ≤ℤ c.rect.right

distance-gap : (x : ℤ) (c : Content) → IsRect c → distance x c ≡ gap x c
unfolding distance ◌-ℤ◌
distance-gap x c h = ground (arith, h)

-- No element is nearer, and those in front of it are farther.
pub record IsNearest (x : ℤ) (contents : List Content) (c : Content) : Type 0 where
  pub before : List Content
  pub behind : List Content
  pub splits : contents ≡ before ++ c ∷ behind
  pub farther : All (λ b. gap x c < gap x b) before
  pub not_nearer : All (λ b. gap x c ≤ gap x b) behind

module _ (x : ℤ) where
  -- The loop over the list ended at `d`: at its start, or at the nearest of the list.
  abbrev Ended : Content → List Content → Content → Type 0
  Ended c contents d =
      ((d ≡ c) × All (λ b. gap x c ≤ gap x b) contents)
      ⊎ ((gap x d < gap x c) × IsNearest x contents d)

  nearer :
      (b c d : Content) (contents : List Content)
      → gap x b < gap x c
      → Ended b contents d
      → Ended c (b ∷ contents) d
  nearer b c d contents lt (inl (same, far)) = inr (
    rw same lt,
    record {
      before = [];
      behind = contents;
      splits = ap (λ e. e ∷ contents) (sym same);
      farther = tt;
      not_nearer = rw same far;
    },
  )
  nearer b c d contents lt (inr (near, rest)) = inr (
    omega (arith, near, lt),
    record {
      before = b ∷ rest.before;
      behind = rest.behind;
      splits = ap (λ l. b ∷ l) rest.splits;
      farther = (near, rest.farther);
      not_nearer = rest.not_nearer;
    },
  )

  not_nearer_than :
      (b c d : Content) (contents : List Content)
      → gap x c ≤ gap x b
      → Ended c contents d
      → Ended c (b ∷ contents) d
  not_nearer_than b c d contents le (inl (same, far)) = inl (same, (le, far))
  not_nearer_than b c d contents le (inr (near, rest)) = inr (
    near,
    record {
      before = b ∷ rest.before;
      behind = rest.behind;
      splits = ap (λ l. b ∷ l) rest.splits;
      farther = (omega (arith, near, le), rest.farther);
      not_nearer = rest.not_nearer;
    },
  )

  nearest_from-Ended :
      (c : Content) (contents : List Content)
      → IsRect c
      → All IsRect contents
      → Ended c contents (nearest_from x c contents)
  unfolding nearest_from
  nearest_from-Ended c [] r rs = inl (refl, tt)
  nearest_from-Ended c (b ∷ contents) r (q, rs) =
      let of_b : distance x b ≡ gap x b = distance-gap x b q in
      let of_c : distance x c ≡ gap x c = distance-gap x c r in
      elim (Bool-cases (ltb (distance x b) (distance x c))) [
        | inl e ↦
            let step : nearest_from x c (b ∷ contents) ≡ nearest_from x b contents =
              rw (nearest_from, e) refl in
            let lt : gap x b < gap x c = rw (← of_b, ← of_c) (ltb→lt _ _ e) in
            subst (Ended c (b ∷ contents)) (sym step) (
              nearer b c (nearest_from x b contents) contents lt
                (nearest_from-Ended b contents q rs))
        | inr e ↦
            let step : nearest_from x c (b ∷ contents) ≡ nearest_from x c contents =
              rw (nearest_from, e) refl in
            let le : gap x c ≤ gap x b = rw (← of_b, ← of_c) (not_ltb→le _ _ e) in
            subst (Ended c (b ∷ contents)) (sym step) (
              not_nearer_than b c (nearest_from x c contents) contents le
                (nearest_from-Ended c contents r rs))
      ]

  first-IsNearest :
      (c d : Content) (contents : List Content) → Ended c contents d → IsNearest x (c ∷ contents) d
  first-IsNearest c d contents (inl (same, far)) = record {
    before = [];
    behind = contents;
    splits = ap (λ e. e ∷ contents) (sym same);
    farther = tt;
    not_nearer = rw same far;
  }
  first-IsNearest c d contents (inr (near, rest)) = record {
    before = c ∷ rest.before;
    behind = rest.behind;
    splits = ap (λ l. c ∷ l) rest.splits;
    farther = (near, rest.farther);
    not_nearer = rest.not_nearer;
  }

-- The part of a rectangle at the height of a point: its distance from the top, none above the top and
-- all below the bottom.
pub record IsPartAt (y : ℤ) (rect : Rect) (part : Fraction) : Type 0 where
  pub whole : part.denominator ≡ rect.height
  pub above : y ≤ℤ rect.top → part.numerator ≡ 0
  pub inside :
      rect.top ≤ℤ y → pos_part (y -ℤ rect.top) ≤ rect.height → rect.top +ℤ pos part.numerator ≡ y
  pub below : rect.height ≤ pos_part (y -ℤ rect.top) → part.numerator ≡ rect.height

-- Without an anchor there is no court, or the nearest one has no number or no height. An anchor is on
-- the nearest court, the first of several, at the part of its height where the point is.
abbrev pub IsAnchor : List Content → (x y : ℤ) → Option (FocusTarget Fraction) → Type 0
IsAnchor contents x y none =
    (contents ≡ [])
    ⊎ ((c : Content) × IsNearest x contents c × ((c.court_id ≡ none) ⊎ (c.rect.height ≡ 0)))
IsAnchor contents x y (some target) =
    (c : Content) × IsNearest x contents c
    × (c.court_id ≡ some target.court_id)
    × (0 < c.rect.height)
    × IsPartAt y c.rect target.fraction

part_inside :
    (y top : ℤ) (height : ℕ)
    → top ≤ℤ y
    → pos_part (y -ℤ top) ≤ height
    → top +ℤ pos (min (pos_part (y -ℤ top)) height) ≡ y
unfolding ◌-ℤ◌ ◌+ℤ◌
part_inside (pos y) (pos top) height h k = ground (arith, h, k)
part_inside (pos y) (negsuc top) height h k = ground (arith, h, k)
part_inside (negsuc y) (pos top) height h k = ground (arith, h, k)
part_inside (negsuc y) (negsuc top) height h k = ground (arith, h, k)

fraction_at-IsPartAt : (y : ℤ) (rect : Rect) → IsPartAt y rect (fraction_at y rect)
unfolding fraction_at ◌-ℤ◌
fraction_at-IsPartAt y rect = record {
  whole = refl;
  above = λ h. ground (arith, h);
  inside = part_inside y rect.top rect.height;
  below = λ h. ground (arith, h);
}

anchor_on-IsAnchor :
    (contents : List Content) (x y : ℤ) (c : Content)
    → IsNearest x contents c
    → IsAnchor contents x y (anchor_on y c)
unfolding anchor_on
anchor_on-IsAnchor contents x y c near = elim (Option-cases c.court_id) [
  | inl e ↦ rw (anchor_on, e) (inr (c, near, inl e))
  | inr (id, e) ↦ elim (Bool-cases (c.rect.height == 0)) [
    | inl z ↦ rw (anchor_on, e, z) (inr (c, near, inr (ground (arith, z))))
    | inr p ↦ rw (anchor_on, e, p) (c, near, e, ground (arith, p), fraction_at-IsPartAt y c.rect)
  ]
]

-- The anchor at a point is on the court with the least horizontal distance from the point, the first
-- of several that are as near, and at the part of its height where the point is: none above its top,
-- all below its bottom, and else the distance of the point from the top. There is none only without a
-- court, or if the nearest one has no number or no height. No rectangle ends on the left of its start.
pub resolve_planner_anchor-IsAnchor :
    (contents : List Content) (x y : ℤ)
    → All IsRect contents
    → IsAnchor contents x y (resolve_planner_anchor contents x y)
unfolding resolve_planner_anchor find_nearest
resolve_planner_anchor-IsAnchor [] x y rs = inl refl
resolve_planner_anchor-IsAnchor (c ∷ contents) x y (r, rs) =
    anchor_on-IsAnchor (c ∷ contents) x y (nearest_from x c contents) (
      first-IsNearest x c (nearest_from x c contents) contents
        (nearest_from-Ended x c contents r rs))
