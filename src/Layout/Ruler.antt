-- ===== src/Layout/Ruler.antt =====
-- layout.ts: the height of the grid and its ticks.
use bracket.Base.{
  ℕ, ◌∙◌, ◌++◌, zero, suc, ◌+◌, ◌*◌, ◌/◌, ◌≤◌, ◌<◌, ◌≡◌, refl, ap, List, [], ◌∷◌, map, Option, some,
  arith, fold, All, All-map,
}
use native.Mathlib.Nat.{mul-div_cancel, lt_of_mul-lt-mul_right}
use mathlib.Core.Path.{subst}
use bracket.Base.Int.{ℤ, pos, negsuc, ◌≤ℤ◌, ◌+ℤ◌, max_ℤ, pos_part}
use bracket.Conflicts.{millis}
use bracket.Layout.{
  tick, MatchBlock, CourtTimeline, RulerTick, ScheduleGridLayout, ScheduleLayoutInput, tick_offsets,
  compute_ticks, round_up, court_end, court_timelines, max_end_minutes, total_minutes,
  compute_schedule_layout,
}

-- `n` numbers from `offset` on, in steps.
abbrev pub steps : (offset interval n : ℕ) → List ℕ
steps offset interval zero = []
steps offset interval (suc n) = offset ∷ steps (offset + interval) interval n

tick_offsets-steps :
    (n offset total interval : ℕ)
    → 0 < interval
    → total ≡ offset + n * interval
    → tick_offsets (suc (suc n)) offset total interval ≡ some (steps offset interval (suc n))
unfolding tick_offsets
tick_offsets-steps zero offset total interval h e = ground (arith, h, e)
tick_offsets-steps (suc n) offset total interval h e =
    let rest = tick_offsets-steps n (offset + interval) total interval h (omega (arith, e)) in
    ground (arith, e, rest)

round_up-multiple :
    (end interval : ℕ)
    → 0 < interval
    → (q : ℕ) × (round_up end interval ≡ some (q * interval))
      × (end ≤ q * interval)
      × (q * interval < end + interval)
unfolding round_up
round_up-multiple end (suc n) h = let q = (end + n) / suc n in (q, refl, omega arith, omega arith)
round_up-multiple end zero h = ground (arith, h)

div-multiple : (q interval : ℕ) → 0 < interval → (q * interval) / interval ≡ q
div-multiple q interval h = mul-div_cancel q h

map-tick :
    (start_time : ℤ) (offsets : List ℕ)
    → map (λ t. t.offset_minutes) (map (tick start_time) offsets) ≡ offsets
unfolding tick
map-tick start_time [] = refl
map-tick start_time (o ∷ os) = ap (λ xs. o ∷ xs) (map-tick start_time os)

compute_ticks-steps :
    (start_time : ℤ) (q interval : ℕ)
    → 0 < interval
    → (ticks : List RulerTick) × (compute_ticks start_time (some (q * interval)) interval
        ≡ some ticks)
      × (map (λ t. t.offset_minutes) ticks ≡ steps 0 interval (suc q))
unfolding compute_ticks
compute_ticks-steps start_time q interval h = (
  map (tick start_time) (steps 0 interval (suc q)),
  rw (
    compute_ticks,
    div-multiple q interval h,
    tick_offsets-steps q 0 (q * interval) interval h (omega arith),
  ),
  map-tick start_time (steps 0 interval (suc q)),
)

module _ {A : Type 0} (f : A → ℤ) where
  fold-max_ge : (xs : List A) (acc : ℤ) → acc ≤ℤ fold (λ m x. max_ℤ m (f x)) acc xs
  fold-max_ge [] acc = omega arith
  fold-max_ge (x ∷ xs) acc = ground (arith, fold-max_ge xs (max_ℤ acc (f x)))

  fold-max_bound : (xs : List A) (acc : ℤ) → All (λ x. f x ≤ℤ fold (λ m y. max_ℤ m (f y)) acc xs) xs
  fold-max_bound [] acc = tt
  fold-max_bound (x ∷ xs) acc =
      (ground (arith, fold-max_ge xs (max_ℤ acc (f x))), fold-max_bound xs (max_ℤ acc (f x)))

pos_part_le : (a b : ℤ) (n : ℕ) → a ≤ℤ b → pos_part b ≤ n → a ≤ℤ pos n
pos_part_le a b n h g = omega (arith, h, g)

pos_part_of_le : (a : ℤ) (n : ℕ) → a ≤ℤ pos n → pos_part a ≤ n
pos_part_of_le (pos a) n h = omega (arith, h)
pos_part_of_le (negsuc a) n h = omega arith

fold-max_least :
    {A : Type 0} (f : A → ℤ) (xs : List A) (acc bound : ℤ)
    → acc ≤ℤ bound
    → All (λ x. f x ≤ℤ bound) xs
    → fold (λ m x. max_ℤ m (f x)) acc xs ≤ℤ bound
fold-max_least f [] acc bound h hs = h
fold-max_least f (x ∷ xs) acc bound h (k, hs) =
    fold-max_least f xs (max_ℤ acc (f x)) bound (ground (arith, h, k)) hs

-- The last block of a court, where it has one, and the break behind it end in so many units.
abbrev pub EndsBy : ℕ → List MatchBlock → ℕ → Type 0
EndsBy default_break_minutes blocks n =
    (front : List MatchBlock) (b : MatchBlock)
    → blocks ≡ front ++ b ∷ []
    → b.end_minutes +ℤ millis default_break_minutes ≤ℤ pos n

court_end-last :
    (default_break_minutes : ℕ) (front : List MatchBlock) (b : MatchBlock)
    → court_end default_break_minutes (front ++ b ∷ [])
      ≡ b.end_minutes +ℤ millis default_break_minutes
unfolding court_end
court_end-last default_break_minutes [] b = refl
court_end-last default_break_minutes (x ∷ []) b = refl
court_end-last default_break_minutes (x ∷ y ∷ front) b =
    court_end-last default_break_minutes (y ∷ front) b

court_end-EndsBy :
    (default_break_minutes n : ℕ) (blocks : List MatchBlock)
    → court_end default_break_minutes blocks ≤ℤ pos n
    → EndsBy default_break_minutes blocks n
court_end-EndsBy default_break_minutes n blocks h front b e =
    subst (λ z. z ≤ℤ pos n)
      (ap (court_end default_break_minutes) e ∙ court_end-last default_break_minutes front b) h

EndsBy-court_end :
    (default_break_minutes n : ℕ) (blocks : List MatchBlock)
    → EndsBy default_break_minutes blocks n
    → court_end default_break_minutes blocks ≤ℤ pos n
unfolding court_end
EndsBy-court_end default_break_minutes n [] h = omega arith
EndsBy-court_end default_break_minutes n (b ∷ []) h = h [] b refl
EndsBy-court_end default_break_minutes n (b ∷ c ∷ blocks) h =
    EndsBy-court_end default_break_minutes n (c ∷ blocks)
      (λ front d e. h (b ∷ front) d (ap (λ l. b ∷ l) e))

-- A height reaches the minimum and the end of every court.
abbrev pub Reaches : ScheduleLayoutInput → List CourtTimeline → ℕ → Type 0
Reaches input courts n =
    (pos (input.min_total_minutes * 60_000) ≤ℤ pos n)
    × All (λ timeline. EndsBy input.default_break_minutes timeline.blocks n) courts

-- The greatest end is the least height.
max_end_minutes-least :
    (input : ScheduleLayoutInput) (n : ℕ)
    → Reaches input (court_timelines input) n
    → max_end_minutes input ≤ n
unfolding max_end_minutes
max_end_minutes-least input n (h, hs) =
    let ends =
      λ (timeline : CourtTimeline). court_end input.default_break_minutes timeline.blocks in
    let le =
      fold-max_least ends (court_timelines input) (millis input.min_total_minutes) (pos n) h (
        All-map (λ timeline e. EndsBy-court_end input.default_break_minutes n timeline.blocks e)
          (court_timelines input) hs) in
    pos_part_of_le _ n le

max_end_minutes-Reaches :
    (input : ScheduleLayoutInput) (n : ℕ)
    → max_end_minutes input ≤ n
    → Reaches input (court_timelines input) n
unfolding max_end_minutes
max_end_minutes-Reaches input n reaches =
    let ends =
      λ (timeline : CourtTimeline). court_end input.default_break_minutes timeline.blocks in
    let start = millis input.min_total_minutes in
    let latest : ℤ = fold (λ m timeline. max_ℤ m (ends timeline)) start (court_timelines input) in
    (
      pos_part_le start latest n (fold-max_ge ends (court_timelines input) start) reaches,
      All-map
          (λ timeline le.
            court_end-EndsBy input.default_break_minutes n timeline.blocks
              (pos_part_le (ends timeline) latest n le reaches))
          (court_timelines input) (fold-max_bound ends (court_timelines input) start),
    )

least_multiple : (end interval q r : ℕ) → q * interval < end + interval → end ≤ r * interval → q ≤ r
least_multiple end interval q r h k =
    let lt : q * interval < suc r * interval =
      let times : suc r * interval ≡ r * interval + interval = grind arith in
      omega (arith, h, k, times) in
    let less : q < suc r = lt_of_mul-lt-mul_right interval lt in omega (arith, less)

layout_with :
    (input : ScheduleLayoutInput) (total : Option ℕ) (ticks : List RulerTick)
    → total_minutes input ≡ total
    → compute_ticks input.tournament_start_time total (input.tick_interval_minutes * 60_000)
      ≡ some ticks
    → compute_schedule_layout input
      ≡ some (record {
        courts = court_timelines input;
        total_minutes = total;
        ticks = ticks;
        default_break_minutes = input.default_break_minutes;
      })
unfolding compute_schedule_layout
layout_with input total ticks e h =
    rw (compute_schedule_layout, e, h)
      (ap
        (λ t. some (record {
          courts = court_timelines input;
          total_minutes = t;
          ticks = ticks;
          default_break_minutes = input.default_break_minutes;
        }))
        e)

-- For a positive tick interval, the layout is computed, the height of the grid is the least multiple
-- of the interval that reaches the minimum and, on every court with blocks, the end of the last block
-- with the break behind it, and the ticks stand at the multiples of the interval from the top to the
-- bottom of the grid.
pub grid_height :
    (input : ScheduleLayoutInput)
    → 0 < input.tick_interval_minutes
    → let interval = input.tick_interval_minutes * 60_000 in
      (grid : ScheduleGridLayout) × (q : ℕ) × (compute_schedule_layout input ≡ some grid)
      × (grid.total_minutes ≡ some (q * interval))
      × (map (λ t. t.offset_minutes) grid.ticks ≡ steps 0 interval (suc q))
      × Reaches input grid.courts (q * interval)
      × ((r : ℕ) → Reaches input grid.courts (r * interval) → q ≤ r)
unfolding total_minutes
grid_height input h =
    let interval = input.tick_interval_minutes * 60_000 in
    let positive : 0 < interval = omega (arith, h) in
    let (q, total, reaches, least) = round_up-multiple (max_end_minutes input) interval positive in
    let (ticks, computed, multiples) =
      compute_ticks-steps input.tournament_start_time q interval positive in
    (
      record {
        courts = court_timelines input;
        total_minutes = some (q * interval);
        ticks = ticks;
        default_break_minutes = input.default_break_minutes;
      },
      q,
      layout_with input _ ticks total computed,
      refl,
      multiples,
      max_end_minutes-Reaches input (q * interval) reaches,
      λ r k.
          least_multiple (max_end_minutes input) interval q r least
            (max_end_minutes-least input (r * interval) k),
    )
