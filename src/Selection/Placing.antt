-- ===== src/Selection/Placing.antt =====
-- `place`: the new position is the one that the tapped insertion line stands for.
use bracket.Base.{
  ℕ, zero, suc, ◌-◌, ◌+◌, ◌≡◌, ◌≢◌, refl, sym, ap, ◌∙◌, not, ◌||◌, List, [], ◌∷◌, some,
  if◌then◌else◌, ltb, ◌==◌, ◌⊎◌, arith, filter, take, drop, get_elem?, All, Bool-cases, inl, inr,
}
use mathlib.Core.Path.{subst}
use bracket.Base.Order.{Distinct}
use bracket.Base.Sorted.{drop-All}
use bracket.Selection.{GridMatchRef, RescheduleBody, reschedule, stay, idle, emit, place}

-- The ids without that of the moved match.
abbrev pub without : ℕ → List ℕ → List ℕ
without id = filter (λ x. not (x == id))

without-absent : (id : ℕ) (xs : List ℕ) → All (λ x. x ≢ id) xs → without id xs ≡ xs
without-absent id [] h = refl
without-absent id (x ∷ xs) (n, h) = let rest = without-absent id xs h in ground (arith, rest, n)

take-All : (P : ℕ → Type 0) (i : ℕ) (xs : List ℕ) → All P xs → All P (take i xs)
take-All P zero xs h = tt
take-All P (suc i) [] h = tt
take-All P (suc i) (x ∷ xs) (p, h) = (p, take-All P i xs h)

get-All : (P : ℕ → Type 0) (p id : ℕ) (xs : List ℕ) → get_elem? xs p ≡ some id → All P xs → P id
get-All P p id [] e h = ground (arith, e)
get-All P zero id (x ∷ xs) e (q, h) = let same : x ≡ id = ground (arith, e) in subst P same q
get-All P (suc p) id (x ∷ xs) e (q, h) = get-All P p id xs e h

-- The position among the others that a line with index `i` stands for.
abbrev shifted : ℕ → ℕ → ℕ
shifted p i = if ltb p i then i - 1 else i

skip : (id x : ℕ) (xs : List ℕ) → x ≡ id → without id (x ∷ xs) ≡ without id xs
skip id x xs h = ground (arith, h)

keep : (id x : ℕ) (xs : List ℕ) → x ≢ id → without id (x ∷ xs) ≡ x ∷ without id xs
keep id x xs h = ground (arith, h)

shifted_first : (i : ℕ) → shifted 0 (suc i) ≡ i
shifted_first i = ground arith

shifted_top : (p : ℕ) → shifted (suc p) 0 ≡ 0
shifted_top p = ground arith

shifted_step : (p i : ℕ) → shifted (suc p) (suc i) ≡ suc (shifted p i)
shifted_step p i = ground arith

abbrev Splits : (id p i : ℕ) → List ℕ → Type 0
Splits id p i xs =
    (take (shifted p i) (without id xs) ≡ without id (take i xs))
    × (drop (shifted p i) (without id xs) ≡ without id (drop i xs))

shifted-Splits :
    (id p i : ℕ) (xs : List ℕ) → Distinct xs → get_elem? xs p ≡ some id → Splits id p i xs
shifted-Splits id p i [] d e = ground (arith, e)
shifted-Splits id zero zero (x ∷ xs) d e = (refl, refl)
shifted-Splits id zero (suc i) (x ∷ xs) (n, d) e =
    let same : x ≡ id = ground (arith, e) in
    let others : All (λ y. y ≢ id) xs = subst (λ z. All (λ y. y ≢ z) xs) same n in
    let rest : without id (x ∷ xs) ≡ xs = skip id x xs same ∙ without-absent id xs others in
    (
      ap (λ j. take j (without id (x ∷ xs))) (shifted_first i)
          ∙ ap (take i) rest
          ∙ sym (
              skip id x (take i xs) same
              ∙ without-absent id (take i xs) (take-All (λ y. y ≢ id) i xs others)),
      ap (λ j. drop j (without id (x ∷ xs))) (shifted_first i)
          ∙ ap (drop i) rest
          ∙ sym (without-absent id (drop i xs) (drop-All (λ y. y ≢ id) i xs others)),
    )
shifted-Splits id (suc p) zero (x ∷ xs) (n, d) e = (
  ap (λ j. take j (without id (x ∷ xs))) (shifted_top p),
  ap (λ j. drop j (without id (x ∷ xs))) (shifted_top p),
)
shifted-Splits id (suc p) (suc i) (x ∷ xs) (n, d) e =
    let other : x ≢ id = λ same. get-All (λ y. y ≢ x) p id xs e n (sym same) in
    let (before, after) = shifted-Splits id p i xs d e in
    (
      ap (λ j. take j (without id (x ∷ xs))) (shifted_step p i)
          ∙ ap (take (suc (shifted p i))) (keep id x xs other)
          ∙ ap (λ ys. x ∷ ys) before
          ∙ sym (keep id x (take i xs) other),
      ap (λ j. drop j (without id (x ∷ xs))) (shifted_step p i)
          ∙ ap (drop (suc (shifted p i))) (keep id x xs other)
          ∙ after,
    )

-- On a court whose matches have the ids `xs`, without repetition, the selected match standing at its
-- position: a tap on one of the two insertion lines next to it, and on no other line of this court,
-- leaves the match where it is and emits nothing; a tap on any other line `i` moves it to a position
-- among the other matches that has exactly those before it that stood above the line, and those after
-- it that stood below.
pub place_position :
    (s : GridMatchRef) (i : ℕ) (xs : List ℕ)
    → Distinct xs
    → get_elem? xs s.position ≡ some s.match_id
    → let others = without s.match_id xs in
      ((place s s.court_id i ≡ stay idle) × ((i ≡ s.position) ⊎ (i ≡ s.position + 1)))
      ⊎ ((i ≢ s.position)
          × (i ≢ s.position + 1)
          × (body : RescheduleBody) × (place s s.court_id i ≡ emit (reschedule s.match_id body))
          × (body.new_court_id ≡ s.court_id)
          × (take body.new_position others ≡ without s.match_id (take i xs))
          × (drop body.new_position others ≡ without s.match_id (drop i xs)))
unfolding place
place_position s i xs d e = elim (Bool-cases (i == s.position || i == s.position + 1)) [
  | inl near ↦ inl (ground (arith, near), ground (arith, near))
  | inr far ↦
      let (before, after) = shifted-Splits s.match_id s.position i xs d e in
      inr (
        (λ e. ground (arith, far, e)),
        (λ e. ground (arith, far, e)),
        record {
          old_court_id = some s.court_id;
          old_position = some s.position;
          new_court_id = s.court_id;
          new_position = shifted s.position i;
        },
        ground (arith, far),
        refl,
        before,
        after,
      )
]
