-- ===== src/Builder/Assigned.antt =====
-- builder.tsx: what the automatic assignment of teams sends to the server.
use bracket.Base.{
  ℕ, zero, suc, ◌+◌, ◌≤◌, ◌≡◌, refl, sym, ap, ◌∙◌, Bool, true, false, not, ◌&&◌, List, [], ◌∷◌,
  Option, none, some, arith, inl, inr, Bool-cases, Option-cases, is_some, is_num, opt_eq, any,
  filter, length, map, take, drop, get_elem?, All, All-map,
}
use bracket.Builder.{
  StageItemInputChoice, Stage, EmptyInput, InputUpdate, empty_inputs, is_candidate, updates_from,
  auto_assign_teams,
}

module _ {ℓ} {A : Type ℓ} where
  abbrev pub count : (A → Bool) → List A → ℕ
  count p xs = length (filter p xs)

-- A shuffle keeps every element as often as it was.
abbrev pub IsShuffle : (List StageItemInputChoice → List StageItemInputChoice) → Type 0
IsShuffle shuffle =
    (p : StageItemInputChoice → Bool) (xs : List StageItemInputChoice)
    → count p (shuffle xs) ≡ count p xs

zip_updates : List EmptyInput → List StageItemInputChoice → List InputUpdate
zip_updates [] cs = []
zip_updates (input ∷ inputs) [] = []
zip_updates (input ∷ inputs) (c ∷ cs) =
    record { input = input; team_id = c.team_id } ∷ zip_updates inputs cs

drop_at_elem :
    (cs : List StageItemInputChoice) (i : ℕ)
    → suc i ≤ length cs
    → (c : StageItemInputChoice) × (get_elem? cs i ≡ some c) × (drop i cs ≡ c ∷ drop (suc i) cs)
drop_at_elem [] i le = absurd (omega (arith, le))
drop_at_elem (c ∷ cs) zero le = (c, refl, refl)
drop_at_elem (c ∷ cs) (suc i) le = drop_at_elem cs i (omega (arith, le))

-- No access is behind the end of the list.
updates_from-zip_updates :
    (cs : List StageItemInputChoice) (i : ℕ) (inputs : List EmptyInput)
    → i + length inputs ≤ length cs
    → updates_from cs i inputs ≡ some (zip_updates inputs (drop i cs))
unfolding updates_from zip_updates
updates_from-zip_updates cs i [] le = refl
updates_from-zip_updates cs i (input ∷ inputs) le =
    let (c, there, split) = drop_at_elem cs i (omega (arith, le)) in
    rw (updates_from, there)
      (rw (updates_from-zip_updates cs (suc i) inputs (omega (arith, le))) (rw split refl))

inputs_of_zip :
    (inputs : List EmptyInput) (cs : List StageItemInputChoice)
    → length inputs ≤ length cs
    → map (λ u. u.input) (zip_updates inputs cs) ≡ inputs
unfolding zip_updates
inputs_of_zip [] cs le = refl
inputs_of_zip (input ∷ inputs) [] le = absurd (omega (arith, le))
inputs_of_zip (input ∷ inputs) (c ∷ cs) le =
    ap (λ xs. input ∷ xs) (inputs_of_zip inputs cs (omega (arith, le)))

zip_updates-All :
    (P : Option ℕ → Type 0) (inputs : List EmptyInput) (cs : List StageItemInputChoice)
    → All (λ c. P c.team_id) cs
    → All (λ u. P u.team_id) (zip_updates inputs cs)
unfolding zip_updates
zip_updates-All P [] cs h = tt
zip_updates-All P (input ∷ inputs) [] h = tt
zip_updates-All P (input ∷ inputs) (c ∷ cs) (p, h) = (p, zip_updates-All P inputs cs h)

count-zip_updates :
    (p : Option ℕ → Bool) (inputs : List EmptyInput) (cs : List StageItemInputChoice)
    → count (λ u. p u.team_id) (zip_updates inputs cs) ≤ count (λ c. p c.team_id) cs
unfolding zip_updates
count-zip_updates p [] cs = omega arith
count-zip_updates p (input ∷ inputs) [] = omega arith
count-zip_updates p (input ∷ inputs) (c ∷ cs) = ground (arith, count-zip_updates p inputs cs)

count-filter :
    (p q : StageItemInputChoice → Bool) (cs : List StageItemInputChoice)
    → count p (filter q cs) ≤ count p cs
count-filter p q [] = omega arith
count-filter p q (c ∷ cs) = ground (arith, count-filter p q cs)

length-take_le : (n : ℕ) (inputs : List EmptyInput) → length (take n inputs) ≤ n
length-take_le zero inputs = omega arith
length-take_le (suc n) [] = omega arith
length-take_le (suc n) (x ∷ xs) = omega (arith, length-take_le n xs)

count_all : (cs : List StageItemInputChoice) → count (λ c. true) cs ≡ length cs
count_all [] = refl
count_all (c ∷ cs) = ap suc (count_all cs)

never_counted :
    (p : StageItemInputChoice → Bool) (cs : List StageItemInputChoice)
    → count p cs ≡ 0
    → All (λ c. p c ≡ false) cs
never_counted p [] h = tt
never_counted p (c ∷ cs) h = elim (Bool-cases (p c)) [
  | inl e ↦ absurd (ground (arith, h, e))
  | inr e ↦ (e, never_counted p cs (ground (arith, h, e)))
]

-- The choice has a team that is not taken and of the level, if one is asked for.
abbrev pub may_take : Option ℕ → StageItemInputChoice → Bool
may_take none o = is_some o.team_id && not o.already_taken
may_take (some level) o = is_some o.team_id && not o.already_taken && is_num o.team_level_id level

is_candidate-may_take :
    (level_id : Option ℕ) (o : StageItemInputChoice) → is_candidate level_id o ≡ may_take level_id o
is_candidate-may_take none o = ground arith
is_candidate-may_take (some level) o = elim (Option-cases o.team_level_id) [
  | inl e ↦ rw e refl
  | inr (l, e) ↦ rw e refl
]

count_congr :
    (p q : StageItemInputChoice → Bool)
    → ((c : StageItemInputChoice) → p c ≡ q c)
    → (cs : List StageItemInputChoice) → count p cs ≡ count q cs
count_congr p q h [] = refl
count_congr p q h (c ∷ cs) = ground (arith, h c, count_congr p q h cs)

-- The available choices have one with this team that may be taken.
abbrev pub offers : Option ℕ → List StageItemInputChoice → Option ℕ → Bool
offers level_id available_inputs team_id =
    any (λ o. may_take level_id o && opt_eq o.team_id team_id) available_inputs

none_unoffered :
    (level_id : Option ℕ) (offered : Option ℕ → Bool) (cs : List StageItemInputChoice)
    → All (λ c. is_candidate level_id c ≡ true → offered c.team_id ≡ true) cs
    → count (λ c. not (offered c.team_id)) (filter (is_candidate level_id) cs) ≡ 0
none_unoffered level_id offered [] h = refl
none_unoffered level_id offered (c ∷ cs) (p, h) = elim (Bool-cases (is_candidate level_id c)) [
  | inl e ↦ rw e (rw (p e) (none_unoffered level_id offered cs h))
  | inr e ↦ rw e (none_unoffered level_id offered cs h)
]

opt_eq_self : (o : Option ℕ) → opt_eq o o ≡ true
opt_eq_self none = refl
opt_eq_self (some a) = ground arith

offers_own :
    (level_id : Option ℕ) (cs : List StageItemInputChoice)
    → All (λ c. is_candidate level_id c ≡ true → offers level_id cs c.team_id ≡ true) cs
offers_own level_id [] = tt
offers_own level_id (c ∷ cs) = (
  λ e. ground (arith, e, is_candidate-may_take level_id c, opt_eq_self c.team_id),
  All-map (λ d k e. ground (arith, k e)) cs (offers_own level_id cs),
)

module _ (shuffle : List StageItemInputChoice → List StageItemInputChoice)
    (is_shuffle : IsShuffle shuffle) (stage : Stage)
    (available_inputs : List StageItemInputChoice) where
  candidates : List StageItemInputChoice
  candidates = filter (is_candidate stage.level_id) available_inputs

  shuffled_offered :
      All (λ c. offers stage.level_id available_inputs c.team_id ≡ true) (shuffle candidates)
  unfolding candidates
  shuffled_offered =
      let offered = offers stage.level_id available_inputs in
      All-map (λ c h. ground (arith, h)) (shuffle candidates)
        (never_counted (λ c. not (offered c.team_id)) (shuffle candidates)
          (is_shuffle (λ c. not (offered c.team_id)) candidates
            ∙ none_unoffered stage.level_id offered available_inputs
                (offers_own stage.level_id available_inputs)))

  -- The automatic assignment reads no choice behind the end of the shuffled list, and gives the
  -- first empty inputs of the stage, one for each team that may be taken as long as both last, a
  -- team each: one of an available choice that is not taken and is of the level of the stage, if the
  -- stage has one. A team goes to no more inputs than there are choices with it. The shuffle keeps
  -- every choice as often as it was.
  pub auto_assign_teams_lem :
      (updates : List InputUpdate) × (auto_assign_teams shuffle stage available_inputs
        ≡ some updates)
      × (map (λ u. u.input) updates
          ≡ take
              (count (may_take stage.level_id) available_inputs)
              (empty_inputs stage.stage_items))
      × All (λ u. offers stage.level_id available_inputs u.team_id ≡ true) updates
      × ((t : ℕ)
          → count (λ u. is_num u.team_id t) updates
            ≤ count (λ c. is_num c.team_id t) available_inputs)
  unfolding auto_assign_teams candidates
  auto_assign_teams_lem =
      let shuffled = shuffle candidates in
      let same_length : length shuffled ≡ count (may_take stage.level_id) available_inputs =
        sym (count_all shuffled)
        ∙ is_shuffle (λ c. true) candidates
        ∙ count_all candidates
        ∙ count_congr (is_candidate stage.level_id) (may_take stage.level_id)
            (is_candidate-may_take stage.level_id) available_inputs in
      let inputs = take (length shuffled) (empty_inputs stage.stage_items) in
      let enough : length inputs ≤ length shuffled =
        length-take_le (length shuffled) (empty_inputs stage.stage_items) in
      (
        zip_updates inputs shuffled,
        updates_from-zip_updates shuffled 0 inputs (omega (arith, enough)),
        inputs_of_zip inputs shuffled enough
            ∙ ap (λ n. take n (empty_inputs stage.stage_items)) same_length,
        zip_updates-All (λ o. offers stage.level_id available_inputs o ≡ true) inputs shuffled
            shuffled_offered,
        λ t.
            let p = λ (c : StageItemInputChoice). is_num c.team_id t in
            omega (
              arith,
              count-zip_updates (λ o. is_num o t) inputs shuffled,
              is_shuffle p candidates,
              count-filter p (is_candidate stage.level_id) available_inputs,
            ),
      )
