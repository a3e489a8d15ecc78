-- ===== src/Lookups/Violations.antt =====
-- lookups.tsx, schedule.tsx: which matches violate the order of the stages.
use bracket.Base.{
  ℕ, ◌≡◌, refl, sym, ◌∙◌, Bool, true, false, ◌&&◌, ◌||◌, List, [], ◌∷◌, Option, none, some, arith,
  any, any-append, any_pair, any_never, any_congr, map, fold, ltb, ◌==◌, opt_eq, Bool-cases,
  Option-cases, inl, inr, ==_iff,
}
use bracket.Base.Store.{get, values}
use bracket.Base.Grouping.{any_pair-grouped}
use bracket.Lookups.{
  Match, MatchLookupEntry, Stage, add_to_set, stage_idx, level_key, level_of, earlier_than,
  violates, level_violations, by_level, get_stage_order_violations, page_violations,
}

any-add_to_set :
    (id x : ℕ) (xs : List ℕ)
    → any (λ y. y == id) (add_to_set xs x) ≡ (any (λ y. y == id) xs || x == id)
unfolding add_to_set
any-add_to_set id x xs = elim (Bool-cases (x == id)) [
  | inl same ↦
      let e : x ≡ id = (==_iff x id).0 same in
      rw e (ground (arith, any-append (λ y. y == id) xs (id ∷ [])))
  | inr other ↦ ground (arith, any-append (λ y. y == id) xs (x ∷ []))
]

any-fold_add :
    (id : ℕ) (xs ys : List ℕ)
    → any (λ y. y == id) (fold add_to_set xs ys) ≡ (any (λ y. y == id) xs || any (λ y. y == id) ys)
any-fold_add id xs [] = ground arith
any-fold_add id xs (y ∷ ys) =
    ground (arith, any-fold_add id (add_to_set xs y) ys, any-add_to_set id y xs)

any_and {ℓ} :
    {A : Type ℓ} (b : Bool) (p : A → Bool) (xs : List A) → any (λ x. b && p x) xs ≡ (b && any p xs)
any_and true p xs = refl
any_and false p xs = any_never xs

any-map {ℓ κ} :
    {A : Type ℓ} {B : Type κ} (p : B → Bool) (f : A → B) (xs : List A)
    → any p (map f xs) ≡ any (λ x. p (f x)) xs
any-map p f [] = refl
any-map p f (x ∷ xs) = ground (arith, any-map p f xs)

any_pair-map {ℓ κ} :
    {A : Type ℓ} {B : Type κ} (r : B → B → Bool) (f : A → B) (xs : List A)
    → any_pair r (map f xs) ≡ any_pair (λ x y. r (f x) (f y)) xs
any_pair-map r f [] = refl
any_pair-map r f (x ∷ xs) = ground (arith, any-map (r (f x)) f xs, any_pair-map r f xs)

any_pair_congr {ℓ} :
    {A : Type ℓ} (p q : A → A → Bool)
    → ((x y : A) → p x y ≡ q x y)
    → (xs : List A) → any_pair p xs ≡ any_pair q xs
any_pair_congr p q h [] = refl
any_pair_congr p q h (x ∷ xs) =
    ground (arith, any_congr (p x) (q x) (h x) xs, any_pair_congr p q h xs)

level_key_eq : (a b : Option ℕ) → (level_key a == level_key b) ≡ opt_eq a b
unfolding level_key
level_key_eq a b = ground arith

module _ (lookup : List (ℕ × MatchLookupEntry)) (stage_order : List Stage) where
  -- Both matches have entries, and the stage of the second is listed before that of the first, a
  -- stage that is not listed counting as the first one.
  abbrev pub of_earlier_stage : Match → Match → Bool
  of_earlier_stage m n = elim (get m.id lookup) [
    | none ↦ false
    | some e ↦ elim (get n.id lookup) [
      | none ↦ false
      | some f ↦ ltb (stage_idx stage_order f.stage.id) (stage_idx stage_order e.stage.id)
    ]
  ]

  violates-any :
      (m : Match) (later : List Match)
      → violates lookup stage_order m later ≡ any (of_earlier_stage m) later
  unfolding violates earlier_than
  violates-any m later = elim (Option-cases (get m.id lookup)) [
    | inl e ↦
        rw (violates, e)
          (sym (any_never later)
            ∙ any_congr (λ n. false) (of_earlier_stage m) (λ n. ground (arith, e)) later)
    | inr (x, e) ↦
        rw (violates, e)
          (any_congr (earlier_than lookup stage_order x) (of_earlier_stage m)
            (λ n. ground (arith, e)) later)
  ]

  -- The first match has the id, the second has its level and an earlier stage.
  abbrev pub violation : ℕ → Match → Match → Bool
  violation id m n =
      opt_eq (level_of lookup stage_order m) (level_of lookup stage_order n)
      && (m.id == id && of_earlier_stage m n)

  keyed : Match → ℕ × Match
  keyed m = (level_key (level_of lookup stage_order m), m)

  module _ (id : ℕ) where
    any-level_violations :
        (vs : List ℕ) (ms : List Match)
        → any (λ y. y == id) (level_violations lookup stage_order vs ms)
          ≡ (any (λ y. y == id) vs || any_pair (λ m n. m.id == id && of_earlier_stage m n) ms)
    unfolding level_violations
    any-level_violations vs [] = ground arith
    any-level_violations vs (m ∷ ms) = ground (
      arith,
      violates-any m ms,
      any_and (m.id == id) (of_earlier_stage m) ms,
      any-add_to_set id m.id vs,
      any-level_violations vs ms,
      any-level_violations (add_to_set vs m.id) ms,
    )

    any-fold_levels :
        (vs : List ℕ) (groups : List (List Match))
        → any (λ y. y == id) (fold (level_violations lookup stage_order) vs groups) ≡ (
            any (λ y. y == id) vs
            || any (any_pair (λ m n. m.id == id && of_earlier_stage m n)) groups)
    any-fold_levels vs [] = ground arith
    any-fold_levels vs (ms ∷ groups) = ground (
      arith,
      any-fold_levels (level_violations lookup stage_order vs ms) groups,
      any-level_violations vs ms,
    )

    any-get_stage_order_violations :
        (court : List Match)
        → any (λ y. y == id) (get_stage_order_violations lookup stage_order court)
          ≡ any_pair (violation id) court
    unfolding get_stage_order_violations by_level keyed
    any-get_stage_order_violations court =
        any-fold_levels [] (values (by_level lookup stage_order court))
        ∙ any_pair-grouped (λ m n. m.id == id && of_earlier_stage m n) (map keyed court)
        ∙ any_pair-map _ keyed court
        ∙ any_pair_congr _ (violation id)
            (λ m n.
              rw (level_key_eq (level_of lookup stage_order m) (level_of lookup stage_order n))
                refl)
            court

  -- On the page a match is marked exactly if on the court that it is listed on a match behind it has
  -- the same level and an earlier stage in the order of the stages. Matches without an entry in the
  -- lookup neither are marked nor cause a mark.
  pub page_violations_iff :
      (courts : List (List Match)) (id : ℕ)
      → any (λ y. y == id) (page_violations lookup stage_order courts)
        ≡ any (any_pair (violation id)) courts
  unfolding page_violations
  page_violations_iff courts id = on_courts [] courts
    where
      on_courts :
          (vs : List ℕ) (cs : List (List Match))
          → any
              (λ y. y == id)
              (fold
                (λ xs court.
                  fold add_to_set xs (get_stage_order_violations lookup stage_order court))
                vs
                cs)
            ≡ (any (λ y. y == id) vs || any (any_pair (violation id)) cs)
      on_courts vs [] = ground arith
      on_courts vs (court ∷ cs) =
          let found = get_stage_order_violations lookup stage_order court in
          ground (
            arith,
            on_courts (fold add_to_set vs found) cs,
            any-fold_add id vs found,
            any-get_stage_order_violations id court,
          )
