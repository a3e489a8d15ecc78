-- ===== src/ConflictPreview/Introduces.antt =====
-- conflict_preview.ts: which actions introduce a conflict.
use bracket.Base.{
  ℕ, ◌≡◌, refl, sym, ap, ◌∙◌, Bool, true, false, not, ◌&&◌, List, [], ◌∷◌, ◌==◌, any, any_congr,
  arith, Bool-cases, ==_iff, inl, inr,
}
use bracket.Base.Int.{ℤ}
use bracket.Base.Store.{get}
use bracket.Conflicts.{ConflictMatch, ConflictStage, get_all_matches}
use bracket.Conflicts.Flags.{FlagKey, Flags, flag_of, has, ok}
use bracket.Conflicts.Listed.{is_listed}
use bracket.Conflicts.Compute.Exact.{conflicts_of, Returns, compute_exact}
use bracket.Optimistic.{apply_planning_actions}
use bracket.Selection.{PlanningAction}
use bracket.ConflictPreview.{conflict_flag_keys, introduced, actions_introduce_conflict}

module _ {A : Type 0} (q : ℕ → Bool) (f : A → ℕ) where
  any_of_member :
      (j : ℕ) (xs : List A)
      → any (λ x. f x == j) xs ≡ true
      → q j ≡ true
      → any (λ x. q (f x)) xs ≡ true
  any_of_member j [] h e = h
  any_of_member j (x ∷ xs) h e = elim (Bool-cases (f x == j)) [
    | inl same ↦
        let here : q (f x) ≡ true = ap q ((==_iff (f x) j).0 same) ∙ e in ground (arith, here)
    | inr other ↦
        let later = any_of_member j xs (ground (arith, h, other)) e in ground (arith, later)
  ]

module _ {A B : Type 0} (q : ℕ → Bool) (f : A → ℕ) (g : B → ℕ) where
  any_of_subset :
      (xs : List A) (ys : List B)
      → ((j : ℕ) → any (λ x. f x == j) xs ≡ true → any (λ y. g y == j) ys ≡ true)
      → any (λ x. q (f x)) xs ≡ true
      → any (λ y. q (g y)) ys ≡ true
  any_of_subset [] ys h e = ground (arith, e)
  any_of_subset (x ∷ xs) ys h e = elim (Bool-cases (q (f x))) [
    | inl here ↦
        any_of_member q g (f x) ys (h (f x) (ground (arith, (==_iff (f x) (f x)).1 refl))) here
    | inr other ↦ any_of_subset xs ys (λ j k. h j (ground (arith, k))) (ground (arith, e, other))
  ]

eq_of_implications : (a b : Bool) → (a ≡ true → b ≡ true) → (b ≡ true → a ≡ true) → a ≡ b
eq_of_implications a b h k = ground (arith, h, k)

-- Two lists with the same keys have the same property of a key.
any_same_keys :
    {A B : Type 0} (q : ℕ → Bool) (f : A → ℕ) (g : B → ℕ) (xs : List A) (ys : List B)
    → ((j : ℕ) → any (λ x. f x == j) xs ≡ any (λ y. g y == j) ys)
    → any (λ x. q (f x)) xs ≡ any (λ y. q (g y)) ys
any_same_keys q f g xs ys h =
    eq_of_implications _ _ (any_of_subset q f g xs ys (λ j k. sym (h j) ∙ k))
      (any_of_subset q g f ys xs (λ j k. h j ∙ k))

has-any : (flags : Flags) (j : ℕ) → has flags j ≡ any (λ entry. entry.0 == j) flags
unfolding get
has-any [] j = refl
has-any ((i, f) ∷ flags) j = ground (arith, has-any flags j)

-- Some match of the schedule `after` is in a conflict that it is not in in `before`.
abbrev pub new_conflict : List ConflictMatch → (before after : ℕ → FlagKey → Bool) → Bool
new_conflict matches before after =
    any (λ m. any (λ key. after m.id key && not (before m.id key)) conflict_flag_keys) matches

introduced-new_conflict :
    (matches : List ConflictMatch) (before after : ℕ → FlagKey → Bool) (baseline post_flags : Flags)
    → ((j : ℕ) (k : FlagKey) → flag_of baseline j k ≡ before j k)
    → Returns (is_listed matches) after post_flags
    → introduced baseline post_flags ≡ new_conflict matches before after
unfolding introduced
introduced-new_conflict matches before after baseline post_flags h returned =
    any_same_keys (λ j. any (new_flag j) conflict_flag_keys) (λ entry. entry.0) (λ m. m.id)
      post_flags matches (λ j. sym (has-any post_flags j) ∙ returned.keys j)
    ∙ any_congr (λ m. any (new_flag m.id) conflict_flag_keys)
        (λ m. any (λ key. after m.id key && not (before m.id key)) conflict_flag_keys)
        (λ m.
          any_congr (new_flag m.id) (λ key. after m.id key && not (before m.id key))
            (λ key. ground (arith, h m.id key, returned.exact m.id key)) conflict_flag_keys)
        matches
  where
    new_flag : ℕ → FlagKey → Bool
    new_flag j key = flag_of post_flags j key && not (flag_of baseline j key)

module _ (stages : List ConflictStage) (default_break_minutes : ℕ) (tournament_start : ℤ)
    (referees_enabled : Bool) where
  -- Does the schedule that the actions lead to have a conflict of a match that is not there before?
  abbrev pub introduces : List PlanningAction → Bool
  introduces [] = false
  introduces (a ∷ actions) =
      let simulated =
        apply_planning_actions tournament_start default_break_minutes stages (a ∷ actions) in
      new_conflict (get_all_matches simulated)
        (conflicts_of stages default_break_minutes referees_enabled)
        (conflicts_of simulated default_break_minutes referees_enabled)

  pub actions_introduce_conflict_exact :
      (baseline : Flags) (actions : List PlanningAction)
      → ((j : ℕ) (k : FlagKey)
          → flag_of baseline j k ≡ conflicts_of stages default_break_minutes referees_enabled j k)
      → actions_introduce_conflict stages default_break_minutes tournament_start referees_enabled
          baseline actions
        ≡ ok (introduces actions)
  unfolding actions_introduce_conflict
  actions_introduce_conflict_exact baseline [] h = refl
  actions_introduce_conflict_exact baseline (a ∷ actions) h =
      let simulated =
        apply_planning_actions tournament_start default_break_minutes stages (a ∷ actions) in
      let (flags, computed, returned) =
        compute_exact simulated default_break_minutes referees_enabled in
      rw computed
        (ap ok (introduced-new_conflict (get_all_matches simulated) _ _ baseline flags h returned))
