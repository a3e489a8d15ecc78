-- ===== src/Conflicts/Sets.antt =====
-- conflicts.ts: the effect of a pass. All passes of the engine only set flags, so a pass is described
-- by the flags that it sets, and the passes compose.
use bracket.Base.{
  ℕ, ◌≡◌, refl, Bool, true, false, ◌&&◌, ◌||◌, List, [], ◌∷◌, Option, none, some, arith, ◌==◌, any,
  any_pair, any_adjacent, All, Option-cases, inl, inr, ==_iff, All-map,
}
use mathlib.Core.Path.{fun_ext}
use bracket.Base.Store.{get, put, get-put}
use bracket.Conflicts.Flags.{
  ConflictFlags, FlagKey, read, set_true, Flags, ok, Code, mark, ◌>>>◌, when, for_some, for_each,
  for_pairs, for_adjacent, some_is, key_eq, flag_of, has,
}

read-set_true :
    (k k' : FlagKey) (f : ConflictFlags) → read k (set_true k' f) ≡ (read k f || key_eq k' k)
unfolding read set_true key_eq
read-set_true k k' f = ground arith

-- `after` is `before` with the flags of `P` set in addition, and the same keys.
pub record Adds (P : ℕ → FlagKey → Bool) (before after : Flags) : Type 0 where
  pub keys : (j : ℕ) → has after j ≡ has before j
  pub flags : (j : ℕ) (k : FlagKey) → flag_of after j k ≡ (flag_of before j k || P j k)

mark-has :
    (key : FlagKey) (id j : ℕ) (f : ConflictFlags) (fs : Flags)
    → get id fs ≡ some f
    → has (put id (set_true key f) fs) j ≡ has fs j
mark-has key id j f fs e = ground (arith, get-put id j (set_true key f) fs)

mark-flag :
    (key : FlagKey) (id j : ℕ) (k : FlagKey) (f : ConflictFlags) (fs : Flags)
    → get id fs ≡ some f
    → flag_of (put id (set_true key f) fs) j k ≡ (flag_of fs j k || (id == j && key_eq key k))
mark-flag key id j k f fs e =
    ground (arith, get-put id j (set_true key f) fs, read-set_true k key f, ==_iff id j)

-- The flags have an entry for every match of `K`.
abbrev pub Covers : (ℕ → Bool) → Flags → Type 0
Covers K fs = (j : ℕ) → K j ≡ true → has fs j ≡ true

-- On flags that cover `K` the code does not throw, and sets the flags of `P` and no others.
abbrev pub Sets : (ℕ → Bool) → (ℕ → FlagKey → Bool) → Code → Type 0
Sets K P c = (fs : Flags) → Covers K fs → (fs' : Flags) × (c fs ≡ ok fs') × Adds P fs fs'

Adds-refl : (fs : Flags) → Adds (λ j k. false) fs fs
Adds-refl fs = record { keys = λ j. refl; flags = λ j k. ground arith }

Adds-trans :
    (P Q : ℕ → FlagKey → Bool) (a b c : Flags)
    → Adds P a b
    → Adds Q b c
    → Adds (λ j k. P j k || Q j k) a c
Adds-trans P Q a b c p q = record {
  keys = λ j. ground (arith, p.keys j, q.keys j);
  flags = λ j k. ground (arith, p.keys j, p.flags j k, q.flags j k);
}

module _ {K : ℕ → Bool} where
  pub Sets-ok : Sets K (λ j k. false) ok
  Sets-ok fs h = (fs, refl, Adds-refl fs)

  pub Sets-mark :
      (key : FlagKey) (id : ℕ) → K id ≡ true → Sets K (λ j k. id == j && key_eq key k) (mark key id)
  unfolding mark
  Sets-mark key id listed fs h = elim (Option-cases (get id fs)) [
    | inl e ↦ absurd (ground (arith, h id listed))
    | inr (f, e) ↦ (
      put id (set_true key f) fs,
      rw (e, mark),
      record { keys = λ j. mark-has key id j f fs e; flags = λ j k. mark-flag key id j k f fs e },
    )
  ]

  pub Sets-congr :
      (P Q : ℕ → FlagKey → Bool) (c : Code)
      → ((j : ℕ) (k : FlagKey) → P j k ≡ Q j k)
      → Sets K P c
      → Sets K Q c
  Sets-congr P Q c e s fs h = rw (← fun_ext (λ j. fun_ext (e j))) (s fs h)

  pub Sets-seq :
      (P Q : ℕ → FlagKey → Bool) (c d : Code)
      → Sets K P c
      → Sets K Q d
      → Sets K (λ j k. P j k || Q j k) (c >>> d)
  Sets-seq P Q c d s t fs h =
      let (fs', e, p) = s fs h in
      let (fs'', e', q) = t fs' (λ j l. rw (p.keys j) (h j l)) in
      (fs'', rw e e', Adds-trans P Q fs fs' fs'' p q)

  pub Sets-when :
      (b : Bool) (P : ℕ → FlagKey → Bool) (c : Code)
      → (b ≡ true → Sets K P c)
      → Sets K (λ j k. b && P j k) (when b c)
  Sets-when true P c s = s refl
  Sets-when false P c s = Sets-ok

  module _ {ℓ} {A : Type ℓ} (P : A → ℕ → FlagKey → Bool) (body : A → Code) where
    pub Sets-for_some :
        (o : Option A)
        → ((a : A) → o ≡ some a → Sets K (P a) (body a))
        → Sets K (λ j k. some_is (λ a. P a j k) o) (for_some o body)
    Sets-for_some none s = Sets-ok
    Sets-for_some (some a) s = s a refl

    pub Sets-for_each :
        (xs : List A)
        → All (λ x. Sets K (P x) (body x)) xs
        → Sets K (λ j k. any (λ x. P x j k) xs) (for_each xs body)
    Sets-for_each [] s = Sets-ok
    Sets-for_each (x ∷ xs) (s, t) = Sets-seq _ _ (body x) (for_each xs body) s (Sets-for_each xs t)

  module _ {ℓ} {A : Type ℓ} (P : A → A → ℕ → FlagKey → Bool) (body : A → A → Code) {R : A → Type 0}
      (s : (x y : A) → R x → R y → Sets K (P x y) (body x y)) where
    pub Sets-for_pairs :
        (xs : List A)
        → All R xs
        → Sets K (λ j k. any_pair (λ x y. P x y j k) xs) (for_pairs xs body)
    Sets-for_pairs [] r = Sets-ok
    Sets-for_pairs (x ∷ xs) (r, t) =
        Sets-seq _ _ (for_each xs (body x)) (for_pairs xs body)
          (Sets-for_each (P x) (body x) xs (All-map (λ y. s x y r) xs t)) (Sets-for_pairs xs t)

    pub Sets-for_adjacent :
        (xs : List A)
        → All R xs
        → Sets K (λ j k. any_adjacent (λ x y. P x y j k) xs) (for_adjacent xs body)
    Sets-for_adjacent [] r = Sets-ok
    Sets-for_adjacent (x ∷ []) r = Sets-ok
    Sets-for_adjacent (x ∷ y ∷ ys) (r, (q, t)) =
        Sets-seq _ _ (body x y) (for_adjacent (y ∷ ys) body) (s x y r q)
          (Sets-for_adjacent (y ∷ ys) (q, t))
