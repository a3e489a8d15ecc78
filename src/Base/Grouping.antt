-- ===== src/Base/Grouping.antt =====
-- Pairs inside the groups of a map are the pairs of entries with one key.
use Prim.Native.Nat.{ℕ}
use mathlib.Core.Path.{◌≡◌, refl}
use mathlib.Core.Bool.{Bool, ◌&&◌, ◌||◌}
use mathlib.Core.List.{List, [], ◌∷◌, ◌++◌}
use mathlib.Core.Option.{Option, none, some}
use mathlib.Core.Logic.{inl, inr}
use native.Mathlib.Omega.{arith}
use bracket.Base.Tests.{◌==◌, ==_iff, Bool-cases}
use bracket.Base.Lists.{any, any_pair, any-append, any_never, filter}
use bracket.Base.Store.{get, put, get-put, values, extend, push, push_all}

module _ {ℓ} {A : Type ℓ} where
  abbrev pub group : Option (List A) → List A
  group none = []
  group (some xs) = xs

  -- `m.get(k) ?? []`
  abbrev pub group_at : ℕ → List (ℕ × List A) → List A
  group_at k m = group (get k m)

  any_pair-snoc :
      (r : A → A → Bool) (xs : List A) (x : A)
      → any_pair r (xs ++ x ∷ []) ≡ (any_pair r xs || any (λ y. r y x) xs)
  any_pair-snoc r [] x = refl
  any_pair-snoc r (y ∷ ys) x = ground (arith, any-append (r y) ys (x ∷ []), any_pair-snoc r ys x)

  pub any-filter : (q p : A → Bool) (xs : List A) → any q (filter p xs) ≡ any (λ x. p x && q x) xs
  any-filter q p [] = refl
  any-filter q p (x ∷ xs) = ground (arith, any-filter q p xs)

  pub any_pair-filter :
      (r : A → A → Bool) (p : A → Bool) (xs : List A)
      → any_pair r (filter p xs) ≡ any_pair (λ x y. p x && (p y && r x y)) xs
  any_pair-filter r p [] = refl
  any_pair-filter r p (x ∷ xs) = elim (Bool-cases (p x)) [
    | inl kept ↦ rw kept (ground (arith, any-filter (r x) p xs, any_pair-filter r p xs))
    | inr dropped ↦ rw dropped (ground (arith, any_pair-filter r p xs, any_never xs))
  ]

  any-extend :
      (q : A → Bool) (o : Option (List A)) (x : A) → any q (extend o x) ≡ (any q (group o) || q x)
  any-extend q none x = ground arith
  any-extend q (some xs) x = ground (arith, any-append q xs (x ∷ []))

  any-push :
      (q : A → Bool) (k j : ℕ) (x : A) (m : List (ℕ × List A))
      → any q (group_at j (push k x m)) ≡ (any q (group_at j m) || (k == j && q x))
  any-push q k j x m =
      ground (arith, get-put k j (extend (get k m) x) m, any-extend q (get k m) x, ==_iff k j)

  pub any-group_at :
      (q : A → Bool) (j : ℕ) (es : List (ℕ × A)) (m : List (ℕ × List A))
      → any q (group_at j (push_all m es))
        ≡ (any q (group_at j m) || any (λ e. e.0 == j && q e.1) es)
  any-group_at q j [] m = ground arith
  any-group_at q j ((k, x) ∷ es) m =
      ground (arith, any-group_at q j es (push k x m), any-push q k j x m)

  any_groups : (A → A → Bool) → List (ℕ × List A) → Bool
  any_groups r m = any (any_pair r) (values m)

  any_groups-put :
      (r : A → A → Bool) (k : ℕ) (x : A) (o : Option (List A)) (m : List (ℕ × List A))
      → get k m ≡ o
      → any_groups r (put k (extend o x) m) ≡ (any_groups r m || any (λ y. r y x) (group o))
  unfolding any_groups get put
  any_groups-put r k x none [] e = refl
  any_groups-put r k x (some xs) [] e = cc
  any_groups-put r k x o ((j, w) ∷ m) e = elim (Bool-cases (j == k)) [
    | inl same ↦
        let found : some w ≡ o = rw (same, get) at e in
        rw (same, ← found) (ground (arith, any_pair-snoc r w x))
    | inr other ↦ rw other (ground (arith, any_groups-put r k x o m (rw (other, get) at e)))
  ]

  any_cross : (A → A → Bool) → List (ℕ × A) → List (ℕ × List A) → Bool
  any_cross r es m = any (λ e. any (λ y. r y e.1) (group_at e.0 m)) es

  any_cross-push :
      (r : A → A → Bool) (k : ℕ) (x : A) (es : List (ℕ × A)) (m : List (ℕ × List A))
      → any_cross r es (push k x m) ≡ (any_cross r es m || any (λ e. k == e.0 && r x e.1) es)
  unfolding any_cross
  any_cross-push r k x [] m = refl
  any_cross-push r k x ((j, y) ∷ es) m =
      ground (arith, any-push (λ z. r z y) k j x m, any_cross-push r k x es m)

  any_groups-push_all :
      (r : A → A → Bool) (es : List (ℕ × A)) (m : List (ℕ × List A))
      → any_groups r (push_all m es)
        ≡ (any_groups r m || any_cross r es m || any_pair (λ e f. e.0 == f.0 && r e.1 f.1) es)
  unfolding any_cross
  any_groups-push_all r [] m = ground arith
  any_groups-push_all r ((k, x) ∷ es) m = ground (
    arith,
    any_groups-push_all r es (push k x m),
    any_groups-put r k x (get k m) m refl,
    any_cross-push r k x es m,
  )

  -- Grouping by key and looking at the pairs of each group is looking at the pairs with one key.
  pub any_pair-grouped :
      (r : A → A → Bool) (es : List (ℕ × A))
      → any (any_pair r) (values (push_all [] es)) ≡ any_pair (λ e f. e.0 == f.0 && r e.1 f.1) es
  unfolding any_groups any_cross get
  any_pair-grouped r es = ground (arith, any_groups-push_all r es [], any_never es)
