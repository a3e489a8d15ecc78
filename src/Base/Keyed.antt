-- ===== src/Base/Keyed.antt =====
-- A map filled from a list whose keys are unique: looking a key up is looking for its element.
use Prim.Native.Nat.{ℕ}
use mathlib.Core.Path.{◌≡◌, refl, sym, ap, ◌∙◌}
use mathlib.Core.Logic.{◌≢◌, inl, inr}
use mathlib.Core.Bool.{Bool, false, ◌&&◌, ◌||◌}
use mathlib.Core.List.{List, [], ◌∷◌, ◌++◌}
use mathlib.Core.Option.{Option, none, some}
use native.Mathlib.Omega.{arith}
use bracket.Base.Tests.{◌==◌, ==_iff, Bool-cases, if◌then◌else◌}
use bracket.Base.Lists.{any, any_pair, fold, flat_map, All}
use bracket.Base.Store.{get, put, get-put}

-- `o != null && p(o)`
abbrev pub holds {ℓ} : {A : Type ℓ} → (A → Bool) → Option A → Bool
holds p none = false
holds p (some a) = p a

module _ {ℓ κ} {A : Type ℓ} {S : Type κ} where
  fold-append :
      (f : S → A → S) (s : S) (xs ys : List A) → fold f s (xs ++ ys) ≡ fold f (fold f s xs) ys
  fold-append f s [] ys = refl
  fold-append f s (x ∷ xs) ys = fold-append f (f s x) xs ys

module _ {ℓ κ μ} {A : Type ℓ} {B : Type μ} {S : Type κ} where
  -- Two nested loops are one over the flattened list.
  pub fold-flat_map :
      (f : S → A → S) (g : B → List A) (s : S) (ys : List B)
      → fold (λ acc y. fold f acc (g y)) s ys ≡ fold f s (flat_map g ys)
  fold-flat_map f g s [] = refl
  fold-flat_map f g s (y ∷ ys) =
      fold-flat_map f g (fold f s (g y)) ys ∙ sym (fold-append f s (g y) (flat_map g ys))

module _ {ℓ} {A : Type ℓ} where
  -- What holds at every element of a list may be put for a test there.
  pub any_congr_All : (p q : A → Bool) (xs : List A) → All (λ x. p x ≡ q x) xs → any p xs ≡ any q xs
  any_congr_All p q [] h = refl
  any_congr_All p q (x ∷ xs) (h, hs) = ground (arith, h, any_congr_All p q xs hs)

module _ {ℓ} {A : Type ℓ} (key : A → ℕ) where
  -- No two elements have one key.
  abbrev pub UniqueBy : List A → Type 0
  UniqueBy [] = Unit
  UniqueBy (x ∷ xs) = All (λ y. key y ≢ key x) xs × UniqueBy xs

  any_other :
      (q : A → Bool) (k : ℕ) (xs : List A)
      → All (λ y. key y ≢ k) xs
      → any (λ y. key y == k && q y) xs ≡ false
  any_other q k [] h = refl
  any_other q k (y ∷ ys) (n, h) = ground (arith, any_other q k ys h, n)

  -- The element with the key of an element is that element.
  pub any_own :
      (q : A → Bool) (xs : List A)
      → UniqueBy xs
      → All (λ x. any (λ y. key y == key x && q y) xs ≡ q x) xs
  any_own q [] u = tt
  any_own q (x ∷ xs) (n, u) =
      (ground (arith, any_other q (key x) xs n), others xs n (any_own q xs u))
    where
      others :
          (ys : List A)
          → All (λ y. key y ≢ key x) ys
          → All (λ y. any (λ z. key z == key y && q z) xs ≡ q y) ys
          → All (λ y. any (λ z. key z == key y && q z) (x ∷ xs) ≡ q y) ys
      others [] m h = tt
      others (y ∷ ys) (m, ms) (h, hs) = (ground (arith, h, m), others ys ms hs)

module _ {ℓ κ} {A : Type ℓ} {V : Type κ} (key : A → ℕ) (value : A → Option V) where
  -- The element's value, if it has one, under its key.
  abbrev pub put_value : List (ℕ × V) → A → List (ℕ × V)
  put_value m x = elim (value x) [ none ↦ m | some v ↦ put (key x) v m ]

  value_put :
      (m : List (ℕ × V)) (x : A) (k : ℕ)
      → get k (put_value m x)
        ≡ elim (value x) [ none ↦ get k m | some v ↦ if key x == k then some v else get k m ]
  value_put m x k = at (value x)
    where
      at :
          (o : Option V)
          → get k (elim o [ none ↦ m | some v ↦ put (key x) v m ])
            ≡ elim o [ none ↦ get k m | some v ↦ if key x == k then some v else get k m ]
      at none = refl
      at (some v) = get-put (key x) k v m

  fresh_kept :
      (m : List (ℕ × V)) (x : A) (ys : List A)
      → All (λ y. key y ≢ key x) ys
      → All (λ y. get (key y) m ≡ none) ys
      → All (λ y. get (key y) (put_value m x) ≡ none) ys
  fresh_kept m x [] n h = tt
  fresh_kept m x (y ∷ ys) (n, ns) (h, hs) =
      (value_put m x (key y) ∙ at (value x), fresh_kept m x ys ns hs)
    where
      at :
          (o : Option V)
          → elim o [
            | none ↦ get (key y) m
            | some v ↦ if key x == key y then some v else get (key y) m
          ]
            ≡ none
      at none = h
      at (some v) = let other : (key x == key y) ≡ false = ground (arith, n) in rw other h

  holds_put :
      (p : V → Bool) (m : List (ℕ × V)) (x : A) (k : ℕ)
      → get (key x) m ≡ none
      → holds p (get k (put_value m x)) ≡ (holds p (get k m) || key x == k && holds p (value x))
  holds_put p m x k fresh = ap (holds p) (value_put m x k) ∙ at (value x)
    where
      at :
          (o : Option V)
          → holds p (elim o [ none ↦ get k m | some v ↦ if key x == k then some v else get k m ])
            ≡ (holds p (get k m) || key x == k && holds p o)
      at none = ground arith
      at (some v) = elim (Bool-cases (key x == k)) [
        | inl e ↦
            let same : key x ≡ k = (==_iff _ _).0 e in
            let gone : get k m ≡ none = rw (← same) fresh in rw (e, gone) refl
        | inr e ↦ rw e (ground arith)
      ]

  -- A key of the filled map leads to a value with a property if an element has the key and such a
  -- value.
  pub holds_filled :
      (p : V → Bool) (k : ℕ) (xs : List A) (m : List (ℕ × V))
      → UniqueBy key xs
      → All (λ x. get (key x) m ≡ none) xs
      → holds p (get k (fold put_value m xs))
        ≡ (holds p (get k m) || any (λ x. key x == k && holds p (value x)) xs)
  holds_filled p k [] m u h = ground arith
  holds_filled p k (x ∷ xs) m (n, u) (f, h) =
      ground
        (arith, holds_filled p k xs (put_value m x) u (fresh_kept m x xs n h), holds_put p m x k f)

module _ {ℓ κ} {A : Type ℓ} (P : A → Type κ) (r s : A → A → Bool)
    (h : (x y : A) → P x → P y → r x y ≡ s x y) where
  first_congr : (x : A) (ys : List A) → P x → All P ys → any (r x) ys ≡ any (s x) ys
  first_congr x [] p k = refl
  first_congr x (y ∷ ys) p (q, k) = ground (arith, h x y p q, first_congr x ys p k)

  -- What holds of two elements of a list may be put for a test of them.
  pub any_pair_congr_All : (xs : List A) → All P xs → any_pair r xs ≡ any_pair s xs
  any_pair_congr_All [] k = refl
  any_pair_congr_All (x ∷ xs) (p, k) = ground (arith, first_congr x xs p k, any_pair_congr_All xs k)
