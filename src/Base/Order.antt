-- ===== src/Base/Order.antt =====
-- `Array.prototype.sort`: a stable insertion sort by a comparison, with its laws.
use mathlib.Core.Bool.{Bool}
use mathlib.Core.List.{List, [], ◌∷◌, ◌++◌, Perm}
use mathlib.Core.List.Perm
use Prim.Native.Nat.{ℕ, zero, suc}
use mathlib.Core.Path.{sym}
use mathlib.Core.Logic.{◌≢◌, inl, inr}
use bracket.Base.Tests.{if◌then◌else◌, Bool-cases}
use bracket.Base.Lists.{All, All-filter, filter, take, drop}

module _ {ℓ} {A : Type ℓ} where
  -- No element occurs twice.
  abbrev pub Distinct : List A → Type ℓ
  Distinct [] = Unit
  Distinct (x ∷ xs) = All (λ y. y ≢ x) xs × Distinct xs

  pub filter-Distinct : (p : A → Bool) (xs : List A) → Distinct xs → Distinct (filter p xs)
  filter-Distinct p [] d = tt
  filter-Distinct p (x ∷ xs) (n, d) = elim (Bool-cases (p x)) [
    | inl e ↦ rw e (All-filter (λ y. y ≢ x) p xs n, filter-Distinct p xs d)
    | inr e ↦ rw e (filter-Distinct p xs d)
  ]

  pub All-insertion {κ} :
      (P : A → Type κ) (i : ℕ) (x : A) (xs : List A)
      → P x
      → All P xs
      → All P (take i xs ++ x ∷ drop i xs)
  All-insertion P zero x xs p h = (p, h)
  All-insertion P (suc i) x [] p h = (p, tt)
  All-insertion P (suc i) x (y ∷ ys) p (q, h) = (q, All-insertion P i x ys p h)

  pub insertion-here {κ} :
      (P : A → Type κ) (i : ℕ) (x : A) (xs : List A) → All P (take i xs ++ x ∷ drop i xs) → P x
  insertion-here P zero x xs (p, h) = p
  insertion-here P (suc i) x [] (p, h) = p
  insertion-here P (suc i) x (y ∷ ys) (q, h) = insertion-here P i x ys h

  pub insertion-Distinct :
      (i : ℕ) (x : A) (xs : List A)
      → All (λ y. y ≢ x) xs
      → Distinct xs
      → Distinct (take i xs ++ x ∷ drop i xs)
  insertion-Distinct zero x xs n d = (n, d)
  insertion-Distinct (suc i) x [] n d = (tt, tt)
  insertion-Distinct (suc i) x (y ∷ ys) (n, ns) (k, d) =
      (All-insertion (λ z. z ≢ y) i x ys (λ e. n (sym e)) k, insertion-Distinct i x ys ns d)

module _ {ℓ} {A : Type ℓ} (before : A → A → Bool) where
  -- `before x y`: the comparison puts x strictly in front of y.
  unfoldable pub insert : A → List A → List A
  insert x [] = x ∷ []
  insert x (y ∷ ys) = if before y x then y ∷ insert x ys else x ∷ y ∷ ys

  unfoldable pub sort : List A → List A
  unfolding insert
  sort [] = []
  sort (x ∷ xs) = insert x (sort xs)

  insert-perm : (x : A) (ys : List A) → Perm (insert x ys) (x ∷ ys)
  unfolding insert
  insert-perm x [] = Perm.refl (x ∷ [])
  insert-perm x (y ∷ ys) = elim (Bool-cases (before y x)) [
    | inl e ↦ rw e (Perm.trans (Perm.cons y (insert-perm x ys)) (Perm.swap x y ys))
    | inr e ↦ rw e (Perm.refl (x ∷ y ∷ ys))
  ]

  pub sort-perm : (xs : List A) → Perm (sort xs) xs
  unfolding sort
  sort-perm [] = Perm.refl []
  sort-perm (x ∷ xs) = Perm.trans (insert-perm x (sort xs)) (Perm.cons x (sort-perm xs))

  pub insert-All {κ} : (P : A → Type κ) (x : A) (ys : List A) → P x → All P ys → All P (insert x ys)
  unfolding insert
  insert-All P x [] p h = (p, tt)
  insert-All P x (y ∷ ys) p (q, h) = elim (Bool-cases (before y x)) [
    | inl e ↦ rw e (q, insert-All P x ys p h)
    | inr e ↦ rw e (p, (q, h))
  ]

  pub sort-All {κ} : (P : A → Type κ) (xs : List A) → All P xs → All P (sort xs)
  unfolding sort
  sort-All P [] h = tt
  sort-All P (x ∷ xs) (p, h) = insert-All P x (sort xs) p (sort-All P xs h)

  insert-Distinct :
      (x : A) (ys : List A) → All (λ y. y ≢ x) ys → Distinct ys → Distinct (insert x ys)
  unfolding insert
  insert-Distinct x [] n d = (tt, tt)
  insert-Distinct x (y ∷ ys) (n, ns) (k, d) = elim (Bool-cases (before y x)) [
    | inl e ↦
        rw e (insert-All (λ z. z ≢ y) x ys (λ same. n (sym same)) k, insert-Distinct x ys ns d)
    | inr e ↦ rw e ((n, ns), (k, d))
  ]

  pub sort-Distinct : (xs : List A) → Distinct xs → Distinct (sort xs)
  unfolding sort
  sort-Distinct [] d = tt
  sort-Distinct (x ∷ xs) (n, d) =
      insert-Distinct x (sort xs) (sort-All (λ y. y ≢ x) xs n) (sort-Distinct xs d)
