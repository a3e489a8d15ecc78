-- ===== src/Base/Sorted.antt =====
-- The order of a sorted list, for a comparison that is a strict weak order.
use Prim.Native.Nat.{ℕ, zero, suc}
use mathlib.Core.Path.{◌≡◌, sym, ap, subst, ◌∙◌}
use mathlib.Core.Option.{some}
use mathlib.Core.Logic.{inl, inr}
use mathlib.Core.Bool.{Bool, true, false}
use native.Mathlib.Omega.{arith}
use mathlib.Core.List.{List, [], ◌∷◌}
use bracket.Base.Tests.{if◌then◌else◌, Bool-cases}
use bracket.Base.Lists.{All, All-map, filter, find, drop}
use bracket.Base.Order.{insert, sort, insert-All}

-- No element stands behind one that it should precede.
abbrev pub IsSorted {ℓ} : {A : Type ℓ} → (A → A → Bool) → List A → Type ℓ
IsSorted before [] = Unit
IsSorted before (x ∷ xs) = All (λ y. before y x ≡ false) xs × IsSorted before xs

module _ {ℓ} {A : Type ℓ} (before : A → A → Bool)
    (asymmetric : (x y : A) → before x y ≡ true → before y x ≡ false)
    (transitive : (x y z : A) → before y x ≡ false → before z y ≡ false → before z x ≡ false) where
  insert-IsSorted :
      (x : A) (ys : List A) → IsSorted before ys → IsSorted before (insert before x ys)
  unfolding insert
  insert-IsSorted x [] s = (tt, tt)
  insert-IsSorted x (y ∷ ys) (h, s) = elim (Bool-cases (before y x)) [
    | inl e ↦ rw e (
      insert-All before (λ z. before z y ≡ false) x ys (asymmetric y x e) h,
      insert-IsSorted x ys s,
    )
    | inr e ↦ rw e ((e, All-map (λ z k. transitive x y z e k) ys h), (h, s))
  ]

  pub sort-IsSorted : (xs : List A) → IsSorted before (sort before xs)
  unfolding sort
  sort-IsSorted [] = tt
  sort-IsSorted (x ∷ xs) = insert-IsSorted x (sort before xs) (sort-IsSorted xs)

module _ {ℓ κ} {A : Type ℓ} (before : A → A → Bool) (P : A → Type κ) where
  insert-All_inv : (x : A) (ys : List A) → All P (insert before x ys) → P x × All P ys
  unfolding insert
  insert-All_inv x [] (p, h) = (p, tt)
  insert-All_inv x (y ∷ ys) h = split (before y x) (insert-All_inv x ys) h
    where
      split :
          (b : Bool)
          → (All P (insert before x ys) → P x × All P ys)
          → All P (if b then y ∷ insert before x ys else x ∷ y ∷ ys)
          → P x × All P (y ∷ ys)
      split true ih (q, k) = let (p, rest) = ih k in (p, (q, rest))
      split false ih (p, k) = (p, k)

  -- What holds of the sorted list holds of the list.
  pub sort-All_inv : (xs : List A) → All P (sort before xs) → All P xs
  unfolding sort
  sort-All_inv [] h = tt
  sort-All_inv (x ∷ xs) h =
      let (p, rest) = insert-All_inv x (sort before xs) h in (p, sort-All_inv xs rest)

module _ {ℓ κ} {A : Type ℓ} (P : A → Type κ) where
  pub filter-All_inv :
      (p : A → Bool) (xs : List A) → All P (filter p xs) → All (λ x. p x ≡ true → P x) xs
  filter-All_inv p [] h = tt
  filter-All_inv p (x ∷ xs) h = elim (Bool-cases (p x)) [
    | inl e ↦ let (q, rest) = kept e h in ((λ _. q), filter-All_inv p xs rest)
    | inr e ↦ ((λ f. ground (arith, e, f)), filter-All_inv p xs (dropped e h))
  ]
    where
      kept : p x ≡ true → All P (filter p (x ∷ xs)) → P x × All P (filter p xs)
      kept e = rw e (λ k. k)

      dropped : p x ≡ false → All P (filter p (x ∷ xs)) → All P (filter p xs)
      dropped e = rw e (λ k. k)

module _ {ℓ} {A : Type ℓ} (p : A → Bool) where
  pub filter-true : (xs : List A) → All (λ x. p x ≡ true) (filter p xs)
  filter-true [] = tt
  filter-true (x ∷ xs) = elim (Bool-cases (p x)) [
    | inl e ↦ rw e (e, filter-true xs)
    | inr e ↦ rw e (filter-true xs)
  ]

  pub find-true {κ} :
      (P : A → Type κ) (xs : List A) (y : A) → All P xs → find p xs ≡ some y → P y × (p y ≡ true)
  find-true P [] y h e = ground (arith, e)
  find-true P (x ∷ xs) y (q, h) e = elim (Bool-cases (p x)) [
    | inl f ↦ let same : x ≡ y = ground (arith, e, f) in (subst P same q, sym (ap p same) ∙ f)
    | inr f ↦ find-true P xs y h (ground (arith, e, f))
  ]

pub drop-All {ℓ κ} :
    {A : Type ℓ} (P : A → Type κ) (n : ℕ) (xs : List A) → All P xs → All P (drop n xs)
drop-All P zero xs h = h
drop-All P (suc n) [] h = tt
drop-All P (suc n) (x ∷ xs) (p, h) = drop-All P n xs h
