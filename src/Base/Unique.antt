-- ===== src/Base/Unique.antt =====
-- A sorted list of numbers is determined by its members, when each precedes those behind it.
use Prim.Native.Nat.{ℕ}
use mathlib.Core.Path.{◌≡◌, refl, sym, ap, ◌∙◌, subst}
use mathlib.Core.Logic.{◌≢◌, inl, inr}
use mathlib.Core.Bool.{Bool, true, false, ◌||◌}
use native.Mathlib.Omega.{arith}
use mathlib.Core.List.{List, [], ◌∷◌}
use bracket.Base.Tests.{◌==◌, ==_iff, Bool-cases, if◌then◌else◌}
use bracket.Base.Lists.{All, All-map, All-filter, any, filter}
use bracket.Base.Order.{Distinct, insert, sort, sort-All}
use bracket.Base.Sorted.{IsSorted, sort-IsSorted}

-- `xs.includes(x)`
abbrev pub includes : List ℕ → ℕ → Bool
includes xs x = any (λ y. y == x) xs

pub includes-All {κ} :
    (P : ℕ → Type κ) (xs : List ℕ) (x : ℕ) → All P xs → includes xs x ≡ true → P x
includes-All P [] x h i = ground (arith, i)
includes-All P (y ∷ ys) x (p, h) i = elim (Bool-cases (y == x)) [
  | inl e ↦ subst P ((==_iff y x).0 e) p
  | inr e ↦ includes-All P ys x h (ground (arith, i, e))
]

module _ {ℓ} {A : Type ℓ} (before : A → A → Bool) where
  any-insert : (p : A → Bool) (x : A) (ys : List A) → any p (insert before x ys) ≡ (p x || any p ys)
  unfolding insert
  any-insert p x [] = refl
  any-insert p x (y ∷ ys) = ground (arith, any-insert p x ys)

  pub any-sort : (p : A → Bool) (xs : List A) → any p (sort before xs) ≡ any p xs
  unfolding sort
  any-sort p [] = refl
  any-sort p (x ∷ xs) = ground (arith, any-insert p x (sort before xs), any-sort p xs)

-- Two comparisons that agree on the elements sort them alike.
module _ {ℓ κ} {A : Type ℓ} (before after : A → A → Bool) (P : A → Type κ)
    (agree : (x y : A) → P x → P y → before x y ≡ after x y) where
  insert_congr : (x : A) (ys : List A) → P x → All P ys → insert before x ys ≡ insert after x ys
  unfolding insert
  insert_congr x [] p h = refl
  insert_congr x (y ∷ ys) p (q, h) = ground (arith, agree y x q p, insert_congr x ys p h)

  pub sort_congr : (xs : List A) → All P xs → sort before xs ≡ sort after xs
  unfolding sort
  sort_congr [] h = refl
  sort_congr (x ∷ xs) (p, h) =
      insert_congr x (sort before xs) p (sort-All before P xs h)
      ∙ ap (insert after x) (sort_congr xs h)

module _ (before : ℕ → ℕ → Bool) where
  -- Each element precedes all behind it.
  abbrev pub IsStrict : List ℕ → Type 0
  IsStrict [] = Unit
  IsStrict (x ∷ xs) = All (λ y. before x y ≡ true) xs × IsStrict xs

  same_head :
      (x y : ℕ) (xs ys : List ℕ)
      → All (λ z. before z x ≡ false) xs
      → All (λ z. before y z ≡ true) ys
      → includes (y ∷ ys) x ≡ true
      → includes (x ∷ xs) y ≡ true
      → x ≡ y
  same_head x y xs ys h k i j = elim (Bool-cases (x == y)) [
    | inl e ↦ (==_iff x y).0 e
    | inr e ↦
        let first : before y x ≡ true =
          includes-All (λ z. before y z ≡ true) ys x k (ground (arith, i, e)) in
        let second : before y x ≡ false =
          includes-All (λ z. before z x ≡ false) xs y h (ground (arith, j, e)) in
        ground (arith, first, second)
  ]

  tail_includes :
      (x : ℕ) (xs ys : List ℕ)
      → All (λ z. z ≢ x) xs
      → All (λ z. includes (x ∷ ys) z ≡ true) xs
      → All (λ z. includes ys z ≡ true) xs
  tail_includes x [] ys n h = tt
  tail_includes x (z ∷ zs) ys (n, ns) (i, h) =
      (ground (arith, i, ==_iff x z, λ (e : x ≡ z). n (sym e)), tail_includes x zs ys ns h)

  pub sorted_unique :
      (xs ys : List ℕ)
      → IsSorted before xs
      → Distinct xs
      → IsStrict ys
      → Distinct ys
      → All (λ x. includes ys x ≡ true) xs
      → All (λ y. includes xs y ≡ true) ys
      → xs ≡ ys
  sorted_unique [] [] s d t f h k = refl
  sorted_unique [] (y ∷ ys) s d t f h (k, _) = ground (arith, k)
  sorted_unique (x ∷ xs) [] s d t f (h, _) k = ground (arith, h)
  sorted_unique (x ∷ xs) (y ∷ ys) (s, ss) (n, d) (t, ts) (m, f) (h, hs) (k, ks) =
      let e : y ≡ x = sym (same_head x y xs ys s t h k) in
      let hs' : All (λ z. includes (x ∷ ys) z ≡ true) xs =
        subst (λ w. All (λ z. includes (w ∷ ys) z ≡ true) xs) e hs in
      let m' : All (λ z. z ≢ x) ys = subst (λ w. All (λ z. z ≢ w) ys) e m in
      ap (λ w. w ∷ xs) (sym e)
      ∙ ap (λ zs. y ∷ zs)
          (sorted_unique xs ys ss d ts f (tail_includes x xs ys n hs')
            (tail_includes x ys xs m' ks))

-- A filter keeps the order of a sorted list.
module _ {ℓ} {A : Type ℓ} (before : A → A → Bool)
    (asymmetric : (x y : A) → before x y ≡ true → before y x ≡ false)
    (transitive : (x y z : A) → before y x ≡ false → before z y ≡ false → before z x ≡ false)
    (p : A → Bool) where
  insert-first :
      (x : A) (ys : List A) → All (λ y. before y x ≡ false) ys → insert before x ys ≡ x ∷ ys
  unfolding insert
  insert-first x [] h = refl
  insert-first x (y ∷ ys) (e, h) = rw e refl

  filter-insert :
      (x : A) (ys : List A)
      → IsSorted before ys
      → filter p (insert before x ys) ≡ (if p x then insert before x (filter p ys) else filter p ys)
  unfolding insert
  filter-insert x [] s = refl
  filter-insert x (y ∷ ys) (h, s) = elim (Bool-cases (before y x)) [
    | inl e ↦ rw e (ground (arith, e, filter-insert x ys s))
    | inr e ↦
        let behind : All (λ z. before z x ≡ false) (y ∷ ys) =
          (e, All-map (λ z k. transitive x y z e k) ys h) in
        let first : insert before x (filter p (y ∷ ys)) ≡ x ∷ filter p (y ∷ ys) =
          insert-first x (filter p (y ∷ ys)) (All-filter _ p (y ∷ ys) behind) in
        rw (e, first) refl
  ]

  pub filter-sort : (xs : List A) → filter p (sort before xs) ≡ sort before (filter p xs)
  unfolding sort
  filter-sort [] = refl
  filter-sort (x ∷ xs) =
      filter-insert x (sort before xs) (sort-IsSorted before asymmetric transitive xs)
      ∙ kept (p x) (filter-sort xs)
    where
      kept :
          (b : Bool)
          → filter p (sort before xs) ≡ sort before (filter p xs)
          → (if b then insert before x (filter p (sort before xs)) else filter p (sort before xs))
            ≡ sort before (if b then x ∷ filter p xs else filter p xs)
      kept true ih = ap (insert before x) ih
      kept false ih = ih
