-- ===== src/Base/Lists.antt =====
-- Lists measured and cut by native numbers, under the library's names.
use Prim.Native.Nat.{ℕ, zero, suc, ◌+◌, ◌-◌}
use mathlib.Core.Path.{◌≡◌, refl, ap}
use mathlib.Core.Logic.{◌≢◌}
use mathlib.Core.Bool.{Bool, true, false, ◌||◌}
use mathlib.Core.List.{List, [], ◌∷◌, ◌++◌, map}
use mathlib.Core.Option.{Option, none, some}
use bracket.Base.Tests.{if◌then◌else◌}
use native.Mathlib.Omega.{arith}

module _ {ℓ} {A : Type ℓ} where
  abbrev pub length : List A → ℕ
  length [] = 0
  length (x ∷ xs) = suc (length xs)

  abbrev pub get_elem? : List A → ℕ → Option A
  get_elem? [] i = none
  get_elem? (x ∷ xs) zero = some x
  get_elem? (x ∷ xs) (suc i) = get_elem? xs i

  abbrev pub take : ℕ → List A → List A
  take zero xs = []
  take (suc n) [] = []
  take (suc n) (x ∷ xs) = x ∷ take n xs

  abbrev pub drop : ℕ → List A → List A
  drop zero xs = xs
  drop (suc n) [] = []
  drop (suc n) (x ∷ xs) = drop n xs

  -- `xs.some(p)`
  abbrev pub any : (A → Bool) → List A → Bool
  any p [] = false
  any p (x ∷ xs) = p x || any p xs

  -- `xs.filter(p)`
  abbrev pub filter : (A → Bool) → List A → List A
  filter p [] = []
  filter p (x ∷ xs) = if p x then x ∷ filter p xs else filter p xs

  -- `xs.find(p)`
  abbrev pub find : (A → Bool) → List A → Option A
  find p [] = none
  find p (x ∷ xs) = if p x then some x else find p xs

  -- `f(x)` and `f(y)` for every x and y of `xs` with y behind x: two nested counting loops.
  abbrev pub any_pair : (A → A → Bool) → List A → Bool
  any_pair r [] = false
  any_pair r (x ∷ xs) = any (r x) xs || any_pair r xs

  abbrev pub flat_map {κ} : {B : Type κ} → (B → List A) → List B → List A
  flat_map f [] = []
  flat_map f (x ∷ xs) = f x ++ flat_map f xs

  -- `f(xs[i], xs[i + 1])` for every i.
  abbrev pub any_adjacent : (A → A → Bool) → List A → Bool
  any_adjacent r [] = false
  any_adjacent r (x ∷ []) = false
  any_adjacent r (x ∷ y ∷ ys) = r x y || any_adjacent r (y ∷ ys)

  -- A loop that updates a variable.
  abbrev pub fold {κ} : {S : Type κ} → (S → A → S) → S → List A → S
  fold f s [] = s
  fold f s (x ∷ xs) = fold f (f s x) xs

  abbrev pub All {κ} : (A → Type κ) → List A → Type κ
  All P [] = Unit
  All P (x ∷ xs) = P x × All P xs

  pub All-append {κ} : (P : A → Type κ) (xs ys : List A) → All P xs → All P ys → All P (xs ++ ys)
  All-append P [] ys h k = k
  All-append P (x ∷ xs) ys (p, h) k = (p, All-append P xs ys h k)

  pub All-map {κ μ} :
      {P : A → Type κ} {Q : A → Type μ}
      → ((x : A) → P x → Q x)
      → (xs : List A) → All P xs
      → All Q xs
  All-map f [] h = tt
  All-map f (x ∷ xs) (p, h) = (f x p, All-map f xs h)

  pub All-intro {κ} : {P : A → Type κ} → ((x : A) → P x) → (xs : List A) → All P xs
  All-intro f [] = tt
  All-intro f (x ∷ xs) = (f x, All-intro f xs)

  pub All-append_inv {κ} :
      (P : A → Type κ) (xs ys : List A) → All P (xs ++ ys) → All P xs × All P ys
  All-append_inv P [] ys h = (tt, h)
  All-append_inv P (x ∷ xs) ys (p, h) = let (k, l) = All-append_inv P xs ys h in ((p, k), l)

  pub All-filter {κ} :
      (P : A → Type κ) (p : A → Bool) (xs : List A) → All P xs → All P (filter p xs)
  All-filter P p [] h = tt
  All-filter P p (x ∷ xs) (q, h) = keep (p x) (All-filter P p xs h)
    where
      keep : (b : Bool) → All P (filter p xs) → All P (if b then x ∷ filter p xs else filter p xs)
      keep true rest = (q, rest)
      keep false rest = rest

  -- Every element is found by a reflexive test.
  pub All-self :
      (p : A → A → Bool)
      → ((x : A) → p x x ≡ true)
      → (xs : List A) → All (λ x. any (λ y. p y x) xs ≡ true) xs
  All-self p h [] = tt
  All-self p h (x ∷ xs) =
      (ground (arith, h x), All-map (λ y k. ground (arith, k)) xs (All-self p h xs))

  pub any-append : (p : A → Bool) (xs ys : List A) → any p (xs ++ ys) ≡ (any p xs || any p ys)
  any-append p [] ys = refl
  any-append p (x ∷ xs) ys = ground (arith, any-append p xs ys)

  pub any_never : (xs : List A) → any (λ x. false) xs ≡ false
  any_never [] = refl
  any_never (x ∷ xs) = any_never xs

  pub any_or : (p q : A → Bool) (xs : List A) → any (λ x. p x || q x) xs ≡ (any p xs || any q xs)
  any_or p q [] = refl
  any_or p q (x ∷ xs) = ground (arith, any_or p q xs)

  pub any_congr : (p q : A → Bool) → ((x : A) → p x ≡ q x) → (xs : List A) → any p xs ≡ any q xs
  any_congr p q h [] = refl
  any_congr p q h (x ∷ xs) = ground (arith, h x, any_congr p q h xs)

  pub length-append : (xs ys : List A) → length (xs ++ ys) ≡ length xs + length ys
  length-append [] ys = omega arith
  length-append (x ∷ xs) ys = omega (arith, length-append xs ys)

module _ {ℓ κ μ} {A : Type ℓ} {B : Type κ} (P : A → Type μ) (f : B → List A) where
  pub All-flat_map : (xs : List B) → All P (flat_map f xs) → All (λ x. All P (f x)) xs
  All-flat_map [] h = tt
  All-flat_map (x ∷ xs) h =
      let (here, later) = All-append_inv P (f x) (flat_map f xs) h in (here, All-flat_map xs later)

  pub All-flat_map_intro : (xs : List B) → All (λ x. All P (f x)) xs → All P (flat_map f xs)
  All-flat_map_intro [] h = tt
  All-flat_map_intro (x ∷ xs) (p, h) =
      All-append P (f x) (flat_map f xs) p (All-flat_map_intro xs h)

module _ {ℓ κ} {A : Type ℓ} {B : Type κ} (p : A → Bool) (f : B → List A) where
  pub any-flat_map : (xs : List B) → any p (flat_map f xs) ≡ any (λ x. any p (f x)) xs
  any-flat_map [] = refl
  any-flat_map (x ∷ xs) = ground (arith, any-append p (f x) (flat_map f xs), any-flat_map xs)

module _ {ℓ} {A : Type ℓ} where
  -- A write out of bounds changes nothing.
  abbrev pub set : List A → ℕ → A → List A
  set [] i v = []
  set (x ∷ xs) zero v = v ∷ xs
  set (x ∷ xs) (suc i) v = x ∷ set xs i v

  pub length-set : (xs : List A) (i : ℕ) (v : A) → length (set xs i v) ≡ length xs
  length-set [] i v = refl
  length-set (x ∷ xs) zero v = refl
  length-set (x ∷ xs) (suc i) v = ap suc (length-set xs i v)

  pub get_elem?-set_self :
      (xs : List A) (i : ℕ) (v w : A) → get_elem? xs i ≡ some w → get_elem? (set xs i v) i ≡ some v
  get_elem?-set_self [] i v w h = cc
  get_elem?-set_self (x ∷ xs) zero v w h = refl
  get_elem?-set_self (x ∷ xs) (suc i) v w h = get_elem?-set_self xs i v w h

  pub get_elem?-set_ne :
      (xs : List A) (i j : ℕ) (v : A) → i ≢ j → get_elem? (set xs i v) j ≡ get_elem? xs j
  get_elem?-set_ne [] i j v h = refl
  get_elem?-set_ne (x ∷ xs) zero zero v h = absurd (h refl)
  get_elem?-set_ne (x ∷ xs) zero (suc j) v h = refl
  get_elem?-set_ne (x ∷ xs) (suc i) zero v h = refl
  get_elem?-set_ne (x ∷ xs) (suc i) (suc j) v h = get_elem?-set_ne xs i j v (λ e. h (ap suc e))

  pub take-append-drop : (n : ℕ) (xs : List A) → take n xs ++ drop n xs ≡ xs
  take-append-drop zero xs = refl
  take-append-drop (suc n) [] = refl
  take-append-drop (suc n) (x ∷ xs) = ap (λ ys. x ∷ ys) (take-append-drop n xs)

module _ {ℓ} {A : Type ℓ} where
  pub length-drop : (n : ℕ) (xs : List A) → length (drop n xs) ≡ length xs - n
  length-drop zero xs = omega arith
  length-drop (suc n) [] = omega arith
  length-drop (suc n) (x ∷ xs) = omega (arith, length-drop n xs)

  pub length_zero : (xs : List A) → length xs ≡ 0 → xs ≡ []
  length_zero [] h = refl
  length_zero (x ∷ xs) h = ground (arith, h)

pub length-map {ℓ κ} :
    {A : Type ℓ} {B : Type κ} (f : A → B) (xs : List A) → length (map f xs) ≡ length xs
length-map f [] = refl
length-map f (x ∷ xs) = omega (arith, length-map f xs)
