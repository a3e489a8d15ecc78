-- ===== src/Conflicts/Marks.antt =====
-- conflicts.ts: when a description of flags is empty. `Marks P c` says that the flags of P, over all
-- matches and keys, are all false exactly when the condition c is.
use bracket.Base.{
  ℕ, ◌≡◌, refl, Bool, true, false, ◌&&◌, ◌||◌, List, [], ◌∷◌, Option, none, some, arith, ◌==◌,
  ==_iff, any, any_pair, any_adjacent, ◌↔◌, ◌∙◌, sym,
}
use bracket.Conflicts.Flags.{FlagKey, some_is, key_eq}

pub key_eq_refl : (k : FlagKey) → key_eq k k ≡ true
unfolding key_eq
key_eq_refl k = ground arith

abbrev pub Never : (ℕ → FlagKey → Bool) → Type 0
Never P = (j : ℕ) (k : FlagKey) → P j k ≡ false

abbrev pub Marks : (ℕ → FlagKey → Bool) → Bool → Type 0
Marks P c = (c ≡ false) ↔ Never P

pub Marks-never : Marks (λ j k. false) false
Marks-never = (λ e j k. refl, λ h. refl)

pub Marks-mark : (id : ℕ) (key : FlagKey) → Marks (λ j k. id == j && key_eq key k) true
Marks-mark id key = (λ e. absurd (cc), λ h. ground (arith, h id key, key_eq_refl key, ==_iff id id))

pub Marks-or :
    (P Q : ℕ → FlagKey → Bool) (a b : Bool)
    → Marks P a
    → Marks Q b
    → Marks (λ j k. P j k || Q j k) (a || b)
Marks-or P Q true b p q = (λ e. absurd (cc), λ h. p.1 (λ j k. ground (arith, h j k)))
Marks-or P Q false b p q =
    (λ e j k. ground (arith, p.0 refl j k, q.0 e j k), λ h. q.1 (λ j k. ground (arith, h j k)))

pub Marks-and :
    (b : Bool) (P : ℕ → FlagKey → Bool) (a : Bool) → Marks P a → Marks (λ j k. b && P j k) (b && a)
Marks-and true P a p = p
Marks-and false P a p = Marks-never

-- A condition whose flags it always has.
pub Marks-when : (b : Bool) (P : ℕ → FlagKey → Bool) → Marks P true → Marks (λ j k. b && P j k) b
Marks-when true P p = p
Marks-when false P p = Marks-never

pub Marks-congr :
    (P Q : ℕ → FlagKey → Bool) (a b : Bool)
    → ((j : ℕ) (k : FlagKey) → P j k ≡ Q j k)
    → a ≡ b
    → Marks P a
    → Marks Q b
Marks-congr P Q a b e f p =
    (λ g j k. ground (arith, e j k, p.0 (f ∙ g) j k), λ h. sym f ∙ p.1 (λ j k. e j k ∙ h j k))

module _ {ℓ} {A : Type ℓ} (P : A → ℕ → FlagKey → Bool) (c : A → Bool)
    (h : (x : A) → Marks (P x) (c x)) where
  pub Marks-some_is : (o : Option A) → Marks (λ j k. some_is (λ a. P a j k) o) (some_is c o)
  Marks-some_is none = Marks-never
  Marks-some_is (some a) = h a

  pub Marks-any : (xs : List A) → Marks (λ j k. any (λ x. P x j k) xs) (any c xs)
  Marks-any [] = Marks-never
  Marks-any (x ∷ xs) = Marks-or (P x) _ (c x) (any c xs) (h x) (Marks-any xs)

module _ {ℓ} {A : Type ℓ} (P : A → A → ℕ → FlagKey → Bool) (c : A → A → Bool)
    (h : (x y : A) → Marks (P x y) (c x y)) where
  pub Marks-any_pair : (xs : List A) → Marks (λ j k. any_pair (λ x y. P x y j k) xs) (any_pair c xs)
  Marks-any_pair [] = Marks-never
  Marks-any_pair (x ∷ xs) =
      Marks-or _ _ (any (c x) xs) (any_pair c xs) (Marks-any (P x) (c x) (h x) xs)
        (Marks-any_pair xs)

  pub Marks-any_adjacent :
      (xs : List A) → Marks (λ j k. any_adjacent (λ x y. P x y j k) xs) (any_adjacent c xs)
  Marks-any_adjacent [] = Marks-never
  Marks-any_adjacent (x ∷ []) = Marks-never
  Marks-any_adjacent (x ∷ y ∷ ys) =
      Marks-or (P x y) _ (c x y) (any_adjacent c (y ∷ ys)) (h x y) (Marks-any_adjacent (y ∷ ys))
