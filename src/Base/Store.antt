-- ===== src/Base/Store.antt =====
-- A JavaScript `Map` with number keys, as an association list in insertion order.
use Prim.Native.Nat.{ℕ}
use mathlib.Core.Path.{◌≡◌, refl}
use mathlib.Core.Bool.{◌||◌}
use mathlib.Core.List.{List, [], ◌∷◌, ◌++◌}
use mathlib.Core.Option.{Option, none, some}
use native.Mathlib.Omega.{arith}
use mathlib.Core.Path.{subst}
use mathlib.Core.Logic.{inl, inr}
use bracket.Base.Lists.{All, All-append, any}
use bracket.Base.Tests.{◌==◌, if◌then◌else◌, Bool-cases, ==_iff, is_some}

module _ {ℓ} {V : Type ℓ} where
  -- `m.get(k)`
  unfoldable pub get : ℕ → List (ℕ × V) → Option V
  get k [] = none
  get k ((j, v) ∷ m) = if j == k then some v else get k m

  -- `m.set(k, v)`: a key keeps its place, a new one goes to the end.
  unfoldable pub put : ℕ → V → List (ℕ × V) → List (ℕ × V)
  put k v [] = (k, v) ∷ []
  put k v ((j, w) ∷ m) = if j == k then (k, v) ∷ m else (j, w) ∷ put k v m

  abbrev pub values : List (ℕ × V) → List V
  values [] = []
  values ((j, v) ∷ m) = v ∷ values m

  pub get-put :
      (k j : ℕ) (v : V) (m : List (ℕ × V))
      → get j (put k v m) ≡ (if k == j then some v else get j m)
  unfolding get put
  get-put k j v [] = refl
  get-put k j v ((i, w) ∷ m) = ground (arith, get-put k j v m)

  -- `new Map(entries)`, onto the map `m`.
  abbrev pub put_all : List (ℕ × V) → List (ℕ × V) → List (ℕ × V)
  put_all m [] = m
  put_all m ((k, v) ∷ es) = put_all (put k v m) es

  -- What holds of every entry put in holds of every key and value that are found.
  pub get-put_all_at {κ} :
      (P : ℕ → V → Type κ) (es m : List (ℕ × V))
      → All (λ e. P e.0 e.1) es
      → ((k : ℕ) (v : V) → get k m ≡ some v → P k v)
      → (k : ℕ) (v : V) → get k (put_all m es) ≡ some v
      → P k v
  get-put_all_at P [] m h g k v e = g k v e
  get-put_all_at P ((i, w) ∷ es) m (p, h) g k v e =
      get-put_all_at P es (put i w m) h (λ j u f. put_keeps j u f) k v e
    where
      put_keeps : (j : ℕ) (u : V) → get j (put i w m) ≡ some u → P j u
      put_keeps j u f = elim (Bool-cases (i == j)) [
        | inl same ↦
            let found : w ≡ u = ground (arith, get-put i j w m) in
            let at : i ≡ j = (==_iff i j).0 same in subst (P j) found (subst (λ l. P l w) at p)
        | inr other ↦ g j u (ground (arith, get-put i j w m))
      ]

  -- A key is found if it was there or was put in.
  pub has-put_all :
      (k : ℕ) (es m : List (ℕ × V))
      → is_some (get k (put_all m es)) ≡ (is_some (get k m) || any (λ e. e.0 == k) es)
  has-put_all k [] m = ground arith
  has-put_all k ((j, w) ∷ es) m = ground (arith, has-put_all k es (put j w m), get-put j k w m)

  -- What holds of every value put in holds of every value that is found.
  pub get-put_all {κ} :
      (P : V → Type κ) (es m : List (ℕ × V))
      → All (λ e. P e.1) es
      → ((k : ℕ) (v : V) → get k m ≡ some v → P v)
      → (k : ℕ) (v : V) → get k (put_all m es) ≡ some v
      → P v
  get-put_all P = get-put_all_at (λ k v. P v)

module _ {ℓ κ} {V : Type ℓ} (Q : V → Type κ) where
  put-All : (k : ℕ) (v : V) (m : List (ℕ × V)) → Q v → All Q (values m) → All Q (values (put k v m))
  unfolding put
  put-All k v [] q h = (q, tt)
  put-All k v ((j, w) ∷ m) q (p, h) = elim (Bool-cases (j == k)) [
    | inl same ↦ rw same (q, h)
    | inr other ↦ rw other (p, put-All k v m q h)
  ]

  pub get-All : (k : ℕ) (v : V) (m : List (ℕ × V)) → All Q (values m) → get k m ≡ some v → Q v
  unfolding get
  get-All k v [] h e = absurd (cc)
  get-All k v ((j, w) ∷ m) (p, h) e = elim (Bool-cases (j == k)) [
    | inl same ↦ let found : w ≡ v = ground arith in subst Q found p
    | inr other ↦ get-All k v m h (ground arith)
  ]

module _ {ℓ} {A : Type ℓ} where
  abbrev pub extend : Option (List A) → A → List A
  extend none x = x ∷ []
  extend (some xs) x = xs ++ x ∷ []

  -- `const xs = m.get(k); if (xs == null) m.set(k, [x]); else xs.push(x);`
  abbrev pub push : ℕ → A → List (ℕ × List A) → List (ℕ × List A)
  push k x m = put k (extend (get k m) x) m

  -- The entries grouped by their keys, onto the map `m`.
  abbrev pub push_all : List (ℕ × List A) → List (ℕ × A) → List (ℕ × List A)
  push_all m [] = m
  push_all m ((k, x) ∷ es) = push_all (push k x m) es

  push-All {κ} :
      (P : A → Type κ) (k : ℕ) (x : A) (m : List (ℕ × List A))
      → P x
      → All (All P) (values m)
      → All (All P) (values (push k x m))
  push-All P k x m p h = put-All (All P) k (extend (get k m) x) m (grown (get k m) refl) h
    where
      grown : (o : Option (List A)) → get k m ≡ o → All P (extend o x)
      grown none e = (p, tt)
      grown (some xs) e = All-append P xs (x ∷ []) (get-All (All P) k xs m h e) (p, tt)

  -- What holds of every entry holds in every group.
  pub push_all-All {κ} :
      (P : A → Type κ) (es : List (ℕ × A)) (m : List (ℕ × List A))
      → All (λ e. P e.1) es
      → All (All P) (values m)
      → All (All P) (values (push_all m es))
  push_all-All P [] m h g = g
  push_all-All P ((k, x) ∷ es) m (p, h) g = push_all-All P es (push k x m) h (push-All P k x m p g)

  pub push_all-append :
      (es fs : List (ℕ × A)) (m : List (ℕ × List A))
      → push_all m (es ++ fs) ≡ push_all (push_all m es) fs
  push_all-append [] fs m = refl
  push_all-append ((k, x) ∷ es) fs m = push_all-append es fs (push k x m)
