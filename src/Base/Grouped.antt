-- ===== src/Base/Grouped.antt =====
-- Looking at the groups of a map is looking at the entries of every key that occurs.
use Prim.Native.Nat.{ℕ}
use mathlib.Core.Path.{◌≡◌, refl, sym, ap, ◌∙◌}
use mathlib.Core.Logic.{◌≢◌, ◌⊎◌, inl, inr}
use mathlib.Core.Bool.{Bool, true, false, ◌||◌}
use mathlib.Core.List.{List, [], ◌∷◌, ◌++◌, append_assoc, append-nil}
use mathlib.Core.Option.{Option, none, some}
use native.Mathlib.Omega.{arith}
use bracket.Base.Tests.{◌==◌, ==_iff, Bool-cases, if◌then◌else◌}
use bracket.Base.Lists.{any, any_congr, All, All-map}
use bracket.Base.Grouping.{group, group_at}
use bracket.Base.Keyed.{UniqueBy, any_congr_All}
use bracket.Base.Store.{get, put, get-put, values, extend, push, push_all}

module _ {ℓ} {A : Type ℓ} where
  -- The entries of a key.
  abbrev pub entries_of : ℕ → List (ℕ × A) → List A
  entries_of c [] = []
  entries_of c ((k, x) ∷ es) = if k == c then x ∷ entries_of c es else entries_of c es

  abbrev key : ℕ × List A → ℕ
  key e = e.0

  keys_other :
      (j k : ℕ) (v : List A) (m : List (ℕ × List A))
      → k ≢ j
      → All (λ e. key e ≢ j) m
      → All (λ e. key e ≢ j) (put k v m)
  unfolding put
  keys_other j k v [] n h = (n, tt)
  keys_other j k v ((i, w) ∷ m) n (p, h) = elim (Bool-cases (i == k)) [
    | inl e ↦ rw e (n, h)
    | inr e ↦ rw e (p, keys_other j k v m n h)
  ]

  put-UniqueBy :
      (k : ℕ) (v : List A) (m : List (ℕ × List A)) → UniqueBy key m → UniqueBy key (put k v m)
  unfolding put
  put-UniqueBy k v [] u = (tt, tt)
  put-UniqueBy k v ((i, w) ∷ m) (n, u) = elim (Bool-cases (i == k)) [
    | inl e ↦ let same : i ≡ k = (==_iff i k).0 e in rw e (rw same at n, u)
    | inr e ↦
        let other : k ≢ i = λ s. ground (arith, e, s) in
        rw e (keys_other i k v m other n, put-UniqueBy k v m u)
  ]

  push_all-UniqueBy :
      (es : List (ℕ × A)) (m : List (ℕ × List A)) → UniqueBy key m → UniqueBy key (push_all m es)
  push_all-UniqueBy [] m u = u
  push_all-UniqueBy ((k, x) ∷ es) m u =
      push_all-UniqueBy es (push k x m) (put-UniqueBy k (extend (get k m) x) m u)

  own_values :
      (q : List A → Bool) (m : List (ℕ × List A))
      → UniqueBy key m
      → any q (values m) ≡ any (λ e. q (group_at (key e) m)) m
  unfolding get
  own_values q [] u = refl
  own_values q ((k, v) ∷ m) (n, u) =
      let self : (k == k) ≡ true = (==_iff k k).1 refl in
      let later : any (λ e. q (group_at (key e) m)) m
          ≡ any (λ e. q (group_at (key e) ((k, v) ∷ m))) m =
        any_congr_All _ _ m (
          All-map (λ e d. let other : (k == key e) ≡ false = ground (arith, d) in rw other refl) m
            n) in
      rw self (ground (arith, own_values q m u, later))

  any_keys-put :
      (f : ℕ → Bool) (k : ℕ) (v : List A) (m : List (ℕ × List A))
      → any (λ e. f (key e)) (put k v m) ≡ (any (λ e. f (key e)) m || f k)
  unfolding put
  any_keys-put f k v [] = ground arith
  any_keys-put f k v ((j, w) ∷ m) = elim (Bool-cases (j == k)) [
    | inl e ↦ let same : j ≡ k = (==_iff j k).0 e in rw e (rw same (ground arith))
    | inr e ↦ rw e (ground (arith, any_keys-put f k v m))
  ]

  any_keys :
      (f : ℕ → Bool) (es : List (ℕ × A)) (m : List (ℕ × List A))
      → any (λ e. f (key e)) (push_all m es) ≡ (any (λ e. f (key e)) m || any (λ e. f e.0) es)
  any_keys f [] m = ground arith
  any_keys f ((k, x) ∷ es) m =
      ground (arith, any_keys f es (push k x m), any_keys-put f k (extend (get k m) x) m)

  extend-group : (o : Option (List A)) (x : A) → extend o x ≡ group o ++ x ∷ []
  extend-group none x = refl
  extend-group (some xs) x = refl

  group_at-push_all :
      (c : ℕ) (es : List (ℕ × A)) (m : List (ℕ × List A))
      → group_at c (push_all m es) ≡ group_at c m ++ entries_of c es
  group_at-push_all c [] m = sym (append-nil (group_at c m))
  group_at-push_all c ((k, x) ∷ es) m =
      group_at-push_all c es (push k x m) ∙ at (Bool-cases (k == c))
    where
      at :
          ((k == c) ≡ true) ⊎ ((k == c) ≡ false)
          → group_at c (push k x m) ++ entries_of c es ≡ group_at c m ++ entries_of c ((k, x) ∷ es)
      at (inl e) =
          let same : k ≡ c = (==_iff k c).0 e in
          let pushed : group_at c (push k x m) ≡ group_at c m ++ x ∷ [] =
            ap group (get-put k c (extend (get k m) x) m)
            ∙ ap (λ b. group (if b then some (extend (get k m) x) else get c m)) e
            ∙ extend-group (get k m) x
            ∙ ap (λ i. group_at i m ++ x ∷ []) same in
          rw (pushed, e) (append_assoc (group_at c m) (x ∷ []) (entries_of c es))
      at (inr e) =
          let kept : group_at c (push k x m) ≡ group_at c m =
            ap group (get-put k c (extend (get k m) x) m)
            ∙ ap (λ b. group (if b then some (extend (get k m) x) else get c m)) e in
          rw (kept, e) refl

  -- A test of the groups is a test of the entries of each key that an entry has.
  pub any-groups :
      (q : List A → Bool) (es : List (ℕ × A))
      → any q (values (push_all [] es)) ≡ any (λ e. q (entries_of e.0 es)) es
  unfolding get
  any-groups q es =
      own_values q (push_all [] es) (push_all-UniqueBy es [] tt)
      ∙ any_keys (λ k. q (group_at k (push_all [] es))) es []
      ∙ any_congr _ _ (λ e. ap q (group_at-push_all e.0 es [])) es
