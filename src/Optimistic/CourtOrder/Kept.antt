-- ===== src/Optimistic/CourtOrder/Kept.antt =====
-- optimistic.ts: members of an order, and what a write to the schedule keeps of an object.
use bracket.Base.{
  ℕ, zero, suc, ◌<◌, ◌≡◌, ◌≢◌, refl, sym, ap, ◌∙◌, false, ◌||◌, List, [], ◌∷◌, ◌++◌, map, Option,
  none, some, arith, ==_iff, ◌==◌, get_elem?, take, drop, All,
}
use mathlib.Core.Option
use bracket.Base.Unique.{includes}
use bracket.Conflicts.{ConflictMatch}
use bracket.Optimistic.{Store, places}
use bracket.Optimistic.Frame.{unplaced}
use bracket.Optimistic.CourtOrder.Strict.{TakesTime}

pub includes-insertion :
    (i ref : ℕ) (xs : List ℕ) (j : ℕ)
    → includes (take i xs ++ ref ∷ drop i xs) j ≡ (includes xs j || ref == j)
includes-insertion zero ref xs j = ground arith
includes-insertion (suc i) ref [] j = ground arith
includes-insertion (suc i) ref (x ∷ xs) j = ground (arith, includes-insertion i ref xs j)

pub apart : (xs : List ℕ) (j : ℕ) → includes xs j ≡ false → All (λ r. r ≢ j) xs
apart [] j h = tt
apart (x ∷ xs) j h = (λ e. ground (arith, h, (==_iff x j).1 e), apart xs j (ground (arith, h)))

get_elem?-map {ℓ κ} :
    {A : Type ℓ} {B : Type κ} (f : A → B) (xs : List A) (i : ℕ)
    → get_elem? (map f xs) i ≡ Option.map f (get_elem? xs i)
get_elem?-map f [] i = refl
get_elem?-map f (x ∷ xs) zero = refl
get_elem?-map f (x ∷ xs) (suc i) = get_elem?-map f xs i

-- Durations are kept by what changes only courts and starts.
pub TakesTime-unplaced :
    (before after : Store)
    → map unplaced after ≡ map unplaced before
    → TakesTime before
    → TakesTime after
TakesTime-unplaced before after e t ref m found = kept (get_elem? before ref) refl (
    sym (get_elem?-map unplaced after ref)
    ∙ ap (λ l. get_elem? l ref) e
    ∙ get_elem?-map unplaced before ref)
  where
    kept :
        (o : Option ConflictMatch)
        → get_elem? before ref ≡ o
        → Option.map unplaced (get_elem? after ref) ≡ Option.map unplaced o
        → 0 < m.duration_minutes
    kept none f same =
        let no : some (unplaced m) ≡ none = sym (ap (Option.map unplaced) found) ∙ same in
        ground (arith, no)
    kept (some n) f same =
        let both : some (unplaced m) ≡ some (unplaced n) =
          sym (ap (Option.map unplaced) found) ∙ same in
        let objects : unplaced m ≡ unplaced n = ground (arith, both) in
        let durations : m.duration_minutes ≡ n.duration_minutes =
          ap (λ x. x.duration_minutes) objects in
        omega (arith, t ref n f, durations)

pub places-unplaced :
    (i : ℕ) (after before : Store)
    → map unplaced after ≡ map unplaced before
    → places i after ≡ places i before
places-unplaced i after before e = sym (places-map i after) ∙ ap (places i) e ∙ places-map i before
  where
    places-map : (i : ℕ) (store : Store) → places i (map unplaced store) ≡ places i store
    places-map i [] = refl
    places-map i (m ∷ ms) = ap (λ l. i ∷ l) (places-map (suc i) ms)
