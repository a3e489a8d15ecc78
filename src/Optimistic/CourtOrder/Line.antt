-- ===== src/Optimistic/CourtOrder/Line.antt =====
-- optimistic.ts, selection.ts: putting an element at a line between the others of a list.
use bracket.Base.{
  ℕ, zero, suc, ◌+◌, ◌-◌, ◌≤◌, ◌≡◌, ◌≢◌, refl, sym, ap, ◌∙◌, false, List, [], ◌∷◌, ◌++◌, some,
  arith, ◌⊎◌, ltb, ◌==◌, ==_iff, if◌then◌else◌, min, length, length-append, get_elem?, take, drop,
  take-append-drop, All,
}
use bracket.Base.Order.{Distinct}
use bracket.Base.Unique.{includes}
use bracket.Optimistic.CourtOrder.{without, insert_at}

-- The others above the line, the element, and the others below the line.
abbrev pub drop_at : ℕ → ℕ → List ℕ → List ℕ
drop_at i ref refs = without ref (take i refs) ++ ref ∷ without ref (drop i refs)

without-append :
    (ref : ℕ) (xs ys : List ℕ) → without ref (xs ++ ys) ≡ without ref xs ++ without ref ys
without-append ref [] ys = refl
without-append ref (x ∷ xs) ys = ground (arith, without-append ref xs ys)

insertion_behind :
    (ref : ℕ) (xs ys : List ℕ)
    → take (length xs) (xs ++ ys) ++ ref ∷ drop (length xs) (xs ++ ys) ≡ xs ++ ref ∷ ys
insertion_behind ref [] ys = refl
insertion_behind ref (x ∷ xs) ys = ap (λ l. x ∷ l) (insertion_behind ref xs ys)

-- A position among the others is a line with so many of them above it.
pub insert_at-drop_at :
    (n i ref : ℕ) (refs : List ℕ)
    → n ≡ length (without ref (take i refs))
    → insert_at n ref (without ref refs) ≡ drop_at i ref refs
insert_at-drop_at n i ref refs e =
    let above = without ref (take i refs) in
    let below = without ref (drop i refs) in
    let split : without ref refs ≡ above ++ below =
      ap (without ref) (sym (take-append-drop i refs))
      ∙ without-append ref (take i refs) (drop i refs) in
    let index : min n (length (above ++ below)) ≡ length above =
      omega (arith, e, length-append above below) in
    rw split (rw index (insertion_behind ref above below))

pub without_absent : (ref : ℕ) (xs : List ℕ) → includes xs ref ≡ false → without ref xs ≡ xs
without_absent ref [] h = refl
without_absent ref (x ∷ xs) h = ground (arith, h, without_absent ref xs)

pub above_absent :
    (ref i : ℕ) (refs : List ℕ)
    → includes refs ref ≡ false
    → i ≤ length refs
    → length (without ref (take i refs)) ≡ i
above_absent ref zero refs h le = refl
above_absent ref (suc i) [] h le = absurd (omega (arith, le))
above_absent ref (suc i) (x ∷ xs) h le =
    let ih : length (without ref (take i xs)) ≡ i =
      above_absent ref i xs (ground (arith, h)) (omega (arith, le)) in
    ground (arith, h, ih)

absent : (x : ℕ) (xs : List ℕ) → All (λ y. y ≢ x) xs → includes xs x ≡ false
absent x [] h = refl
absent x (y ∷ ys) (n, ns) = ground (arith, absent x ys ns, n, ==_iff y x)

All-get_elem? :
    (x : ℕ) (xs : List ℕ) (p ref : ℕ)
    → All (λ y. y ≢ x) xs
    → get_elem? xs p ≡ some ref
    → (x == ref) ≡ false
All-get_elem? x [] p ref h e = ground (arith, e)
All-get_elem? x (y ∷ ys) zero ref (n, ns) e =
    let same : y ≡ ref = ground (arith, e) in ground (arith, n, same)
All-get_elem? x (y ∷ ys) (suc p) ref (n, ns) e = All-get_elem? x ys p ref ns e

-- The number of the others above a line.
pub above_present :
    (ref p i : ℕ) (refs : List ℕ)
    → Distinct refs
    → get_elem? refs p ≡ some ref
    → i ≤ length refs
    → length (without ref (take i refs)) ≡ (if ltb p i then i - 1 else i)
above_present ref p zero refs d e le = ground arith
above_present ref p (suc i) [] d e le = absurd (omega (arith, le))
above_present ref zero (suc i) (x ∷ xs) (n, d) e le =
    let same : x ≡ ref = ground (arith, e) in
    let apart : includes xs ref ≡ false = rw (← same) (absent x xs n) in
    let rest : length (without ref (take i xs)) ≡ i =
      above_absent ref i xs apart (omega (arith, le)) in
    ground (arith, same, rest)
above_present ref (suc p) (suc i) (x ∷ xs) (n, d) e le =
    let other : (x == ref) ≡ false = All-get_elem? x xs p ref n e in
    let rest : length (without ref (take i xs)) ≡ (if ltb p i then i - 1 else i) =
      above_present ref p i xs d e (omega (arith, le)) in
    ground (arith, other, rest)

-- The lines next to an element are its own place.
pub drop_at_own :
    (ref p i : ℕ) (refs : List ℕ)
    → Distinct refs
    → get_elem? refs p ≡ some ref
    → (i ≡ p) ⊎ (i ≡ p + 1)
    → drop_at i ref refs ≡ refs
drop_at_own ref p i [] d e h = ground (arith, e)
drop_at_own ref zero zero (x ∷ xs) (n, d) e h =
    let same : x ≡ ref = ground (arith, e) in
    let apart : includes xs ref ≡ false = rw (← same) (absent x xs n) in
    ground (arith, same, without_absent ref xs apart)
drop_at_own ref zero (suc zero) (x ∷ xs) (n, d) e h =
    let same : x ≡ ref = ground (arith, e) in
    let apart : includes xs ref ≡ false = rw (← same) (absent x xs n) in
    ground (arith, same, without_absent ref xs apart)
drop_at_own ref zero (suc (suc i)) (x ∷ xs) (n, d) e h = absurd (omega (arith, h))
drop_at_own ref (suc p) zero (x ∷ xs) (n, d) e h = absurd (omega (arith, h))
drop_at_own ref (suc p) (suc i) (x ∷ xs) (n, d) e h =
    let other : (x == ref) ≡ false = All-get_elem? x xs p ref n e in
    let near : (i ≡ p) ⊎ (i ≡ p + 1) = ground (arith, h) in
    rw other (ap (λ l. x ∷ l) (drop_at_own ref p i xs d e near))
