-- ===== src/Optimistic/CourtOrder.antt =====
-- optimistic.ts: the schedule as the order of each court, a list of references to its objects, and
-- what a placement does to it: an abstract view that forgets the start times.
pub mod Members
pub mod Strict
pub mod Without
pub mod Kept
pub mod Line
pub mod ById
pub mod Tap
pub mod Refines
use bracket.Base.{
  ℕ, ◌≡◌, List, [], ◌∷◌, ◌++◌, none, some, not, ◌==◌, if◌then◌else◌, filter, length, min, take,
  drop, get_elem?,
}
use bracket.Base.Int.{ℤ}
use bracket.Conflicts.{ConflictMatch}
use bracket.Optimistic.{Store, scheduled_on_court}

abbrev pub Orders : Type 0
Orders = ℕ → List ℕ

abbrev pub without : ℕ → List ℕ → List ℕ
without ref refs = filter (λ r. not (r == ref)) refs

-- The list with the reference at a position, or at the end if it is shorter.
abbrev pub insert_at : ℕ → ℕ → List ℕ → List ℕ
insert_at position ref refs =
    take (min position (length refs)) refs ++ ref ∷ drop (min position (length refs)) refs

-- The object leaves its court and takes a place among the others of the new one.
abbrev pub move_to : ℕ → ℕ → ℕ → Orders → Orders
move_to court_id position ref orders c =
    if c == court_id
    then insert_at position ref (without ref (orders c))
    else without ref (orders c)

-- The orders of the courts of a store.
abbrev pub orders_of : ℤ → ℕ → Store → Orders
orders_of tournament_start default_break_minutes store c =
    scheduled_on_court tournament_start default_break_minutes c none store

-- No two objects have one id.
abbrev pub UniqueIds : Store → Type 0
UniqueIds store =
    (i j : ℕ) (m n : ConflictMatch)
    → get_elem? store i ≡ some m
    → get_elem? store j ≡ some n
    → m.id ≡ n.id
    → i ≡ j
