-- ===== src/Optimistic/Written.antt =====
-- optimistic.ts: what is found after a write to an object.
use bracket.Base.{
  ℕ, ◌≡◌, ◌≢◌, sym, ◌∙◌, List, [], ◌∷◌, Option, some, inl, inr, Option-cases, get_elem?, All,
  get_elem?-set_self, get_elem?-set_ne,
}
use bracket.Base.Int.{ℤ}
use bracket.Conflicts.{ConflictMatch}
use bracket.Optimistic.{Store, write}

pub get_elem?-write_ne :
    (ref j : ℕ) (court_id : Option ℕ) (start_time : Option ℤ) (store : Store)
    → ref ≢ j
    → get_elem? (write ref court_id start_time store) j ≡ get_elem? store j
unfolding write
get_elem?-write_ne ref j court_id start_time store h = elim (Option-cases (get_elem? store ref)) [
  | inl e ↦ rw (e, write)
  | inr (m, e) ↦ rw (e, write) (get_elem?-set_ne store ref j _ h)
]

pub get_elem?-write_self :
    (ref : ℕ) (court_id : Option ℕ) (start_time : Option ℤ) (store : Store) (m : ConflictMatch)
    → get_elem? store ref ≡ some m
    → get_elem? (write ref court_id start_time store) ref
      ≡ some (record m { court_id = court_id; start_time = start_time })
unfolding write
get_elem?-write_self ref court_id start_time store m e =
    rw (e, write) (get_elem?-set_self store ref _ m e)

-- The references lead to objects.
abbrev pub InStore : Store → List ℕ → Type 0
InStore store = All (λ ref. (m : ConflictMatch) × (get_elem? store ref ≡ some m))

pub write-InStore :
    (ref : ℕ) (court_id : Option ℕ) (start_time : Option ℤ) (store : Store) (refs : List ℕ)
    → All (λ y. y ≢ ref) refs
    → InStore store refs
    → InStore (write ref court_id start_time store) refs
write-InStore ref court_id start_time store [] n h = tt
write-InStore ref court_id start_time store (r ∷ rs) (n, ns) ((m, e), h) = (
  (m, get_elem?-write_ne ref r court_id start_time store (λ same. n (sym same)) ∙ e),
  write-InStore ref court_id start_time store rs ns h,
)
