-- ===== src/Conflicts/Flags.antt =====
-- conflicts.ts: the map of flags, the writes to it, and what a piece of code that only sets flags
-- leaves in the map. A `null` or `undefined` that is dereferenced throws.
use bracket.Base.{ℕ, Bool, true, false, List, [], ◌∷◌, Option, none, some, if◌then◌else◌, is_some}
use bracket.Base.Store.{get, put}

pub record ConflictFlags : Type 0 where
  pub stage_item_input1_conflict : Bool
  pub stage_item_input2_conflict : Bool
  pub precedence_conflict : Bool
  pub feeder_precedence_conflict : Bool
  pub short_break_conflict : Bool
  pub referee_conflict : Bool
  pub round_order_conflict : Bool

-- The fields of `ConflictFlags`.
pub data FlagKey : Type 0 where
  input1 input2 precedence feeder_precedence short_break referee_key round_order : FlagKey

abbrev pub empty_flags : ConflictFlags
empty_flags = record {
  stage_item_input1_conflict = false;
  stage_item_input2_conflict = false;
  precedence_conflict = false;
  feeder_precedence_conflict = false;
  short_break_conflict = false;
  referee_conflict = false;
  round_order_conflict = false;
}

unfoldable pub read : FlagKey → ConflictFlags → Bool
read input1 f = f.stage_item_input1_conflict
read input2 f = f.stage_item_input2_conflict
read precedence f = f.precedence_conflict
read feeder_precedence f = f.feeder_precedence_conflict
read short_break f = f.short_break_conflict
read referee_key f = f.referee_conflict
read round_order f = f.round_order_conflict

-- `f[key] = true`
unfoldable pub set_true : FlagKey → ConflictFlags → ConflictFlags
set_true input1 f = record f { stage_item_input1_conflict = true }
set_true input2 f = record f { stage_item_input2_conflict = true }
set_true precedence f = record f { precedence_conflict = true }
set_true feeder_precedence f = record f { feeder_precedence_conflict = true }
set_true short_break f = record f { short_break_conflict = true }
set_true referee_key f = record f { referee_conflict = true }
set_true round_order f = record f { round_order_conflict = true }

abbrev pub Flags : Type 0
Flags = List (ℕ × ConflictFlags)

-- What the engine can throw.
pub data Thrown : Type 0 where
  -- a field of `undefined` is written
  type_error : Thrown
  -- 'Playing window input does not belong to match'
  foreign_window : Thrown

pub data Result {ℓ} (A : Type ℓ) : Type ℓ where
  ok : A → Result A
  throws : Thrown → Result A

infixl 5 ◌>>=◌
abbrev pub ◌>>=◌ {ℓ κ} : {A : Type ℓ} {B : Type κ} → Result A → (A → Result B) → Result B
ok a >>= f = f a
throws e >>= f = throws e

-- A piece of code that reads and writes the flags.
abbrev pub Code : Type 0
Code = Flags → Result Flags

-- `flags.get(id)!.key = true`
unfoldable pub mark : FlagKey → ℕ → Code
mark key id flags = elim (get id flags) [
  | none ↦ throws type_error
  | some f ↦ ok (put id (set_true key f) flags)
]

-- One piece of code after another.
infixl 6 ◌>>>◌
abbrev pub ◌>>>◌ : Code → Code → Code
◌>>>◌ c d flags = c flags >>= d

-- `if (b) { … }`
abbrev pub when : Bool → Code → Code
when b c flags = if b then c flags else ok flags

module _ {ℓ} {A : Type ℓ} where
  -- `if (o == null) continue; …`
  abbrev pub for_some : Option A → (A → Code) → Code
  for_some none body = ok
  for_some (some a) body = body a

  -- `for (const x of xs) { … }`
  abbrev pub for_each : List A → (A → Code) → Code
  for_each [] body flags = ok flags
  for_each (x ∷ xs) body flags = body x flags >>= for_each xs body

  -- `for (i …) for (j = i + 1 …) { … }`
  abbrev pub for_pairs : List A → (A → A → Code) → Code
  for_pairs [] body flags = ok flags
  for_pairs (x ∷ xs) body flags = for_each xs (body x) flags >>= for_pairs xs body

  -- `for (let i = 0; i + 1 < xs.length; i += 1) { … xs[i] … xs[i + 1] … }`
  abbrev pub for_adjacent : List A → (A → A → Code) → Code
  for_adjacent [] body flags = ok flags
  for_adjacent (x ∷ []) body flags = ok flags
  for_adjacent (x ∷ y ∷ ys) body flags = body x y flags >>= for_adjacent (y ∷ ys) body

  -- `o != null && p(o)`
  abbrev pub some_is : (A → Bool) → Option A → Bool
  some_is p none = false
  some_is p (some a) = p a

unfoldable pub key_eq : FlagKey → FlagKey → Bool
key_eq input1 input1 = true
key_eq input2 input2 = true
key_eq precedence precedence = true
key_eq feeder_precedence feeder_precedence = true
key_eq short_break short_break = true
key_eq referee_key referee_key = true
key_eq round_order round_order = true
key_eq _ _ = false

-- The flag `key` of match `id`; false where the map has no entry.
abbrev pub flag_of : Flags → ℕ → FlagKey → Bool
flag_of flags id key = some_is (read key) (get id flags)

abbrev pub has : Flags → ℕ → Bool
has flags id = is_some (get id flags)
