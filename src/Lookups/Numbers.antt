-- ===== src/Lookups/Numbers.antt =====
-- lookups.tsx: what the entries of the match lookup say.
use bracket.Base.{
  take, ap, length-append, All-map, ℕ, zero, suc, ◌+◌, ◌≡◌, refl, true, false, sym, ◌∙◌, is_some,
  List, [], ◌∷◌, Option, none, some, arith, All, All-append, All-flat_map_intro, get_elem?, drop,
  flat_map, length, any, any-append, any-flat_map, any_congr, ◌==◌,
}
use bracket.Base.Store.{get, get-put_all_at, has-put_all}
use bracket.Lookups.{
  all_items, all_matches, Match, Round, StageItem, Stage, MatchLookupEntry, round_entries,
  item_entries, match_entries, get_match_lookup,
}

module _ {ℓ} {A : Type ℓ} where
  drop-cons :
      (n : ℕ) (xs : List A) (y : A) (ys : List A)
      → drop n xs ≡ y ∷ ys
      → (get_elem? xs n ≡ some y) × (drop (suc n) xs ≡ ys)
  drop-cons zero [] y ys h = ground (arith, h)
  drop-cons zero (x ∷ xs) y ys h = ground (arith, h)
  drop-cons (suc n) [] y ys h = ground (arith, h)
  drop-cons (suc n) (x ∷ xs) y ys h = drop-cons n xs y ys h

  -- Every element stands somewhere in the list.
  All-placed : (xs : List A) → All (λ x. (i : ℕ) × (get_elem? xs i ≡ some x)) xs
  All-placed [] = tt
  All-placed (x ∷ xs) = ((0, refl), All-map (λ y (i, e). (suc i, e)) xs (All-placed xs))

-- The matches of the rounds in front of a round.
abbrev pub matches_before : List Round → ℕ → ℕ
matches_before rounds r = length (flat_map (λ round. round.matches) (take r rounds))

matches_before-suc :
    (rounds : List Round) (r : ℕ) (round : Round)
    → get_elem? rounds r ≡ some round
    → matches_before rounds (suc r) ≡ matches_before rounds r + length round.matches
matches_before-suc [] r round h = ground (arith, h)
matches_before-suc (x ∷ rounds) zero round h =
    let same : x ≡ round = ground (arith, h) in
    let count = length-append x.matches [] in
    rw same (omega (arith, length-append round.matches []))
matches_before-suc (x ∷ rounds) (suc r) round h =
    let front = flat_map (λ y. y.matches) (take r rounds) in
    let longer = flat_map (λ y. y.matches) (take (suc r) rounds) in
    let ih : length longer ≡ length front + length round.matches =
      matches_before-suc rounds r round h in
    omega (arith, ih, length-append x.matches front, length-append x.matches longer)

-- The entry is about a match with the id. It stands in the round, the round in the stage item, the
-- stage item in the stage and the stage in the list; the numbers count the match over the rounds of
-- its stage item and the round in it, from one.
pub record IsEntry (stages : List Stage) (id : ℕ) (e : MatchLookupEntry) : Type 0 where
  pub same_id : e.match_.id ≡ id
  pub stage_idx : ℕ
  pub in_stages : get_elem? stages stage_idx ≡ some e.stage
  pub item_idx : ℕ
  pub in_stage : get_elem? e.stage.stage_items item_idx ≡ some e.stage_item
  pub round_idx : ℕ
  pub in_item : get_elem? e.stage_item.rounds round_idx ≡ some e.round
  pub round_counted : e.round_number ≡ round_idx + 1
  pub match_idx : ℕ
  pub in_round : get_elem? e.round.matches match_idx ≡ some e.match_
  pub match_counted : e.match_number ≡ matches_before e.stage_item.rounds round_idx + match_idx + 1

module _ (stages : List Stage) (stage : Stage) (i : ℕ) (at_stage : get_elem? stages i ≡ some stage)
    (item : StageItem) (j : ℕ) (at_item : get_elem? stage.stage_items j ≡ some item) where
  round_entries-IsEntry :
      (n r k : ℕ) (round : Round) (ms : List Match)
      → n ≡ matches_before item.rounds r + k
      → drop k round.matches ≡ ms
      → get_elem? item.rounds r ≡ some round
      → All (λ e. IsEntry stages e.0 e.1) (round_entries stage item n (r + 1) round ms)
  unfolding round_entries
  round_entries-IsEntry n r k round [] e h at = tt
  round_entries-IsEntry n r k round (m ∷ ms) e h at =
      let (here, behind) = drop-cons k round.matches m ms h in
      let number : suc n ≡ matches_before item.rounds r + k + 1 = omega (arith, e) in
      (
        record {
          same_id = refl;
          stage_idx = i;
          in_stages = at_stage;
          item_idx = j;
          in_stage = at_item;
          round_idx = r;
          in_item = at;
          round_counted = refl;
          match_idx = k;
          in_round = here;
          match_counted = number;
        },
        round_entries-IsEntry (suc n) r (suc k) round ms (omega (arith, e)) behind at,
      )

  item_entries-IsEntry :
      (n r : ℕ) (rounds : List Round)
      → n ≡ matches_before item.rounds r
      → drop r item.rounds ≡ rounds
      → All (λ e. IsEntry stages e.0 e.1) (item_entries stage item n r rounds)
  unfolding item_entries
  item_entries-IsEntry n r [] e h = tt
  item_entries-IsEntry n r (round ∷ rounds) e h =
      let (here, behind) = drop-cons r item.rounds round rounds h in
      All-append (λ x. IsEntry stages x.0 x.1)
        (round_entries stage item n (r + 1) round round.matches)
        (item_entries stage item (n + length round.matches) (suc r) rounds)
        (round_entries-IsEntry n r 0 round round.matches (omega (arith, e)) refl here)
        (item_entries-IsEntry (n + length round.matches) (suc r) rounds
          (ap (λ l. l + length round.matches) e ∙ sym (matches_before-suc item.rounds r round here))
          behind)

match_entries-IsEntry :
    (stages : List Stage) → All (λ e. IsEntry stages e.0 e.1) (match_entries stages)
unfolding match_entries
match_entries-IsEntry stages =
    All-flat_map_intro (λ e. IsEntry stages e.0 e.1)
      (λ (stage : Stage).
        flat_map (λ item. item_entries stage item 0 0 item.rounds) stage.stage_items)
      stages
      (All-map
        (λ stage (i, at_stage).
          All-flat_map_intro (λ e. IsEntry stages e.0 e.1)
            (λ (item : StageItem). item_entries stage item 0 0 item.rounds) stage.stage_items
            (All-map
              (λ item (j, at_item).
                item_entries-IsEntry stages stage i at_stage item j at_item 0 0 item.rounds refl
                  refl)
              stage.stage_items (All-placed stage.stage_items)))
        stages (All-placed stages))

module _ (id : ℕ) where
  any-round_entries :
      (stage : Stage) (item : StageItem) (n r : ℕ) (round : Round) (ms : List Match)
      → any (λ e. e.0 == id) (round_entries stage item n r round ms) ≡ any (λ m. m.id == id) ms
  unfolding round_entries
  any-round_entries stage item n r round [] = refl
  any-round_entries stage item n r round (m ∷ ms) =
      ground (arith, any-round_entries stage item (suc n) r round ms)

  any-item_entries :
      (stage : Stage) (item : StageItem) (n idx : ℕ) (rounds : List Round)
      → any (λ e. e.0 == id) (item_entries stage item n idx rounds)
        ≡ any (λ m. m.id == id) (flat_map (λ r. r.matches) rounds)
  unfolding item_entries
  any-item_entries stage item n idx [] = refl
  any-item_entries stage item n idx (round ∷ rounds) = ground (
    arith,
    any-append (λ e. e.0 == id) (round_entries stage item n (idx + 1) round round.matches)
        (item_entries stage item (n + length round.matches) (suc idx) rounds),
    any-append (λ m. m.id == id) round.matches (flat_map (λ r. r.matches) rounds),
    any-round_entries stage item n (idx + 1) round round.matches,
    any-item_entries stage item (n + length round.matches) (suc idx) rounds,
  )

  any-match_entries :
      (stages : List Stage)
      → any (λ e. e.0 == id) (match_entries stages) ≡ any (λ m. m.id == id) (all_matches stages)
  unfolding match_entries all_matches all_items
  any-match_entries stages =
      any-flat_map (λ e. e.0 == id)
        (λ (stage : Stage).
          flat_map (λ item. item_entries stage item 0 0 item.rounds) stage.stage_items)
        stages
      ∙ any_congr _ _ in_stage stages
      ∙ sym (
          any-flat_map (λ item. any (λ m. m.id == id) (flat_map (λ r. r.matches) item.rounds))
            (λ stage. stage.stage_items) stages)
      ∙ sym (
          any-flat_map (λ m. m.id == id) (λ item. flat_map (λ r. r.matches) item.rounds)
            (all_items stages))
    where
      in_stage :
          (stage : Stage)
          → any
              (λ e. e.0 == id)
              (flat_map (λ item. item_entries stage item 0 0 item.rounds) stage.stage_items)
            ≡ any
                (λ item. any (λ m. m.id == id) (flat_map (λ r. r.matches) item.rounds))
                stage.stage_items
      in_stage stage =
          any-flat_map (λ e. e.0 == id) (λ item. item_entries stage item 0 0 item.rounds)
            stage.stage_items
          ∙ any_congr _ _ (λ item. any-item_entries stage item 0 0 item.rounds) stage.stage_items

-- No match of the stages has the id, or one has it and the entry is about it.
abbrev pub IsLookup : List Stage → ℕ → Option MatchLookupEntry → Type 0
IsLookup stages id none = any (λ m. m.id == id) (all_matches stages) ≡ false
IsLookup stages id (some e) =
    (any (λ m. m.id == id) (all_matches stages) ≡ true) × IsEntry stages id e

-- The match lookup has an entry under an id exactly if a match of the stages has the id, and the
-- entry is about such a match: it has the round in which the match stands, the stage item in which
-- the round stands, the stage in which the stage item stands, and this is one of the stages. The
-- number counts the match over the rounds of the stage item and the round number counts the round,
-- both from one.
pub get_match_lookup-IsLookup :
    (stages : List Stage) (id : ℕ) → IsLookup stages id (get id (get_match_lookup stages))
unfolding get_match_lookup get
get_match_lookup-IsLookup stages id = at (get id (get_match_lookup stages)) refl
  where
    has : is_some (get id (get_match_lookup stages)) ≡ any (λ m. m.id == id) (all_matches stages)
    has = has-put_all id (match_entries stages) [] ∙ any-match_entries id stages

    at : (o : Option MatchLookupEntry) → get id (get_match_lookup stages) ≡ o → IsLookup stages id o
    at none e = ground (arith, has, e)
    at (some x) e = (
      ground (arith, has, e),
      get-put_all_at (IsEntry stages) (match_entries stages) [] (match_entries-IsEntry stages)
          (λ k v h. absurd (cc h)) id x e,
    )
