-- ===== src/TemplateWizard.antt =====
-- frontend/src/utils/template_wizard_preview.ts: what a tournament template will contain.
pub mod Counts
mod Tests
use bracket.Base.{
  ℕ, zero, suc, ◌+◌, ◌-◌, ◌*◌, ◌/◌, ◌%◌, ◌==◌, ◌&&◌, Bool, true, false, List, [], ◌∷◌, ◌++◌, Option,
  none, some, ltb, leb, if◌then◌else◌, length, get_elem?,
}

pub data Groups : Type 0 where
  two three four : Groups

abbrev pub number : Groups → ℕ
number two = 2
number three = 3
number four = 4

pub max_until_rank_for_template : Groups → ℕ → ℕ
max_until_rank_for_template four total_teams = 8
max_until_rank_for_template three total_teams = 4
max_until_rank_for_template two total_teams = total_teams / 2 * 2

-- None stands for 'all'.
pub resolve_until_rank : Option ℕ → Groups → ℕ → ℕ
unfolding max_until_rank_for_template
resolve_until_rank none groups total_teams = max_until_rank_for_template groups total_teams
resolve_until_rank (some until_rank) groups total_teams = until_rank

-- The elements of `Array.from` from index `i` on.
pub counts_from : (base remainder i n : ℕ) → List ℕ
counts_from base remainder i zero = []
counts_from base remainder i (suc n) =
    (base + (if ltb i remainder then 1 else 0)) ∷ counts_from base remainder (suc i) n

pub group_team_counts : ℕ → Groups → List ℕ
unfolding counts_from
group_team_counts total_teams groups =
    counts_from (total_teams / number groups) (total_teams % number groups) 0 (number groups)

-- `place n` stands for the text 'nth Place', for 3 '3rd Place'.
pub data Label : Type 0 where
  semi_final_a semi_final_b final : Label
  semi_5_to_8_a semi_5_to_8_b : Label
  place : ℕ → Label

-- `i < placeNames.length ? placeNames[i] : ...`
name_or : List Label → ℕ → Label → Label
name_or names i other = elim (get_elem? names i) [ none ↦ other | some name ↦ name ]

-- The loop over the positions from 3 on, with `n` positions left.
pub position_labels : (position n resolved_until_rank : ℕ) → List Label
unfolding name_or
position_labels position zero resolved_until_rank = []
position_labels position (suc n) resolved_until_rank =
    let rest = position_labels (suc position) n resolved_until_rank in
    let rank = 4 + (position - 2) * 2 in
    if ltb resolved_until_rank rank
    then []
    else name_or (place 5 ∷ place 7 ∷ place 9 ∷ place 11 ∷ []) (position - 3) (place (rank - 1))
      ∷ rest

-- The loop over the ranks, with `n` rounds left.
pub rank_labels : (i n resolved_until_rank : ℕ) → List Label
unfolding name_or
rank_labels i zero resolved_until_rank = []
rank_labels i (suc n) resolved_until_rank =
    let rest = rank_labels (suc i) n resolved_until_rank in
    let rank = (i + 1) * 2 in
    if ltb resolved_until_rank rank
    then []
    else name_or (final ∷ place 3 ∷ place 5 ∷ place 7 ∷ []) i (place (rank - 1)) ∷ rest

pub knockout_match_labels : Groups → ℕ → Bool → ℕ → List Label
unfolding position_labels rank_labels
knockout_match_labels three total_teams include_semi_final resolved_until_rank =
    (semi_final_a ∷ semi_final_b ∷ final ∷ [])
    ++ (if leb 4 resolved_until_rank then place 3 ∷ [] else [])
knockout_match_labels four total_teams include_semi_final resolved_until_rank =
    (semi_final_a ∷ semi_final_b ∷ final ∷ [])
    ++ (if leb 4 resolved_until_rank then place 3 ∷ [] else [])
    ++ (if leb 6 resolved_until_rank then semi_5_to_8_a ∷ semi_5_to_8_b ∷ place 5 ∷ [] else [])
    ++ (if leb 8 resolved_until_rank then place 7 ∷ [] else [])
knockout_match_labels two total_teams true resolved_until_rank =
    (semi_final_a ∷ semi_final_b ∷ final ∷ [])
    ++ (if leb 4 resolved_until_rank then place 3 ∷ [] else [])
    ++ position_labels 3 (total_teams / 2 - 2) resolved_until_rank
knockout_match_labels two total_teams false resolved_until_rank =
    rank_labels 0 (total_teams / 2) resolved_until_rank

pub data Suffix : Type 0 where
  st nd rd th : Suffix

last_digit_suffix : ℕ → Suffix
last_digit_suffix d = if d == 1 then st else if d == 2 then nd else if d == 3 then rd else th

pub english_ordinal_suffix : ℕ → Suffix
unfolding last_digit_suffix
english_ordinal_suffix n =
    if leb 11 (n % 100) && leb (n % 100) 13 then th else last_digit_suffix (n % 10)

-- The loop `for (r; r <= maxRank; r += 2)`, with `n` rounds left.
even_ranks_from : (r n : ℕ) → List ℕ
even_ranks_from r zero = []
even_ranks_from r (suc n) = r ∷ even_ranks_from (r + 2) n

pub even_rank_options : ℕ → List ℕ
unfolding even_ranks_from
even_rank_options max_rank = even_ranks_from 2 (max_rank / 2)
