-- ===== src/TemplateWizard/Counts.antt =====
-- template_wizard_preview.ts: the sizes of the groups and the number of knockout matches.
use bracket.Base.{
  ℕ, zero, suc, none, ◌+◌, ◌-◌, ◌*◌, ◌/◌, ◌≤◌, ◌≡◌, true, false, List, [], ◌∷◌, arith, length, All,
  min,
}
use bracket.TemplateWizard.{
  Groups, two, three, four, number, counts_from, group_team_counts, rank_labels, position_labels,
  knockout_match_labels, resolve_until_rank, max_until_rank_for_template,
}

abbrev pub sum : List ℕ → ℕ
sum [] = 0
sum (x ∷ xs) = x + sum xs

-- Every team is in exactly one group, and the sizes of the groups differ by at most one.
pub group_team_counts-sum :
    (total_teams : ℕ) (groups : Groups)
    → (sum (group_team_counts total_teams groups) ≡ total_teams)
      × (length (group_team_counts total_teams groups) ≡ number groups)
      × All
          (λ n. (total_teams / number groups ≤ n) × (n ≤ total_teams / number groups + 1))
          (group_team_counts total_teams groups)
unfolding group_team_counts counts_from
group_team_counts-sum total_teams two = ground arith
group_team_counts-sum total_teams three = ground arith
group_team_counts-sum total_teams four = ground arith

length-rank_labels :
    (i n resolved_until_rank : ℕ)
    → length (rank_labels i n resolved_until_rank) ≡ min n (resolved_until_rank / 2 - i)
unfolding rank_labels
length-rank_labels i zero resolved_until_rank = omega arith
length-rank_labels i (suc n) resolved_until_rank =
    ground (arith, length-rank_labels (suc i) n resolved_until_rank)

length-position_labels :
    (position n resolved_until_rank : ℕ)
    → 2 ≤ position
    → length (position_labels position n resolved_until_rank)
      ≡ min n (resolved_until_rank / 2 - (position - 1))
unfolding position_labels
length-position_labels position zero resolved_until_rank h = omega arith
length-position_labels position (suc n) resolved_until_rank h =
    let rest = length-position_labels (suc position) n resolved_until_rank (omega (arith, h)) in
    ground (arith, rest, h)

-- Two groups of at least two teams each, played out to the last rank, without semi-finals lead to
-- one match for every two ranks, and with them to two matches more.
pub knockout_match_labels_all :
    (total_teams : ℕ)
    → 4 ≤ total_teams
    → let all = resolve_until_rank none two total_teams in
      (length (knockout_match_labels two total_teams false all) ≡ total_teams / 2)
      × (length (knockout_match_labels two total_teams true all) ≡ total_teams / 2 + 2)
unfolding knockout_match_labels resolve_until_rank max_until_rank_for_template
knockout_match_labels_all total_teams h = (
  omega (arith, length-rank_labels 0 (total_teams / 2) (total_teams / 2 * 2)),
  ground (
    arith,
    h,
    length-position_labels 3 (total_teams / 2 - 2) (total_teams / 2 * 2) (omega arith),
  ),
)
