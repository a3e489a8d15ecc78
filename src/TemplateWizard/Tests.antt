-- ===== src/TemplateWizard/Tests.antt =====
-- Tests of the template preview.
use bracket.Base.{◌+◌, ◌/◌, ◌≤◌, ◌≡◌, refl, true, false, [], ◌∷◌, none, length, All, arith}
use bracket.TemplateWizard.{
  two, three, semi_final_a, semi_final_b, final, place, group_team_counts, knockout_match_labels,
  resolve_until_rank, english_ordinal_suffix, even_rank_options, th,
}
use bracket.TemplateWizard.Counts.{sum, group_team_counts-sum, knockout_match_labels_all}

counts_test : group_team_counts 11 three ≡ 4 ∷ 4 ∷ 3 ∷ []
unfolding group_team_counts
counts_test = refl

labels_test :
    knockout_match_labels two 6 true 6
    ≡ semi_final_a ∷ semi_final_b ∷ final ∷ place 3 ∷ place 5 ∷ []
unfolding knockout_match_labels
labels_test = refl

group_team_counts-sum_example :
    (sum (group_team_counts 11 three) ≡ 11)
    × (length (group_team_counts 11 three) ≡ 3)
    × All (λ n. (11 / 3 ≤ n) × (n ≤ 11 / 3 + 1)) (group_team_counts 11 three)
group_team_counts-sum_example = group_team_counts-sum 11 three

knockout_match_labels_all_example :
    (length (knockout_match_labels two 6 false (resolve_until_rank none two 6)) ≡ 3)
    × (length (knockout_match_labels two 6 true (resolve_until_rank none two 6)) ≡ 5)
knockout_match_labels_all_example = knockout_match_labels_all 6 (omega arith)

suffix_test : english_ordinal_suffix 112 ≡ th
unfolding english_ordinal_suffix
suffix_test = refl

even_test : even_rank_options 7 ≡ 2 ∷ 4 ∷ 6 ∷ []
unfolding even_rank_options
even_test = refl
