-- ===== src/ScoreTracking/View.antt =====
-- score_tracking.ts: what is shown while the sets of a match are played one after the other.
use bracket.Base.{
  ◌≡◌, ◌≢◌, refl, ap, ◌∙◌, Bool, true, false, List, [], ◌∷◌, ◌++◌, Option, none, some, find, All,
  All-map, All-append, Bool-cases, inl, inr, arith,
}
use bracket.ScoreTracking.{
  MatchSet, MatchState, not_started, in_progress, completed, playing, between_sets, view_completed,
  view_not_started, get_score_tracking_view_state, is_completed, is_in_progress, is_not_started,
  reverse, every, open_match_view, no_set_in_progress,
}

-- All the sets are in one state.
abbrev pub AllIn : MatchState → List MatchSet → Type 0
AllIn state = All (λ s. s.state ≡ state)

reverse-All : (Q : MatchSet → Type 0) (xs : List MatchSet) → All Q xs → All Q (reverse xs)
reverse-All Q [] h = tt
reverse-All Q (x ∷ xs) (q, h) = All-append Q (reverse xs) (x ∷ []) (reverse-All Q xs h) (q, tt)

module _ (p : MatchSet → Bool) where
  find_past : (xs ys : List MatchSet) → All (λ s. p s ≡ false) xs → find p (xs ++ ys) ≡ find p ys
  find_past [] ys h = refl
  find_past (x ∷ xs) ys (e, h) = rw e (find_past xs ys h)

  find-none : (xs : List MatchSet) → All (λ s. p s ≡ false) xs → find p xs ≡ none
  find-none [] h = refl
  find-none (x ∷ xs) (e, h) = rw e (find-none xs h)

  find-append_some :
      (xs ys : List MatchSet) (c : MatchSet) → find p xs ≡ some c → find p (xs ++ ys) ≡ some c
  find-append_some [] ys c h = ground (arith, h)
  find-append_some (x ∷ xs) ys c h = elim (Bool-cases (p x)) [
    | inl e ↦ ground (arith, e, h)
    | inr e ↦ let rest = find-append_some xs ys c (ground (arith, e, h)) in ground (arith, e, rest)
  ]

  -- The last element with a property.
  find-reverse :
      (xs : List MatchSet) (c : MatchSet) (ys : List MatchSet)
      → p c ≡ true
      → All (λ s. p s ≡ false) ys
      → find p (reverse (xs ++ c ∷ ys)) ≡ some c
  find-reverse [] c ys e h =
      find_past (reverse ys) (c ∷ []) (reverse-All (λ s. p s ≡ false) ys h) ∙ rw e
  find-reverse (x ∷ xs) c ys e h =
      find-append_some (reverse (xs ++ c ∷ ys)) (x ∷ []) c (find-reverse xs c ys e h)

in_state :
    (p : MatchState → Bool) (state : MatchState) (b : Bool)
    → p state ≡ b
    → (sets : List MatchSet) → AllIn state sets
    → All (λ s. p s.state ≡ b) sets
in_state p state b e = All-map (λ s h. ap p h ∙ e)

every-All :
    (p : MatchSet → Bool) (sets : List MatchSet) → All (λ s. p s ≡ true) sets → every p sets ≡ true
every-All p [] h = refl
every-All p (s ∷ sets) (e, h) = ground (arith, e, every-All p sets h)

-- The tests on the state of a set.
abbrev ip : MatchSet → Bool
ip s = is_in_progress s.state

abbrev ns : MatchSet → Bool
ns s = is_not_started s.state

abbrev co : MatchSet → Bool
co s = is_completed s.state

module _ (played : List MatchSet) (c s n : MatchSet) (waiting : List MatchSet)
    (hp : AllIn completed played) (hc : c.state ≡ completed) (hs : s.state ≡ in_progress)
    (hn : n.state ≡ not_started) (hw : AllIn not_started waiting) where
  playing_view : open_match_view (played ++ s ∷ waiting) ≡ playing s
  unfolding open_match_view is_in_progress
  playing_view = rw (open_match_view, found)
    where
      found : find ip (played ++ s ∷ waiting) ≡ some s
      found =
          find_past ip played (s ∷ waiting) (in_state is_in_progress completed false refl played hp)
          ∙ rw hs

  between_view :
      open_match_view (played ++ c ∷ n ∷ waiting) ≡ between_sets c n (played ++ c ∷ n ∷ waiting)
  unfolding open_match_view is_in_progress is_completed is_not_started no_set_in_progress
  between_view = rw (open_match_view, none_playing, last, next)
    where
      none_playing : find ip (played ++ c ∷ n ∷ waiting) ≡ none
      none_playing =
          find_past ip played _ (in_state is_in_progress completed false refl played hp)
          ∙ find-none ip (c ∷ n ∷ waiting) (
            ap is_in_progress hc,
            (ap is_in_progress hn, in_state is_in_progress not_started false refl waiting hw),
          )

      last : find co (reverse (played ++ c ∷ n ∷ waiting)) ≡ some c
      last =
          find-reverse co played c (n ∷ waiting) (ap is_completed hc)
            (ap is_completed hn, in_state is_completed not_started false refl waiting hw)

      next : find ns (played ++ c ∷ n ∷ waiting) ≡ some n
      next =
          find_past ns played _ (in_state is_not_started completed false refl played hp)
          ∙ rw (hc, hn)

  start_view : open_match_view waiting ≡ view_not_started
  unfolding open_match_view is_in_progress is_completed is_not_started no_set_in_progress
  start_view = rw (open_match_view, none_playing, none_completed, all_new)
    where
      none_playing : find ip waiting ≡ none
      none_playing =
          find-none ip waiting (in_state is_in_progress not_started false refl waiting hw)

      none_completed : find co (reverse waiting) ≡ none
      none_completed = find-none co (reverse waiting) (
          reverse-All (λ s. co s ≡ false) waiting
            (in_state is_completed not_started false refl waiting hw))

      all_new : every ns waiting ≡ true
      all_new = every-All ns waiting (in_state is_not_started not_started true refl waiting hw)

  finish_view : open_match_view (played ++ c ∷ []) ≡ view_completed
  unfolding open_match_view is_in_progress is_completed is_not_started no_set_in_progress
  finish_view = rw (open_match_view, none_playing, last, none_new, some_old)
    where
      none_playing : find ip (played ++ c ∷ []) ≡ none
      none_playing =
          find_past ip played _ (in_state is_in_progress completed false refl played hp) ∙ rw hc

      last : find co (reverse (played ++ c ∷ [])) ≡ some c
      last = find-reverse co played c [] (ap is_completed hc) tt

      none_new : find ns (played ++ c ∷ []) ≡ none
      none_new =
          find_past ns played _ (in_state is_not_started completed false refl played hp) ∙ rw hc

      some_old : every ns (played ++ c ∷ []) ≡ false
      some_old = not_every played (in_state is_not_started completed false refl played hp)
        where
          not_every :
              (xs : List MatchSet) → All (λ s. ns s ≡ false) xs → every ns (xs ++ c ∷ []) ≡ false
          not_every [] h = rw hc
          not_every (x ∷ xs) (e, h) = rw e

open_view :
    (sets : List MatchSet) (state : Option MatchState)
    → state ≢ some completed
    → get_score_tracking_view_state sets state ≡ open_match_view sets
unfolding get_score_tracking_view_state
open_view sets none h = refl
open_view sets (some not_started) h = refl
open_view sets (some in_progress) h = refl
open_view sets (some completed) h = absurd (h refl)

-- While the sets of a match that is not over are played one after the other, that is, completed ones
-- come first and ones that have not started last: a set in progress is shown; after a completed set
-- and before the next one, these two are shown with all sets; before the first set the match is shown
-- as not started; and after the last set as completed.
pub view_of_sequence :
    (played : List MatchSet) (c s n : MatchSet) (waiting : List MatchSet)
    (state : Option MatchState)
    → AllIn completed played
    → c.state ≡ completed
    → s.state ≡ in_progress
    → n.state ≡ not_started
    → AllIn not_started waiting
    → state ≢ some completed
    → (get_score_tracking_view_state (played ++ s ∷ waiting) state ≡ playing s)
      × (get_score_tracking_view_state (played ++ c ∷ n ∷ waiting) state
          ≡ between_sets c n (played ++ c ∷ n ∷ waiting))
      × (get_score_tracking_view_state waiting state ≡ view_not_started)
      × (get_score_tracking_view_state (played ++ c ∷ []) state ≡ view_completed)
view_of_sequence played c s n waiting state hp hc hs hn hw h = (
  open_view _ state h ∙ playing_view played c s n waiting hp hc hs hn hw,
  open_view _ state h ∙ between_view played c s n waiting hp hc hs hn hw,
  open_view _ state h ∙ start_view played c s n waiting hp hc hs hn hw,
  open_view _ state h ∙ finish_view played c s n waiting hp hc hs hn hw,
)
