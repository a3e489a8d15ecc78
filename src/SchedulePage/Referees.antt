-- ===== src/SchedulePage/Referees.antt =====
-- schedule.tsx: the assignment of the referees.
use bracket.Base.{ℕ, ◌≡◌, refl, true, false, List, Option, none, some, if◌then◌else◌}
use bracket.Base.Exec.{Outcome, done, thrown}
use bracket.Conflicts.{ConflictStage}
use bracket.Requests.{Failure, Request, Response, Client}
use bracket.Requests.Errors.{returns}
use bracket.Requests.Matches.{auto_assign_referees}
use bracket.SchedulePage.{Page, Swr, IsSwr, on_client, set_optimizing, handle_assign_referees}

module _ {F W C : Type 0} (answer : Request → W → Outcome Failure Response × W) (swr : Swr F W C)
    {stages_of : W → Option (List ConflictStage)} {shown : C → Option (List ConflictStage)}
    (laws : IsSwr swr stages_of shown) (tournament_id : ℕ) where
  -- Whether the assignment of the referees returns or throws, the page is not marked as busy after
  -- it, and the handler throws exactly if it does. The schedule is fetched again only if it returns.
  pub assign_referees_ends :
      (page : Page F W C) (r : Outcome Failure (Option Response)) (c : Client W)
      → auto_assign_referees answer tournament_id none page.client ≡ (r, c)
      → (stages : List ConflictStage) → stages_of c.server ≡ some stages
      → let (r', page') = handle_assign_referees answer swr tournament_id page in
        (page'.is_optimizing ≡ false)
        × (page'.client ≡ c)
        × (returns r' ≡ returns r)
        × (shown page'.cache ≡ (if returns r then some stages else shown page.cache))
  unfolding handle_assign_referees on_client set_optimizing
  assign_referees_ends page (done x) c h stages k =
      let refetched = laws.mutate_done (record page { is_optimizing = true; client = c }) in
      let fetched : shown _ ≡ some stages = laws.shown_refetch c.server page.cache stages k in
      rw h (rw refetched (refl, refl, refl, fetched))
  assign_referees_ends page (thrown e) c h stages k = rw h (refl, refl, refl, refl)
