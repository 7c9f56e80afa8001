-- ===== src/Workers/Passes/Ends.antt =====
-- server/internal/workers/pull.go: how a run of all passes ends.
use ghapp_demo.Base.{ℕ, ◌≡◌, refl, ◌≢◌, List, arith}
use ghapp_demo.Base.Int.{ℤ, pos_part}
use ghapp_demo.Base.Result.{Result, ok, err}
use ghapp_demo.Handlers.Site.{Site, H, sequel, stored}
use ghapp_demo.Store.Enrichment.{EnrichmentGroup, list_pending_enrichment_groups}
use ghapp_demo.Store.Monad.{World, StoreError}
use ghapp_demo.Store.Monad.Invert.{statement-ok}
use ghapp_demo.Store.Prepared.{prepared, is_accepted}
use ghapp_demo.Text.{Text, codes, equal}
use ghapp_demo.Workers.Passes.{
  PullApi, PullConfig, pass, labelled, run_all, run_coverage_sync, run_visibility_sync,
  run_binding_revalidation, run_retention_purge, run_job_enrichment,
}

module _ {S : Type 0} where
  sequel-ok :
      (r : Result Text (Unit {0}) × Site S) (f : Unit {0} → H S (Unit {0})) (s' : Site S)
      → sequel r f ≡ (ok tt, s')
      → (s : Site S) × (f tt s ≡ (ok tt, s'))
  sequel-ok (ok u, s) f s' h = (s, h)
  sequel-ok (err e, s) f s' h = ground arith

module _ {S : Type 0} (api : PullApi S) (fold : ℕ → ℕ) where
  groups-fail :
      (batch : ℤ) (w : World) (gs : List EnrichmentGroup)
      → (list_pending_enrichment_groups batch w).0 ≢ ok gs
  unfolding list_pending_enrichment_groups prepared is_accepted equal
  groups-fail batch w gs h = ground (arith, statement-ok _ _ w gs h)

  failed-sequel :
      {A : Type 0} (m : Result StoreError A × World) (github : S) (f : A → H S (Unit {0}))
      (s' : Site S)
      → ((a : A) → m.0 ≢ ok a)
      → sequel (stored api.words github m) f ≢ (ok tt, s')
  failed-sequel (ok a, w) github f s' h e = absurd (h a refl)
  failed-sequel (err x, w) github f s' h e = ground arith

  labelled-ok :
      (words : Text) (r : Result Text (Unit {0}) × Site S) (s' : Site S)
      → labelled api fold words r ≡ (ok tt, s')
      → r ≡ (ok tt, s')
  labelled-ok words (ok u, s) s' h = h
  labelled-ok words (err e, s) s' h = ground arith

  enrichment_fails : (batch : ℤ) (s s' : Site S) → run_job_enrichment api fold batch s ≢ (ok tt, s')
  unfolding run_job_enrichment
  enrichment_fails batch s s' =
      failed-sequel (list_pending_enrichment_groups batch s.world) s.github _ s'
        (groups-fail batch s.world)

  -- No run of all passes ends without an error, whatever the tables hold and GitHub answers: where
  -- the first four passes succeed, the enrichment of jobs fails.
  pub run_all_fails : (cfg : PullConfig) (s s' : Site S) → ¬ (run_all api fold cfg s ≡ (ok tt, s'))
  unfolding run_all
  run_all_fails cfg s s' h =
      let (s1, h1) =
        sequel-ok (pass api fold (codes "coverage sync: ") (run_coverage_sync api fold) s) _ s' h in
      let (s2, h2) =
        sequel-ok (pass api fold (codes "visibility sync: ") (run_visibility_sync api fold) s1) _ s'
          h1 in
      let (s3, h3) =
        sequel-ok
          (pass api fold (codes "binding revalidation: ") (run_binding_revalidation api fold) s2) _
          s' h2 in
      let (s4, h4) =
        sequel-ok
          (pass api fold (codes "retention purge: ")
            (run_retention_purge api fold (pos_part cfg.retention_window)) s3)
          _ s' h3 in
      enrichment_fails cfg.enrichment_batch s4 s' (labelled-ok (codes "job enrichment: ") _ s' h4)
