-- ===== src/Store/Enrichment/Laws.antt =====
-- A matched run, and a second upload of it.
use ghapp_demo.Base.{
  ℕ, ◌≡◌, ◌≢◌, ◌↔◌, subst, select, ◌&&◌, sym, ap, ◌∙◌, true, false, List, Option, some, arith, In,
  ◌==◌, inl, inr,
}
use ghapp_demo.Base.Int.{ℤ, eq_ℤ, eq_ℤ_iff}
use ghapp_demo.Base.Result.{ok}
use ghapp_demo.Store.Enrichment.{
  EnrichmentRunRow, enrich, is_pending, enrichment_run, list_runs_for_enrichment_group,
  mark_run_enrichment_matched,
}
use ghapp_demo.Store.Monad.{World}
use ghapp_demo.Store.Monad.Invert.{query-ok, exec-ok}
use ghapp_demo.Store.Query.{update}
use ghapp_demo.Store.Query.Laws.{map-In, In-select, update-In, In-update}
use ghapp_demo.Store.Tables.{Db, RunRow, matched}
use ghapp_demo.Text.{Text}

module _ (run : ℕ) (job : ℤ) (name conclusion : Text) (started completed : Option ℕ) (w : World)
    (done : (mark_run_enrichment_matched run job name conclusion started completed w).0
      ≡ ok tt) where
  abbrev after : Db
  after = (mark_run_enrichment_matched run job name conclusion started completed w).1.db

  mark-runs :
      after.runs
      ≡ update (λ r. r.id == run) (enrich job name conclusion started completed) w.db.runs
  unfolding mark_run_enrichment_matched
  mark-runs = ap (λ (db : Db). db.runs) (exec-ok _ _ w done)

  -- A run that was matched has the job that was found and is not pending, so that it is not taken
  -- up for matching again; the other runs stay as they were.
  mark_run_enrichment_matched-runs :
      ((r : RunRow)
        → In r after.runs
        → r.id ≡ run
        → (r.enrichment_state ≡ matched)
          × (r.facts.github_job_id ≡ some job)
          × (is_pending r ≡ false))
      × ((r : RunRow) → r.id ≢ run → (In r after.runs) ↔ (In r w.db.runs))
  mark_run_enrichment_matched-runs =
      let f = enrich job name conclusion started completed in
      let is_it = λ (r : RunRow). r.id == run in
      rw mark-runs (
        λ r i same. elim (update-In is_it f r w.db.runs i) [
          | inl (j, t) ↦ ground (arith, t, same)
          | inr (x, j, t, e) ↦ (
            ap (λ (y : RunRow). y.enrichment_state) (sym e),
            ap (λ (y : RunRow). y.facts.github_job_id) (sym e),
            ap is_pending (sym e),
          )
        ],
        λ r other. (
          λ i. elim (update-In is_it f r w.db.runs i) [
            | inl (j, t) ↦ j
            | inr (x, j, t, e) ↦
                elim (other (ap (λ (y : RunRow). y.id) (sym e) ∙ ground (arith, t))) [ ]
          ],
          λ i. In-update is_it f r w.db.runs i (ground (arith, other)),
        ),
      )

-- The runs that are taken up for matching are the pending ones of the repository, the workflow run
-- and the attempt that are asked for.
list_runs_for_enrichment_group-In :
    (repo run attempt : ℤ) (w : World) (found : List EnrichmentRunRow) (x : EnrichmentRunRow)
    → (list_runs_for_enrichment_group repo run attempt w).0 ≡ ok found
    → In x found
    → (r : RunRow) × In r w.db.runs
      × (x ≡ enrichment_run r)
      × (r.repo_id ≡ repo)
      × (r.facts.github_run_id ≡ run)
      × (r.facts.run_attempt ≡ attempt)
      × (is_pending r ≡ true)
unfolding list_runs_for_enrichment_group
list_runs_for_enrichment_group-In repo run attempt w found x h i =
    let p = λ (r : RunRow).
      eq_ℤ r.repo_id repo
      && eq_ℤ r.facts.github_run_id run
      && eq_ℤ r.facts.run_attempt attempt
      && is_pending r in
    let (r, j, e) =
      map-In enrichment_run x (select p w.db.runs)
        (subst (λ rows. In x rows) (query-ok _ _ w found h).0 i) in
    let (k, t) = (In-select p r w.db.runs).0 j in
    (
      r,
      k,
      e,
      (eq_ℤ_iff _ _).0 (ground (arith, t)),
      (eq_ℤ_iff _ _).0 (ground (arith, t)),
      (eq_ℤ_iff _ _).0 (ground (arith, t)),
      ground (arith, t),
    )
