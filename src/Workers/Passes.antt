-- ===== src/Workers/Passes.antt =====
-- server/internal/workers/pull.go: the passes of `RunAll`, each of them over the store and a client
-- of GitHub, which is a record of operations. The loop of `Start` with its timer is left out.
pub mod Ends
mod Tests
use ghapp_demo.Base.{
  ℕ, ◌*◌, Bool, true, false, ◌||◌, List, [], ◌∷◌, ◌++◌, Option, none, some, if◌then◌else◌, map,
}
use ghapp_demo.Base.Int.{ℤ, pos, is_positive, pos_part}
use ghapp_demo.Base.Result.{Result, ok, err}
use ghapp_demo.Github.Payloads.{InstallationLite, RepoLite, RunJob}
use ghapp_demo.Handlers.Access.{repo_input}
use ghapp_demo.Handlers.Ingest.{day}
use ghapp_demo.Handlers.Site.{Site, H, ◌>>=◌, ◌>>◌, return, stored, github}
use ghapp_demo.Store.Columns.{Columns}
use ghapp_demo.Store.Coverage.{
  list_repo_coverage_candidates, list_repos_for_sync, upsert_repo_coverage,
  revoke_uncovered_project_bindings, purge_unretained_runs,
}
use ghapp_demo.Store.Enrichment.{
  EnrichmentGroup, EnrichmentRunRow, list_pending_enrichment_groups, list_runs_for_enrichment_group,
  mark_run_enrichment_unavailable, mark_run_enrichment_ambiguous, mark_run_enrichment_matched,
}
use ghapp_demo.Store.Installations.{
  upsert_installation_from_pull, mark_installations_missing_from_pull_deleted,
  get_any_installation_id_for_repo, replace_installation_repos,
}
use ghapp_demo.Store.Monad.{World, StoreError}
use ghapp_demo.Store.Runs.{upsert_repo}
use ghapp_demo.Store.Tables.{RepoRow}
use ghapp_demo.Text.{Text, codes, is_empty, trim_space, cut}
use ghapp_demo.Workers.Match.{Candidate, match_jobs_to_runs}

-- `PullConfig`, the window in nanoseconds
pub record PullConfig : Type 0 where
  pub retention_window : ℤ
  pub enrichment_batch : ℤ

-- The methods of `githubapp.Client` that the passes call, where none is a listing that is not
-- modified; the words of an error of the store, and what the columns of its tables take.
pub record PullApi (S : Type 0) : Type 0 where
  pub words : StoreError → Text
  pub columns : Columns
  pub list_app_installations : S → Result Text (Option (List InstallationLite)) × S
  pub list_installation_repositories : ℤ → S → Result Text (List RepoLite) × S
  pub get_repository : Text → Text → Option ℤ → S → Result Text RepoLite × S
  pub list_run_attempt_jobs : Text → Text → ℤ → ℤ → ℤ → S → Result Text (List RunJob) × S

-- `init`
unfoldable pub init : PullConfig → PullConfig
init cfg = record {
  retention_window =
      if is_positive cfg.retention_window then cfg.retention_window else pos (30 * day);
  enrichment_batch = if is_positive cfg.enrichment_batch then cfg.enrichment_batch else pos 100;
}

abbrev pub parts : Text × Option Text → Text × Text
parts (owner, none) = ([], [])
parts (owner, some name) = (owner, name)

-- `splitRepoFullName` of this package
unfoldable pub split_full_name : Text → Text × Text
split_full_name full_name = parts (cut b'/' (trim_space full_name))

-- What follows a call whose error is not passed on.
abbrev pub or_continue :
    {S A : Type 0}
    → (A → H S (Unit {0}))
    → H S (Unit {0})
    → Result Text A × Site S
    → Result Text (Unit {0}) × Site S
or_continue next otherwise (ok a, s) = next a s
or_continue next otherwise (err e, s) = otherwise s

-- A loop that ends at the first error.
unfoldable pub each : {S A : Type 0} → (A → H S (Unit {0})) → List A → H S (Unit {0})
each body [] s = (ok tt, s)
each body (x ∷ xs) s = (body x >> λ s'. each body xs s') s

module _ {S : Type 0} (api : PullApi S) (fold : ℕ → ℕ) where
  abbrev pub store : {A : Type 0} → (World → Result StoreError A × World) → H S A
  store m s = stored api.words s.github (m s.world)

  abbrev pub put_repo : RepoLite → H S (Unit {0})
  put_repo r = store (upsert_repo api.columns (repo_input r))

  abbrev pub refresh_repo : RepoRow → Text → Text → H S (Unit {0})
  refresh_repo repo owner name = do
    installation ← store (get_any_installation_id_for_repo repo.repo_id)
    λ s. or_continue put_repo (return tt) (github (api.get_repository owner name installation) s)

  abbrev pub sync_visibility : RepoRow → H S (Unit {0})
  sync_visibility repo =
      let (owner, name) = split_full_name repo.full_name in
      if is_empty owner || is_empty name then return tt else refresh_repo repo owner name

  unfoldable pub run_visibility_sync : H S (Unit {0})
  unfolding each
  run_visibility_sync = do repos ← store list_repos_for_sync; each sync_visibility repos

  abbrev pub sync_installation : InstallationLite → H S (Unit {0})
  sync_installation i = do
    store (
        upsert_installation_from_pull i.id i.account_id i.account_type i.account_login
          i.repository_selection false)
    repos ← github (api.list_installation_repositories i.id)
    each put_repo repos
    store (replace_installation_repos i.id (map (λ (r : RepoLite). r.repo_id) repos))

  abbrev pub check_coverage : ℤ → H S (Unit {0})
  check_coverage repo = do
    installation ← store (get_any_installation_id_for_repo repo)
    store (upsert_repo_coverage repo installation)

  abbrev pub sync_installations : Option (List InstallationLite) → H S (Unit {0})
  sync_installations none = return tt
  sync_installations (some installations) = do
    each sync_installation installations
    store (
        mark_installations_missing_from_pull_deleted
          (map (λ (i : InstallationLite). i.id) installations))
    candidates ← store list_repo_coverage_candidates
    each check_coverage candidates

  unfoldable pub run_coverage_sync : H S (Unit {0})
  unfolding each
  run_coverage_sync = do
    installations ← github api.list_app_installations
    sync_installations installations

  unfoldable pub run_binding_revalidation : H S (Unit {0})
  run_binding_revalidation = do revoked ← store revoke_uncovered_project_bindings; return tt

  unfoldable pub run_retention_purge : ℕ → H S (Unit {0})
  run_retention_purge age = do purged ← store (purge_unretained_runs age); return tt

  abbrev pub mark_unavailable : EnrichmentRunRow → H S (Unit {0})
  mark_unavailable run = store (mark_run_enrichment_unavailable run.id)

  abbrev pub mark_ambiguous : ℕ → H S (Unit {0})
  mark_ambiguous run = store (mark_run_enrichment_ambiguous run)

  abbrev pub mark_matched : Candidate → H S (Unit {0})
  mark_matched (run, job) = store (
      mark_run_enrichment_matched run job.id job.name job.conclusion job.started_at
        job.completed_at)

  -- The matches are marked in one of the orders in which the map may be walked.
  abbrev pub mark_all : List EnrichmentRunRow → List RunJob → H S (Unit {0})
  mark_all runs jobs = do
    each mark_ambiguous (match_jobs_to_runs fold runs jobs).1
    each mark_matched (match_jobs_to_runs fold runs jobs).0

  abbrev pub enrich : EnrichmentGroup → List EnrichmentRunRow → Option ℤ → H S (Unit {0})
  enrich g runs none s = each mark_unavailable runs s
  enrich g runs (some id) s =
      or_continue (mark_all runs) (each mark_unavailable runs)
        (github (api.list_run_attempt_jobs g.owner g.repo_name g.run_id g.run_attempt id) s)

  abbrev pub enrich_group : EnrichmentGroup → H S (Unit {0})
  enrich_group g = do
    installation ← store (get_any_installation_id_for_repo g.repo_id)
    runs ← store (list_runs_for_enrichment_group g.repo_id g.run_id g.run_attempt)
    enrich g runs installation

  unfoldable pub run_job_enrichment : ℤ → H S (Unit {0})
  unfolding each
  run_job_enrichment batch = do
    groups ← store (list_pending_enrichment_groups batch)
    each enrich_group groups

  abbrev pub labelled : Text → Result Text (Unit {0}) × Site S → Result Text (Unit {0}) × Site S
  labelled label (ok u, s) = (ok u, s)
  labelled label (err words, s) = (err (label ++ words), s)

  abbrev pub pass : Text → H S (Unit {0}) → H S (Unit {0})
  pass label m s = labelled label (m s)

  unfoldable pub run_all : PullConfig → H S (Unit {0})
  unfolding run_coverage_sync run_visibility_sync run_binding_revalidation run_retention_purge
      run_job_enrichment
  run_all cfg = do
    pass (codes "coverage sync: ") run_coverage_sync
    pass (codes "visibility sync: ") run_visibility_sync
    pass (codes "binding revalidation: ") run_binding_revalidation
    pass (codes "retention purge: ") (run_retention_purge (pos_part cfg.retention_window))
    pass (codes "job enrichment: ") (run_job_enrichment cfg.enrichment_batch)
