-- ===== src/Workers/Passes/Tests.antt =====
-- A run of all passes over the sample database, with a GitHub that has no installation.
use ghapp_demo.Base.{ℕ, ◌≡◌, refl, [], some}
use ghapp_demo.Base.Int.{pos, negsuc}
use ghapp_demo.Base.Result.{ok, err}
use ghapp_demo.Handlers.Site.{Site}
use ghapp_demo.Store.Sample.{columns, world}
use ghapp_demo.Text.{codes}
use ghapp_demo.Workers.Passes.{PullApi, PullConfig, init, run_all}
use ghapp_demo.Workers.Passes.Ends.{run_all_fails}

abbrev empty_api : PullApi ℕ
empty_api = record {
  words = λ e. codes "store";
  columns = columns;
  list_app_installations = λ s. (ok (some []), s);
  list_installation_repositories = λ id s. (ok [], s);
  get_repository = λ owner name id s. (err (codes "gone"), s);
  list_run_attempt_jobs = λ owner name run attempt id s. (ok [], s);
}

abbrev config : PullConfig
config = record { retention_window = negsuc 0; enrichment_batch = pos 0 }

abbrev start : Site ℕ
start = record { world = world; github = 0 }

batch_of_100 : (init config).enrichment_batch ≡ pos 100
unfolding init
batch_of_100 = refl

enrichment_stops_it : ¬ (run_all empty_api (λ c. c) (init config) start ≡ (ok tt, start))
enrichment_stops_it = run_all_fails empty_api (λ c. c) (init config) start start
