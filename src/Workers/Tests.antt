-- ===== src/Workers/Tests.antt =====
-- Two runs that one job fits, and a run with a job of its own.
use ghapp_demo.Base.{ℕ, ◌≡◌, ◌⊎◌, inl, refl, true, List, [], ◌∷◌, some, ◌==◌, any, In}
use ghapp_demo.Base.Int.{pos}
use ghapp_demo.Store.Enrichment.{EnrichmentRunRow}
use ghapp_demo.Text.{Text, codes, equal, trim_space}
use ghapp_demo.Github.Payloads.{RunJob}
use ghapp_demo.Workers.Match.{Candidate, match_jobs_to_runs}
use ghapp_demo.Workers.Match.Covers.{match_jobs_to_runs-covers}
use ghapp_demo.Workers.Match.Unique.{IsOnly, match_jobs_to_runs-IsOnly}

abbrev run_on : ℕ → Text → EnrichmentRunRow
run_on id runner = record {
  id = id;
  runner_name = runner;
  capture_started_at = some 10;
  capture_ended_at = some 20;
}

abbrev job_on : ℕ → Text → RunJob
job_on id runner = record {
  id = pos id;
  name = [];
  conclusion = [];
  runner_name = runner;
  started_at = some 0;
  completed_at = some 30;
}

abbrev runs : List EnrichmentRunRow
runs = run_on 1 (codes "a") ∷ run_on 2 (codes "a") ∷ run_on 3 (codes "b") ∷ []

abbrev jobs : List RunJob
jobs = job_on 100 (codes "a") ∷ job_on 101 (codes "b") ∷ []

abbrev fold : ℕ → ℕ
fold c = c

outcome : match_jobs_to_runs fold runs jobs ≡ ((3, job_on 101 (codes "b")) ∷ [], 1 ∷ 2 ∷ [])
unfolding match_jobs_to_runs equal trim_space
outcome = refl

third : In (3, job_on 101 (codes "b")) (match_jobs_to_runs fold runs jobs).0
unfolding match_jobs_to_runs equal trim_space
third = inl refl

match_jobs_to_runs-IsOnly_example :
    IsOnly fold jobs runs (3, job_on 101 (codes "b"))
    × ((d : Candidate)
        → In d (match_jobs_to_runs fold runs jobs).0
        → d.1.id ≡ pos 101
        → d ≡ (3, job_on 101 (codes "b")))
match_jobs_to_runs-IsOnly_example =
    match_jobs_to_runs-IsOnly fold jobs runs (3, job_on 101 (codes "b")) third

match_jobs_to_runs-covers_example :
    (any (λ (c : Candidate). c.0 == 1) (match_jobs_to_runs fold runs jobs).0 ≡ true)
    ⊎ In 1 (match_jobs_to_runs fold runs jobs).1
match_jobs_to_runs-covers_example =
    match_jobs_to_runs-covers fold jobs runs (run_on 1 (codes "a")) (inl refl)
