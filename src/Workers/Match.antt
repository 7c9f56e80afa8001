-- ===== src/Workers/Match.antt =====
-- server/internal/workers/pull.go: `matchJobsToRuns`. The Unicode table behind `strings.EqualFold`
-- is a parameter: the least code point that a code point folds to. The source's maps are
-- association lists here; the order in which a Go map is walked is left open by the language.
pub mod Unique
pub mod Covers
use ghapp_demo.Base.{
  ℕ, ◌+◌, ◌*◌, ◌^◌, Bool, true, false, not, ◌&&◌, ◌||◌, List, [], ◌∷◌, ◌++◌, Option, none, some,
  ◌==◌, ltb, if◌then◌else◌, any, select, map, length,
}
use ghapp_demo.Base.Int.{ℤ, eq_ℤ}
use ghapp_demo.Store.Enrichment.{EnrichmentRunRow}
use ghapp_demo.Store.Query.{upsert}
use ghapp_demo.Text.{Text, equal, trim_space}
use ghapp_demo.Github.Payloads.{RunJob}

abbrev pub slack : ℕ
slack = 60 * 10 ^ 9

-- The run starts no earlier than a minute before the job, and ends no later than a minute after it.
abbrev pub in_window : Option ℕ → Option ℕ → Option ℕ → Option ℕ → Bool
in_window (some from) (some to) (some started) (some completed) =
    not (ltb (from + slack) started || ltb (completed + slack) to)
in_window _ _ _ _ = false

-- `candidate`
abbrev pub Candidate : Type 0
Candidate = ℕ × RunJob

abbrev pub has_id : ℤ → Candidate → Bool
has_id job c = eq_ℤ c.1.id job

-- `len(jobToRuns[c.job.ID]) != 1`: the map has one run for each candidate of the job.
abbrev pub is_shared : List Candidate → Candidate → Bool
is_shared chosen c = not (length (select (has_id c.1.id) chosen) == 1)

-- `matched[c.runID] = c.job`
abbrev pub put_matched : List Candidate → List Candidate → List Candidate
put_matched out [] = out
put_matched out (c ∷ cs) = put_matched (upsert (λ d. d.0 == c.0) (λ _. c) c out) cs

-- `ambiguousSet[id] = struct{}{}`
abbrev pub add_id : ℕ → List ℕ → List ℕ
add_id id ids = if any (◌==◌ id) ids then ids else id ∷ ids

abbrev pub add_ids : List ℕ → List ℕ
add_ids [] = []
add_ids (id ∷ ids) = add_id id (add_ids ids)

-- `len(matches) == 1`
abbrev pub sole : List RunJob → Option RunJob
sole (job ∷ []) = some job
sole _ = none

abbrev pub keep_chosen : ℕ → Option RunJob → List Candidate → List Candidate
keep_chosen run none rest = rest
keep_chosen run (some job) rest = (run, job) ∷ rest

abbrev pub keep_unmatched : ℕ → Option RunJob → List ℕ → List ℕ
keep_unmatched run none rest = run ∷ rest
keep_unmatched run (some job) rest = rest

module _ (fold : ℕ → ℕ) where
  -- `strings.EqualFold`
  abbrev pub equal_fold : Text → Text → Bool
  equal_fold a b = equal (map fold a) (map fold b)

  -- What the guards of the inner loop let through.
  abbrev pub fits : EnrichmentRunRow → RunJob → Bool
  fits run job =
      equal_fold (trim_space run.runner_name) (trim_space job.runner_name)
      && in_window run.capture_started_at run.capture_ended_at job.started_at job.completed_at

  -- The candidates of the first loop, and the runs that it finds ambiguous.
  abbrev pub chosen_of : List RunJob → List EnrichmentRunRow → List Candidate
  chosen_of jobs [] = []
  chosen_of jobs (run ∷ runs) =
      keep_chosen run.id (sole (select (fits run) jobs)) (chosen_of jobs runs)

  abbrev pub unmatched_of : List RunJob → List EnrichmentRunRow → List ℕ
  unmatched_of jobs [] = []
  unmatched_of jobs (run ∷ runs) =
      keep_unmatched run.id (sole (select (fits run) jobs)) (unmatched_of jobs runs)

  -- The jobs that were matched, by run, and the ambiguous runs.
  unfoldable pub match_jobs_to_runs : List EnrichmentRunRow → List RunJob → List Candidate × List ℕ
  match_jobs_to_runs runs jobs =
      let chosen = chosen_of jobs runs in
      (
        put_matched [] (select (λ c. not (is_shared chosen c)) chosen),
        add_ids (
            unmatched_of jobs runs
            ++ map (λ (c : Candidate). c.0) (select (is_shared chosen) chosen)),
      )
