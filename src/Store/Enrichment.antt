-- ===== src/Store/Enrichment.antt =====
-- server/internal/postgres/store.go: matching uploaded runs with the jobs of GitHub Actions.
pub mod Laws
use ghapp_demo.Base.{
  ℕ, Bool, true, false, ◌&&◌, List, [], ◌∷◌, Option, none, some, ◌==◌, if◌then◌else◌, select, map,
}
use ghapp_demo.Base.Int.{ℤ, eq_ℤ, is_positive, pos_part}
use ghapp_demo.Base.Result.{ok}
use ghapp_demo.Store.Installations.{nullable_string}
use ghapp_demo.Store.Bindings.{find_repo}
use ghapp_demo.Store.Monad.{M, query, exec}
use ghapp_demo.Store.Prepared.{Shape, plain, prepared}
use ghapp_demo.Store.Query.{update, delete, filter_map, limited}
use ghapp_demo.Store.Tables.{
  Db, RepoRow, RunRow, RunFacts, EnrichmentState, pending, matched, ambiguous, unavailable,
}
use ghapp_demo.Text.{Text, codes, equal, split}

pub record EnrichmentGroup : Type 0 where
  pub repo_id : ℤ
  pub owner : Text
  pub repo_name : Text
  pub run_id : ℤ
  pub run_attempt : ℤ

pub record EnrichmentRunRow : Type 0 where
  pub id : ℕ
  pub runner_name : Text
  pub capture_started_at : Option ℕ
  pub capture_ended_at : Option ℕ

abbrev pub is_pending : RunRow → Bool
is_pending r = elim r.enrichment_state [
  | pending ↦ true
  | matched ↦ false
  | ambiguous ↦ false
  | unavailable ↦ false
]

-- The columns of the statement, and the one that it sorts by.
abbrev group_shape : Shape
group_shape = record plain {
  distinct = true;
  selected =
      codes "r.repo_id"
      ∷ codes "rp.owner"
      ∷ codes "split_part(rp.full_name, '/', 2)"
      ∷ codes "r.github_run_id"
      ∷ codes "r.run_attempt"
      ∷ [];
  ordered = codes "r.created_at" ∷ [];
}

abbrev second_part : List Text → Text
second_part [] = []
second_part (a ∷ []) = []
second_part (a ∷ b ∷ rest) = b

-- The JOIN with the repository.
abbrev group_in : RunRow → Option RepoRow → Option EnrichmentGroup
group_in r none = none
group_in r (some repo) = some (record {
  repo_id = r.repo_id;
  owner = repo.owner;
  repo_name = second_part (split b'/' repo.full_name);
  run_id = r.facts.github_run_id;
  run_attempt = r.facts.run_attempt;
})

abbrev is_same_group : EnrichmentGroup → EnrichmentGroup → Bool
is_same_group a b =
    eq_ℤ a.repo_id b.repo_id
    && equal a.owner b.owner
    && equal a.repo_name b.repo_name
    && eq_ℤ a.run_id b.run_id
    && eq_ℤ a.run_attempt b.run_attempt

abbrev distinct_groups : List EnrichmentGroup → List EnrichmentGroup
distinct_groups [] = []
distinct_groups (g ∷ gs) = let rest = distinct_groups gs in g ∷ delete (is_same_group g) rest

-- Behind an accepted statement the groups would come in the order of the table.
unfoldable pub list_pending_enrichment_groups : ℤ → M (List EnrichmentGroup)
list_pending_enrichment_groups limit =
    prepared (codes "list pending enrichment groups") group_shape (λ db now. ok (
      limited (if is_positive limit then pos_part limit else 100) (
          distinct_groups
            (filter_map (λ r. group_in r (find_repo r.repo_id db)) (select is_pending db.runs))),
      db,
    ))

abbrev pub enrichment_run : RunRow → EnrichmentRunRow
enrichment_run r = record {
  id = r.id;
  runner_name = r.facts.runner_name;
  capture_started_at = r.facts.capture_started_at;
  capture_ended_at = r.facts.capture_ended_at;
}

unfoldable pub list_runs_for_enrichment_group : ℤ → ℤ → ℤ → M (List EnrichmentRunRow)
list_runs_for_enrichment_group repo run attempt =
    query (codes "list runs for enrichment group") (λ db now. map enrichment_run (
      select
        (λ r.
          eq_ℤ r.repo_id repo
          && eq_ℤ r.facts.github_run_id run
          && eq_ℤ r.facts.run_attempt attempt
          && is_pending r)
        db.runs))

abbrev mark : ℕ → (RunRow → RunRow) → Db → Db
mark run f db = record db { runs = update (λ r. r.id == run) f db.runs }

unfoldable pub mark_run_enrichment_unavailable : ℕ → M (Unit {0})
mark_run_enrichment_unavailable run =
    exec (codes "mark run enrichment unavailable")
      (λ db now. mark run (λ r. record r { enrichment_state = unavailable }) db)

unfoldable pub mark_run_enrichment_ambiguous : ℕ → M (Unit {0})
mark_run_enrichment_ambiguous run =
    exec (codes "mark run enrichment ambiguous")
      (λ db now. mark run (λ r. record r { enrichment_state = ambiguous }) db)

abbrev pub enrich : ℤ → Text → Text → Option ℕ → Option ℕ → RunRow → RunRow
enrich job name conclusion started completed r =
    let f : RunFacts = r.facts in
    record r {
      enrichment_state = matched;
      facts = record f { github_job_id = some job; job_display_name = nullable_string name };
      job_conclusion = nullable_string conclusion;
      job_started_at = started;
      job_completed_at = completed;
    }

unfoldable pub mark_run_enrichment_matched :
    ℕ → ℤ → Text → Text → Option ℕ → Option ℕ → M (Unit {0})
mark_run_enrichment_matched run job name conclusion started completed =
    exec (codes "mark run enrichment matched")
      (λ db now. mark run (enrich job name conclusion started completed) db)
