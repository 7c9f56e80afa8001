-- ===== src/Store/Runs.antt =====
-- server/internal/postgres/store.go: repositories and the runs that are uploaded for them. How the
-- server reads a UUID, the UUIDs that it generates, and what its columns take, are parameters. The
-- `jsonb` column keeps the text that was stored.
pub mod Visibility
pub mod Reported
pub mod Upsert
use ghapp_demo.Base.{
  ℕ, ◌+◌, ◌-◌, Bool, true, false, not, ◌&&◌, ◌||◌, List, [], ◌∷◌, ◌++◌, Option, none, some, ◌==◌,
  leb, if◌then◌else◌, any, first, select, length,
}
use ghapp_demo.Base.Int.{ℤ, pos_part, is_positive, eq_ℤ}
use ghapp_demo.Base.Result.{Result, ok, err}
use ghapp_demo.Store.Bindings.{find_repo, is_live}
use ghapp_demo.Store.Columns.{Columns, takes_facts}
use ghapp_demo.Store.Monad.{
  or_not_found, M, ◌>>=◌, ◌>>◌, return, throw, not_found, Violation, foreign_key, check,
  invalid_text, out_of_range, statement, query, exec,
}
use ghapp_demo.Store.Query.{upsert, filter_map, is_null, newest_first, limited}
use ghapp_demo.Store.Tables.{Db, RepoRow, RunRow, RunFacts, pending, BindingRow}
use ghapp_demo.Text.{Text, codes, equal, is_empty, trim_space, to_lower}

-- What `types.Repo` hands to `UpsertRepo`.
pub record RepoInput : Type 0 where
  pub repo_id : ℤ
  pub full_name : Text
  pub owner : Text
  pub owner_id : ℤ
  pub visibility : Text
  pub updated_from : Text

unfoldable pub stored_visibility : Text → Text
stored_visibility v =
    let visibility = to_lower (trim_space v) in
    if is_empty visibility then codes "private" else visibility

unfoldable pub stored_source : Text → Text
stored_source v =
    let source = to_lower (trim_space v) in
    if equal source (codes "oidc") || equal source (codes "api") then source else codes "oidc"

-- CHECK (visibility IN …)
abbrev pub visibility_ok : Text → Bool
visibility_ok v =
    equal v (codes "public") || equal v (codes "private") || equal v (codes "internal")

abbrev pub repo_row : RepoInput → ℕ → RepoRow
repo_row r now = record {
  repo_id = r.repo_id;
  full_name = r.full_name;
  owner = r.owner;
  owner_id = r.owner_id;
  visibility = stored_visibility r.visibility;
  visibility_source = stored_source r.updated_from;
  synced_at = now;
}

unfoldable pub upsert_repo : Columns → RepoInput → M (Unit {0})
unfolding stored_visibility stored_source
upsert_repo columns r = statement (codes "upsert repo") (λ db now.
    if not (columns.text r.full_name && columns.text r.owner)
    then err invalid_text
    else if not (visibility_ok (stored_visibility r.visibility))
    then err check
    else ok (
      tt,
      record db {
        repos =
            upsert (λ x. eq_ℤ x.repo_id r.repo_id) (λ _. repo_row r now) (repo_row r now) db.repos;
      },
    ))

abbrev pub owned_by : ℤ → Option RepoRow → Bool
owned_by owner none = false
owned_by owner (some r) = eq_ℤ r.owner_id owner

unfoldable pub count_runs_by_owner_since : ℤ → ℕ → M ℕ
count_runs_by_owner_since owner since = query (codes "count runs by owner since") (λ db now.
    length
      (select (λ r. owned_by owner (find_repo r.repo_id db) && leb since r.created_at) db.runs))

-- What `types.Run` hands to `UpsertRun`.
pub record RunInput : Type 0 where
  pub repo_id : ℤ
  pub execution_id : Text
  pub facts : RunFacts

abbrev pub facts_of : RunFacts → RunFacts
facts_of f = record f { egress_json = if is_empty f.egress_json then codes "{}" else f.egress_json }

abbrev pub is_run : ℤ → Text → RunRow → Bool
is_run repo execution r = eq_ℤ r.repo_id repo && equal r.execution_id execution

-- EXISTS (SELECT 1 FROM project_repos … JOIN project_members …) for a user
abbrev pub is_member : Db → ℕ → ℕ → Bool
is_member db user project = any (λ m. m.project_id == project && m.user_id == user) db.members

abbrev pub is_member_of_repo : Db → Option ℕ → ℤ → Bool
is_member_of_repo db none repo = false
is_member_of_repo db (some user) repo =
    any (λ b. eq_ℤ b.repo_id repo && is_live b && is_member db user b.project_id) db.bindings

-- `types.Run`, as `scanRun` fills it.
pub record Run : Type 0 where
  pub row : RunRow
  pub repo : RepoRow
  pub viewer_is_member : Bool

abbrev pub is_public : RepoRow → Bool
is_public r = equal r.visibility (codes "public")

-- The row of a run for a viewer: its repository is public, or the viewer is a member.
abbrev pub visible_in : Db → Option ℕ → RunRow → Option RepoRow → Option Run
visible_in db user r none = none
visible_in db user r (some repo) =
    if is_public repo || is_member_of_repo db user r.repo_id
    then some
        (record { row = r; repo = repo; viewer_is_member = is_member_of_repo db user r.repo_id })
    else none

abbrev pub visible : Db → Option ℕ → RunRow → Option Run
visible db user r = visible_in db user r (find_repo r.repo_id db)

-- WHERE rp.full_name = $1
abbrev pub named : Text → Run → Bool
named full_name r = equal r.repo.full_name full_name

abbrev pub limit_or_100 : ℤ → ℕ
limit_or_100 limit = if is_positive limit then pos_part limit else 100

unfoldable pub list_runs_for_repo : Text → Text → Option ℕ → ℤ → M (List Run)
list_runs_for_repo owner repo user limit = query (codes "list runs for repo") (λ db now.
    limited (limit_or_100 limit) (
      newest_first (λ r. r.row.created_at)
        (select (named (trim_space owner ++ (b'/' ∷ trim_space repo)))
          (filter_map (visible db user) db.runs))))

abbrev of_project : Db → ℕ → RunRow → Option Run
of_project db project r = elim (find_repo r.repo_id db) [
  | none ↦ none
  | some repo ↦
      if any (λ b. eq_ℤ b.repo_id r.repo_id && b.project_id == project && is_live b) db.bindings
      then some (record { row = r; repo = repo; viewer_is_member = true })
      else none
]

unfoldable pub list_runs_for_project : ℕ → ℤ → M (List Run)
list_runs_for_project project limit = query (codes "list runs for project") (λ db now.
    limited (limit_or_100 limit)
      (newest_first (λ r. r.row.created_at) (filter_map (of_project db project) db.runs)))

-- `uuid` reads a UUID into its canonical form, and `generate` is uuidv7() for a new row.
module _ (uuid : Text → Option Text) (generate : ℕ → Text) where
  abbrev pub new_run : RunInput → Text → Db → ℕ → RunRow
  new_run r execution db now = record {
    id = db.next_run;
    public_id = generate db.next_run;
    repo_id = r.repo_id;
    execution_id = execution;
    facts = facts_of r.facts;
    job_conclusion = none;
    job_started_at = none;
    job_completed_at = none;
    enrichment_state = pending;
    created_at = now;
  }

  abbrev pub write_run : RunInput → Text → Db → ℕ → Db
  write_run r execution db now = record db {
    runs =
        upsert (is_run r.repo_id execution) (λ x. record x { facts = facts_of r.facts })
          (new_run r execution db now) db.runs;
    next_run = db.next_run + 1;
  }

  abbrev pub put_run : Columns → RunInput → Option Text → Db → ℕ → Result Violation (Unit {0} × Db)
  put_run columns r none db now = err invalid_text
  put_run columns r (some execution) db now =
      if not (takes_facts columns (facts_of r.facts))
      then err out_of_range
      else if is_null (find_repo r.repo_id db)
      then err foreign_key
      else ok (tt, write_run r execution db now)

  unfoldable pub upsert_run : Columns → RunInput → M (Unit {0})
  upsert_run columns r = statement (codes "upsert run") (put_run columns r (uuid r.execution_id))

  abbrev pub visible_row : Db → Option ℕ → Option RunRow → Option Run
  visible_row db user none = none
  visible_row db user (some r) = visible db user r

  abbrev pub run_by_public_id : Db → Option ℕ → Text → Option Run
  run_by_public_id db user id = visible_row db user (first (λ r. equal r.public_id id) db.runs)

  abbrev pub read_run : Option ℕ → Option Text → Db → ℕ → Result Violation (Option Run × Db)
  read_run user none db now = err invalid_text
  read_run user (some id) db now = ok (run_by_public_id db user id, db)

  unfoldable pub get_run_by_public_id : Text → Option ℕ → M Run
  get_run_by_public_id public_id user = do
    found ← statement (codes "get run by public id") (read_run user (uuid public_id))
    or_not_found found
