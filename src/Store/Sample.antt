-- ===== src/Store/Sample.antt =====
-- A database with one project, one private repository and one run, for the tests.
use ghapp_demo.Base.{not, any, ◌==◌, ℕ, ◌*◌, ◌^◌, [], ◌∷◌, Option, none, some}
use ghapp_demo.Base.Int.{pos}
use ghapp_demo.Store.Columns.{Columns}
use ghapp_demo.Store.Monad.{World, idle}
use ghapp_demo.Store.Tables.{
  Db, empty_db, UserRow, ProjectRow, MemberRow, BindingRow, RepoRow, CoverageRow, RunRow, RunFacts,
  InstallationRow, pending,
}
use ghapp_demo.Text.{Text, codes}

abbrev pub owner : UserRow
owner = record { id = 1; display_name = codes "o"; email = none; avatar_url = []; created_at = 0 }

abbrev pub project : ProjectRow
project = record {
  id = 1;
  created_by = some 1;
  name = codes "Demo";
  slug = codes "demo";
  created_at = 0;
}

abbrev pub membership : MemberRow
membership = record { project_id = 1; user_id = 1; role = codes "owner" }

abbrev pub binding : BindingRow
binding = record {
  project_id = 1;
  repo_id = pos 7;
  bound_by = some 1;
  bound_at = 0;
  revoked_at = none;
}

abbrev pub repo : RepoRow
repo = record {
  repo_id = pos 7;
  full_name = codes "o/r";
  owner = codes "o";
  owner_id = pos 8;
  visibility = codes "private";
  visibility_source = codes "oidc";
  synced_at = 0;
}

abbrev pub facts : RunFacts
facts = record {
  commit_sha = codes "c0";
  workflow_name = [];
  job_workflow_ref = [];
  github_run_id = pos 3;
  branch = [];
  event_name = [];
  actor = [];
  pr_number = none;
  egress_json = codes "[]";
  run_attempt = pos 1;
  workflow_ref = [];
  workflow_sha = [];
  job_workflow_sha = [];
  actor_id = none;
  runner_environment = [];
  job_key = [];
  runner_name = [];
  runner_os = [];
  capture_started_at = none;
  capture_ended_at = none;
  payload_sha256 = [];
  github_job_id = none;
  job_display_name = none;
}

abbrev pub run : RunRow
run = record {
  id = 1;
  public_id = codes "p1";
  repo_id = pos 7;
  execution_id = codes "e1";
  facts = facts;
  job_conclusion = none;
  job_started_at = none;
  job_completed_at = none;
  enrichment_state = pending;
  created_at = 0;
}

abbrev pub lapsed : CoverageRow
lapsed = record {
  repo_id = pos 7;
  installation_id = none;
  checked_at = 0;
  uncovered_since = some 0;
}

abbrev pub installation : InstallationRow
installation = record {
  id = pos 5;
  account_id = pos 8;
  target_type = [];
  target_login = [];
  repository_selection = none;
  created_at = 0;
  synced_at = 0;
  deleted_at = none;
}

abbrev pub db : Db
db = record empty_db {
  users = owner ∷ [];
  projects = project ∷ [];
  members = membership ∷ [];
  bindings = binding ∷ [];
  repos = repo ∷ [];
  coverage = lapsed ∷ [];
  runs = run ∷ [];
  installations = installation ∷ [];
  installation_repos = record { installation_id = pos 5; repo_id = pos 7; synced_at = 0 } ∷ [];
  access = record { user_id = 1; repo_id = pos 7; installation_id = pos 5 } ∷ [];
}

-- No statement fails, and the clock stands a thousand seconds after the epoch.
abbrev pub world : World
world = record { db = db; now = 1000 * 10 ^ 9; events = []; tx = idle }

-- The same with no binding left.
abbrev pub unbound : World
unbound = record world { db = record db { bindings = [] } }

-- How the server reads a UUID, and the ones that it generates.
abbrev pub uuid : Text → Option Text
uuid t = some t

-- Columns that take every text without a NUL.
abbrev pub columns : Columns
columns = record { text = λ t. not (any (λ c. c == 0) t); jsonb = λ t. not (any (λ c. c == 0) t) }

abbrev pub generate : ℕ → Text
generate n = codes "p2"
