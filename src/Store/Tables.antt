-- ===== src/Store/Tables.antt =====
-- The tables of server/db/migrations/0006_schema.sql as lists of rows. Identifiers that GitHub
-- gives are int64 values, those that the database generates are natural numbers.
use ghapp_demo.Base.{ℕ, List, [], Option}
use ghapp_demo.Base.Int.{ℤ}
use ghapp_demo.Text.{Text}

pub record UserRow : Type 0 where
  pub id : ℕ
  pub display_name : Text
  pub email : Option Text
  pub avatar_url : Text
  pub created_at : ℕ

-- The provider is 'github' in every statement.
pub record IdentityRow : Type 0 where
  pub provider_user_id : Text
  pub provider_login : Text
  pub user_id : ℕ

pub record SessionRow : Type 0 where
  pub token : Text
  pub user_id : ℕ
  pub expires_at : ℕ

pub record ProjectRow : Type 0 where
  pub id : ℕ
  pub created_by : Option ℕ
  pub name : Text
  pub slug : Text
  pub created_at : ℕ

pub record MemberRow : Type 0 where
  pub project_id : ℕ
  pub user_id : ℕ
  pub role : Text

pub record BindingRow : Type 0 where
  pub project_id : ℕ
  pub repo_id : ℤ
  pub bound_by : Option ℕ
  pub bound_at : ℕ
  pub revoked_at : Option ℕ

pub record TokensRow : Type 0 where
  pub user_id : ℕ
  pub access_enc : List ℕ
  pub access_expires_at : Option ℕ
  pub refresh_enc : List ℕ
  pub refresh_expires_at : Option ℕ
  pub updated_at : ℕ

pub record SyncRow : Type 0 where
  pub user_id : ℕ
  pub synced_at : Option ℕ
  pub attempted_at : ℕ
  pub last_error : Option Text
  pub etag : Option Text

pub record AccessRow : Type 0 where
  pub user_id : ℕ
  pub repo_id : ℤ
  pub installation_id : ℤ

pub record InstallationRow : Type 0 where
  pub id : ℤ
  pub account_id : ℤ
  pub target_type : Text
  pub target_login : Text
  pub repository_selection : Option Text
  pub created_at : ℕ
  pub synced_at : ℕ
  pub deleted_at : Option ℕ

pub record InstallationRepoRow : Type 0 where
  pub installation_id : ℤ
  pub repo_id : ℤ
  pub synced_at : ℕ

pub record RepoRow : Type 0 where
  pub repo_id : ℤ
  pub full_name : Text
  pub owner : Text
  pub owner_id : ℤ
  pub visibility : Text
  pub visibility_source : Text
  pub synced_at : ℕ

pub record CoverageRow : Type 0 where
  pub repo_id : ℤ
  pub installation_id : Option ℤ
  pub checked_at : ℕ
  pub uncovered_since : Option ℕ

pub data EnrichmentState : Type 0 where
  pending matched ambiguous unavailable : EnrichmentState

-- The columns of a run that an upload sets and a second upload sets again.
pub record RunFacts : Type 0 where
  pub commit_sha : Text
  pub workflow_name : Text
  pub job_workflow_ref : Text
  pub github_run_id : ℤ
  pub branch : Text
  pub event_name : Text
  pub actor : Text
  pub pr_number : Option ℤ
  pub egress_json : Text
  pub run_attempt : ℤ
  pub workflow_ref : Text
  pub workflow_sha : Text
  pub job_workflow_sha : Text
  pub actor_id : Option ℤ
  pub runner_environment : Text
  pub job_key : Text
  pub runner_name : Text
  pub runner_os : Text
  pub capture_started_at : Option ℕ
  pub capture_ended_at : Option ℕ
  pub payload_sha256 : Text
  pub github_job_id : Option ℤ
  pub job_display_name : Option Text

pub record RunRow : Type 0 where
  pub id : ℕ
  pub public_id : Text
  pub repo_id : ℤ
  pub execution_id : Text
  pub facts : RunFacts
  pub job_conclusion : Option Text
  pub job_started_at : Option ℕ
  pub job_completed_at : Option ℕ
  pub enrichment_state : EnrichmentState
  pub created_at : ℕ

pub record Db : Type 0 where
  pub users : List UserRow
  pub identities : List IdentityRow
  pub sessions : List SessionRow
  pub projects : List ProjectRow
  pub members : List MemberRow
  pub bindings : List BindingRow
  pub tokens : List TokensRow
  pub syncs : List SyncRow
  pub access : List AccessRow
  pub installations : List InstallationRow
  pub installation_repos : List InstallationRepoRow
  pub repos : List RepoRow
  pub coverage : List CoverageRow
  pub runs : List RunRow
  -- the values that the sequences give next
  pub next_user : ℕ
  pub next_project : ℕ
  pub next_run : ℕ

abbrev pub empty_db : Db
empty_db = record {
  users = [];
  identities = [];
  sessions = [];
  projects = [];
  members = [];
  bindings = [];
  tokens = [];
  syncs = [];
  access = [];
  installations = [];
  installation_repos = [];
  repos = [];
  coverage = [];
  runs = [];
  next_user = 1;
  next_project = 1;
  next_run = 1;
}
