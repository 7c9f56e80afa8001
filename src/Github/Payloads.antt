-- ===== src/Github/Payloads.antt =====
-- server/internal/githubapp/client.go: the payloads of the GitHub API, and what the
-- listings make of them.
use ghapp_demo.Base.{ℕ, [], Option}
use ghapp_demo.Base.Int.{ℤ, pos}
use ghapp_demo.Text.{Text, trim_space}

pub record InstallationPayload : Type 0 where
  pub id : ℤ
  pub repository_selection : Text
  pub account_id : ℤ
  pub account_login : Text
  pub account_type : Text

pub record InstallationLite : Type 0 where
  pub id : ℤ
  pub account_id : ℤ
  pub account_login : Text
  pub account_type : Text
  pub repository_selection : Text

pub record RepoPayload : Type 0 where
  pub id : ℤ
  pub full_name : Text
  pub visibility : Text
  pub owner_login : Text
  pub owner_id : ℤ

pub record RepoLite : Type 0 where
  pub repo_id : ℤ
  pub full_name : Text
  pub owner : Text
  pub owner_id : ℤ
  pub visibility : Text

pub record RunJob : Type 0 where
  pub id : ℤ
  pub name : Text
  pub runner_name : Text
  pub conclusion : Text
  pub started_at : Option ℕ
  pub completed_at : Option ℕ

-- `lower` is `strings.ToLower`, with the letters outside ASCII.
abbrev pub installation_of : (Text → Text) → InstallationPayload → InstallationLite
installation_of lower p = record {
  id = p.id;
  account_id = p.account_id;
  account_login = p.account_login;
  account_type = lower (trim_space p.account_type);
  repository_selection = p.repository_selection;
}

abbrev pub repo_of : RepoPayload → RepoLite
repo_of p = record {
  repo_id = p.id;
  full_name = p.full_name;
  owner = p.owner_login;
  owner_id = p.owner_id;
  visibility = p.visibility;
}

abbrev pub zero_repo : RepoPayload
zero_repo = record {
  id = pos 0;
  full_name = [];
  visibility = [];
  owner_login = [];
  owner_id = pos 0;
}

abbrev pub same_job : RunJob → RunJob
same_job j = j
