-- ===== src/Handlers/Public/Shown.antt =====
-- server/web/templates/run.html: what the page of a run shows of its data. The layout around it reads
-- the title, and the user of the session.
use ghapp_demo.Base.{ℕ, Bool, List, Option, none, some, if◌then◌else◌}
use ghapp_demo.Handlers.Lineage.{RunSummaryView, LineageViews}
use ghapp_demo.Handlers.Public.{PublicPage, run_page, runs_page, error_page, PublicAnswer, Caching}
use ghapp_demo.Store.Runs.{Run}
use ghapp_demo.Text.{Text}

-- The actor and the event are shown to members only.
pub record RunHtml : Type 0 where
  pub repo_owner : Text
  pub repo_name : Text
  pub repo_full_name : Text
  pub lineage_root_label : Text
  pub commit_sha : Text
  pub branch : Text
  pub actor : Option Text
  pub event_name : Option Text
  pub recorded : ℕ
  pub lineage_roots : LineageViews
  pub error_messages : List Text

-- The list of a repository's runs has a template of its own.
pub data Html : Type 0 where
  run_html : RunHtml → Html
  runs_html : Text → Text → List Run → Html
  error_html : ℕ → Text → Html

abbrev pub to_members : Bool → Text → Option Text
to_members show_member_views t = if show_member_views then some t else none

abbrev pub run_template : Run → RunSummaryView → Text → Text → Bool → RunHtml
run_template run summary owner repo show_member_views = record {
  repo_owner = owner;
  repo_name = repo;
  repo_full_name = run.repo.full_name;
  lineage_root_label = summary.lineage_root_label;
  commit_sha = run.row.facts.commit_sha;
  branch = run.row.facts.branch;
  actor = to_members show_member_views run.row.facts.actor;
  event_name = to_members show_member_views run.row.facts.event_name;
  recorded = run.row.created_at;
  lineage_roots = summary.lineage_roots;
  error_messages = summary.error_messages;
}

unfoldable pub shown : PublicPage → Html
shown (run_page run summary owner repo members) =
    run_html (run_template run summary owner repo members)
shown (runs_page owner repo runs) = runs_html owner repo runs
shown (error_page status words) = error_html status words

-- The header and the page of an answer.
abbrev pub response : PublicAnswer → Option Caching × Html
response a = (a.caching, shown a.page)
