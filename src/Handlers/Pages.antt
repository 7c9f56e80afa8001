-- ===== src/Handlers/Pages.antt =====
-- server/web/handler/server.go: the pages of the projects. The user is the one that the session
-- gave, the slug is from the path; rendering has no error here.
use ghapp_demo.Base.{ℕ, Bool, List, [], ◌∷◌, ◌++◌, Option, none, some, if◌then◌else◌}
use ghapp_demo.Base.Int.{pos}
use ghapp_demo.Base.Result.{Result, ok, err}
use ghapp_demo.Handlers.Bind.{at, ensured}
use ghapp_demo.Handlers.Request.{first_filled}
use ghapp_demo.Handlers.Site.{Site, GithubApi}
use ghapp_demo.Handlers.Unbind.{project_status}
use ghapp_demo.Store.Bindings.{ListedRepo, list_project_repos, list_repos_for_project_binding}
use ghapp_demo.Store.Monad.{World, StoreError}
use ghapp_demo.Store.Projects.{Project, list_projects_by_user, get_project_by_slug, create_project}
use ghapp_demo.Store.Runs.{Run, list_runs_for_project}
use ghapp_demo.Text.{Text, codes, is_empty, trim_space}

-- What is rendered, or an error, or the redirect.
pub data ProjectPage : Type 0 where
  dashboard_page : List Project → ProjectPage
  project_page : Project → List ListedRepo → List Run → ProjectPage
  connect_page : Project → List ListedRepo → Text → Text → Bool → ProjectPage
  members_page : Project → ProjectPage
  see_other : Text → ProjectPage
  error_page : ℕ → ProjectPage

abbrev pub PageAnswer : Type 0
PageAnswer = ProjectPage × World

abbrev pub listed_projects : Result StoreError (List Project) × World → PageAnswer
listed_projects (err e, w) = (error_page 500, w)
listed_projects (ok projects, w) = (dashboard_page projects, w)

unfoldable pub handle_dashboard : Option ℕ → World → PageAnswer
handle_dashboard none w = (error_page 500, w)
handle_dashboard (some user) w = listed_projects (list_projects_by_user user w)

abbrev pub created : Result StoreError Project × World → PageAnswer
created (err e, w) = (error_page 500, w)
created (ok p, w) = (see_other (codes "/projects/" ++ p.slug), w)

abbrev pub create_named : ℕ → Text → World → PageAnswer
create_named user name w =
    if is_empty name then (error_page 400, w) else created (create_project user name w)

-- The field `name` is missing where the form does not parse.
unfoldable pub handle_create_project : Option ℕ → Option Text → World → PageAnswer
handle_create_project none field w = (error_page 500, w)
handle_create_project (some user) none w = (error_page 400, w)
handle_create_project (some user) (some name) w = create_named user (trim_space name) w

abbrev pub with_project_runs :
    Project → List ListedRepo → Result StoreError (List Run) × World → PageAnswer
with_project_runs p repos (err e, w) = (error_page 500, w)
with_project_runs p repos (ok runs, w) = (project_page p repos runs, w)

abbrev pub with_project_repos : Project → Result StoreError (List ListedRepo) × World → PageAnswer
with_project_repos p (err e, w) = (error_page 500, w)
with_project_repos p (ok repos, w) =
    with_project_runs p repos (list_runs_for_project p.id (pos 100) w)

abbrev pub show_project : Result StoreError Project × World → PageAnswer
show_project (err e, w) = (error_page (project_status e), w)
show_project (ok p, w) = with_project_repos p (list_project_repos p.id w)

unfoldable pub handle_project : Option ℕ → Text → World → PageAnswer
handle_project none slug w = (error_page 500, w)
handle_project (some user) slug w = show_project (get_project_by_slug user slug w)

abbrev pub show_members : Result StoreError Project × World → PageAnswer
show_members (err e, w) = (error_page (project_status e), w)
show_members (ok p, w) = (members_page p, w)

unfoldable pub handle_project_members_page : Option ℕ → Text → World → PageAnswer
handle_project_members_page none slug w = (error_page 500, w)
handle_project_members_page (some user) slug w = show_members (get_project_by_slug user slug w)

unfoldable pub configured_github_app_settings_url : Text → Text → Text
configured_github_app_settings_url settings install =
    first_filled (settings ∷ install ∷ []) (codes "https://github.com/apps")

-- The URLs of `Config` that the page shows.
pub record AppUrls : Type 0 where
  pub install : Text
  pub settings : Text

module _ {S : Type 0} (urls : AppUrls) where
  abbrev pub connected :
      Project → Bool → S → Result StoreError (List ListedRepo) × World → ProjectPage × Site S
  connected p stale s (err e, w) = (error_page 500, at s w)
  connected p stale s (ok repos, w) = (
    connect_page p repos urls.install
        (configured_github_app_settings_url urls.settings urls.install) stale,
    at s w,
  )

  abbrev pub connect_with_access : ℕ → Project → Result Text Bool × Site S → ProjectPage × Site S
  connect_with_access user p (err words, site) = (error_page 403, site)
  connect_with_access user p (ok stale, site) =
      connected p stale site.github (list_repos_for_project_binding p.id user site.world)

  abbrev pub connect_project :
      Option (GithubApi S) → ℕ → S → Result StoreError Project × World → ProjectPage × Site S
  connect_project api user s (err e, w) = (error_page (project_status e), at s w)
  connect_project api user s (ok p, w) = connect_with_access user p (ensured api user (at s w))

  unfoldable pub handle_connect_repos_page :
      Option (GithubApi S) → Option ℕ → Text → Site S → ProjectPage × Site S
  unfolding configured_github_app_settings_url
  handle_connect_repos_page api none slug site = (error_page 500, site)
  handle_connect_repos_page api (some user) slug site =
      connect_project api user site.github (get_project_by_slug user slug site.world)
