-- ===== src/Handlers/Bind.antt =====
-- server/web/handler/server.go: `handleBindRepo`. The user is the one that the session gave, the
-- slug is from the path, and the form field is missing where the form does not parse.
pub mod Allowed
mod Tests
use ghapp_demo.Base.{ℕ, Bool, true, false, Option, none, some, if◌then◌else◌}
use ghapp_demo.Base.Int.{ℤ, is_positive}
use ghapp_demo.Base.Result.{Result, ok, err}
use ghapp_demo.Handlers.Access.{ensure_user_repo_access}
use ghapp_demo.Handlers.Site.{Site, GithubApi, H, lift}
use ghapp_demo.Handlers.Unbind.{can_manage_project, project_status, read_id}
use ghapp_demo.Store.Bindings.{user_can_access_repo_for_binding, bind_repo_to_project}
use ghapp_demo.Store.Monad.{World, StoreError}
use ghapp_demo.Store.Projects.{Project, get_project_by_slug}
use ghapp_demo.Text.{Text, codes}

-- The answer's status, and the state.
abbrev pub SiteAnswer : Type 0 → Type 0
SiteAnswer S = ℕ × Site S

module _ {S : Type 0} where
  abbrev pub at : S → World → Site S
  at s w = record { world = w; github = s }

  abbrev pub finish_bind : S → Result StoreError (Unit {0}) × World → SiteAnswer S
  finish_bind s (ok u, w) = (303, at s w)
  finish_bind s (err e, w) = (500, at s w)

  abbrev pub bind_checked : ℕ → Project → ℤ → S → Result StoreError Bool × World → SiteAnswer S
  bind_checked user p repo s (err e, w) = (500, at s w)
  bind_checked user p repo s (ok false, w) = (403, at s w)
  bind_checked user p repo s (ok true, w) = finish_bind s (bind_repo_to_project p.id repo user w)

  abbrev pub bind_with_access : ℕ → Project → ℤ → Result Text Bool × Site S → SiteAnswer S
  bind_with_access user p repo (err words, site) = (403, site)
  bind_with_access user p repo (ok stale, site) =
      bind_checked user p repo site.github (user_can_access_repo_for_binding user repo site.world)

  -- `none` is a client that is not configured.
  abbrev pub ensured : Option (GithubApi S) → ℕ → H S Bool
  ensured none user = lift (err (codes "github app client unavailable"))
  ensured (some api) user = ensure_user_repo_access api user

  abbrev pub bind_id : Option (GithubApi S) → ℕ → Project → Option ℤ → Site S → SiteAnswer S
  bind_id api user p none site = (400, site)
  bind_id api user p (some repo) site =
      if is_positive repo then bind_with_access user p repo (ensured api user site) else (400, site)

  abbrev pub with_project :
      Option (GithubApi S) → ℕ → Option Text → S → Result StoreError Project × World → SiteAnswer S
  with_project api user field s (err e, w) = (project_status e, at s w)
  with_project api user field s (ok p, w) =
      if can_manage_project p.role
      then bind_id api user p (read_id field) (at s w)
      else (403, at s w)

  unfoldable pub handle_bind_repo :
      Option (GithubApi S) → Option ℕ → Text → Option Text → Site S → SiteAnswer S
  handle_bind_repo api none slug field site = (500, site)
  handle_bind_repo api (some user) slug field site =
      with_project api user field site.github (get_project_by_slug user slug site.world)
