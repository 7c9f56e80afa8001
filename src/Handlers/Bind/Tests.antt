-- ===== src/Handlers/Bind/Tests.antt =====
-- The owner of the sample project binds its repository, two minutes after the accesses were read.
use ghapp_demo.Base.{ℕ, ◌*◌, ◌^◌, ◌≡◌, refl, [], ◌∷◌, none, some}
use ghapp_demo.Base.Result.{ok, err}
use ghapp_demo.Handlers.Access.{ensure_user_repo_access}
use ghapp_demo.Handlers.Bind.{handle_bind_repo}
use ghapp_demo.Handlers.Bind.Allowed.{IsAllowed, handle_bind_repo-IsAllowed}
use ghapp_demo.Handlers.Site.{Site, GithubApi}
use ghapp_demo.Handlers.Unbind.{can_manage_project}
use ghapp_demo.Store.Bindings.{
  bind_repo_to_project, get_user_access_sync, user_can_access_repo_for_binding,
}
use ghapp_demo.Store.Monad.{statement}
use ghapp_demo.Store.Projects.{get_project_by_slug}
use ghapp_demo.Store.Sample.{columns, unbound}
use ghapp_demo.Store.Tables.{SyncRow}
use ghapp_demo.Store.Users.{get_user_github_tokens}
use ghapp_demo.Text.{codes, equal, trim_space, to_lower}
use ghapp_demo.Text.Number.{parse_int}

-- GitHub does not answer.
abbrev silent : GithubApi ℕ
silent = record {
  clock = λ site. site.world.now;
  words = λ e. codes "store";
  columns = columns;
  decrypt_token = λ bytes. ok bytes;
  encrypt_token = λ token s. (ok token, s);
  exchange_user_code = λ code s. (err (codes "down"), s);
  refresh_user_token = λ token s. (err (codes "down"), s);
  github_user = λ token s. (err (codes "down"), s);
  list_user_installations = λ token s. (err (codes "down"), s);
  list_user_installation_repositories = λ token id s. (err (codes "down"), s);
}

abbrev last_sync : SyncRow
last_sync = record {
  user_id = 1;
  synced_at = some (880 * 10 ^ 9);
  attempted_at = 0;
  last_error = none;
  etag = none;
}

abbrev start : Site ℕ
start = record {
  world = record unbound { db = record unbound.db { syncs = last_sync ∷ [] } };
  github = 0;
}

bound_303 :
    (handle_bind_repo (some silent) (some 1) (codes "demo") (some (codes "7")) start).0 ≡ 303
unfolding handle_bind_repo get_project_by_slug bind_repo_to_project user_can_access_repo_for_binding
    ensure_user_repo_access get_user_access_sync can_manage_project parse_int statement equal
    trim_space to_lower
bound_303 = refl

-- Without a recorded synchronisation a silent GitHub means no access.
refused_403 :
    (handle_bind_repo
      (some silent)
      (some 1)
      (codes "demo")
      (some (codes "7"))
      (record start { world = unbound })).0
    ≡ 403
unfolding handle_bind_repo get_project_by_slug bind_repo_to_project user_can_access_repo_for_binding
    ensure_user_repo_access get_user_access_sync get_user_github_tokens can_manage_project parse_int
    statement equal trim_space to_lower
refused_403 = refl

handle_bind_repo-IsAllowed_example :
    IsAllowed
      (some silent)
      (some 1)
      (codes "demo")
      (some (codes "7"))
      start
      (handle_bind_repo (some silent) (some 1) (codes "demo") (some (codes "7")) start).1.world
handle_bind_repo-IsAllowed_example =
    handle_bind_repo-IsAllowed (some silent) (some 1) (codes "demo") (some (codes "7")) start
      bound_303
