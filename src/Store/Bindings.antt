-- ===== src/Store/Bindings.antt =====
-- server/internal/postgres/store.go: repositories of a project, and which repositories a user may
-- bind.
pub mod Laws
use ghapp_demo.Base.{
  ℕ, Bool, true, false, not, ◌&&◌, ◌||◌, List, [], ◌∷◌, ◌++◌, Option, none, some, ◌==◌,
  if◌then◌else◌, any, first, select,
}
use ghapp_demo.Base.Int.{ℤ, eq_ℤ}
use ghapp_demo.Base.Result.{Result, ok, err}
use ghapp_demo.Store.Monad.{
  or_not_found, M, ◌>>=◌, ◌>>◌, return, throw, not_found, unique, foreign_key, Violation, statement,
  query, exec, transaction,
}
use ghapp_demo.Store.Query.{update, delete, upsert, filter_map, is_null}
use ghapp_demo.Store.Tables.{Db, BindingRow, AccessRow, RepoRow, SyncRow}
use ghapp_demo.Store.Users.{has_user}
use ghapp_demo.Text.{Text, codes}

-- `types.Repo`, as the listings fill it.
pub record ListedRepo : Type 0 where
  pub repo : RepoRow
  pub bound : Bool
  pub can_bind : Bool
  pub bound_at : Option ℕ
  pub revoked_at : Option ℕ

abbrev pub is_binding : ℕ → ℤ → BindingRow → Bool
is_binding project repo b = b.project_id == project && eq_ℤ b.repo_id repo

abbrev pub is_live : BindingRow → Bool
is_live b = is_null b.revoked_at

abbrev pub find_repo : ℤ → Db → Option RepoRow
find_repo repo db = first (λ r. eq_ℤ r.repo_id repo) db.repos

abbrev listed : Db → BindingRow → Option ListedRepo
listed db b = elim (find_repo b.repo_id db) [
  | none ↦ none
  | some r ↦ some (record {
    repo = r;
    bound = true;
    can_bind = false;
    bound_at = some b.bound_at;
    revoked_at = b.revoked_at;
  })
]

-- In the order of the table: ORDER BY full_name is left out.
unfoldable pub list_project_repos : ℕ → M (List ListedRepo)
list_project_repos project = query (codes "list project repos") (λ db now.
    filter_map (listed db) (select (λ b. b.project_id == project && is_live b) db.bindings))

abbrev pub may_bind : Db → ℕ → ℤ → Bool
may_bind db user repo = any (λ a. a.user_id == user && eq_ℤ a.repo_id repo) db.access

abbrev bindable : Option BindingRow → Bool → RepoRow → ListedRepo
bindable none can r = record {
  repo = r;
  bound = false;
  can_bind = can;
  bound_at = none;
  revoked_at = none;
}
bindable (some b) can r = record {
  repo = r;
  bound = is_live b;
  can_bind = can;
  bound_at = some b.bound_at;
  revoked_at = b.revoked_at;
}

-- In the order of the table: ORDER BY full_name is left out.
unfoldable pub list_repos_for_project_binding : ℕ → ℕ → M (List ListedRepo)
list_repos_for_project_binding project user = query (codes "list bindable repos") (λ db now.
    filter_map
      (λ r. some (
        bindable (first (is_binding project r.repo_id) db.bindings) (may_bind db user r.repo_id) r))
      db.repos)

unfoldable pub user_can_access_repo_for_binding : ℕ → ℤ → M Bool
user_can_access_repo_for_binding user repo =
    query (codes "check user repo access") (λ db now. may_bind db user repo)

abbrev has_project : ℕ → Db → Bool
has_project project db = any (λ p. p.id == project) db.projects

unfoldable pub bind_repo_to_project : ℕ → ℤ → ℕ → M (Unit {0})
bind_repo_to_project project repo user = statement (codes "bind repo") (λ db now.
    let row : BindingRow = record {
      project_id = project;
      repo_id = repo;
      bound_by = some user;
      bound_at = now;
      revoked_at = none;
    } in
    if not (has_project project db) || is_null (find_repo repo db) || not (has_user user db)
    then err foreign_key
    else ok (
      tt,
      record db {
        bindings =
            upsert (is_binding project repo)
              (λ b. record b { bound_by = some user; bound_at = now; revoked_at = none }) row
              db.bindings;
      },
    ))

unfoldable pub unbind_repo_from_project : ℕ → ℤ → M (Unit {0})
unbind_repo_from_project project repo = exec (codes "unbind repo") (λ db now. record db {
  bindings =
      update (λ b. is_binding project repo b && is_live b) (λ b. record b { revoked_at = some now })
        db.bindings;
})

-- `UserAccessSync` is `SyncRow` without its user; `ErrNotFound` where there is no row.
unfoldable pub get_user_access_sync : ℕ → M SyncRow
get_user_access_sync user = do
  found ← query (codes "get user access sync") (λ db now. first (λ s. s.user_id == user) db.syncs)
  or_not_found found

unfoldable pub upsert_user_access_sync : ℕ → Option ℕ → ℕ → Option Text → Option Text → M (Unit {0})
upsert_user_access_sync user synced attempted last_error etag =
    statement (codes "upsert user access sync") (λ db now.
      let row : SyncRow = record {
        user_id = user;
        synced_at = synced;
        attempted_at = attempted;
        last_error = last_error;
        etag = etag;
      } in
      if not (has_user user db)
      then err foreign_key
      else ok (tt, record db { syncs = upsert (λ s. s.user_id == user) (λ _. row) row db.syncs }))

-- `UserRepoAccessRow`
abbrev pub Grant : Type 0
Grant = ℤ × ℤ

abbrev pub is_access : ℕ → ℤ → AccessRow → Bool
is_access user repo a = a.user_id == user && eq_ℤ a.repo_id repo

abbrev pub insert_access : ℕ → Grant → Db → ℕ → Result Violation (Unit {0} × Db)
insert_access user (repo, installation) db now =
    if any (is_access user repo) db.access
    then err unique
    else if not (has_user user db)
    then err foreign_key
    else ok (
      tt,
      record db {
        access =
            db.access
            ++ record { user_id = user; repo_id = repo; installation_id = installation } ∷ [];
      },
    )

unfoldable pub insert_grants : ℕ → List Grant → M (Unit {0})
insert_grants user [] w = (ok tt, w)
insert_grants user (g ∷ grants) w =
    (statement (codes "insert user repo access") (insert_access user g) >> λ w'.
    insert_grants user grants w')
      w

unfoldable pub replace_user_repo_access : ℕ → List Grant → M (Unit {0})
unfolding insert_grants
replace_user_repo_access user grants =
    transaction (codes "begin replace user repo access") (codes "commit replace user repo access")
      (do
        exec (codes "clear user repo access")
            (λ db now. record db { access = delete (λ a. a.user_id == user) db.access })
        insert_grants user grants)
