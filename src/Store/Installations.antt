-- ===== src/Store/Installations.antt =====
-- server/internal/postgres/store.go: the installations of the GitHub App and their repositories.
pub mod Laws
use ghapp_demo.Base.{
  ℕ, Bool, true, false, not, ◌&&◌, List, [], ◌∷◌, ◌++◌, Option, none, some, if◌then◌else◌, any,
  first, select, leb, ◌==◌,
}
use ghapp_demo.Base.Int.{ℤ, pos, negsuc, eq_ℤ}
use ghapp_demo.Base.Result.{Result, ok, err}
use ghapp_demo.Store.Monad.{
  M, ◌>>=◌, ◌>>◌, return, unique, foreign_key, Violation, statement, query, exec, transaction,
}
use ghapp_demo.Store.Query.{update, delete, upsert, is_null}
use ghapp_demo.Store.Tables.{Db, InstallationRow, InstallationRepoRow}
use ghapp_demo.Text.{Text, codes, is_empty, trim_space}

-- `nullableString`
unfoldable pub nullable_string : Text → Option Text
nullable_string v = if is_empty (trim_space v) then none else some (trim_space v)

-- The row of both upserts; `deleted` is none in the first of them.
abbrev installation_row : ℤ → ℤ → Text → Text → Text → ℕ → Option ℕ → InstallationRow
installation_row id account type login selection now deleted = record {
  id = id;
  account_id = account;
  target_type = type;
  target_login = login;
  repository_selection = nullable_string selection;
  created_at = now;
  synced_at = now;
  deleted_at = deleted;
}

abbrev put_installation : InstallationRow → Db → Db
put_installation row db = record db {
  installations =
      upsert (λ i. eq_ℤ i.id row.id) (λ i. record row { created_at = i.created_at }) row
        db.installations;
}

abbrev pub find_installation : ℤ → Db → Option InstallationRow
find_installation id db = first (λ i. eq_ℤ i.id id) db.installations

-- The row that RETURNING gives is the one stored.
unfoldable pub upsert_installation : ℤ → ℤ → Text → Text → Text → M (Option InstallationRow)
unfolding nullable_string
upsert_installation id account type login selection =
    statement (codes "upsert installation") (λ db now.
      let db' = put_installation (installation_row id account type login selection now none) db in
      ok (find_installation id db', db'))

unfoldable pub upsert_installation_from_pull : ℤ → ℤ → Text → Text → Text → Bool → M (Unit {0})
unfolding nullable_string
upsert_installation_from_pull id account type login selection deleted =
    exec (codes "upsert installation from pull") (λ db now.
      put_installation
        (installation_row id account type login selection now (if deleted then some now else none))
        db)

unfoldable pub delete_installation : ℤ → M (Unit {0})
delete_installation id = exec (codes "soft delete installation") (λ db now. record db {
  installations =
      update (λ i. eq_ℤ i.id id) (λ i. record i { deleted_at = some now; synced_at = now })
        db.installations;
})

abbrev pub is_installed : InstallationRow → Bool
is_installed i = is_null i.deleted_at

-- With no identifiers to keep, `<> ALL` holds of every row: the two statements are one here.
unfoldable pub mark_installations_missing_from_pull_deleted : List ℤ → M (Unit {0})
mark_installations_missing_from_pull_deleted keep =
    exec (codes "mark missing installations deleted") (λ db now. record db {
      installations =
          update (λ i. is_installed i && not (any (eq_ℤ i.id) keep))
            (λ i. record i { deleted_at = some now; synced_at = now }) db.installations;
    })

abbrev pub is_active : Db → ℤ → Bool
is_active db id = any (λ i. eq_ℤ i.id id && is_installed i) db.installations

abbrev pub leb_ℤ : ℤ → ℤ → Bool
leb_ℤ (pos a) (pos b) = leb a b
leb_ℤ (pos a) (negsuc b) = false
leb_ℤ (negsuc a) (pos b) = true
leb_ℤ (negsuc a) (negsuc b) = leb b a

abbrev pub smaller : ℤ → Option ℤ → Option ℤ
smaller a none = some a
smaller a (some b) = if leb_ℤ a b then some a else some b

-- ORDER BY github_installation_id LIMIT 1 of the rows that pass the test
abbrev pub least : (InstallationRepoRow → Bool) → List InstallationRepoRow → Option ℤ
least p [] = none
least p (x ∷ xs) = if p x then smaller x.installation_id (least p xs) else least p xs

abbrev pub covers : Db → ℤ → InstallationRepoRow → Bool
covers db repo x = eq_ℤ x.repo_id repo && is_active db x.installation_id

unfoldable pub get_any_installation_id_for_repo : ℤ → M (Option ℤ)
get_any_installation_id_for_repo repo =
    query (codes "get installation for repo")
      (λ db now. least (covers db repo) db.installation_repos)

abbrev insert_installation_repo : ℤ → ℤ → Db → ℕ → Result Violation (Unit {0} × Db)
insert_installation_repo installation repo db now =
    if any (λ x. eq_ℤ x.installation_id installation && eq_ℤ x.repo_id repo) db.installation_repos
    then err unique
    else if is_null (find_installation installation db)
    then err foreign_key
    else ok (
      tt,
      record db {
        installation_repos =
            db.installation_repos
            ++ record { installation_id = installation; repo_id = repo; synced_at = now } ∷ [];
      },
    )

unfoldable pub insert_installation_repos : ℤ → List ℤ → M (Unit {0})
insert_installation_repos installation [] w = (ok tt, w)
insert_installation_repos installation (repo ∷ repos) w =
    (statement (codes "insert installation repo") (insert_installation_repo installation repo)
        >> λ w'. insert_installation_repos installation repos w')
      w

unfoldable pub replace_installation_repos : ℤ → List ℤ → M (Unit {0})
unfolding insert_installation_repos
replace_installation_repos installation repos =
    transaction (codes "begin replace installation repos")
      (codes "commit replace installation repos")
      (do
        exec (codes "clear installation repos") (λ db now. record db {
          installation_repos =
              delete (λ x. eq_ℤ x.installation_id installation) db.installation_repos;
        })
        insert_installation_repos installation repos)
