-- ===== src/Store/Coverage.antt =====
-- server/internal/postgres/store.go: which repositories an installation covers, the bindings and
-- the runs that go when none does.
pub mod Retention
use ghapp_demo.Base.{
  ℕ, ◌+◌, ◌*◌, ◌/◌, ◌^◌, Bool, true, false, not, ◌&&◌, List, [], ◌∷◌, Option, none, some, ltb,
  if◌then◌else◌, any, first, map, length, select,
}
use ghapp_demo.Base.Int.{ℤ, eq_ℤ}
use ghapp_demo.Base.Result.{Result, ok, err}
use ghapp_demo.Store.Bindings.{find_repo, is_live}
use ghapp_demo.Store.Monad.{M, foreign_key, statement, query}
use ghapp_demo.Store.Prepared.{Shape, plain, prepared}
use ghapp_demo.Store.Query.{update, delete, upsert, is_null}
use ghapp_demo.Store.Tables.{Db, RepoRow, CoverageRow, RunRow}
use ghapp_demo.Text.{Text, codes, equal}

unfoldable pub list_repo_coverage_candidates : M (List ℤ)
list_repo_coverage_candidates =
    query (codes "list coverage candidates") (λ db now. map (λ (r : RepoRow). r.repo_id) db.repos)

unfoldable pub list_repos_for_sync : M (List RepoRow)
list_repos_for_sync = query (codes "list repos for sync") (λ db now. db.repos)

-- CASE WHEN … IS NULL THEN COALESCE(…, NOW()) ELSE NULL END
abbrev pub uncovered : Option ℤ → Option ℕ → ℕ → Option ℕ
uncovered (some installation) since now = none
uncovered none (some since) now = some since
uncovered none none now = some now

-- In VALUES the second parameter stands in `CASE WHEN $2 IS NULL`, which gives it no type, before the
-- column in which it stands gives it one.
abbrev upsert_repo_coverage_shape : Shape
upsert_repo_coverage_shape = record plain { undetermined = 2 ∷ [] }

unfoldable pub upsert_repo_coverage : ℤ → Option ℤ → M (Unit {0})
upsert_repo_coverage repo installation =
    prepared (codes "upsert repo coverage") upsert_repo_coverage_shape (λ db now.
      if is_null (find_repo repo db)
      then err foreign_key
      else ok (
        tt,
        record db {
          coverage =
              upsert (λ c. eq_ℤ c.repo_id repo)
                (λ c. record c {
                  installation_id = installation;
                  checked_at = now;
                  uncovered_since = uncovered installation c.uncovered_since now;
                })
                (record {
                  repo_id = repo;
                  installation_id = installation;
                  checked_at = now;
                  uncovered_since = uncovered installation none now;
                })
                db.coverage;
        },
      ))

abbrev pub find_coverage : ℤ → Db → Option CoverageRow
find_coverage repo db = first (λ c. eq_ℤ c.repo_id repo) db.coverage

-- A coverage row that names no installation.
abbrev pub is_uncovered : Option CoverageRow → Bool
is_uncovered none = false
is_uncovered (some c) = is_null c.installation_id

-- The number of rows is the command tag's.
unfoldable pub revoke_uncovered_project_bindings : M ℕ
revoke_uncovered_project_bindings = statement (codes "revoke uncovered bindings") (λ db now.
    let hit = λ (b : ghapp_demo.Store.Tables.BindingRow).
      is_live b && is_uncovered (find_coverage b.repo_id db) in
    ok (
      length (select hit db.bindings),
      record db { bindings = update hit (λ b. record b { revoked_at = some now }) db.bindings },
    ))

abbrev pub is_private : Option RepoRow → Bool
is_private none = false
is_private (some r) = not (equal r.visibility (codes "public"))

-- uncovered_since < NOW() - seconds
abbrev pub is_overdue : ℕ → ℕ → Option CoverageRow → Bool
is_overdue seconds now none = false
is_overdue seconds now (some c) = elim c.uncovered_since [
  | none ↦ false
  | some since ↦ ltb (since + seconds * 10 ^ 9) now
]

-- The WHERE clause of the purge.
abbrev pub is_unretained : ℕ → Db → ℕ → RunRow → Bool
is_unretained seconds db now r =
    is_private (find_repo r.repo_id db)
    && is_overdue seconds now (find_coverage r.repo_id db)
    && not (any (λ b. eq_ℤ b.repo_id r.repo_id && is_live b) db.bindings)

-- `int64(minUncoveredAge.Seconds())` drops the part below a second.
unfoldable pub purge_unretained_runs : ℕ → M ℕ
purge_unretained_runs age = statement (codes "purge runs") (λ db now.
    let hit = is_unretained (age / 10 ^ 9) db now in
    ok (length (select hit db.runs), record db { runs = delete hit db.runs }))
