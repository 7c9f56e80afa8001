-- ===== src/Store/Tests/Uploads.antt =====
-- The run of the sample, seen and uploaded again.
use ghapp_demo.Base.{
  ℕ, ◌+◌, ◌^◌, ◌≡◌, ◌≤◌, refl, true, false, [], ◌∷◌, ◌++◌, none, some, In, any, length,
  if◌then◌else◌,
}
use ghapp_demo.Base.Int.{pos}
use ghapp_demo.Base.Result.{ok, err}
use ghapp_demo.Store.Columns.{takes_facts}
use ghapp_demo.Store.Monad.{statement, not_found, failed, violated, out_of_range}
use ghapp_demo.Store.Query.{newest_first}
use ghapp_demo.Store.Runs.{
  Run, RunInput, get_run_by_public_id, list_runs_for_repo, limit_or_100, is_public, upsert_run,
  is_run, facts_of,
}
use ghapp_demo.Store.Runs.Upsert.{upsert_run-row, row_of, IsKept}
use ghapp_demo.Store.Runs.Visibility.{
  MaySee, IsInProject, get_run_by_public_id-MaySee, get_run_by_public_id_not_found,
  list_runs_for_repo-MaySee,
}
use ghapp_demo.Store.Sample.{world, run, repo, facts, uuid, generate, columns}
use ghapp_demo.Store.Tables.{RunRow}
use ghapp_demo.Text.{Text, codes, equal, trim_space}

abbrev shown : Run
shown = record { row = run; repo = repo; viewer_is_member = true }

got : (get_run_by_public_id uuid generate (codes "p1") (some 1) world).0 ≡ ok shown
unfolding get_run_by_public_id statement equal
got = refl

get_run_by_public_id-MaySee_example : MaySee world.db (some 1) shown
get_run_by_public_id-MaySee_example =
    get_run_by_public_id-MaySee uuid generate (codes "p1") (some 1) world shown got

hidden : (get_run_by_public_id uuid generate (codes "p1") none world).0 ≡ err not_found
unfolding get_run_by_public_id statement equal
hidden = refl

get_run_by_public_id_not_found_example :
    (is_public repo ≡ false)
    × ((user : ℕ) → none ≡ some user → ¬ IsInProject world.db user run.repo_id)
unfolding equal
get_run_by_public_id_not_found_example =
    get_run_by_public_id_not_found uuid generate (codes "p1") none world (codes "p1") run repo
      hidden refl refl refl

listed : (list_runs_for_repo (codes "o") (codes "r") (some 1) (pos 0) world).0 ≡ ok (shown ∷ [])
unfolding list_runs_for_repo statement equal trim_space newest_first
listed = refl

list_runs_for_repo-MaySee_example :
    ((x : Run)
      → In x (shown ∷ [])
      → MaySee world.db (some 1) x
        × (x.repo.full_name ≡ trim_space (codes "o") ++ (b'/' ∷ trim_space (codes "r"))))
    × (length (shown ∷ []) ≤ limit_or_100 (pos 0))
list_runs_for_repo-MaySee_example =
    list_runs_for_repo-MaySee (codes "o") (codes "r") (some 1) (pos 0) world (shown ∷ []) listed

abbrev input : RunInput
input = record { repo_id = pos 7; execution_id = codes "e1"; facts = facts }

stored : (upsert_run uuid generate columns input world).0 ≡ ok tt
unfolding upsert_run takes_facts statement
stored = refl

-- An attempt that is beyond the INT of its column.
abbrev far : RunInput
far = record input { facts = record facts { run_attempt = pos (2 ^ 31) } }

attempt_out_of_range :
    (upsert_run uuid generate columns far world).0
    ≡ err (failed (codes "upsert run") (violated out_of_range))
unfolding upsert_run takes_facts statement
attempt_out_of_range = refl

upsert_run-row_example :
    (key : Text) × (uuid input.execution_id ≡ some key)
    × ((x : RunRow) × (row_of uuid generate columns input world key
            (upsert_run uuid generate columns input world).1.db
          ≡ some x)
        × (x.facts ≡ facts_of facts)
        × IsKept uuid generate columns input world
            (row_of uuid generate columns input world key world.db)
            x)
    × ((x : RunRow)
        → In x world.db.runs
        → is_run (pos 7) key x ≡ false
        → In x (upsert_run uuid generate columns input world).1.db.runs)
    × (length (upsert_run uuid generate columns input world).1.db.runs ≡ (
        if any (is_run (pos 7) key) world.db.runs
        then length world.db.runs
        else length world.db.runs + 1))
upsert_run-row_example = upsert_run-row uuid generate columns input world stored
