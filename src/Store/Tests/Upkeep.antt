-- ===== src/Store/Tests/Upkeep.antt =====
-- Coverage, retention and matching on the sample.
use ghapp_demo.Base.{
  ℕ, ◌+◌, ◌*◌, ◌/◌, ◌^◌, ◌≡◌, ◌↔◌, refl, true, false, [], ◌∷◌, none, some, In, length,
}
use ghapp_demo.Base.Int.{ℤ, pos}
use ghapp_demo.Base.Result.{ok, err}
use ghapp_demo.Store.Coverage.{
  purge_unretained_runs, revoke_uncovered_project_bindings, upsert_repo_coverage, find_coverage,
  is_uncovered,
}
use ghapp_demo.Store.Coverage.Retention.{IsUnretained, purge_unretained_runs-In, revoke-In}
use ghapp_demo.Store.Bindings.{is_live}
use ghapp_demo.Store.Enrichment.{
  mark_run_enrichment_matched, list_runs_for_enrichment_group, enrichment_run,
}
use ghapp_demo.Store.Installations.{get_any_installation_id_for_repo, is_active}
use ghapp_demo.Store.Installations.Laws.{get_any_installation_id_for_repo-covers}
use ghapp_demo.Store.Monad.{failed, violated, malformed, World, statement, now_of}
use ghapp_demo.Store.Prepared.{prepared, is_accepted}
use ghapp_demo.Store.Sample.{world, unbound, run, binding}
use ghapp_demo.Store.Tables.{InstallationRepoRow}
use ghapp_demo.Text.{codes, equal}

abbrev age : ℕ
age = 10 * 10 ^ 9

purged : (purge_unretained_runs age unbound).0 ≡ ok 1
unfolding purge_unretained_runs statement equal
purged = refl

purge_unretained_runs-In_example :
    (In run (purge_unretained_runs age unbound).1.db.runs ↔ (
      In run unbound.db.runs
      × (¬ IsUnretained (age / 10 ^ 9) unbound.db (now_of unbound.tx unbound.now) run)))
    × (1 + length (purge_unretained_runs age unbound).1.db.runs ≡ length unbound.db.runs)
purge_unretained_runs-In_example = purge_unretained_runs-In age unbound 1 run purged

revoked : (revoke_uncovered_project_bindings world).0 ≡ ok 1
unfolding revoke_uncovered_project_bindings statement
revoked = refl

revoke-In_example :
    (In binding world.db.bindings
      → is_uncovered (find_coverage binding.repo_id world.db) ≡ false
      → In binding (revoke_uncovered_project_bindings world).1.db.bindings)
    × (In binding (revoke_uncovered_project_bindings world).1.db.bindings
        → is_live binding ≡ true
        → is_uncovered (find_coverage binding.repo_id world.db) ≡ false)
revoke-In_example = revoke-In world 1 binding revoked

checked :
    (upsert_repo_coverage (pos 7) none world).0
    ≡ err (failed (codes "upsert repo coverage") (violated malformed))
unfolding upsert_repo_coverage prepared is_accepted statement
checked = refl

found : (get_any_installation_id_for_repo (pos 7) world).0 ≡ ok (some (pos 5))
unfolding get_any_installation_id_for_repo statement
found = refl

get_any_installation_id_for_repo-covers_example :
    ((id : ℤ)
      → some (pos 5) ≡ some id
      → (x : InstallationRepoRow) × In x world.db.installation_repos
        × (x.repo_id ≡ pos 7)
        × (x.installation_id ≡ id)
        × (is_active world.db id ≡ true))
    × (some (pos 5) ≡ none
        → (x : InstallationRepoRow) → In x world.db.installation_repos
        → x.repo_id ≡ pos 7
        → is_active world.db x.installation_id ≡ false)
get_any_installation_id_for_repo-covers_example =
    get_any_installation_id_for_repo-covers (pos 7) world (some (pos 5)) found

abbrev after : World
after = (mark_run_enrichment_matched 1 (pos 11) (codes "build") [] none none world).1

marked : (mark_run_enrichment_matched 1 (pos 11) (codes "build") [] none none world).0 ≡ ok tt
unfolding mark_run_enrichment_matched statement
marked = refl

grouped :
    (list_runs_for_enrichment_group (pos 7) (pos 3) (pos 1) world).0 ≡ ok (enrichment_run run ∷ [])
unfolding list_runs_for_enrichment_group statement
grouped = refl
