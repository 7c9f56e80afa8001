-- ===== src/Store/Coverage/Retention.antt =====
-- What the revocation and the purge leave alone.
use ghapp_demo.Base.{
  ℕ, ltb, ◌+◌, ◌*◌, ◌/◌, ◌^◌, ◌≡◌, ◌↔◌, ◌<◌, refl, Bool, true, false, not, ◌&&◌, List, Option, none,
  some, arith, any, In, ap, Bool-cases, inl, inr, select, length,
}
use ghapp_demo.Base.Int.{eq_ℤ}
use ghapp_demo.Base.Result.{ok}
use ghapp_demo.Store.Bindings.{find_repo, is_live}
use ghapp_demo.Store.Coverage.{
  is_unretained, purge_unretained_runs, find_coverage, is_uncovered, is_overdue, is_private,
  revoke_uncovered_project_bindings,
}
use ghapp_demo.Store.Monad.{World, now_of}
use ghapp_demo.Store.Monad.Invert.{statement-ok}
use ghapp_demo.Store.Query.Laws.{In-select, In-update, update-In, length-delete}
use ghapp_demo.Store.Query.{delete, update}
use ghapp_demo.Store.Tables.{Db, RepoRow, CoverageRow, RunRow, BindingRow}
use ghapp_demo.Text.{codes, equal}

-- A run that the purge may take: its repository is known and not public, nobody binds it, and it
-- has been uncovered for longer than the age.
pub record IsUnretained (seconds : ℕ) (db : Db) (now : ℕ) (r : RunRow) : Type 0 where
  pub repo : RepoRow
  pub is_known : find_repo r.repo_id db ≡ some repo
  pub is_not_public : equal repo.visibility (codes "public") ≡ false
  pub row : CoverageRow
  pub is_checked : find_coverage r.repo_id db ≡ some row
  pub since : ℕ
  pub is_uncovered_since : row.uncovered_since ≡ some since
  pub is_long : since + seconds * 10 ^ 9 < now
  pub is_unbound : any (λ b. eq_ℤ b.repo_id r.repo_id && is_live b) db.bindings ≡ false

private_repo :
    (found : Option RepoRow)
    → is_private found ≡ true
    → (r : RepoRow) × (found ≡ some r) × (equal r.visibility (codes "public") ≡ false)
private_repo none h = ground arith
private_repo (some r) h = (r, refl, ground arith)

overdue_since :
    (seconds now : ℕ) (noted : Option ℕ)
    → elim noted as (λ _. Bool) [ none ↦ false | some since ↦ ltb (since + seconds * 10 ^ 9) now ]
      ≡ true
    → (since : ℕ) × (noted ≡ some since) × (since + seconds * 10 ^ 9 < now)
overdue_since seconds now none h = ground arith
overdue_since seconds now (some since) h = (since, refl, ground arith)

overdue_row :
    (seconds now : ℕ) (found : Option CoverageRow)
    → is_overdue seconds now found ≡ true
    → (c : CoverageRow) × (since : ℕ) × (found ≡ some c)
      × (c.uncovered_since ≡ some since)
      × (since + seconds * 10 ^ 9 < now)
overdue_row seconds now none h = ground arith
overdue_row seconds now (some c) h =
    let (since, noted, long) = overdue_since seconds now c.uncovered_since h in
    (c, since, refl, noted, long)

and_split : (a b c : Bool) → (a && b && c) ≡ true → (a ≡ true) × (b ≡ true) × (c ≡ true)
and_split true true true h = (refl, refl, refl)
and_split _ _ _ h = ground arith

unretained :
    (seconds : ℕ) (db : Db) (now : ℕ) (r : RunRow)
    → is_unretained seconds db now r ≡ true
    → IsUnretained seconds db now r
unretained seconds db now r h =
    let (private, overdue, unbound) = and_split _ _ _ h in
    let (repo, known, not_public) = private_repo _ private in
    let (row, since, checked, noted, long) = overdue_row seconds now _ overdue in
    record {
      repo = repo;
      is_known = known;
      is_not_public = not_public;
      row = row;
      is_checked = checked;
      since = since;
      is_uncovered_since = noted;
      is_long = long;
      is_unbound = ground (arith, unbound);
    }

of_unretained :
    (seconds : ℕ) (db : Db) (now : ℕ) (r : RunRow)
    → IsUnretained seconds db now r
    → is_unretained seconds db now r ≡ true
of_unretained seconds db now r h =
    rw (h.is_known, h.is_not_public, h.is_checked, h.is_uncovered_since, h.is_unbound)
      (ground (arith, h.is_long))

not-IsUnretained :
    (seconds : ℕ) (db : Db) (now : ℕ) (r : RunRow)
    → (not (is_unretained seconds db now r) ≡ true) ↔ (¬ IsUnretained seconds db now r)
not-IsUnretained seconds db now r = (
  λ h u. ground (arith, of_unretained seconds db now r u, h),
  λ h. elim (Bool-cases (is_unretained seconds db now r)) [
    | inl t ↦ elim (h (unretained seconds db now r t)) [ ]
    | inr t ↦ rw t refl
  ],
)

purge-runs :
    (age : ℕ) (w : World) (n : ℕ)
    → (purge_unretained_runs age w).0 ≡ ok n
    → (n ≡ length (select (is_unretained (age / 10 ^ 9) w.db (now_of w.tx w.now)) w.db.runs))
      × ((purge_unretained_runs age w).1.db.runs
          ≡ delete (is_unretained (age / 10 ^ 9) w.db (now_of w.tx w.now)) w.db.runs)
unfolding purge_unretained_runs
purge-runs age w n h = ground (arith, statement-ok _ _ w n h)

In-kept :
    (seconds : ℕ) (db : Db) (now : ℕ) (r : RunRow) (runs : List RunRow)
    → In r (delete (is_unretained seconds db now) runs)
      ↔ (In r runs × (¬ IsUnretained seconds db now r))
In-kept seconds db now r runs =
    let (sound, complete) = In-select (λ x. not (is_unretained seconds db now x)) r runs in
    let (kept, dropped) = not-IsUnretained seconds db now r in
    (λ i. ((sound i).0, kept (sound i).1), λ i. complete (i.0, dropped i.1))

-- A purge that returns keeps a run exactly when its repository is public or unknown, is bound to
-- a project, or was not uncovered for longer than the whole seconds of the age; no run is new, and
-- the number it returns is the number of runs that went.
pub purge_unretained_runs-In :
    (age : ℕ) (w : World) (n : ℕ) (r : RunRow)
    → (purge_unretained_runs age w).0 ≡ ok n
    → (In r (purge_unretained_runs age w).1.db.runs
        ↔ (In r w.db.runs × (¬ IsUnretained (age / 10 ^ 9) w.db (now_of w.tx w.now) r)))
      × (n + length (purge_unretained_runs age w).1.db.runs ≡ length w.db.runs)
purge_unretained_runs-In age w n r h =
    let hit = is_unretained (age / 10 ^ 9) w.db (now_of w.tx w.now) in
    let (count, kept) = purge-runs age w n h in
    rw (kept, count)
      (In-kept (age / 10 ^ 9) w.db (now_of w.tx w.now) r w.db.runs, length-delete hit w.db.runs)

abbrev is_revoked : Db → BindingRow → Bool
is_revoked db b = is_live b && is_uncovered (find_coverage b.repo_id db)

revoke-bindings :
    (w : World) (n : ℕ)
    → (revoke_uncovered_project_bindings w).0 ≡ ok n
    → (revoke_uncovered_project_bindings w).1.db.bindings
      ≡ update
          (is_revoked w.db)
          (λ b. record b { revoked_at = some (now_of w.tx w.now) })
          w.db.bindings
unfolding revoke_uncovered_project_bindings
revoke-bindings w n h = ground (arith, statement-ok _ _ w n h)

-- The revocation leaves every binding in place whose repository some installation covers, or that
-- was never checked, and no live binding of a repository that was found uncovered is left.
pub revoke-In :
    (w : World) (n : ℕ) (b : BindingRow)
    → (revoke_uncovered_project_bindings w).0 ≡ ok n
    → (In b w.db.bindings
        → is_uncovered (find_coverage b.repo_id w.db) ≡ false
        → In b (revoke_uncovered_project_bindings w).1.db.bindings)
      × (In b (revoke_uncovered_project_bindings w).1.db.bindings
          → is_live b ≡ true
          → is_uncovered (find_coverage b.repo_id w.db) ≡ false)
revoke-In w n b h =
    let f = λ (x : BindingRow). record x { revoked_at = some (now_of w.tx w.now) } in
    rw (revoke-bindings w n h) (
      λ i covered. In-update (is_revoked w.db) f b w.db.bindings i (ground (arith, covered)),
      λ i live. elim (update-In (is_revoked w.db) f b w.db.bindings i) [
        | inl (j, t) ↦ ground (arith, t, live)
        | inr (x, j, t, e) ↦ ground (arith, e, live, ap is_live)
      ],
    )
