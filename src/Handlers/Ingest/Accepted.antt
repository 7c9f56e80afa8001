-- ===== src/Handlers/Ingest/Accepted.antt =====
-- server/web/handler/server.go: `handleRunsIngest` while no statement fails.
use ghapp_demo.Base.{
  ◌&&◌, ℕ, ◌+◌, ◌-◌, ◌<◌, ◌≡◌, ◌⊎◌, subst, inl, inr, refl, ap, ◌∙◌, true, false, [], Option, some,
  arith, Bool-cases, leb,
}
use ghapp_demo.Base.Int.{ℤ, pos, is_positive, pos_part, eq_ℤ, eq_ℤ_iff}
use ghapp_demo.Base.Result.{ok}
use ghapp_demo.Handlers.Ingest.{
  unless_full, count_and_put, accepted, Request, Clock, Decoders, day, check_upload, authenticate,
  after, put, within_quota, store_upload, handle_runs_ingest, repo_of, owner_rate,
}
use ghapp_demo.Handlers.Request.{bearer_token, repo_owner_from_full_name}
use ghapp_demo.Limiter.{Counter, allow, minute}
use ghapp_demo.Runsauth.{Jwt, TokenManager, UploadClaims, verify_upload_token}
use ghapp_demo.Store.Bindings.{find_repo}
use ghapp_demo.Store.Columns.{Columns, takes_facts}
use ghapp_demo.Store.Monad.{World, statement, idle}
use ghapp_demo.Store.Query.{upsert}
use ghapp_demo.Store.Query.Laws.{first-upsert}
use ghapp_demo.Store.Runs.{
  RepoInput, RunInput, upsert_repo, count_runs_by_owner_since, upsert_run, visibility_ok,
  stored_visibility, repo_row, facts_of,
}
use ghapp_demo.Store.Tables.{Db, RepoRow}
use ghapp_demo.Text.{Text}
use ghapp_demo.Text.Dict.{Dict}
use ghapp_demo.Text.Number.{print_int}
use ghapp_demo.Handlers.Ingest.Checked.{check_upload-ok}

-- No transaction is open, and no statement fails for an outer reason.
abbrev pub quiet : Db → ℕ → World
quiet db now = record { db = db; now = now; events = []; tx = idle }

abbrev with_repo : RepoInput → ℕ → Db → Db
with_repo r now db = record db {
  repos = upsert (λ x. eq_ℤ x.repo_id r.repo_id) (λ _. repo_row r now) (repo_row r now) db.repos;
}

upsert_repo-quiet :
    (columns : Columns) (r : RepoInput) (db : Db) (now : ℕ)
    → columns.text r.full_name && columns.text r.owner ≡ true
    → visibility_ok (stored_visibility r.visibility) ≡ true
    → upsert_repo columns r (quiet db now) ≡ (ok tt, quiet (with_repo r now db) (now + 0))
unfolding upsert_repo statement
upsert_repo-quiet columns r db now n h = rw n (rw h refl)

find_repo-with_repo :
    (r : RepoInput) (db : Db) (now : ℕ)
    → (x : RepoRow) × (find_repo r.repo_id (with_repo r now db) ≡ some x)
find_repo-with_repo r db now =
    let same = (eq_ℤ_iff r.repo_id r.repo_id).1 refl in
    (
      _,
      first-upsert (λ x. eq_ℤ x.repo_id r.repo_id) (λ _. repo_row r now) (repo_row r now) db.repos
          same (λ x t. same),
    )

-- There is no quota, or the owner has not reached it.
abbrev pub IsBelow : ℤ → ℤ → ℕ → World → Type 0
IsBelow quota owner now w =
    (is_positive quota ≡ false)
    ⊎ ((count : ℕ) × ((count_runs_by_owner_since owner (now - day) w).0 ≡ ok count)
        × (count < pos_part quota))

count-quiet :
    (owner : ℤ) (since : ℕ) (db : Db) (now count : ℕ)
    → (count_runs_by_owner_since owner since (quiet db now)).0 ≡ ok count
    → count_runs_by_owner_since owner since (quiet db now) ≡ (ok count, quiet db (now + 0))
unfolding count_runs_by_owner_since statement
count-quiet owner since db now count h = ap (λ r. (r, quiet db (now + 0))) h

module _ (uuid : Text → Option Text) (generate : ℕ → Text) (columns : Columns) (quota : ℤ)
    (run : RunInput) (key : Text) where
  put-quiet :
      (x : RepoRow) (db : Db) (now : ℕ)
      → uuid run.execution_id ≡ some key
      → takes_facts columns (facts_of run.facts) ≡ true
      → find_repo run.repo_id db ≡ some x
      → (put uuid generate columns run (quiet db now)).0 ≡ accepted
  unfolding upsert_run statement
  put-quiet x db now k g f = rw k (rw g (rw f refl))

  count_and_put-quiet :
      (owner : ℤ) (t : ℕ) (x : RepoRow) (db : Db) (now count : ℕ)
      → uuid run.execution_id ≡ some key
      → takes_facts columns (facts_of run.facts) ≡ true
      → find_repo run.repo_id db ≡ some x
      → (count_runs_by_owner_since owner (t - day) (quiet db now)).0 ≡ ok count
      → count < pos_part quota
      → (count_and_put uuid generate columns quota owner t run (quiet db now)).0 ≡ accepted
  count_and_put-quiet owner t x db now count k g f e below =
      let full : leb (pos_part quota) count ≡ false = ground (arith, below) in
      ap (λ a. (after a (λ n w'. unless_full uuid generate columns quota run n w')).0)
        (count-quiet owner (t - day) db now count e)
      ∙ rw full (put-quiet x db (now + 0) k g f)

  within_quota-quiet :
      (owner : ℤ) (t : ℕ) (x : RepoRow) (db : Db) (now : ℕ)
      → uuid run.execution_id ≡ some key
      → takes_facts columns (facts_of run.facts) ≡ true
      → find_repo run.repo_id db ≡ some x
      → IsBelow quota owner t (quiet db now)
      → (within_quota uuid generate columns quota owner t run (quiet db now)).0 ≡ accepted
  within_quota-quiet owner t x db now k g f (inl free) = rw free (put-quiet x db now k g f)
  within_quota-quiet owner t x db now k g f (inr (count, e, below)) =
      elim (Bool-cases (is_positive quota)) [
        | inl p ↦ rw p (count_and_put-quiet owner t x db now count k g f e below)
        | inr p ↦ rw p (put-quiet x db now k g f)
      ]

  store_upload-quiet :
      (r : RepoInput) (t : ℕ) (db : Db) (now : ℕ)
      → run.repo_id ≡ r.repo_id
      → columns.text r.full_name && columns.text r.owner ≡ true
      → visibility_ok (stored_visibility r.visibility) ≡ true
      → uuid run.execution_id ≡ some key
      → takes_facts columns (facts_of run.facts) ≡ true
      → IsBelow quota r.owner_id t (upsert_repo columns r (quiet db now)).1
      → (store_upload uuid generate columns quota r run t (quiet db now)).0 ≡ accepted
  unfolding store_upload
  store_upload-quiet r t db now same n v k g below =
      let stored = upsert_repo-quiet columns r db now n v in
      let (x, found) = find_repo-with_repo r db now in
      ap (λ a. (after a (λ _ w'. within_quota uuid generate columns quota r.owner_id t run w')).0)
        stored
      ∙ within_quota-quiet r.owner_id t x (with_repo r now db) (now + 0) k g
          (ap (λ id. find_repo id (with_repo r now db)) same ∙ found)
          (subst (λ a. IsBelow quota r.owner_id t a.1) stored below)

module _ (uuid : Text → Option Text) (generate : ℕ → Text) (columns : Columns) (quota : ℤ)
    (jwt : Jwt) (d : Decoders) (m : TokenManager) where
  -- While no statement fails for an outer reason and no transaction is open, an upload is accepted
  -- that has a bearer token which the manager accepts, is within the rate of the owner that the
  -- token names, passes the checks of its body, and has values that the columns of both tables
  -- take: the report as JSONB, the attempt as a 32-bit integer, the texts, the visibility and a
  -- UUID; if there is no quota or the owner has not reached it.
  pub handle_runs_ingest-accepted :
      (r : Request) (t : Clock) (limiter : Option (Dict Counter)) (db : Db) (now : ℕ)
      (bearer key : Text) (c : UploadClaims) (run : RunInput)
      → bearer_token r.authorization ≡ some bearer
      → verify_upload_token jwt m bearer t.verified ≡ ok c
      → (allow limiter (print_int c.repository_owner_id) owner_rate (pos minute) t.limited).0 ≡ true
      → check_upload d c r.body ≡ ok run
      → columns.text c.repository && columns.text (repo_owner_from_full_name c.repository) ≡ true
      → visibility_ok (stored_visibility c.repository_visibility) ≡ true
      → uuid c.execution_id ≡ some key
      → takes_facts columns (facts_of run.facts) ≡ true
      → IsBelow quota c.repository_owner_id t.counted
          (upsert_repo columns (repo_of c) (quiet db now)).1
      → (handle_runs_ingest uuid generate columns jwt d
          (some m)
          quota
          r
          t
          (record { limiter = limiter; world = quiet db now })).0
        ≡ accepted
  unfolding handle_runs_ingest authenticate
  handle_runs_ingest-accepted r t limiter db now bearer key c run given verified passed checked n v
        k g below =
      let (body, _, _, _, repo, execution, _) = check_upload-ok d c r.body run checked in
      let kept =
        store_upload-quiet uuid generate columns quota run key (repo_of c) t.counted db now repo n v
          (ap uuid execution ∙ k) g below in
      rw (given, verified, passed, checked) kept
