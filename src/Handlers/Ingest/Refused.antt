-- ===== src/Handlers/Ingest/Refused.antt =====
-- An upload that is refused leaves the runs alone.
use ghapp_demo.Base.{
  ℕ, ◌-◌, ◌≡◌, inl, inr, refl, sym, ap, ◌∙◌, Bool, true, false, List, Option, arith, Bool-cases,
  leb,
}
use ghapp_demo.Base.Int.{ℤ, pos, is_positive, pos_part}
use ghapp_demo.Base.Result.{Result, ok, err}
use ghapp_demo.Handlers.Ingest.{
  unless_full, count_and_put, Reply, accepted, refused, ServerState, Request, Clock, Decoders, day,
  check_upload, authenticate, after, put, within_quota, store_upload, keep_or_refuse, limit_claims,
  with_claims, handle_runs_ingest, repo_of, owner_rate,
}
use ghapp_demo.Limiter.{Counter, allow, minute}
use ghapp_demo.Runsauth.{Jwt, TokenManager, UploadClaims}
use ghapp_demo.Store.Columns.{Columns}
use ghapp_demo.Store.Monad.{World, StoreError, statement}
use ghapp_demo.Store.Monad.Rollback.{statement_err-db}
use ghapp_demo.Store.Runs.{RepoInput, RunInput, upsert_repo, count_runs_by_owner_since, upsert_run}
use ghapp_demo.Store.Tables.{Db, RunRow}
use ghapp_demo.Text.{Text}
use ghapp_demo.Text.Dict.{Dict}
use ghapp_demo.Text.Number.{print_int}

abbrev runs_of : World → List RunRow
runs_of w = w.db.runs

upsert_repo-runs :
    (columns : Columns) (repo : RepoInput) (w : World)
    → runs_of (upsert_repo columns repo w).1 ≡ runs_of w
unfolding upsert_repo statement
upsert_repo-runs columns repo w = ground arith

count-runs :
    (owner : ℤ) (since : ℕ) (w : World)
    → runs_of (count_runs_by_owner_since owner since w).1 ≡ runs_of w
unfolding count_runs_by_owner_since statement
count-runs owner since w = ground arith

-- What follows a method keeps the runs if the method and the rest do.
after-runs :
    {A : Type 0} (r : Result StoreError A × World) (f : A → World → Reply × World) (w : World)
    (k : ℕ)
    → runs_of r.1 ≡ runs_of w
    → ((a : A) → (f a r.1).0 ≡ refused k → runs_of (f a r.1).1 ≡ runs_of r.1)
    → (after r f).0 ≡ refused k
    → runs_of (after r f).1 ≡ runs_of w
after-runs (ok a, v) f w k same later h = later a h ∙ same
after-runs (err e, v) f w k same later h = same

module _ (uuid : Text → Option Text) (generate : ℕ → Text) (columns : Columns) (k : ℕ) where
  after_upsert :
      (r : Result StoreError (Unit {0}) × World) (w : World)
      → ((e : StoreError) → r.0 ≡ err e → r.1.db ≡ w.db)
      → (after r (λ _ v. (accepted, v))).0 ≡ refused k
      → runs_of (after r (λ _ v. (accepted, v))).1 ≡ runs_of w
  after_upsert (ok u, v) w same h = ground (arith, h)
  after_upsert (err e, v) w same h = ap (λ (db : Db). db.runs) (same e refl)

  put-runs :
      (run : RunInput) (w : World)
      → (put uuid generate columns run w).0 ≡ refused k
      → runs_of (put uuid generate columns run w).1 ≡ runs_of w
  unfolding upsert_run
  put-runs run w h =
      after_upsert (upsert_run uuid generate columns run w) w (λ e. statement_err-db _ _ w e) h

  unless_full-runs :
      (quota : ℤ) (run : RunInput) (count : ℕ) (w : World)
      → (unless_full uuid generate columns quota run count w).0 ≡ refused k
      → runs_of (unless_full uuid generate columns quota run count w).1 ≡ runs_of w
  unless_full-runs quota run count w h = elim (Bool-cases (leb (pos_part quota) count)) [
    | inl t ↦ rw (t, unless_full) refl
    | inr t ↦
        let same : unless_full uuid generate columns quota run count w
            ≡ put uuid generate columns run w =
          rw (t, unless_full) refl in
        ap (λ r. runs_of r.1) same ∙ put-runs run w (sym (ap (λ r. r.0) same) ∙ h)
  ]

  within_quota-runs :
      (quota owner : ℤ) (now : ℕ) (run : RunInput) (w : World)
      → (within_quota uuid generate columns quota owner now run w).0 ≡ refused k
      → runs_of (within_quota uuid generate columns quota owner now run w).1 ≡ runs_of w
  within_quota-runs quota owner now run w h = elim (Bool-cases (is_positive quota)) [
    | inl t ↦
        let same : within_quota uuid generate columns quota owner now run w
            ≡ count_and_put uuid generate columns quota owner now run w =
          rw (t, within_quota) refl in
        ap (λ r. runs_of r.1) same
        ∙ after-runs (count_runs_by_owner_since owner (now - day) w) _ w k
            (count-runs owner (now - day) w)
            (λ count.
              unless_full-runs quota run count (count_runs_by_owner_since owner (now - day) w).1)
            (sym (ap (λ r. r.0) same) ∙ h)
    | inr t ↦
        let same : within_quota uuid generate columns quota owner now run w
            ≡ put uuid generate columns run w =
          rw (t, within_quota) refl in
        ap (λ r. runs_of r.1) same ∙ put-runs run w (sym (ap (λ r. r.0) same) ∙ h)
  ]

  store_upload-runs :
      (quota : ℤ) (repo : RepoInput) (run : RunInput) (now : ℕ) (w : World)
      → (store_upload uuid generate columns quota repo run now w).0 ≡ refused k
      → runs_of (store_upload uuid generate columns quota repo run now w).1 ≡ runs_of w
  unfolding store_upload
  store_upload-runs quota repo run now w h =
      after-runs (upsert_repo columns repo w) _ w k (upsert_repo-runs columns repo w)
        (λ _. within_quota-runs quota repo.owner_id now run (upsert_repo columns repo w).1) h

  module _ (jwt : Jwt) (d : Decoders) (tokens : Option TokenManager) (quota : ℤ) where
    keep-runs :
        (c : UploadClaims) (t : Clock) (l : Option (Dict Counter)) (w : World)
        (checked : Result ℕ RunInput)
        → (keep_or_refuse uuid generate columns jwt d tokens quota c t l w checked).0 ≡ refused k
        → runs_of (keep_or_refuse uuid generate columns jwt d tokens quota c t l w checked).1.world
          ≡ runs_of w
    keep-runs c t l w (err status) h = refl
    keep-runs c t l w (ok run) h = store_upload-runs quota (repo_of c) run t.counted w h

    limit-runs :
        (c : UploadClaims) (t : Clock) (body : Option Text) (w : World)
        (passed : Bool × Option (Dict Counter))
        → (limit_claims uuid generate columns jwt d tokens quota c t body w passed).0 ≡ refused k
        → runs_of (limit_claims uuid generate columns jwt d tokens quota c t body w passed).1.world
          ≡ runs_of w
    limit-runs c t body w (false, l) h = refl
    limit-runs c t body w (true, l) h = keep-runs c t l w (check_upload d c body) h

    claims-runs :
        (r : Request) (t : Clock) (s : ServerState) (known : Result ℕ UploadClaims)
        → (with_claims uuid generate columns jwt d tokens quota known r t s).0 ≡ refused k
        → runs_of (with_claims uuid generate columns jwt d tokens quota known r t s).1.world
          ≡ runs_of s.world
    claims-runs r t s (err status) h = refl
    claims-runs r t s (ok c) h =
        limit-runs c t r.body s.world
          (allow s.limiter (print_int c.repository_owner_id) owner_rate (pos minute) t.limited) h

    -- An upload that is refused, at whichever check or store method, leaves the table of runs as it
    -- was.
    pub handle_runs_ingest_refused :
        (r : Request) (t : Clock) (s : ServerState)
        → (handle_runs_ingest uuid generate columns jwt d tokens quota r t s).0 ≡ refused k
        → (handle_runs_ingest uuid generate columns jwt d tokens quota r t s).1.world.db.runs
          ≡ s.world.db.runs
    unfolding handle_runs_ingest
    handle_runs_ingest_refused r t s h =
        claims-runs r t s (authenticate jwt tokens r.authorization t.verified) h
