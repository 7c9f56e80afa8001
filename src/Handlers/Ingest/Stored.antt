-- ===== src/Handlers/Ingest/Stored.antt =====
-- When an upload is stored, and that a refused one leaves the runs alone.
use ghapp_demo.Base.{
  ℕ, ◌-◌, ◌≡◌, ◌<◌, inl, inr, refl, sym, ap, subst, ◌∙◌, Bool, true, false, Option, some, arith,
  Bool-cases, leb,
}
use ghapp_demo.Base.Int.{ℤ, pos, is_positive, pos_part}
use ghapp_demo.Base.Result.{Result, ok, err}
use ghapp_demo.Handlers.Ingest.{
  unless_full, count_and_put, Reply, accepted, ServerState, Request, Clock, Decoders, day,
  check_upload, authenticate, after, put, within_quota, store_upload, keep_or_refuse, limit_claims,
  with_claims, handle_runs_ingest, repo_of, owner_rate,
}
use ghapp_demo.Handlers.Request.{bearer_token}
use ghapp_demo.Limiter.{Counter, allow, minute}
use ghapp_demo.Runsauth.{Jwt, TokenManager, UploadClaims, verify_upload_token}
use ghapp_demo.Store.Columns.{Columns}
use ghapp_demo.Store.Monad.{World, StoreError}
use ghapp_demo.Store.Monad.Invert.{query-ok}
use ghapp_demo.Store.Runs.{RepoInput, RunInput, upsert_repo, count_runs_by_owner_since, upsert_run}
use ghapp_demo.Text.{Text}
use ghapp_demo.Text.Dict.{Dict}
use ghapp_demo.Text.Number.{print_int}
use ghapp_demo.Handlers.Ingest.Checked.{IsChecked, check_upload-ok, authenticate-ok}

after-accepted :
    {A : Type 0} (r : Result StoreError A × World) (f : A → World → Reply × World)
    → (after r f).0 ≡ accepted
    → (a : A) × (r.0 ≡ ok a) × (after r f ≡ f a r.1)
after-accepted (ok a, w) f h = (a, refl, refl)
after-accepted (err e, w) f h = ground (arith, h)

module _ (uuid : Text → Option Text) (generate : ℕ → Text) (columns : Columns) (quota owner : ℤ)
    (now : ℕ) (run : RunInput) where
  -- The run is stored in a world in which the owner has not reached the quota, if there is one.
  abbrev pub IsStored : World → World → Type 0
  IsStored w after_world =
      (v : World) × (v.db ≡ w.db)
      × ((upsert_run uuid generate columns run v).0 ≡ ok tt)
      × (after_world ≡ (upsert_run uuid generate columns run v).1)
      × (is_positive quota ≡ true
          → (count : ℕ) × ((count_runs_by_owner_since owner (now - day) w).0 ≡ ok count)
            × (count < pos_part quota))

  put-accepted :
      (w : World)
      → (put uuid generate columns run w).0 ≡ accepted
      → ((upsert_run uuid generate columns run w).0 ≡ ok tt)
        × ((put uuid generate columns run w).1 ≡ (upsert_run uuid generate columns run w).1)
  put-accepted w h =
      let (u, e, same) = after-accepted (upsert_run uuid generate columns run w) _ h in
      (e, ap (λ r. r.1) same)

  unless_full-accepted :
      (count : ℕ) (w : World)
      → (unless_full uuid generate columns quota run count w).0 ≡ accepted
      → (count < pos_part quota)
        × (unless_full uuid generate columns quota run count w ≡ put uuid generate columns run w)
  unless_full-accepted count w h = elim (Bool-cases (leb (pos_part quota) count)) [
    | inl t ↦ ground (arith, h, t)
    | inr t ↦ (ground (arith, t), rw (t, unless_full) refl)
  ]

  count-db :
      (w : World) (count : ℕ)
      → (count_runs_by_owner_since owner (now - day) w).0 ≡ ok count
      → (count_runs_by_owner_since owner (now - day) w).1.db ≡ w.db
  unfolding count_runs_by_owner_since
  count-db w count h = (query-ok _ _ w count h).1

  count_and_put-accepted :
      (w : World)
      → (count_and_put uuid generate columns quota owner now run w).0 ≡ accepted
      → IsStored w (count_and_put uuid generate columns quota owner now run w).1
  count_and_put-accepted w h =
      let counted = count_runs_by_owner_since owner (now - day) w in
      let (count, e, same) =
        after-accepted counted (λ n w'. unless_full uuid generate columns quota run n w') h in
      let (below, same') = unless_full-accepted count counted.1 (sym (ap (λ r. r.0) same) ∙ h) in
      let (stored, world) = put-accepted counted.1 (sym (ap (λ r. r.0) (same ∙ same')) ∙ h) in
      (
        counted.1,
        count-db w count e,
        stored,
        ap (λ r. r.1) (same ∙ same') ∙ world,
        λ _. (count, e, below),
      )

  within_quota-accepted :
      (w : World)
      → (within_quota uuid generate columns quota owner now run w).0 ≡ accepted
      → IsStored w (within_quota uuid generate columns quota owner now run w).1
  within_quota-accepted w h = elim (Bool-cases (is_positive quota)) [
    | inl t ↦
        let same : within_quota uuid generate columns quota owner now run w
            ≡ count_and_put uuid generate columns quota owner now run w =
          rw (t, within_quota) refl in
        subst (λ r. IsStored w r.1) (sym same)
          (count_and_put-accepted w (sym (ap (λ r. r.0) same) ∙ h))
    | inr t ↦
        let same : within_quota uuid generate columns quota owner now run w
            ≡ put uuid generate columns run w =
          rw (t, within_quota) refl in
        let (stored, world) = put-accepted w (sym (ap (λ r. r.0) same) ∙ h) in
        (w, refl, stored, ap (λ r. r.1) same ∙ world, λ p. absurd (ground (arith, p, t)))
  ]

module _ (uuid : Text → Option Text) (generate : ℕ → Text) (columns : Columns) (quota : ℤ) where
  store_upload-accepted :
      (repo : RepoInput) (run : RunInput) (now : ℕ) (w : World)
      → (store_upload uuid generate columns quota repo run now w).0 ≡ accepted
      → ((upsert_repo columns repo w).0 ≡ ok tt)
        × IsStored uuid generate columns quota repo.owner_id now run
            (upsert_repo columns repo w).1
            (store_upload uuid generate columns quota repo run now w).1
  unfolding store_upload
  store_upload-accepted repo run now w h =
      let (u, e, same) =
        after-accepted (upsert_repo columns repo w)
          (λ _ w'. within_quota uuid generate columns quota repo.owner_id now run w') h in
      (
        e,
        subst
            (λ r.
              IsStored uuid generate columns quota repo.owner_id now run
                (upsert_repo columns repo w).1 r.1)
            (sym same)
            (within_quota-accepted uuid generate columns quota repo.owner_id now run
              (upsert_repo columns repo w).1 (sym (ap (λ r. r.0) same) ∙ h)),
      )

  module _ (jwt : Jwt) (d : Decoders) (tokens : Option TokenManager) where
    -- An upload that was authorised by a token of the manager, passed the limiter and the checks,
    -- and was stored behind its repository within the quota.
    abbrev pub IsIngested : Request → Clock → ServerState → ServerState → Type 0
    IsIngested r t s s' =
        (m : TokenManager) × (bearer : Text) × (c : UploadClaims) × (run : RunInput) × (tokens
          ≡ some m)
        × (bearer_token r.authorization ≡ some bearer)
        × (verify_upload_token jwt m bearer t.verified ≡ ok c)
        × ((allow s.limiter (print_int c.repository_owner_id) owner_rate (pos minute) t.limited).0
            ≡ true)
        × IsChecked d c r.body run
        × ((upsert_repo columns (repo_of c) s.world).0 ≡ ok tt)
        × IsStored uuid generate columns quota c.repository_owner_id t.counted run
            (upsert_repo columns (repo_of c) s.world).1 s'.world

    abbrev pub handle : Request → Clock → ServerState → Reply × ServerState
    handle r t s = handle_runs_ingest uuid generate columns jwt d tokens quota r t s

    abbrev IsKept : UploadClaims → Clock → Option Text → World → World → Type 0
    IsKept c t body w w' =
        (run : RunInput) × (check_upload d c body ≡ ok run)
        × ((upsert_repo columns (repo_of c) w).0 ≡ ok tt)
        × IsStored uuid generate columns quota c.repository_owner_id t.counted run
            (upsert_repo columns (repo_of c) w).1 w'

    keep-accepted :
        (c : UploadClaims) (t : Clock) (l : Option (Dict Counter)) (w : World) (body : Option Text)
        (checked : Result ℕ RunInput)
        → check_upload d c body ≡ checked
        → (keep_or_refuse uuid generate columns jwt d tokens quota c t l w checked).0 ≡ accepted
        → IsKept c t body w
            (keep_or_refuse uuid generate columns jwt d tokens quota c t l w checked).1.world
    keep-accepted c t l w body (err status) e h = ground (arith, h)
    keep-accepted c t l w body (ok run) e h =
        let (repo, stored) = store_upload-accepted (repo_of c) run t.counted w h in
        (run, e, repo, stored)

    limit-accepted :
        (c : UploadClaims) (t : Clock) (body : Option Text) (w : World)
        (passed : Bool × Option (Dict Counter))
        → (limit_claims uuid generate columns jwt d tokens quota c t body w passed).0 ≡ accepted
        → (passed.0 ≡ true)
          × IsKept c t body w
              (limit_claims uuid generate columns jwt d tokens quota c t body w passed).1.world
    limit-accepted c t body w (false, l) h = ground (arith, h)
    limit-accepted c t body w (true, l) h =
        (refl, keep-accepted c t l w body (check_upload d c body) refl h)

    claims-accepted :
        (r : Request) (t : Clock) (s : ServerState) (known : Result ℕ UploadClaims)
        → authenticate jwt tokens r.authorization t.verified ≡ known
        → (with_claims uuid generate columns jwt d tokens quota known r t s).0 ≡ accepted
        → IsIngested r t s (with_claims uuid generate columns jwt d tokens quota known r t s).1
    claims-accepted r t s (err status) e h = ground (arith, h)
    claims-accepted r t s (ok c) e h =
        let (m, bearer, managed, given, verified) =
          authenticate-ok jwt tokens r.authorization t.verified c e in
        let (passed, kept) =
          limit-accepted c t r.body s.world
            (allow s.limiter (print_int c.repository_owner_id) owner_rate (pos minute) t.limited)
            h in
        let (run, checked, repo, stored) = kept in
        (
          m,
          bearer,
          c,
          run,
          managed,
          given,
          verified,
          passed,
          check_upload-ok d c r.body run checked,
          repo,
          stored,
        )

    -- An upload is accepted only with a bearer token that the manager's key signed and that is
    -- valid at this instant, within the rate of the owner that the token names, with a body that is
    -- a version 2 summary and has the hash that the token names, and only if the owner has not
    -- reached the quota, if there is one; the run of the token's repository and execution is then
    -- stored with that body, behind its repository.
    pub handle_runs_ingest-IsIngested :
        (r : Request) (t : Clock) (s : ServerState)
        → (handle r t s).0 ≡ accepted
        → IsIngested r t s (handle r t s).1
    unfolding handle_runs_ingest
    handle_runs_ingest-IsIngested r t s h =
        claims-accepted r t s (authenticate jwt tokens r.authorization t.verified) refl h
