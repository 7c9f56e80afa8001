-- ===== src/Handlers/Ingest.antt =====
-- server/web/handler/server.go: `handleRunsIngest`. The decoders of JSON and of instants and the
-- hash function are parameters. An instant of the server's clock is given for each of the places
-- that read it.
pub mod Accepted
pub mod Checked
pub mod Stored
pub mod Refused
mod Tests
use ghapp_demo.Base.{
  ℕ, ◌-◌, ◌*◌, ◌^◌, Bool, true, false, not, ◌&&◌, List, [], ◌∷◌, Option, none, some, leb,
  if◌then◌else◌,
}
use ghapp_demo.Base.Int.{ℤ, pos, is_positive, pos_part}
use ghapp_demo.Base.Result.{Result, ok, err, ◌>>=◌, ◌>>◌, guard}
use ghapp_demo.Handlers.Request.{
  bearer_token, normalize_sha256_hex, parse_pr_number, repo_owner_from_full_name,
  nullable_int64_pointer, parse_optional_rfc3339, first_filled, SummaryHead,
  validate_run_summary_payload,
}
use ghapp_demo.Limiter.{Counter, allow, minute}
use ghapp_demo.Runsauth.{Jwt, TokenManager, TokenError, UploadClaims, verify_upload_token}
use ghapp_demo.Store.Columns.{Columns}
use ghapp_demo.Store.Monad.{World, StoreError}
use ghapp_demo.Store.Runs.{RepoInput, RunInput, upsert_repo, count_runs_by_owner_since, upsert_run}
use ghapp_demo.Store.Tables.{RunFacts}
use ghapp_demo.Text.{Text, codes, equal, is_empty, trim_space}
use ghapp_demo.Text.Dict.{Dict}
use ghapp_demo.Text.Number.{print_int}

-- The status of the answer.
pub data Reply : Type 0 where
  accepted : Reply
  refused : ℕ → Reply

pub record ServerState : Type 0 where
  pub limiter : Option (Dict Counter)
  pub world : World

-- The `Authorization` header, and the body if it could be read within its bound.
pub record Request : Type 0 where
  pub authorization : Text
  pub body : Option Text

-- The instants at which the handler reads the clock, in order.
pub record Clock : Type 0 where
  pub verified : ℕ
  pub limited : ℕ
  pub counted : ℕ

pub record Decoders : Type 0 where
  pub json_valid : Text → Bool
  pub summary : Text → Option SummaryHead
  pub sha256_hex : Text → Text
  pub rfc3339 : Text → Option ℕ

abbrev pub owner_rate : ℤ
owner_rate = pos 120

abbrev pub day : ℕ
day = 24 * 60 * 60 * 10 ^ 9

abbrev or_refuse {ℓ} : {A : Type ℓ} → Option A → ℕ → Result ℕ A
or_refuse none status = err status
or_refuse (some a) status = ok a

abbrev job_key_of : UploadClaims → Text
job_key_of c = first_filled (c.job_key ∷ c.job_workflow_ref ∷ c.subject ∷ []) (codes "default")

abbrev branch_of : UploadClaims → Text
branch_of c = first_filled (c.head_ref ∷ []) (trim_space c.ref)

abbrev pub repo_of : UploadClaims → RepoInput
repo_of c = record {
  repo_id = c.repository_id;
  full_name = c.repository;
  owner = repo_owner_from_full_name c.repository;
  owner_id = c.repository_owner_id;
  visibility = c.repository_visibility;
  updated_from = codes "oidc";
}

abbrev facts_from : UploadClaims → Text → Text → Option ℕ → Option ℕ → RunFacts
facts_from c body sha started ended = record {
  commit_sha = c.commit_sha;
  workflow_name = c.workflow_name;
  job_workflow_ref = c.job_workflow_ref;
  github_run_id = c.run_id;
  branch = branch_of c;
  event_name = c.event_name;
  actor = c.actor;
  pr_number = parse_pr_number c.ref;
  egress_json = body;
  run_attempt = c.run_attempt;
  workflow_ref = c.workflow_ref;
  workflow_sha = c.workflow_sha;
  job_workflow_sha = c.job_workflow_sha;
  actor_id = nullable_int64_pointer c.actor_id;
  runner_environment = c.runner_environment;
  job_key = job_key_of c;
  runner_name = c.runner_name;
  runner_os = c.runner_os;
  capture_started_at = started;
  capture_ended_at = ended;
  payload_sha256 = sha;
  github_job_id = c.github_job_id;
  job_display_name = none;
}

-- From the body to the run that is stored.
unfoldable pub check_upload : Decoders → UploadClaims → Option Text → Result ℕ RunInput
check_upload d c given = do
  body ← or_refuse given 400
  guard (not (is_empty (trim_space body)) && d.json_valid body) 400
  guard (validate_run_summary_payload (d.summary body)) 400
  sha ← or_refuse (normalize_sha256_hex c.payload_sha256) 401
  guard (equal (d.sha256_hex body) sha) 401
  started ← or_refuse (parse_optional_rfc3339 d.rfc3339 c.capture_started_at) 400
  ended ← or_refuse (parse_optional_rfc3339 d.rfc3339 c.capture_ended_at) 400
  ok (record {
    repo_id = c.repository_id;
    execution_id = c.execution_id;
    facts = facts_from c body sha started ended;
  })

abbrev pub or_401 : Result TokenError UploadClaims → Result ℕ UploadClaims
or_401 (ok c) = ok c
or_401 (err e) = err 401

abbrev pub with_bearer : Jwt → TokenManager → ℕ → Option Text → Result ℕ UploadClaims
with_bearer jwt m now none = err 401
with_bearer jwt m now (some bearer) = or_401 (verify_upload_token jwt m bearer now)

-- The token manager may be missing.
unfoldable pub authenticate : Jwt → Option TokenManager → Text → ℕ → Result ℕ UploadClaims
authenticate jwt none header now = err 503
authenticate jwt (some m) header now = with_bearer jwt m now (bearer_token header)

-- What follows a store method that may fail.
abbrev pub after {ℓ} :
    {A : Type ℓ} → Result StoreError A × World → (A → World → Reply × World) → Reply × World
after (ok a, w) f = f a w
after (err e, w) f = (refused 500, w)

module _ (uuid : Text → Option Text) (generate : ℕ → Text) (columns : Columns) where
  abbrev pub put : RunInput → World → Reply × World
  put run w = after (upsert_run uuid generate columns run w) (λ _ w'. (accepted, w'))

  -- `quota` is `ownerRunQuotaPerDay`.
  abbrev pub unless_full : ℤ → RunInput → ℕ → World → Reply × World
  unless_full quota run count w = if leb (pos_part quota) count then (refused 429, w) else put run w

  abbrev pub count_and_put : ℤ → ℤ → ℕ → RunInput → World → Reply × World
  count_and_put quota owner now run w =
      after (count_runs_by_owner_since owner (now - day) w)
        (λ count w'. unless_full quota run count w')

  abbrev pub within_quota : ℤ → ℤ → ℕ → RunInput → World → Reply × World
  within_quota quota owner now run w =
      if is_positive quota then count_and_put quota owner now run w else put run w

  unfoldable pub store_upload : ℤ → RepoInput → RunInput → ℕ → World → Reply × World
  store_upload quota repo run now w =
      after (upsert_repo columns repo w) (λ _ w'. within_quota quota repo.owner_id now run w')

  module _ (jwt : Jwt) (d : Decoders) (tokens : Option TokenManager) (quota : ℤ) where
    abbrev pub keep_or_refuse :
        UploadClaims
        → Clock
        → Option (Dict Counter)
        → World
        → Result ℕ RunInput
        → Reply × ServerState
    keep_or_refuse c t l w (err status) = (refused status, record { limiter = l; world = w })
    keep_or_refuse c t l w (ok run) =
        let (reply, w') = store_upload quota (repo_of c) run t.counted w in
        (reply, record { limiter = l; world = w' })

    abbrev pub limit_claims :
        UploadClaims
        → Clock
        → Option Text
        → World
        → Bool × Option (Dict Counter)
        → Reply × ServerState
    limit_claims c t body w (false, l) = (refused 429, record { limiter = l; world = w })
    limit_claims c t body w (true, l) = keep_or_refuse c t l w (check_upload d c body)

    abbrev pub with_claims :
        Result ℕ UploadClaims → Request → Clock → ServerState → Reply × ServerState
    with_claims (err status) r t s = (refused status, s)
    with_claims (ok c) r t s =
        limit_claims c t r.body s.world
          (allow s.limiter (print_int c.repository_owner_id) owner_rate (pos minute) t.limited)

    unfoldable pub handle_runs_ingest : Request → Clock → ServerState → Reply × ServerState
    handle_runs_ingest r t s =
        with_claims (authenticate jwt tokens r.authorization t.verified) r t s
