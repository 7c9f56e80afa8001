-- ===== src/Runsauth.antt =====
-- server/internal/runsauth/tokens.go: the upload tokens. Instants and durations are nanoseconds.
-- What the JWT library does with the manager's key pair is a parameter.
pub mod Laws
pub mod Toy
mod Tests
use ghapp_demo.Base.{
  ℕ, ◌+◌, ◌*◌, ◌^◌, ◌/◌, ◌≡◌, ◌↔◌, ◌≤◌, ◌<◌, Bool, true, false, not, ◌&&◌, ◌||◌, List, [], ◌∷◌,
  Option, none, some, if◌then◌else◌, In,
}
use ghapp_demo.Base.Int.{ℤ, pos_part, is_positive}
use ghapp_demo.Base.Result.{Result, ok, err, ◌>>=◌, ◌>>◌, guard}
use ghapp_demo.Oidc.Principal.{Principal}
use ghapp_demo.Text.{Text, codes, is_empty, trim_space}

abbrev pub token_audience : Text
token_audience = codes "ghapp-demo:runs-upload"

pub record UploadClaims : Type 0 where
  pub repository : Text
  pub repository_id : ℤ
  pub repository_owner_id : ℤ
  pub repository_visibility : Text
  pub commit_sha : Text
  pub run_id : ℤ
  pub run_attempt : ℤ
  pub workflow_name : Text
  pub workflow_ref : Text
  pub workflow_sha : Text
  pub job_workflow_ref : Text
  pub job_workflow_sha : Text
  pub event_name : Text
  pub actor : Text
  pub actor_id : ℤ
  pub ref : Text
  pub head_ref : Text
  pub subject : Text
  pub runner_environment : Text
  pub payload_sha256 : Text
  pub execution_id : Text
  pub job_name : Text
  pub job_key : Text
  pub runner_name : Text
  pub runner_os : Text
  pub capture_started_at : Text
  pub capture_ended_at : Text
  pub github_job_id : Option ℤ
  pub issuer : Text
  pub audience : List Text
  pub issued_at : ℕ
  pub not_before : ℕ
  pub expires_at : ℕ

pub record UploadRequest : Type 0 where
  pub payload_sha256 : Text
  pub execution_id : Text
  pub job_name : Text
  pub job_key : Text
  pub runner_name : Text
  pub runner_os : Text
  pub capture_started_at : Text
  pub capture_ended_at : Text

abbrev pub second : ℕ
second = 10 ^ 9

-- The calls of github.com/golang-jwt/jwt/v5 with the manager's key pair, and what it documents of
-- them: a date is kept in whole seconds; a token that was signed is a compact serialisation, with
-- no white space, and gives its claims back; claims are valid for an issuer and an audience from
-- their not-before date until their expiry date.
pub record Jwt : Type 0 where
  pub numeric_date : ℕ → ℕ
  pub sign : UploadClaims → Option Text
  pub read : Text → Option UploadClaims
  pub is_valid : Text → Text → ℕ → UploadClaims → Bool
  pub date_floor : (t : ℕ) → (numeric_date t ≤ t) × (t < numeric_date t + second)
  pub signed_trimmed : (c : UploadClaims) (raw : Text) → sign c ≡ some raw → trim_space raw ≡ raw
  pub signed_filled : (c : UploadClaims) (raw : Text) → sign c ≡ some raw → is_empty raw ≡ false
  pub read-sign : (c : UploadClaims) (raw : Text) → sign c ≡ some raw → read raw ≡ some c
  pub valid_iff :
      (iss aud : Text) (now : ℕ) (c : UploadClaims)
      → (is_valid iss aud now c ≡ true)
        ↔ ((c.issuer ≡ iss) × In aud c.audience × (c.not_before ≤ now) × (now < c.expires_at))

pub record TokenManager : Type 0 where
  pub issuer : Text
  pub ttl : ℕ

pub data TokenError : Type 0 where
  missing_app_id bad_private_key sign_failed : TokenError
  missing_token invalid_token : TokenError
  missing_repository missing_sha missing_run_id missing_payload_sha256 : TokenError
  missing_execution_id missing_repository_id missing_repository_owner_id : TokenError
  missing_run_attempt : TokenError

abbrev pub five_minutes : ℕ
five_minutes = 5 * 60 * second

-- `parseRSAPrivateKey` succeeds or not.
unfoldable pub new_token_manager_with_ttl :
    (Text → Bool) → Text → Text → ℤ → Result TokenError TokenManager
new_token_manager_with_ttl key_parses app_id key ttl = do
  let issuer = trim_space app_id
  guard (not (is_empty issuer)) missing_app_id
  guard (key_parses key) bad_private_key
  ok (record { issuer = issuer; ttl = if is_positive ttl then pos_part ttl else five_minutes })

-- The claims that are signed at `now`.
unfoldable pub upload_claims : (ℕ → ℕ) → TokenManager → Principal → UploadRequest → ℕ → UploadClaims
upload_claims date m p req now = record {
  repository = p.repository;
  repository_id = p.repository_id;
  repository_owner_id = p.repository_owner_id;
  repository_visibility = p.repository_visibility;
  commit_sha = p.commit_sha;
  run_id = p.run_id;
  run_attempt = p.run_attempt;
  workflow_name = p.workflow_name;
  workflow_ref = p.workflow_ref;
  workflow_sha = p.workflow_sha;
  job_workflow_ref = p.job_workflow_ref;
  job_workflow_sha = p.job_workflow_sha;
  event_name = p.event_name;
  actor = p.actor;
  actor_id = p.actor_id;
  ref = p.ref;
  head_ref = p.head_ref;
  subject = p.subject;
  runner_environment = p.runner_environment;
  payload_sha256 = req.payload_sha256;
  execution_id = req.execution_id;
  job_name = req.job_name;
  job_key = req.job_key;
  runner_name = req.runner_name;
  runner_os = req.runner_os;
  capture_started_at = req.capture_started_at;
  capture_ended_at = req.capture_ended_at;
  github_job_id = none;
  issuer = m.issuer;
  audience = token_audience ∷ [];
  issued_at = date now;
  not_before = date now;
  expires_at = date (now + m.ttl);
}

abbrev signed : ℕ → Option Text → Result TokenError (Text × ℕ)
signed expires none = err sign_failed
signed expires (some raw) = ok (raw, expires)

module _ (jwt : Jwt) where
  open jwt use {numeric_date, sign, read, is_valid}

  unfoldable pub issue_upload_token :
      TokenManager → Principal → UploadRequest → ℕ → Result TokenError (Text × ℕ)
  issue_upload_token m p req now =
      signed (now + m.ttl) (sign (upload_claims numeric_date m p req now))

  abbrev parsed : TokenManager → ℕ → Option UploadClaims → Result TokenError UploadClaims
  parsed m now none = err invalid_token
  parsed m now (some c) = if is_valid m.issuer token_audience now c then ok c else err invalid_token

  unfoldable pub verify_upload_token : TokenManager → Text → ℕ → Result TokenError UploadClaims
  verify_upload_token m raw now = do
    guard (not (is_empty (trim_space raw))) missing_token
    c ← parsed m now (read (trim_space raw))
    guard (not (is_empty (trim_space c.repository))) missing_repository
    guard (not (is_empty (trim_space c.commit_sha))) missing_sha
    guard (is_positive c.run_id) missing_run_id
    guard (not (is_empty (trim_space c.payload_sha256))) missing_payload_sha256
    guard (not (is_empty (trim_space c.execution_id))) missing_execution_id
    guard (is_positive c.repository_id) missing_repository_id
    guard (is_positive c.repository_owner_id) missing_repository_owner_id
    guard (is_positive c.run_attempt) missing_run_attempt
    ok c
