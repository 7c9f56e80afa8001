-- ===== src/Handlers/Token.antt =====
-- server/web/handler/server.go: `handleRunsToken`. The decoder of the request's JSON is a parameter,
-- as are those of the OIDC verifier.
pub mod Granted
mod Tests
use ghapp_demo.Base.{ℕ, Bool, true, false, not, List, [], ◌∷◌, Option, none, some, if◌then◌else◌}
use ghapp_demo.Base.Int.{ℤ, pos}
use ghapp_demo.Base.Result.{Result, ok, err, ◌>>=◌, ◌>>◌, guard}
use ghapp_demo.Handlers.Ingest.{Request, owner_rate}
use ghapp_demo.Handlers.Request.{bearer_token, normalize_sha256_hex, first_filled}
use ghapp_demo.Limiter.{Counter, allow, minute}
use ghapp_demo.Oidc.Keys.{KeyCache, Response, Clock}
use ghapp_demo.Oidc.Principal.{Principal}
use ghapp_demo.Oidc.Verify.{Verifier, VerifyError, Parsed, verify}
use ghapp_demo.Runsauth.{Jwt, TokenManager, TokenError, UploadRequest, issue_upload_token}
use ghapp_demo.Text.{Text, codes, is_empty, trim_space}
use ghapp_demo.Text.Dict.{Dict}
use ghapp_demo.Text.Number.{print_int}

pub record RunTokenRequest : Type 0 where
  pub payload_sha256 : Text
  pub job_name : Text
  pub job_key : Text
  pub execution_id : Text
  pub runner_name : Text
  pub runner_os : Text
  pub capture_started_at : Text
  pub capture_ended_at : Text

pub data TokenReply : Type 0 where
  -- the token, and when it expires
  granted : Text → ℕ → TokenReply
  refused : ℕ → TokenReply

pub record TokenState : Type 0 where
  pub limiter : Option (Dict Counter)
  pub keys : KeyCache

-- The instants of the limiter and of the issue.
pub record TokenClock : Type 0 where
  pub limited : ℕ
  pub issued : ℕ

abbrev pub job_key_for : Principal → RunTokenRequest → Text
job_key_for p req =
    first_filled (req.job_key ∷ p.job_workflow_ref ∷ p.subject ∷ []) (codes "default")

abbrev pub upload_request : Principal → RunTokenRequest → Text → UploadRequest
upload_request p req sha = record {
  payload_sha256 = sha;
  execution_id = trim_space req.execution_id;
  job_name = first_filled (req.job_name ∷ []) (job_key_for p req);
  job_key = job_key_for p req;
  runner_name = trim_space req.runner_name;
  runner_os = trim_space req.runner_os;
  capture_started_at = trim_space req.capture_started_at;
  capture_ended_at = trim_space req.capture_ended_at;
}

abbrev pub or_400 {ℓ} : {A : Type ℓ} → Option A → Result ℕ A
or_400 none = err 400
or_400 (some a) = ok a

-- From the body, if it could be read within its bound, to the request of the token.
unfoldable pub read_token_request :
    (Text → Option RunTokenRequest) → Principal → Option Text → Result ℕ UploadRequest
read_token_request decode p given = do
  body ← or_400 given
  req ← or_400 (decode body)
  sha ← or_400 (normalize_sha256_hex req.payload_sha256)
  guard (not (is_empty (trim_space req.execution_id))) 400
  ok (upload_request p req sha)

abbrev pub issued_reply : Result TokenError (Text × ℕ) → TokenReply
issued_reply (ok (token, expires)) = granted token expires
issued_reply (err e) = refused 500

module _ (base64 : Text → Option (List ℕ)) (parse : Text → Text → Option Parsed)
    (decode : Text → Option RunTokenRequest) (jwt : Jwt) where
  abbrev pub issue_to : TokenManager → Principal → ℕ → Result ℕ UploadRequest → TokenReply
  issue_to m p now (err status) = refused status
  issue_to m p now (ok req) = issued_reply (issue_upload_token jwt m p req now)

  abbrev pub limit_principal :
      TokenManager
      → Principal
      → Request
      → TokenClock
      → KeyCache
      → Bool × Option (Dict Counter)
      → TokenReply × TokenState
  limit_principal m p r t keys (false, l) = (refused 429, record { limiter = l; keys = keys })
  limit_principal m p r t keys (true, l) = (
    issue_to m p t.issued (read_token_request decode p r.body),
    record { limiter = l; keys = keys },
  )

  abbrev pub with_principal :
      TokenManager
      → Request
      → TokenClock
      → Option (Dict Counter)
      → KeyCache × Result VerifyError Principal
      → TokenReply × TokenState
  with_principal m r t l (keys, err e) = (refused 401, record { limiter = l; keys = keys })
  with_principal m r t l (keys, ok p) =
      limit_principal m p r t keys
        (allow l (print_int p.repository_owner_id) owner_rate (pos minute) t.limited)

  abbrev pub with_bearer :
      Verifier
      → TokenManager
      → Request
      → TokenClock
      → Clock
      → Response
      → TokenState
      → Option Text
      → TokenReply × TokenState
  with_bearer v m r t verified response s none = (refused 401, s)
  with_bearer v m r t verified response s (some bearer) =
      with_principal m r t s.limiter (verify base64 parse v s.keys bearer verified response)

  -- The verifier and the token manager may be missing.
  unfoldable pub handle_runs_token :
      Option Verifier
      → Option TokenManager
      → Request
      → TokenClock
      → Clock
      → Response
      → TokenState
      → TokenReply × TokenState
  handle_runs_token none m r t verified response s = (refused 503, s)
  handle_runs_token (some v) none r t verified response s = (refused 503, s)
  handle_runs_token (some v) (some m) r t verified response s =
      with_bearer v m r t verified response s (bearer_token r.authorization)
