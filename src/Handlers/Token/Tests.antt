-- ===== src/Handlers/Token/Tests.antt =====
-- A token is granted to the sample OIDC token, under the toy key pair.
use ghapp_demo.Base.{ℕ, ◌+◌, ◌≡◌, refl, ◌∙◌, ap, [], Option, some, arith}
use ghapp_demo.Base.Result.{Result, ok, err}
use ghapp_demo.Handlers.Ingest.{Request}
use ghapp_demo.Handlers.Request.{bearer_token, normalize_sha256_hex}
use ghapp_demo.Handlers.Token.{
  RunTokenRequest, TokenReply, granted, refused, TokenState, TokenClock, handle_runs_token,
  read_token_request, issued_reply,
}
use ghapp_demo.Handlers.Token.Granted.{handle_runs_token-verify}
use ghapp_demo.Limiter.{allow, new_limiter}
use ghapp_demo.Oidc.Claims.{is_audience_allowed, token_audiences, claim_string, claim_int64}
use ghapp_demo.Oidc.Keys.{failed, key_for_kid}
use ghapp_demo.Oidc.Principal.{Principal, principal_from_claims}
use ghapp_demo.Oidc.Sample.{cache, early, decode, parse, verifier}
use ghapp_demo.Oidc.Verify.{verify}
use ghapp_demo.Oidc.Verify.Accepts.{IsVouched}
use ghapp_demo.Runsauth.{
  UploadRequest, issue_upload_token, verify_upload_token, upload_claims, second,
}
use ghapp_demo.Runsauth.Toy.{toy, manager, principal, request, now, token, issued}
use ghapp_demo.Text.{Text, codes, equal, trim_space, to_lower, cut}
use ghapp_demo.Text.Dict.{lookup, insert}
use ghapp_demo.Text.Number.{print_int}

abbrev asked : RunTokenRequest
asked = record {
  payload_sha256 = request.payload_sha256;
  job_name = [];
  job_key = [];
  execution_id = codes " e1";
  runner_name = [];
  runner_os = [];
  capture_started_at = [];
  capture_ended_at = [];
}

abbrev decode_request : Text → Option RunTokenRequest
decode_request body = some asked

abbrev post : Request
post = record { authorization = codes "bearer t"; body = some (codes "{}") }

abbrev times : TokenClock
times = record { limited = now; issued = now }

abbrev before : TokenState
before = record { limiter = new_limiter; keys = cache }

abbrev reply : Result ℕ UploadRequest → TokenReply
reply (err status) = refused status
reply (ok req) = issued_reply (issue_upload_token toy manager principal req now)

passes :
    (handle_runs_token decode parse decode_request toy
      (some verifier)
      (some manager)
      post
      times
      early
      failed
      before).0
    ≡ reply (ok request)
unfolding handle_runs_token bearer_token cut equal to_lower trim_space verify key_for_kid lookup
    is_audience_allowed token_audiences principal_from_claims claim_string claim_int64 allow insert
    print_int read_token_request normalize_sha256_hex
passes = refl

grants :
    (handle_runs_token decode parse decode_request toy
      (some verifier)
      (some manager)
      post
      times
      early
      failed
      before).0
    ≡ granted token (now + manager.ttl)
grants = passes ∙ ap issued_reply issued

handle_runs_token-verify_example :
    (bearer : Text) × (p : Principal) × (req : UploadRequest) × (bearer_token post.authorization
      ≡ some bearer)
    × IsVouched verifier
        (verify decode parse verifier cache bearer early failed).0
        (parse verifier.issuer (trim_space bearer))
        p
    × (verify_upload_token toy manager token (now + second)
        ≡ ok (upload_claims toy.numeric_date manager p req now))
handle_runs_token-verify_example =
    handle_runs_token-verify decode parse decode_request toy manager post times token
      (now + manager.ttl) verifier early failed before (now + second) grants (omega arith)
      (omega arith)
