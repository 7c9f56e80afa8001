-- ===== src/Runsauth/Tests.antt =====
-- Tokens under the toy key pair.
use ghapp_demo.Base.{◌+◌, ◌*◌, ◌≡◌, ◌↔◌, true, false, some, arith}
use ghapp_demo.Base.Result.{ok, err}
use ghapp_demo.Runsauth.{token_audience, verify_upload_token, second, invalid_token}
use ghapp_demo.Runsauth.Laws.{
  IsComplete, verify_upload_token_iff, verify-issue, verify-issue_expired,
}
use ghapp_demo.Text.{is_empty, trim_space}
use ghapp_demo.Runsauth.Toy.{
  manager, principal, request, now, claims, token, read, is_valid, toy, complete, issued,
}

verify_upload_token_iff_example : (verify_upload_token toy manager token now ≡ ok claims) ↔ (
    (is_empty (trim_space token) ≡ false)
    × (read (trim_space token) ≡ some claims)
    × (is_valid manager.issuer token_audience now claims ≡ true)
    × IsComplete claims)
verify_upload_token_iff_example = verify_upload_token_iff toy manager token now claims

verify-issue_example : verify_upload_token toy manager token (12 * second) ≡ ok claims
verify-issue_example =
    verify-issue toy manager principal request now token (now + manager.ttl) issued (12 * second)
      complete (omega arith) (omega arith)

verify-issue_expired_example :
    verify_upload_token toy manager token (15 * second) ≡ err invalid_token
verify-issue_expired_example =
    verify-issue_expired toy manager principal request now token (now + manager.ttl) issued
      (15 * second) (omega arith)
