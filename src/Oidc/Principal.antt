-- ===== src/Oidc/Principal.antt =====
-- server/internal/oidc/verifier.go: `Principal` and `principalFromClaims`.
pub mod Sound
use ghapp_demo.Base.{Bool, true, false, not, ◌||◌, Option, none, some, if◌then◌else◌}
use ghapp_demo.Base.Int.{ℤ, is_positive}
use ghapp_demo.Base.Result.{Result, ok, err, ◌>>=◌, ◌>>◌, guard}
use ghapp_demo.Oidc.Claims.{Claims, claim_string, claim_int64}
use ghapp_demo.Text.{Text, codes, equal, is_empty, to_lower}

pub record Principal : Type 0 where
  pub repository : Text
  pub repository_id : ℤ
  pub repository_owner_id : ℤ
  pub repository_visibility : Text
  pub commit_sha : Text
  pub run_id : ℤ
  pub run_attempt : ℤ
  pub workflow_name : Text
  pub workflow_ref : Text
  pub workflow_sha : Text
  pub job_workflow_ref : Text
  pub job_workflow_sha : Text
  pub event_name : Text
  pub actor : Text
  pub actor_id : ℤ
  pub ref : Text
  pub head_ref : Text
  pub subject : Text
  pub runner_environment : Text

-- The claim that an error of `principalFromClaims` names.
pub data ClaimError : Type 0 where
  repository run_id repository_id repository_owner_id : ClaimError
  repository_visibility run_attempt actor_id sha : ClaimError

-- `!ok || n <= 0`
abbrev pub require_positive : Option ℤ → ClaimError → Result ClaimError ℤ
require_positive none e = err e
require_positive (some n) e = if is_positive n then ok n else err e

-- The cases of the `switch`.
abbrev pub is_visibility : Text → Bool
is_visibility v =
    equal v (codes "public") || equal v (codes "private") || equal v (codes "internal")

unfoldable pub principal_from_claims : Claims → Result ClaimError Principal
principal_from_claims claims = do
  let repo = claim_string claims (codes "repository")
  guard (not (is_empty repo)) repository
  run ← require_positive (claim_int64 claims (codes "run_id")) run_id
  repo_id ← require_positive (claim_int64 claims (codes "repository_id")) repository_id
  owner_id ← require_positive (claim_int64 claims (codes "repository_owner_id")) repository_owner_id
  let visibility = to_lower (claim_string claims (codes "repository_visibility"))
  guard (is_visibility visibility) repository_visibility
  attempt ← require_positive (claim_int64 claims (codes "run_attempt")) run_attempt
  actor ← require_positive (claim_int64 claims (codes "actor_id")) actor_id
  let commit = claim_string claims (codes "sha")
  guard (not (is_empty commit)) sha
  ok (record {
    repository = repo;
    repository_id = repo_id;
    repository_owner_id = owner_id;
    repository_visibility = visibility;
    commit_sha = commit;
    run_id = run;
    run_attempt = attempt;
    workflow_name = claim_string claims (codes "workflow");
    workflow_ref = claim_string claims (codes "workflow_ref");
    workflow_sha = claim_string claims (codes "workflow_sha");
    job_workflow_ref = claim_string claims (codes "job_workflow_ref");
    job_workflow_sha = claim_string claims (codes "job_workflow_sha");
    event_name = claim_string claims (codes "event_name");
    actor = claim_string claims (codes "actor");
    actor_id = actor;
    ref = claim_string claims (codes "ref");
    head_ref = claim_string claims (codes "head_ref");
    subject = claim_string claims (codes "sub");
    runner_environment = claim_string claims (codes "runner_environment");
  })
