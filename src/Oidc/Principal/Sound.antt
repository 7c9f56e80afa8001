-- ===== src/Oidc/Principal/Sound.antt =====
-- Which claims give a principal, and which one.
use ghapp_demo.Base.{◌≡◌, ◌↔◌, true, false, some, arith}
use ghapp_demo.Base.Int.{ℤ, is_positive}
use ghapp_demo.Base.Result.{ok}
use ghapp_demo.Oidc.Claims.{Claims, claim_string, claim_int64}
use ghapp_demo.Oidc.Principal.{Principal, is_visibility, principal_from_claims}
use ghapp_demo.Text.{Text, codes, is_empty, to_lower}

abbrev IsId : Claims → Text → ℤ → Type 0
IsId claims key n = (claim_int64 claims key ≡ some n) × (is_positive n ≡ true)

-- What `principalFromClaims` asks of the claims, and how the principal's fields come from them.
pub record Identifies (claims : Claims) (p : Principal) : Type 0 where
  pub run : IsId claims (codes "run_id") p.run_id
  pub repo : IsId claims (codes "repository_id") p.repository_id
  pub owner : IsId claims (codes "repository_owner_id") p.repository_owner_id
  pub attempt : IsId claims (codes "run_attempt") p.run_attempt
  pub actor : IsId claims (codes "actor_id") p.actor_id
  pub visible : is_visibility p.repository_visibility ≡ true
  pub visibility :
      p.repository_visibility ≡ to_lower (claim_string claims (codes "repository_visibility"))
  pub named : is_empty p.repository ≡ false
  pub name : p.repository ≡ claim_string claims (codes "repository")
  pub pinned : is_empty p.commit_sha ≡ false
  pub commit : p.commit_sha ≡ claim_string claims (codes "sha")
  pub workflow_name_is : p.workflow_name ≡ claim_string claims (codes "workflow")
  pub workflow_ref_is : p.workflow_ref ≡ claim_string claims (codes "workflow_ref")
  pub workflow_sha_is : p.workflow_sha ≡ claim_string claims (codes "workflow_sha")
  pub job_workflow_ref_is : p.job_workflow_ref ≡ claim_string claims (codes "job_workflow_ref")
  pub job_workflow_sha_is : p.job_workflow_sha ≡ claim_string claims (codes "job_workflow_sha")
  pub event_name_is : p.event_name ≡ claim_string claims (codes "event_name")
  pub actor_is : p.actor ≡ claim_string claims (codes "actor")
  pub ref_is : p.ref ≡ claim_string claims (codes "ref")
  pub head_ref_is : p.head_ref ≡ claim_string claims (codes "head_ref")
  pub subject_is : p.subject ≡ claim_string claims (codes "sub")
  pub runner_environment_is :
      p.runner_environment ≡ claim_string claims (codes "runner_environment")

-- A token's claims give a principal exactly when their identity is well formed: every identifier is
-- positive, the visibility is one of the three, the repository and the commit are named. The
-- principal is then the one that the claims describe, field by field.
pub principal_from_claims_iff :
    (claims : Claims) (p : Principal) → (principal_from_claims claims ≡ ok p) ↔ Identifies claims p
unfolding principal_from_claims
principal_from_claims_iff claims p = (λ h. ground arith, λ h. ground arith)
