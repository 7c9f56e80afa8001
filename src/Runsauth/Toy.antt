-- ===== src/Runsauth/Toy.antt =====
-- A toy key pair, which signs one set of claims.
use native.Mathlib.Decide.{ℕ_discrete}
use ghapp_demo.Base.{
  ℕ, ◌+◌, ◌*◌, ◌/◌, ◌≡◌, ◌≤◌, ◌<◌, ◌↔◌, refl, Bool, true, ◌&&◌, [], Option, none, some, arith, In,
  any, leb, ltb, if◌then◌else◌,
}
use ghapp_demo.Base.Int.{ℤ, pos}
use ghapp_demo.Base.Result.{ok}
use ghapp_demo.Oidc.Principal.{Principal}
use ghapp_demo.Runsauth.{
  Jwt, TokenManager, UploadClaims, UploadRequest, upload_claims, issue_upload_token, second,
}
use ghapp_demo.Runsauth.Laws.{IsComplete}
use ghapp_demo.Text.{Text, codes, equal, trim_space}
use ghapp_demo.Text.Collect.{any-equal_iff}
use ghapp_demo.Text.Laws.{equal_iff}

abbrev pub date : ℕ → ℕ
date t = t / second * second

abbrev pub manager : TokenManager
manager = record { issuer = codes "app"; ttl = 5 * second }

abbrev pub principal : Principal
principal = record {
  repository = codes "o/r";
  repository_id = pos 7;
  repository_owner_id = pos 8;
  repository_visibility = codes "private";
  commit_sha = codes "c0";
  run_id = pos 3;
  run_attempt = pos 1;
  workflow_name = [];
  workflow_ref = [];
  workflow_sha = [];
  job_workflow_ref = [];
  job_workflow_sha = [];
  event_name = [];
  actor = [];
  actor_id = pos 9;
  ref = [];
  head_ref = [];
  subject = [];
  runner_environment = [];
}

abbrev pub request : UploadRequest
request = record {
  payload_sha256 = codes "0123456789abcdef0123456789abcdef0123456789abcdef0123456789abcdef";
  execution_id = codes "e1";
  job_name = codes "default";
  job_key = codes "default";
  runner_name = [];
  runner_os = [];
  capture_started_at = [];
  capture_ended_at = [];
}

abbrev pub now : ℕ
now = 10 * second

abbrev pub claims : UploadClaims
claims = upload_claims date manager principal request now

-- The toy key pair signs claims for the one execution, and reads them back as they were.
abbrev pub token : Text
token = codes "t"

ℤ-discrete : Discrete ℤ
ℤ-discrete = hlevel ℕ_discrete

Option-discrete : {A : Type 0} → Discrete A → Discrete (Option A)
Option-discrete d = hlevel d

pub claims-discrete : Discrete UploadClaims
claims-discrete = hlevel (ℕ_discrete, ℤ-discrete)

abbrev pub signed_if : {c : UploadClaims} → Dec (c ≡ claims) → Option Text
signed_if (yes e) = some token
signed_if (no n) = none

abbrev pub sign : UploadClaims → Option Text
sign c = signed_if (claims-discrete c claims)

abbrev pub read : Text → Option UploadClaims
read t = if equal t token then some claims else none

abbrev pub is_valid : Text → Text → ℕ → UploadClaims → Bool
is_valid iss aud t c =
    equal c.issuer iss && any (equal aud) c.audience && leb c.not_before t && ltb t c.expires_at

signed_if-some :
    (c : UploadClaims) (d : Dec (c ≡ claims)) (raw : Text)
    → signed_if d ≡ some raw
    → (c ≡ claims) × (raw ≡ token)
signed_if-some c (yes e) raw h = (e, ground arith)
signed_if-some c (no n) raw h = ground arith

pub signed_if-claims : (d : Dec (claims ≡ claims)) → signed_if d ≡ some token
signed_if-claims (yes e) = refl
signed_if-claims (no n) = absurd (n refl)

pub valid_iff :
    (iss aud : Text) (t : ℕ) (c : UploadClaims)
    → (is_valid iss aud t c ≡ true)
      ↔ ((c.issuer ≡ iss) × In aud c.audience × (c.not_before ≤ t) × (t < c.expires_at))
valid_iff iss aud t c =
    let (to, from) = equal_iff c.issuer iss in
    let (has, gives) = any-equal_iff aud c.audience in ground arith

pub token_trimmed : trim_space token ≡ token
unfolding trim_space
token_trimmed = refl

pub read_token : read token ≡ some claims
unfolding equal
read_token = refl

pub toy_signed : (c : UploadClaims) (raw : Text) → sign c ≡ some raw → (c ≡ claims) × (raw ≡ token)
toy_signed c raw h = signed_if-some c (claims-discrete c claims) raw h

abbrev pub toy : Jwt
toy = record {
  numeric_date = date;
  sign = sign;
  read = read;
  is_valid = is_valid;
  date_floor = λ t. (omega arith, omega arith);
  signed_trimmed = λ c raw h. rw (toy_signed c raw h).1 token_trimmed;
  signed_filled = λ c raw h. rw (toy_signed c raw h).1 refl;
  read-sign = λ c raw h. rw ((toy_signed c raw h).1, (toy_signed c raw h).0) read_token;
  valid_iff = valid_iff;
}

pub complete : IsComplete claims
unfolding upload_claims trim_space
complete = record {
  repository = refl;
  commit_sha = refl;
  payload = refl;
  execution = refl;
  run_id = refl;
  repository_id = refl;
  owner_id = refl;
  run_attempt = refl;
}

pub issued : issue_upload_token toy manager principal request now ≡ ok (token, now + manager.ttl)
unfolding issue_upload_token
issued = rw (signed_if-claims (claims-discrete claims claims)) refl
