-- ===== src/Handlers/Ingest/Checked.antt =====
-- What the checks of an upload establish before the store is asked.
use ghapp_demo.Base.{
  ℕ, ◌≡◌, inl, inr, refl, sym, ap, ◌∙◌, true, Option, none, some, arith, Option-cases,
}
use ghapp_demo.Base.Result.{Result, ok, err}
use ghapp_demo.Handlers.Ingest.{or_401, with_bearer, Decoders, check_upload, authenticate}
use ghapp_demo.Handlers.Request.{bearer_token, normalize_sha256_hex, validate_run_summary_payload}
use ghapp_demo.Runsauth.{TokenError, Jwt, TokenManager, UploadClaims, verify_upload_token}
use ghapp_demo.Store.Runs.{RunInput}
use ghapp_demo.Text.{Text}
use ghapp_demo.Text.Laws.{equal_iff}

-- What the checks before the store establish of a run.
abbrev pub IsChecked : Decoders → UploadClaims → Option Text → RunInput → Type 0
IsChecked d c given run =
    (body : Text) × (given ≡ some body)
    × (validate_run_summary_payload (d.summary body) ≡ true)
    × (normalize_sha256_hex c.payload_sha256 ≡ some (d.sha256_hex body))
    × (run.repo_id ≡ c.repository_id)
    × (run.execution_id ≡ c.execution_id)
    × (run.facts.egress_json ≡ body)

check_upload-sha :
    (d : Decoders) (c : UploadClaims) (body : Text) (run : RunInput)
    → check_upload d c (some body) ≡ ok run
    → (sha : Text) × (normalize_sha256_hex c.payload_sha256 ≡ some sha)
unfolding check_upload
check_upload-sha d c body run h = elim (Option-cases (normalize_sha256_hex c.payload_sha256)) [
  | inl e ↦ ground (arith, h, e)
  | inr (sha, e) ↦ (sha, e)
]

pub check_upload-ok :
    (d : Decoders) (c : UploadClaims) (given : Option Text) (run : RunInput)
    → check_upload d c given ≡ ok run
    → IsChecked d c given run
unfolding check_upload
check_upload-ok d c none run h = ground (arith, h)
check_upload-ok d c (some body) run h =
    let (sha, e) = check_upload-sha d c body run h in
    (
      body,
      refl,
      ground (arith, h),
      e ∙ ap some (sym ((equal_iff (d.sha256_hex body) sha).0 (ground (arith, h, e)))),
      ground (arith, h),
      ground (arith, h),
      ground (arith, h),
    )

or_401-ok : (r : Result TokenError UploadClaims) (c : UploadClaims) → or_401 r ≡ ok c → r ≡ ok c
or_401-ok (ok x) c h = ground (arith, h)
or_401-ok (err e) c h = ground (arith, h)

with_bearer-ok :
    (jwt : Jwt) (m : TokenManager) (now : ℕ) (found : Option Text) (c : UploadClaims)
    → with_bearer jwt m now found ≡ ok c
    → (bearer : Text) × (found ≡ some bearer) × (verify_upload_token jwt m bearer now ≡ ok c)
with_bearer-ok jwt m now none c h = ground (arith, h)
with_bearer-ok jwt m now (some bearer) c h = (bearer, refl, or_401-ok _ c h)

pub authenticate-ok :
    (jwt : Jwt) (tokens : Option TokenManager) (header : Text) (now : ℕ) (c : UploadClaims)
    → authenticate jwt tokens header now ≡ ok c
    → (m : TokenManager) × (bearer : Text) × (tokens ≡ some m)
      × (bearer_token header ≡ some bearer)
      × (verify_upload_token jwt m bearer now ≡ ok c)
unfolding authenticate
authenticate-ok jwt none header now c h = ground (arith, h)
authenticate-ok jwt (some m) header now c h =
    let (bearer, e, v) = with_bearer-ok jwt m now (bearer_token header) c h in
    (m, bearer, refl, e, v)
