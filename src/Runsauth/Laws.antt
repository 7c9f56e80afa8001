-- ===== src/Runsauth/Laws.antt =====
-- Issued tokens, and what an accepted token says.
use ghapp_demo.Base.{ℕ, ◌+◌, ◌≡◌, ◌↔◌, ◌≤◌, inl, inr, refl, true, false, some, arith, Bool-cases}
use ghapp_demo.Base.Int.{is_positive}
use ghapp_demo.Base.Result.{ok, err}
use ghapp_demo.Oidc.Principal.{Principal}
use ghapp_demo.Runsauth.{
  Jwt, TokenManager, UploadClaims, UploadRequest, token_audience, upload_claims, issue_upload_token,
  verify_upload_token, second, invalid_token,
}
use ghapp_demo.Text.{Text, is_empty, trim_space}

-- The claims that an upload cannot do without.
pub record IsComplete (c : UploadClaims) : Type 0 where
  pub repository : is_empty (trim_space c.repository) ≡ false
  pub commit_sha : is_empty (trim_space c.commit_sha) ≡ false
  pub payload : is_empty (trim_space c.payload_sha256) ≡ false
  pub execution : is_empty (trim_space c.execution_id) ≡ false
  pub run_id : is_positive c.run_id ≡ true
  pub repository_id : is_positive c.repository_id ≡ true
  pub owner_id : is_positive c.repository_owner_id ≡ true
  pub run_attempt : is_positive c.run_attempt ≡ true

module _ (jwt : Jwt) (m : TokenManager) where
  -- A token is accepted exactly when, trimmed, it is not empty and carries a signature of the
  -- manager's key over these claims, they are valid for its issuer and the upload audience at this
  -- instant, and no claim that an upload needs is missing.
  pub verify_upload_token_iff :
      (raw : Text) (now : ℕ) (c : UploadClaims)
      → (verify_upload_token jwt m raw now ≡ ok c) ↔ (
          (is_empty (trim_space raw) ≡ false)
          × (jwt.read (trim_space raw) ≡ some c)
          × (jwt.is_valid m.issuer token_audience now c ≡ true)
          × IsComplete c)
  unfolding verify_upload_token
  verify_upload_token_iff raw now c = (λ h. ground arith, λ h. ground arith)

  module _ (p : Principal) (req : UploadRequest) (now : ℕ) (raw : Text) (expires : ℕ)
      (issued : issue_upload_token jwt m p req now ≡ ok (raw, expires)) where
    abbrev claims : UploadClaims
    claims = upload_claims jwt.numeric_date m p req now

    issued-sign : (jwt.sign claims ≡ some raw) × (expires ≡ now + m.ttl)
    unfolding issue_upload_token
    issued-sign = ground arith

    -- From its issue until a second before its expiry an issued token is accepted, and gives back
    -- the claims that were signed, if these are complete.
    pub verify-issue :
        (later : ℕ)
        → IsComplete claims
        → now ≤ later
        → later + second ≤ expires
        → verify_upload_token jwt m raw later ≡ ok claims
    unfolding upload_claims
    verify-issue later complete h k =
        let (sg, ex) = issued-sign in
        let trimmed = jwt.signed_trimmed claims raw sg in
        (verify_upload_token_iff raw later claims).1 (
          rw trimmed (jwt.signed_filled claims raw sg),
          rw trimmed (jwt.read-sign claims raw sg),
          (jwt.valid_iff m.issuer token_audience later claims).1 (
            refl,
            inl refl,
            omega (arith, jwt.date_floor now),
            omega (arith, jwt.date_floor (now + m.ttl), ex),
          ),
          complete,
        )

    claims-expired :
        (later : ℕ) → expires ≤ later → jwt.is_valid m.issuer token_audience later claims ≡ false
    unfolding upload_claims
    claims-expired later h = elim (Bool-cases (jwt.is_valid m.issuer token_audience later claims)) [
      | inl valid ↦
          let (_, _, _, before) = (jwt.valid_iff m.issuer token_audience later claims).0 valid in
          absurd (omega (arith, jwt.date_floor (now + m.ttl), issued-sign.1))
      | inr invalid ↦ invalid
    ]

    -- At its expiry and after it, an issued token is refused.
    pub verify-issue_expired :
        (later : ℕ) → expires ≤ later → verify_upload_token jwt m raw later ≡ err invalid_token
    unfolding verify_upload_token
    verify-issue_expired later h =
        let (sg, ex) = issued-sign in
        let trimmed = jwt.signed_trimmed claims raw sg in
        rw trimmed (
          rw (jwt.signed_filled claims raw sg)
            (rw (jwt.read-sign claims raw sg) (rw (claims-expired later h))))
