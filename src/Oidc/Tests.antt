-- ===== src/Oidc/Tests.antt =====
-- Runs of the verifier on one token.
use ghapp_demo.Base.{◌%◌, ◌^◌, ◌≡◌, ◌↔◌, refl, [], ◌∷◌}
use ghapp_demo.Base.Result.{ok}
use ghapp_demo.Oidc.Claims.{token_audiences, is_audience_allowed, claim_string, claim_int64}
use ghapp_demo.Oidc.Keys.{failed, key_for_kid, exponent_of, refresh_jwks}
use ghapp_demo.Oidc.Keys.Cache.{key_for_kid_stale}
use ghapp_demo.Oidc.Keys.Exponent.{exponent_of-mod, big_endian}
use ghapp_demo.Oidc.Principal.{principal_from_claims}
use ghapp_demo.Oidc.Principal.Sound.{Identifies, principal_from_claims_iff}
use ghapp_demo.Oidc.Verify.{verify}
use ghapp_demo.Oidc.Verify.Accepts.{IsVouched, verify-IsVouched}
use ghapp_demo.Text.{codes, equal, trim_space, to_lower}
use ghapp_demo.Text.Dict.{lookup}
use ghapp_demo.Oidc.Sample.{claims, key, cache, early, late, decode, parse, verifier}
use ghapp_demo.Runsauth.Toy.{principal}

described : principal_from_claims claims ≡ ok principal
unfolding principal_from_claims claim_string claim_int64 lookup equal trim_space to_lower
described = refl

accepted : (verify decode parse verifier cache (codes "t") early failed).1 ≡ ok principal
unfolding verify key_for_kid is_audience_allowed token_audiences principal_from_claims claim_string
    claim_int64 lookup equal trim_space to_lower
accepted = refl

verify-IsVouched_example :
    IsVouched verifier
      (verify decode parse verifier cache (codes "t") early failed).0
      (parse verifier.issuer (trim_space (codes "t")))
      principal
verify-IsVouched_example =
    verify-IsVouched decode parse verifier cache early failed principal (codes "t") accepted

principal_from_claims_iff_example :
    (principal_from_claims claims ≡ ok principal) ↔ Identifies claims principal
principal_from_claims_iff_example = principal_from_claims_iff claims principal

exponent_of-mod_example :
    exponent_of (0 % 2 ^ 64) (1 ∷ 0 ∷ 1 ∷ []) ≡ big_endian 0 (1 ∷ 0 ∷ 1 ∷ []) % 2 ^ 64
exponent_of-mod_example = exponent_of-mod (1 ∷ 0 ∷ 1 ∷ []) 0

key_for_kid_stale_example : key_for_kid decode cache (codes "k1") late 60 failed ≡ (cache, ok key)
unfolding lookup equal refresh_jwks
key_for_kid_stale_example =
    key_for_kid_stale decode cache (codes "k1") late 60 failed key _ refl refl
