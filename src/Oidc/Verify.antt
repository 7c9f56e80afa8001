-- ===== src/Oidc/Verify.antt =====
-- server/internal/oidc/verifier.go: `NewVerifier` and `Verify`. What the JWT library makes of a
-- token is a parameter: none where it does not parse, is not signed by RS256 or names no issuer,
-- or else its `kid` header, and the claims that it has under a key, if its signature and its
-- registered claims are good.
pub mod Accepts
use ghapp_demo.Base.{
  ℕ, ◌*◌, ◌^◌, Bool, true, false, not, List, [], ◌∷◌, ◌++◌, Option, none, some, if◌then◌else◌,
}
use ghapp_demo.Base.Int.{ℤ, is_positive, pos_part}
use ghapp_demo.Base.Result.{Result, ok, err}
use ghapp_demo.Oidc.Claims.{Claims, is_audience_allowed}
use ghapp_demo.Oidc.Keys.{KeyCache, KeyError, PublicKey, Clock, Response, key_for_kid}
use ghapp_demo.Oidc.Principal.{Principal, ClaimError, principal_from_claims}
use ghapp_demo.Text.{Text, codes, is_empty, trim_space, trim_right_byte}
use ghapp_demo.Text.Collect.{collect}

-- `Config`, without the HTTP client.
pub record VerifierConfig : Type 0 where
  pub issuer : Text
  pub audiences : List Text
  pub jwks_url : Text
  pub cache_ttl : ℤ

-- What `NewVerifier` stores, without the client; the cache of keys is the state of `verify`.
pub record Verifier : Type 0 where
  pub issuer : Text
  pub audiences : List Text
  pub jwks_url : Text
  pub cache_ttl : ℕ

abbrev pub default_issuer : Text
default_issuer = codes "https://token.actions.githubusercontent.com"

abbrev or_else : Text → Text → Text
or_else s d = if is_empty (trim_space s) then d else trim_space s

unfoldable pub new_verifier : VerifierConfig → Verifier
new_verifier cfg =
    let issuer = or_else cfg.issuer default_issuer in
    record {
      issuer = issuer;
      audiences = collect [] cfg.audiences;
      jwks_url = or_else cfg.jwks_url (trim_right_byte b'/' issuer ++ codes "/.well-known/jwks");
      cache_ttl = if is_positive cfg.cache_ttl then pos_part cfg.cache_ttl else 60 * 60 * 10 ^ 9;
    }

pub data VerifyError : Type 0 where
  missing_token malformed missing_kid bad_signature invalid_audience : VerifyError
  no_key : KeyError → VerifyError
  bad_claim : ClaimError → VerifyError

-- The `kid` header and the claims under a key.
abbrev pub Parsed : Type 0
Parsed = Text × (PublicKey → Option Claims)

abbrev pub principal_of : Result ClaimError Principal → Result VerifyError Principal
principal_of (ok p) = ok p
principal_of (err e) = err (bad_claim e)

abbrev pub admit : Verifier → Option Claims → Result VerifyError Principal
admit v none = err bad_signature
admit v (some claims) =
    if is_audience_allowed v.audiences claims
    then principal_of (principal_from_claims claims)
    else err invalid_audience

abbrev pub under_key :
    Verifier
    → (PublicKey → Option Claims)
    → KeyCache × Result KeyError PublicKey
    → KeyCache × Result VerifyError Principal
under_key v check (c, ok key) = (c, admit v (check key))
under_key v check (c, err e) = (c, err (no_key e))

-- `base64.RawURLEncoding.DecodeString`, and `jwt.Parse` for an issuer.
module _ (decode : Text → Option (List ℕ)) (parse : Text → Text → Option Parsed) where
  abbrev pub judge :
      Verifier
      → KeyCache
      → Clock
      → Response
      → Option Parsed
      → KeyCache × Result VerifyError Principal
  judge v c t response none = (c, err malformed)
  judge v c t response (some (kid, check)) =
      if is_empty (trim_space kid)
      then (c, err missing_kid)
      else under_key v check (key_for_kid decode c kid t v.cache_ttl response)

  unfoldable pub verify :
      Verifier → KeyCache → Text → Clock → Response → KeyCache × Result VerifyError Principal
  verify v c raw t response =
      if is_empty (trim_space raw)
      then (c, err missing_token)
      else judge v c t response (parse v.issuer (trim_space raw))
