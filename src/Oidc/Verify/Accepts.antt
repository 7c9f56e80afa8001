-- ===== src/Oidc/Verify/Accepts.antt =====
-- What stands behind a principal that the verifier hands out.
use ghapp_demo.Base.{
  ℕ, ◌≡◌, ◌⊎◌, refl, ap, ◌∙◌, true, false, List, [], Option, none, some, arith, inl, inr,
  Bool-cases,
}
use ghapp_demo.Base.Result.{Result, ok, err}
use ghapp_demo.Oidc.Claims.{Claims, is_audience_allowed, token_audiences}
use ghapp_demo.Oidc.Claims.Audience.{Shares, is_audience_allowed_iff}
use ghapp_demo.Oidc.Keys.{KeyCache, KeyError, PublicKey, Clock, Response, key_for_kid}
use ghapp_demo.Oidc.Keys.Cache.{key_for_kid-lookup}
use ghapp_demo.Oidc.Principal.{Principal, principal_from_claims}
use ghapp_demo.Oidc.Principal.Sound.{Identifies, principal_from_claims_iff}
use ghapp_demo.Oidc.Verify.{Verifier, Parsed, verify, judge, under_key, admit, principal_of}
use ghapp_demo.Text.{Text, is_empty, trim_space}
use ghapp_demo.Text.Dict.{lookup}

-- A token whose signature holds under the key that the cache has for its `kid`, whose audience is
-- accepted and whose claims describe the principal.
pub record IsVouched (v : Verifier) (c : KeyCache) (parsed : Option Parsed) (p : Principal)
    : Type 0 where
  pub kid : Text
  pub check : PublicKey → Option Claims
  pub key : PublicKey
  pub claims : Claims
  pub is_parsed : parsed ≡ some (kid, check)
  pub is_named : is_empty (trim_space kid) ≡ false
  pub is_held : lookup kid c.keys ≡ some key
  pub is_signed : check key ≡ some claims
  pub is_meant : (v.audiences ≡ []) ⊎ Shares (token_audiences claims) v.audiences
  pub is_identified : Identifies claims p

principal_of-ok : (r : Result _ Principal) (p : Principal) → principal_of r ≡ ok p → r ≡ ok p
principal_of-ok (ok q) p h = ground arith
principal_of-ok (err e) p h = ground arith

admit-ok :
    (v : Verifier) (found : Option Claims) (p : Principal)
    → admit v found ≡ ok p
    → (claims : Claims) × (found ≡ some claims)
      × (is_audience_allowed v.audiences claims ≡ true)
      × (principal_from_claims claims ≡ ok p)
admit-ok v none p h = ground arith
admit-ok v (some claims) p h = elim (Bool-cases (is_audience_allowed v.audiences claims)) [
  | inl t ↦ (claims, refl, t, principal_of-ok _ p (ground (arith, h, t)))
  | inr t ↦ ground (arith, h, t)
]

under_key-ok :
    (v : Verifier) (check : PublicKey → Option Claims) (r : KeyCache × Result KeyError PublicKey)
    (p : Principal)
    → (under_key v check r).1 ≡ ok p
    → (key : PublicKey) × (r.1 ≡ ok key)
      × ((under_key v check r).0 ≡ r.0)
      × (admit v (check key) ≡ ok p)
under_key-ok v check (c, ok key) p h = (key, refl, refl, h)
under_key-ok v check (c, err e) p h = ground arith

module _ (decode : Text → Option (List ℕ)) (parse : Text → Text → Option Parsed) (v : Verifier)
    (c : KeyCache) (t : Clock) (response : Response) (p : Principal) where
  vouched :
      (kid : Text) (check : PublicKey → Option Claims)
      → is_empty (trim_space kid) ≡ false
      → (under_key v check (key_for_kid decode c kid t v.cache_ttl response)).1 ≡ ok p
      → IsVouched v
          (under_key v check (key_for_kid decode c kid t v.cache_ttl response)).0
          (some (kid, check))
          p
  vouched kid check named h =
      let fetched = key_for_kid decode c kid t v.cache_ttl response in
      let (key, got, same, admitted) = under_key-ok v check fetched p h in
      let (claims, signed, meant, described) = admit-ok v (check key) p admitted in
      record {
        kid = kid;
        check = check;
        key = key;
        claims = claims;
        is_parsed = refl;
        is_named = named;
        is_held =
            ap (λ (x : KeyCache). lookup kid x.keys) same
            ∙ key_for_kid-lookup decode c kid t v.cache_ttl response key got;
        is_signed = signed;
        is_meant = (is_audience_allowed_iff v.audiences claims).0 meant;
        is_identified = (principal_from_claims_iff claims p).0 described;
      }

  judged :
      (parsed : Option Parsed)
      → (judge decode parse v c t response parsed).1 ≡ ok p
      → IsVouched v (judge decode parse v c t response parsed).0 parsed p
  judged none h = ground arith
  judged (some (kid, check)) h = elim (Bool-cases (is_empty (trim_space kid))) [
    | inl e ↦ ground (arith, h, e)
    | inr e ↦ rw (e, judge) (vouched kid check e (rw (e, judge) at h))
  ]

  -- A principal comes only from a token that parses for the verifier's issuer, whose signature
  -- holds under the key that the cache has for its `kid` afterwards, whose audience is accepted,
  -- and whose claims describe that principal.
  pub verify-IsVouched :
      (raw : Text)
      → (verify decode parse v c raw t response).1 ≡ ok p
      → IsVouched v (verify decode parse v c raw t response).0 (parse v.issuer (trim_space raw)) p
  unfolding verify
  verify-IsVouched raw h = elim (Bool-cases (is_empty (trim_space raw))) [
    | inl e ↦ ground (arith, h, e)
    | inr e ↦ rw (e, verify) (judged (parse v.issuer (trim_space raw)) (rw (e, verify) at h))
  ]
