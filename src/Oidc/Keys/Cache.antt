-- ===== src/Oidc/Keys/Cache.antt =====
-- What the cache of keys promises.
use ghapp_demo.Base.{ℕ, ◌≡◌, ◌≤◌, ◌<◌, true, Option, none, some, arith, List}
use ghapp_demo.Base.Result.{ok, err}
use ghapp_demo.Oidc.Keys.{
  KeyCache, PublicKey, Response, Clock, FetchError, has_keys, refresh_jwks, key_for_kid,
  unknown_kid,
}
use ghapp_demo.Text.{Text}
use ghapp_demo.Text.Dict.{lookup}

module _ (decode : Text → Option (List ℕ)) (c : KeyCache) (kid : Text) (t : Clock) (ttl : ℕ)
    (response : Response) where
  -- A key that is handed out is the one that the cache holds for that identifier afterwards.
  pub key_for_kid-lookup :
      (key : PublicKey)
      → (key_for_kid decode c kid t ttl response).1 ≡ ok key
      → lookup kid (key_for_kid decode c kid t ttl response).0.keys ≡ some key
  unfolding key_for_kid
  key_for_kid-lookup key h = ground arith

  -- While the cache is fresh and not empty, an identifier that it does not hold is refused with no
  -- exchange: the outcome does not depend on the response, and the cache stays.
  key_for_kid_fresh :
      t.looked ≤ c.expires_at
      → t.checked < c.expires_at
      → has_keys c.keys ≡ true
      → lookup kid c.keys ≡ none
      → key_for_kid decode c kid t ttl response ≡ (c, err unknown_kid)
  unfolding key_for_kid
  key_for_kid_fresh h k l m = ground arith

  -- A refresh that ends in an error leaves the cache as it was.
  refresh_jwks_error :
      (checked stored : ℕ) (e : FetchError)
      → (refresh_jwks decode c checked stored ttl response).1 ≡ some e
      → (refresh_jwks decode c checked stored ttl response).0 ≡ c
  unfolding refresh_jwks
  refresh_jwks_error checked stored e h = ground arith

  -- Where the refresh ends in an error, a key that the cache holds is still handed out, stale or
  -- not, and the cache stays as it was.
  pub key_for_kid_stale :
      (key : PublicKey) (e : FetchError)
      → lookup kid c.keys ≡ some key
      → (refresh_jwks decode c t.checked t.stored ttl response).1 ≡ some e
      → key_for_kid decode c kid t ttl response ≡ (c, ok key)
  unfolding key_for_kid
  key_for_kid_stale key e h f = ground (arith, refresh_jwks_error t.checked t.stored e f)
