-- ===== src/Oidc/Keys.antt =====
-- server/internal/oidc/verifier.go: `rsaKeyFromJWK`, and the cache of the issuer's keys. A call
-- reads the clock at several places, so each reading is an argument. The HTTP exchange is an
-- argument too: what it gives if it is made.
pub mod Cache
pub mod Exponent
use ghapp_demo.Base.{
  ℕ, ◌+◌, ◌*◌, ◌^◌, ◌%◌, Bool, true, false, not, ◌&&◌, ◌||◌, List, [], ◌∷◌, Option, none, some,
  ◌==◌, ltb, leb, within, if◌then◌else◌,
}
use ghapp_demo.Base.Result.{Result, ok, err}
use ghapp_demo.Text.{Text, codes, equal, is_empty, trim_space}
use ghapp_demo.Text.Dict.{Dict, lookup, insert}

pub record Jwk : Type 0 where
  pub kid : Text
  pub kty : Text
  pub n : Text
  pub e : Text

-- The modulus as bytes, and the exponent.
pub record PublicKey : Type 0 where
  pub modulus : List ℕ
  pub exponent : ℕ

-- `e = e<<8 + int(b)` on a 64-bit `int`, as a bit pattern.
unfoldable pub exponent_of : ℕ → List ℕ → ℕ
exponent_of e [] = e
exponent_of e (b ∷ bs) = exponent_of ((e * 256 + b) % 2 ^ 64) bs

-- `e <= 0`, where the top bit is the sign.
abbrev pub not_positive : ℕ → Bool
not_positive e = e == 0 || leb (2 ^ 63) e

abbrev key_of : Option (List ℕ) → Option (List ℕ) → Option PublicKey
key_of none e = none
key_of (some n) none = none
key_of (some n) (some []) = none
key_of (some n) (some (b ∷ bs)) =
    if not_positive (exponent_of 0 (b ∷ bs))
    then none
    else some (record { modulus = n; exponent = exponent_of 0 (b ∷ bs) })

pub data FetchError : Type 0 where
  request_failed unexpected_status undecodable no_usable_keys : FetchError

-- What the exchange gives: no response, or a status and the decoded document, if it decodes.
pub data Response : Type 0 where
  failed : Response
  answered : ℕ → Option (List Jwk) → Response

pub record KeyCache : Type 0 where
  pub keys : Dict PublicKey
  pub expires_at : ℕ

abbrev pub has_keys : Dict PublicKey → Bool
has_keys [] = false
has_keys (k ∷ ks) = true

-- `base64.RawURLEncoding.DecodeString`
module _ (decode : Text → Option (List ℕ)) where
  unfoldable pub rsa_key_from_jwk : Jwk → Option PublicKey
  rsa_key_from_jwk k = key_of (decode k.n) (decode k.e)

  -- One round of the loop over the document's keys.
  unfoldable pub add_key : Dict PublicKey → Jwk → Dict PublicKey
  add_key keys k =
      if is_empty (trim_space k.kid) || not (equal (trim_space k.kty) (codes "RSA"))
      then keys
      else elim (rsa_key_from_jwk k) [ none ↦ keys | some key ↦ insert k.kid key keys ]

  unfoldable pub add_keys : Dict PublicKey → List Jwk → Dict PublicKey
  unfolding add_key
  add_keys keys [] = keys
  add_keys keys (k ∷ ks) = add_keys (add_key keys k) ks

  -- The document's keys, stored at `now`.
  abbrev store_keys : KeyCache → ℕ → ℕ → Option (List Jwk) → KeyCache × Option FetchError
  store_keys c now ttl none = (c, some undecodable)
  store_keys c now ttl (some doc) =
      if has_keys (add_keys [] doc)
      then (record { keys = add_keys [] doc; expires_at = now + ttl }, none)
      else (c, some no_usable_keys)

  abbrev receive : KeyCache → ℕ → ℕ → Response → KeyCache × Option FetchError
  receive c now ttl failed = (c, some request_failed)
  receive c now ttl (answered status doc) =
      if within 200 299 status then store_keys c now ttl doc else (c, some unexpected_status)

  -- The cache afterwards, and the error if there is one.
  unfoldable pub refresh_jwks : KeyCache → ℕ → ℕ → ℕ → Response → KeyCache × Option FetchError
  unfolding add_keys
  refresh_jwks c checked stored ttl response =
      if ltb checked c.expires_at && has_keys c.keys
      then (c, none)
      else receive c stored ttl response

unfoldable pub cached_key : KeyCache → Text → Bool → ℕ → Option PublicKey
cached_key c kid allow_stale now =
    if not allow_stale && ltb c.expires_at now then none else lookup kid c.keys

pub data KeyError : Type 0 where
  fetch : FetchError → KeyError
  unknown_kid : KeyError

abbrev found : KeyError → Option PublicKey → Result KeyError PublicKey
found e none = err e
found e (some k) = ok k

abbrev after_refresh :
    KeyCache × Option FetchError → Text → ℕ → KeyCache × Result KeyError PublicKey
after_refresh (c, none) kid now = (c, found unknown_kid (cached_key c kid true now))
after_refresh (c, some e) kid now = (c, found (fetch e) (cached_key c kid true now))

-- The instants at which a call of `keyForKID` reads the clock, in order.
pub record Clock : Type 0 where
  pub looked : ℕ
  pub checked : ℕ
  pub stored : ℕ

module _ (decode : Text → Option (List ℕ)) where
  unfoldable pub key_for_kid :
      KeyCache → Text → Clock → ℕ → Response → KeyCache × Result KeyError PublicKey
  unfolding cached_key refresh_jwks
  key_for_kid c kid t ttl response = elim (cached_key c kid false t.looked) [
    | some key ↦ (c, ok key)
    | none ↦ after_refresh (refresh_jwks decode c t.checked t.stored ttl response) kid t.stored
  ]
