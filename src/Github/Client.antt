-- ===== src/Github/Client.antt =====
-- server/internal/githubapp/client.go: `NewClient`, the texts of the OAuth exchange, and the
-- encryption of tokens. Bytes of a key or a ciphertext are natural numbers. AES takes every key of 32 bytes, and
-- GCM every such cipher, so the two calls that make the AEAD have no error here.
pub mod Sealed
mod Tests
use ghapp_demo.Base.{
  ℕ, ◌+◌, ◌*◌, ◌^◌, ◌%◌, Bool, true, false, not, ◌&&◌, ◌-◌, zero, suc, List, [], ◌∷◌, ◌++◌, Option,
  none, some, ◌==◌, ltb, ◌||◌, if◌then◌else◌, length, take, drop,
}
use ghapp_demo.Base.Int.{ℤ, is_positive, pos_part}
use ghapp_demo.Base.Result.{Result, ok, err, ◌>>=◌, ◌>>◌, guard}
use ghapp_demo.Github.Http.{
  Request, Response, Outside, Net, N, bind, sent, ClientError, no_response, undecodable,
  missing_token, refused, is_success,
}
use ghapp_demo.Text.{Text, codes, is_empty, trim_space, trim_right_byte}
use ghapp_demo.Text.Url.{encode_values}

-- `Config`, less the HTTP client
pub record ClientConfig : Type 0 where
  pub client_id : Text
  pub client_secret : Text
  pub base_url : Text
  pub token_encryption_key : Text
  pub app_id : Text
  pub app_private_key : Text

-- The part of `Client` that does not change; the AEAD is given by its key.
pub record Client (K : Type 0) : Type 0 where
  pub client_id : Text
  pub client_secret : Text
  pub base_url : Text
  pub aead_key : List ℕ
  pub app_id : Text
  pub app_private_key : K

pub data ConfigError : Type 0 where
  missing_client missing_key undecodable_key missing_app_id : ConfigError
  key_length : ℕ → ConfigError
  missing_private_key not_pem not_pkcs8 not_rsa : ConfigError

-- What PKCS #8 holds: an RSA key, or one of another kind.
pub data AnyKey (K : Type 0) : Type 0 where
  rsa : K → AnyKey K
  other : AnyKey K

-- Go's decoders: base64, PEM, and the two forms of a private key.
pub record Decoders (K : Type 0) : Type 0 where
  pub base64 : Text → Option (List ℕ)
  pub pem : Text → Option (List ℕ)
  pub pkcs1 : List ℕ → Option K
  pub pkcs8 : List ℕ → Option (AnyKey K)

-- `strings.ReplaceAll(raw, "\\n", "\n")`
unfoldable pub replace_newlines : Text → Text
replace_newlines [] = []
replace_newlines (c ∷ []) = c ∷ []
replace_newlines (c ∷ d ∷ s) =
    let rest = replace_newlines s in
    let kept = replace_newlines (d ∷ s) in
    if c == 92 then if d == b'n' then 10 ∷ rest else c ∷ kept else c ∷ kept

abbrev pub or_fail {ℓ} : {A : Type ℓ} → ConfigError → Option A → Result ConfigError A
or_fail e none = err e
or_fail e (some a) = ok a

abbrev pub rsa_only : {K : Type 0} → AnyKey K → Result ConfigError K
rsa_only (rsa key) = ok key
rsa_only other = err not_rsa

abbrev pub pkcs8_key : {K : Type 0} → Option (AnyKey K) → Result ConfigError K
pkcs8_key none = err not_pkcs8
pkcs8_key (some key) = rsa_only key

abbrev pub key_of_block : {K : Type 0} → Decoders K → List ℕ → Option K → Result ConfigError K
key_of_block d block (some key) = ok key
key_of_block d block none = pkcs8_key (d.pkcs8 block)

unfoldable pub parse_rsa_private_key : {K : Type 0} → Decoders K → Text → Result ConfigError K
parse_rsa_private_key d raw =
    let key = trim_space (replace_newlines raw) in
    if is_empty key
    then err missing_private_key
    else or_fail not_pem (d.pem key) >>= λ block. key_of_block d block (d.pkcs1 block)

abbrev pub not_blank : Text → Bool
not_blank t = not (is_empty (trim_space t))

abbrev pub check_key : List ℕ → Result ConfigError (Unit {0})
check_key key = guard (length key == 32) (key_length (length key))

unfoldable pub new_client : {K : Type 0} → Decoders K → ClientConfig → Result ConfigError (Client K)
new_client d cfg = do
  guard (not_blank cfg.client_id && not_blank cfg.client_secret) missing_client
  guard (not_blank cfg.token_encryption_key) missing_key
  key ← or_fail undecodable_key (d.base64 (trim_space cfg.token_encryption_key))
  check_key key
  guard (not_blank cfg.app_id) missing_app_id
  private_key ← parse_rsa_private_key d cfg.app_private_key
  ok (record {
    client_id = trim_space cfg.client_id;
    client_secret = trim_space cfg.client_secret;
    base_url = trim_right_byte b'/' (trim_space cfg.base_url);
    aead_key = key;
    app_id = trim_space cfg.app_id;
    app_private_key = private_key;
  })

-- `c.baseURL+"/auth/github/callback"`
abbrev pub redirect_uri : {K : Type 0} → Client K → Text
redirect_uri c = c.base_url ++ codes "/auth/github/callback"

unfoldable pub auth_code_url : {K : Type 0} → Client K → Text → Text
auth_code_url c state =
    codes "https://github.com/login/oauth/authorize?"
    ++ encode_values (
        (codes "client_id", c.client_id)
        ∷ (codes "redirect_uri", redirect_uri c)
        ∷ (codes "state", state)
        ∷ [])

-- `aead`: the size of a nonce, and the operations `Seal` and `Open`.
pub record Aead : Type 0 where
  pub nonce_size : ℕ
  pub seal : List ℕ → List ℕ → List ℕ
  pub unseal : List ℕ → List ℕ → Option (List ℕ)

-- On the nonce that `rand.Read` gives, or `none` for its error.
unfoldable pub encrypt_token : Aead → Option (List ℕ) → List ℕ → Option (List ℕ)
encrypt_token a none plaintext = none
encrypt_token a (some nonce) plaintext = some (nonce ++ a.seal nonce plaintext)

pub data DecryptError : Type 0 where
  too_short not_authentic : DecryptError

abbrev pub opened : Option (List ℕ) → Result DecryptError (List ℕ)
opened none = err not_authentic
opened (some plain) = ok plain

unfoldable pub decrypt_token : Aead → List ℕ → Result DecryptError (List ℕ)
decrypt_token a ciphertext =
    if ltb (length ciphertext) a.nonce_size
    then err too_short
    else opened (a.unseal (take a.nonce_size ciphertext) (drop a.nonce_size ciphertext))

pub record TokenResponse : Type 0 where
  pub access_token : Text
  pub token_type : Text
  pub scope : Text
  pub refresh_token : Text
  pub expires_in : ℤ
  pub refresh_token_expires_in : ℤ

pub record UserToken : Type 0 where
  pub access_token : Text
  pub access_token_expires_at : Option ℕ
  pub refresh_token : Text
  pub refresh_token_expires_at : Option ℕ

-- The conversion to nanoseconds wraps around; a duration in the upper half of the patterns of 64
-- bits is negative.
abbrev pub add_seconds : ℕ → ℕ → ℕ
add_seconds now seconds =
    let nanos = (seconds * 10 ^ 9) % 2 ^ 64 in
    if ltb nanos (2 ^ 63) then now + nanos else now - (2 ^ 64 - nanos)

abbrev pub expiry : ℕ → ℤ → Option ℕ
expiry now seconds = if is_positive seconds then some (add_seconds now (pos_part seconds)) else none

unfoldable pub token_from_response : ℕ → TokenResponse → UserToken
token_from_response now tr = record {
  access_token = tr.access_token;
  access_token_expires_at = expiry now tr.expires_in;
  refresh_token = tr.refresh_token;
  refresh_token_expires_at = expiry now tr.refresh_token_expires_in;
}

abbrev pub token_of : Option TokenResponse → Result ClientError TokenResponse
token_of none = err undecodable
token_of (some tr) = if is_empty (trim_space tr.access_token) then err missing_token else ok tr

abbrev pub read_token :
    (Text → Option TokenResponse) → Option Response → Result ClientError TokenResponse
read_token decode none = err no_response
read_token decode (some res) =
    if is_success res.status
    then token_of (decode res.body)
    else err (refused res.status (trim_space res.body))

module _ {S : Type 0} (o : Outside S) (decode : Text → Option TokenResponse) where
  abbrev token_post : Text → Request
  token_post form = record {
    verb = codes "POST";
    endpoint = codes "https://github.com/login/oauth/access_token";
    authorization = none;
    accept = codes "application/json";
    content_type = some (codes "application/x-www-form-urlencoded");
    if_none_match = none;
    body = form;
  }

  unfoldable pub token_request : List (Text × Text) → N S TokenResponse
  token_request form w =
      sent w (read_token decode) (o.send (token_post (encode_values form)) w.outside)

  abbrev user_token : TokenResponse → N S UserToken
  user_token answer w = (ok (token_from_response (o.clock w.outside) answer), w)

  unfoldable pub exchange_user_code : {K : Type 0} → Client K → Text → N S UserToken
  unfolding token_request
  exchange_user_code c code w =
      bind
        (token_request
          ((codes "client_id", c.client_id)
            ∷ (codes "client_secret", c.client_secret)
            ∷ (codes "code", code)
            ∷ (codes "redirect_uri", redirect_uri c)
            ∷ [])
          w)
        user_token

  unfoldable pub refresh_user_token : {K : Type 0} → Client K → Text → N S UserToken
  unfolding token_request
  refresh_user_token c refresh_token w =
      bind
        (token_request
          ((codes "client_id", c.client_id)
            ∷ (codes "client_secret", c.client_secret)
            ∷ (codes "grant_type", codes "refresh_token")
            ∷ (codes "refresh_token", refresh_token)
            ∷ [])
          w)
        user_token
