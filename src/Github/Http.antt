-- ===== src/Github/Http.antt =====
-- server/internal/githubapp/client.go: `getJSONWithETag` and `getJSON`. What lies outside is a
-- record of parameters over a state: the HTTP exchange, the clock, and the signing of the app's JWT.
use ghapp_demo.Base.{ℕ, Bool, List, [], Option, none, some, ◌==◌, ltb, leb, ◌&&◌, if◌then◌else◌}
use ghapp_demo.Base.Int.{ℤ}
use ghapp_demo.Base.Result.{Result, ok, err}
use ghapp_demo.Text.{Text, codes, is_empty, trim_space}

pub record Request : Type 0 where
  pub verb : Text
  pub endpoint : Text
  pub authorization : Option Text
  pub accept : Text
  pub content_type : Option Text
  pub if_none_match : Option Text
  pub body : Text

-- A response whose body is read; an error of that reading is ignored by the source.
pub record Response : Type 0 where
  pub status : ℕ
  -- the header `ETag`, or empty text
  pub etag : Text
  pub body : Text

-- `jwt.RegisteredClaims`, in nanoseconds
pub record AppClaims : Type 0 where
  pub issuer : Text
  pub issued_at : ℕ
  pub expires_at : ℕ

-- `send` has no response where the request cannot be built or the exchange fails; `sign` is
-- `SignedString` with the app's key.
pub record Outside (S : Type 0) : Type 0 where
  pub send : Request → S → Option Response × S
  pub clock : S → ℕ
  pub sign : AppClaims → Text

pub record CachedInstallationToken : Type 0 where
  pub token : Text
  pub expires_at : ℕ

-- The part of `Client` that changes, and what lies outside.
pub record Net (S : Type 0) : Type 0 where
  pub installation_tokens : List (ℤ × CachedInstallationToken)
  pub outside : S

pub data ClientError : Type 0 where
  no_response undecodable missing_token : ClientError
  refused : ℕ → Text → ClientError

-- What a request without an error gives.
pub data Page (A : Type 0) : Type 0 where
  not_modified : Response → Page A
  fetched : Response → A → Page A

abbrev pub filled : Text → Option Text
filled t = if is_empty (trim_space t) then none else some t

-- `res.StatusCode >= 200 && res.StatusCode < 300`
abbrev pub is_success : ℕ → Bool
is_success status = leb 200 status && ltb status 300

abbrev pub accept_json : Text
accept_json = codes "application/vnd.github+json"

abbrev pub N : Type 0 → Type 0 → Type 0
N S A = Net S → Result ClientError A × Net S

abbrev pub bind :
    {S A B : Type 0} → Result ClientError A × Net S → (A → N S B) → Result ClientError B × Net S
bind (ok a, w) f = f a w
bind (err e, w) f = (err e, w)

abbrev pub sent :
    {S A : Type 0}
    → Net S
    → (Option Response → Result ClientError A)
    → Option Response × S
    → Result ClientError A × Net S
sent w read (res, s) = (read res, record w { outside = s })

abbrev pub get_request : Text → Text → Text → Request
get_request endpoint auth etag = record {
  verb = codes "GET";
  endpoint = endpoint;
  authorization = filled auth;
  accept = accept_json;
  content_type = none;
  if_none_match = filled etag;
  body = [];
}

abbrev pub decoded : {A : Type 0} → Response → Option A → Result ClientError (Page A)
decoded res none = err undecodable
decoded res (some a) = ok (fetched res a)

abbrev pub read_page :
    {A : Type 0} → (Text → Option A) → Option Response → Result ClientError (Page A)
read_page decode none = err no_response
read_page decode (some res) =
    if res.status == 304
    then ok (not_modified res)
    else if is_success res.status
    then decoded res (decode res.body)
    else err (refused res.status (trim_space res.body))

unfoldable pub get_json_with_etag :
    {S A : Type 0} → Outside S → (Text → Option A) → Text → Text → Text → N S (Page A)
get_json_with_etag o decode endpoint auth etag w =
    sent w (read_page decode) (o.send (get_request endpoint auth etag) w.outside)

-- A variable that is not assigned keeps its zero value.
abbrev pub or_zero : {S A : Type 0} → A → Page A → N S (Page A)
or_zero zero_value (not_modified res) w = (ok (fetched res zero_value), w)
or_zero zero_value (fetched res a) w = (ok (fetched res a), w)

unfoldable pub get_json :
    {S A : Type 0} → Outside S → (Text → Option A) → A → Text → Text → N S (Page A)
unfolding get_json_with_etag
get_json o decode zero_value endpoint auth w =
    bind (get_json_with_etag o decode endpoint auth [] w) (or_zero zero_value)
