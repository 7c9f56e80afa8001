-- ===== src/Handlers/Login.antt =====
-- server/web/handler/server.go: sessions and the login with GitHub. `random` is what `rand.Read`
-- gives, and `encode` the base64 of the tokens.
pub mod Matched
mod Tests
use ghapp_demo.Base.{
  ℕ, ◌+◌, ◌*◌, Bool, true, false, ◌||◌, List, [], ◌∷◌, Option, none, some, if◌then◌else◌,
}
use ghapp_demo.Base.Result.{Result, ok, err}
use ghapp_demo.Github.Client.{Client, UserToken, auth_code_url}
use ghapp_demo.Handlers.Ingest.{day}
use ghapp_demo.Handlers.Session.{
  Cookie, new_token, session_cookie, cleared_session_cookie, oauth_state_cookie,
  cleared_oauth_state_cookie, read_session_token, read_oauth_state_cookie,
}
use ghapp_demo.Handlers.Site.{
  Site, GithubApi, Call, H, ◌>>=◌, ◌>>◌, return, lift, store, github, time_now,
}
use ghapp_demo.Store.Monad.{World, StoreError}
use ghapp_demo.Store.Users.{
  User, upsert_user_from_github, upsert_user_github_tokens, create_session, delete_session,
  get_user_by_session_token,
}
use ghapp_demo.Text.{Text, codes, equal, is_empty, trim_space, starts_with, to_lower}
use ghapp_demo.Text.Dict.{Dict}

-- The status, the header `Location`, and the cookies that are set.
pub record LoginAnswer : Type 0 where
  pub status : ℕ
  pub location : Option Text
  pub cookies : List Cookie

abbrev pub error_answer : ℕ → List Cookie → LoginAnswer
error_answer status cookies = record { status = status; location = none; cookies = cookies }

abbrev pub redirect : ℕ → Text → List Cookie → LoginAnswer
redirect status location cookies = record {
  status = status;
  location = some location;
  cookies = cookies;
}

-- `secureCookies` of `New`
unfoldable pub secure_cookies : Text → Bool
secure_cookies base_url = starts_with (to_lower base_url) (codes "https://")

-- What `loadCurrentUser` passes on: the user, and the cookies that it sets. Or its error.
abbrev pub session_of :
    Bool → Result StoreError (Option User) × World → Result ℕ (Option User × List Cookie) × World
session_of secure (err e, w) = (err 500, w)
session_of secure (ok none, w) = (ok (none, cleared_session_cookie secure ∷ []), w)
session_of secure (ok (some user), w) = (ok (some user, []), w)

abbrev pub load_session : Bool → Option Text → World → Result ℕ (Option User × List Cookie) × World
load_session secure none w = (ok (none, []), w)
load_session secure (some token) w = session_of secure (get_user_by_session_token token w)

unfoldable pub load_current_user :
    Bool → Dict Text → World → Result ℕ (Option User × List Cookie) × World
load_current_user secure cookies w = load_session secure (read_session_token cookies) w

-- `requireUser`: the handler, or the way back to the login.
unfoldable pub require_user :
    Option User → (User → World → LoginAnswer × World) → World → LoginAnswer × World
require_user none serve w = (redirect 303 (codes "/") [], w)
require_user (some user) serve w = serve user w

unfoldable pub handle_root : Option User → LoginAnswer
handle_root none = record { status = 200; location = none; cookies = [] }
handle_root (some user) = redirect 303 (codes "/dashboard") []

abbrev logged_out : Bool → LoginAnswer
logged_out secure = redirect 303 (codes "/") (cleared_session_cookie secure ∷ [])

abbrev after_delete : Option Text → World → World
after_delete none w = w
after_delete (some token) w = (delete_session token w).1

-- The error of the deletion is only logged.
unfoldable pub handle_logout : Bool → Dict Text → World → LoginAnswer × World
handle_logout secure cookies w = (logged_out secure, after_delete (read_session_token cookies) w)

abbrev pub to_github : {K : Type 0} → Client K → Bool → ℕ → Option Text → LoginAnswer
to_github c secure now none = error_answer 500 []
to_github c secure now (some state) =
    redirect 307 (auth_code_url c state) (oauth_state_cookie state now secure ∷ [])

unfoldable pub handle_github_login :
    {K : Type 0} → Option (Client K) → (List ℕ → Text) → Option (List ℕ) → Bool → ℕ → LoginAnswer
handle_github_login none encode random secure now = error_answer 503 []
handle_github_login (some c) encode random secure now =
    to_github c secure now (new_token encode random)

abbrev pub or_status : {S A : Type 0} → ℕ → Result Text A × Site S → Result ℕ A × Site S
or_status status (ok a, s) = (ok a, s)
or_status status (err words, s) = (err status, s)

-- An error becomes a status.
abbrev pub failing : {S A : Type 0} → ℕ → H S A → Call ℕ S A
failing status m s = or_status status (m s)

abbrev pub or_500 : {A : Type 0} → Option A → Result ℕ A
or_500 none = err 500
or_500 (some a) = ok a

-- `30 * 24 * time.Hour`
abbrev pub session_length : ℕ
session_length = 30 * day

module _ {S : Type 0} (api : GithubApi S) (encode : List ℕ → Text) (random : Option (List ℕ)) where
  abbrev pub refresh_bytes : UserToken → H S (List ℕ)
  refresh_bytes t =
      if is_empty (trim_space t.refresh_token)
      then return []
      else github (api.encrypt_token t.refresh_token)

  -- What follows when the tokens are stored: the session.
  abbrev pub start_session : User → Call ℕ S (Text × ℕ)
  start_session user = do
    token ← lift (or_500 (new_token encode random))
    now ← time_now api
    failing 500 (store api (create_session user.id token (now + session_length)))
    return (token, now + session_length)

  -- From the code to the session.
  unfoldable pub log_in : Text → Call ℕ S (Text × ℕ)
  log_in code = do
    tokens ← failing 502 (github (api.exchange_user_code code))
    profile ← failing 502 (github (api.github_user tokens.access_token))
    user ←
        failing 500
          (store api (upsert_user_from_github profile.id profile.login profile.avatar_url))
    access_enc ← failing 500 (github (api.encrypt_token tokens.access_token))
    refresh_enc ← failing 500 (refresh_bytes tokens)
    failing 500 (
        store api (
          upsert_user_github_tokens user.id access_enc tokens.access_token_expires_at refresh_enc
            tokens.refresh_token_expires_at))
    start_session user

  abbrev pub logged_in : Bool → Result ℕ (Text × ℕ) × Site S → LoginAnswer × Site S
  logged_in secure (err status, s) =
      (error_answer status (cleared_oauth_state_cookie secure ∷ []), s)
  logged_in secure (ok (token, expires), s) = (
    redirect 303 (codes "/dashboard")
        (cleared_oauth_state_cookie secure ∷ session_cookie token expires secure ∷ []),
    s,
  )

  abbrev pub with_state : Bool → Text → Text → Option Text → Site S → LoginAnswer × Site S
  with_state secure state code none s =
      (error_answer 401 (cleared_oauth_state_cookie secure ∷ []), s)
  with_state secure state code (some cookie_state) s =
      if equal cookie_state state
      then logged_in secure (log_in code s)
      else (error_answer 401 (cleared_oauth_state_cookie secure ∷ []), s)

  unfoldable pub callback : Bool → Dict Text → Text → Text → Site S → LoginAnswer × Site S
  unfolding log_in
  callback secure cookies state code s =
      if is_empty state || is_empty code
      then (error_answer 400 [], s)
      else with_state secure state code (read_oauth_state_cookie cookies) s

-- The client may be missing; `state` and `code` are from the query.
unfoldable pub handle_github_callback :
    {S : Type 0}
    → Option (GithubApi S)
    → (List ℕ → Text)
    → Option (List ℕ)
    → Bool
    → Dict Text
    → Text
    → Text
    → Site S
    → LoginAnswer × Site S
unfolding callback
handle_github_callback none encode random secure cookies state code s = (error_answer 503 [], s)
handle_github_callback (some api) encode random secure cookies state code s =
    callback api encode random secure cookies state code s
