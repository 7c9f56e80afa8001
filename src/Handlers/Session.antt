-- ===== src/Handlers/Session.antt =====
-- server/internal/auth/session.go: tokens and cookies. A request's cookies are a map; the expiry of
-- a cookie is an instant, where 0 is `time.Unix(0, 0)`.
use ghapp_demo.Base.{ℕ, ◌+◌, ◌*◌, Bool, true, List, Option, none, some, if◌then◌else◌}
use ghapp_demo.Base.Int.{ℤ, pos, negsuc}
use ghapp_demo.Limiter.{minute}
use ghapp_demo.Text.{Text, codes, is_empty}
use ghapp_demo.Text.Dict.{Dict, lookup}

pub record Cookie : Type 0 where
  pub name : Text
  pub value : Text
  pub path : Text
  pub http_only : Bool
  pub secure : Bool
  pub same_site_lax : Bool
  -- 0 where it is not given
  pub max_age : ℤ
  pub expires : ℕ

abbrev pub session_cookie_name : Text
session_cookie_name = codes "ghapp_demo_session"

abbrev pub oauth_state_cookie_name : Text
oauth_state_cookie_name = codes "ghapp_demo_oauth_state"

-- `encode` is `base64.RawURLEncoding.EncodeToString`, on the bytes that `rand.Read` gives, if any.
unfoldable pub new_token : (List ℕ → Text) → Option (List ℕ) → Option Text
new_token encode none = none
new_token encode (some bytes) = some (encode bytes)

abbrev cookie : Text → Text → Bool → ℤ → ℕ → Cookie
cookie name value secure max_age expires = record {
  name = name;
  value = value;
  path = codes "/";
  http_only = true;
  secure = secure;
  same_site_lax = true;
  max_age = max_age;
  expires = expires;
}

unfoldable pub session_cookie : Text → ℕ → Bool → Cookie
session_cookie token expires secure = cookie session_cookie_name token secure (pos 0) expires

unfoldable pub cleared_session_cookie : Bool → Cookie
cleared_session_cookie secure = cookie session_cookie_name (codes "") secure (negsuc 0) 0

unfoldable pub oauth_state_cookie : Text → ℕ → Bool → Cookie
oauth_state_cookie state now secure =
    cookie oauth_state_cookie_name state secure (pos 600) (now + 10 * minute)

unfoldable pub cleared_oauth_state_cookie : Bool → Cookie
cleared_oauth_state_cookie secure = cookie oauth_state_cookie_name (codes "") secure (negsuc 0) 0

abbrev filled_cookie : Option Text → Option Text
filled_cookie none = none
filled_cookie (some value) = if is_empty value then none else some value

unfoldable pub read_session_token : Dict Text → Option Text
read_session_token cookies = filled_cookie (lookup session_cookie_name cookies)

unfoldable pub read_oauth_state_cookie : Dict Text → Option Text
read_oauth_state_cookie cookies = filled_cookie (lookup oauth_state_cookie_name cookies)
