-- ===== src/Github/Tokens.antt =====
-- server/internal/githubapp/client.go: installation tokens with their cache. A decoder stands for
-- `json.Unmarshal` into the payload of the answer.
pub mod Cached
use ghapp_demo.Base.{
  ℕ, zero, suc, ◌+◌, ◌-◌, ◌*◌, ◌^◌, Bool, true, false, List, [], ◌∷◌, ◌++◌, Option, none, some,
  ◌==◌, ltb, if◌then◌else◌,
}
use ghapp_demo.Base.Int.{ℤ, pos, eq_ℤ}
use ghapp_demo.Base.Result.{Result, ok, err}
use ghapp_demo.Github.Http.{
  Request, Response, Outside, Net, N, AppClaims, CachedInstallationToken, ClientError, no_response,
  undecodable, missing_token, refused, Page, fetched, not_modified, is_success, accept_json, bind,
  sent, get_json, get_json_with_etag,
}
use ghapp_demo.Github.Pages.{Run, Listing, listed, unmodified, list_pages}
use ghapp_demo.Text.{Text, codes, is_empty, trim_space, to_lower}
use ghapp_demo.Text.Number.{print_int}
use ghapp_demo.Text.Url.{path_escape}

pub record TokenPayload : Type 0 where
  pub token : Text
  pub expires_at : ℕ

-- `time.Minute`
abbrev pub minute : ℕ
minute = 60 * 10 ^ 9

-- `c.installationTokens[id]`
unfoldable pub cached : ℤ → List (ℤ × CachedInstallationToken) → Option CachedInstallationToken
cached id [] = none
cached id ((j, t) ∷ ts) = let rest = cached id ts in if eq_ℤ j id then some t else rest

-- `now.Before(tok.ExpiresAt.Add(-1*time.Minute))`
abbrev pub usable : ℕ → Option CachedInstallationToken → Option Text
usable now none = none
usable now (some t) = if ltb (now + minute) t.expires_at then some t.token else none

abbrev pub bearer : Text → Text
bearer token = codes "Bearer " ++ token

abbrev pub token_endpoint : ℤ → Text
token_endpoint id =
    codes "https://api.github.com/app/installations/" ++ print_int id ++ codes "/access_tokens"

abbrev pub payload_token : Option TokenPayload → Result ClientError TokenPayload
payload_token none = err undecodable
payload_token (some p) = if is_empty (trim_space p.token) then err missing_token else ok p

abbrev pub read_token :
    (Text → Option TokenPayload) → Option Response → Result ClientError TokenPayload
read_token decode none = err no_response
read_token decode (some res) =
    if is_success res.status
    then payload_token (decode res.body)
    else err (refused res.status (trim_space res.body))

abbrev pub store_token : {S : Type 0} → ℤ → TokenPayload → N S Text
store_token id p w = (
  ok p.token,
  record w {
    installation_tokens =
        (id, record { token = p.token; expires_at = p.expires_at }) ∷ w.installation_tokens;
  },
)

module _ {S : Type 0} (o : Outside S) where
  -- `now.Add(-30*time.Second)`, for a clock that is past the first half minute of 1970
  unfoldable pub app_bearer_token : Text → ℕ → Text
  app_bearer_token app_id now = bearer (
      o.sign
        (record { issuer = app_id; issued_at = now - 30 * 10 ^ 9; expires_at = now + 9 * minute }))

  abbrev pub token_post : Text → ℤ → ℕ → Request
  token_post app_id id now = record {
    verb = codes "POST";
    endpoint = token_endpoint id;
    authorization = some (app_bearer_token app_id now);
    accept = accept_json;
    content_type = some (codes "application/json");
    if_none_match = none;
    body = codes "{}";
  }

  abbrev pub token_or_new : (Text → Option TokenPayload) → Text → ℤ → Option Text → N S Text
  token_or_new decode app_id id (some token) w = (ok token, w)
  token_or_new decode app_id id none w =
      bind
        (sent w (read_token decode) (o.send (token_post app_id id (o.clock w.outside)) w.outside))
        (store_token id)

  -- A binding in front hides the older ones of its key, as assigning to the map does.
  unfoldable pub installation_token : (Text → Option TokenPayload) → Text → ℤ → N S Text
  installation_token decode app_id id w =
      token_or_new decode app_id id (usable (o.clock w.outside) (cached id w.installation_tokens)) w
