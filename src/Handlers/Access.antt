-- ===== src/Handlers/Access.antt =====
-- server/web/handler/server.go: `ensureUserRepoAccess` and `syncUserRepoAccess`, under the lock of
-- the user.
pub mod Recorded
pub mod Vouched
use ghapp_demo.Base.{
  ℕ, ◌+◌, ◌*◌, ◌^◌, Bool, true, false, List, [], ◌∷◌, ◌++◌, Option, none, some, ltb, leb,
  if◌then◌else◌,
}
use ghapp_demo.Base.Int.{ℤ}
use ghapp_demo.Base.Result.{Result, ok, err}
use ghapp_demo.Github.Client.{UserToken}
use ghapp_demo.Github.Payloads.{InstallationLite, RepoLite}
use ghapp_demo.Handlers.Ingest.{day}
use ghapp_demo.Handlers.Site.{
  Site, GithubApi, H, ◌>>=◌, ◌>>◌, return, lift, store, stored, github, time_now,
}
use ghapp_demo.Limiter.{minute}
use ghapp_demo.Store.Bindings.{
  Grant, get_user_access_sync, upsert_user_access_sync, replace_user_repo_access,
}
use ghapp_demo.Store.Monad.{World, StoreError, not_found, failed}
use ghapp_demo.Store.Runs.{RepoInput, upsert_repo}
use ghapp_demo.Store.Tables.{SyncRow, TokensRow}
use ghapp_demo.Store.Users.{get_user_github_tokens, upsert_user_github_tokens}
use ghapp_demo.Text.{Text, codes, is_empty, trim_space}

-- `accessCacheTTL` and `accessMaxStaleness`
abbrev pub access_cache_ttl : ℕ
access_cache_ttl = 5 * minute

abbrev pub access_max_staleness : ℕ
access_max_staleness = day

-- `ErrNotFound` leaves the zero `UserAccessSync`.
abbrev pub found_or_zero :
    Result StoreError SyncRow × World → Result StoreError (Option SyncRow) × World
found_or_zero (ok s, w) = (ok (some s), w)
found_or_zero (err not_found, w) = (ok none, w)
found_or_zero (err (failed label cause), w) = (err (failed label cause), w)

abbrev pub synced_of : Option SyncRow → Option ℕ
synced_of none = none
synced_of (some s) = s.synced_at

abbrev pub etag_of : Option SyncRow → Option Text
etag_of none = none
etag_of (some s) = s.etag

-- `t != nil && now.Sub(*t) <= age`
abbrev pub is_within : Option ℕ → ℕ → ℕ → Bool
is_within none age now = false
is_within (some t) age now = leb now (t + age)

-- `t != nil && now.After(t.Add(-1*time.Minute))`
abbrev pub has_expired : Option ℕ → ℕ → Bool
has_expired none now = false
has_expired (some t) now = ltb t (now + minute)

abbrev pub repo_input : RepoLite → RepoInput
repo_input r = record {
  repo_id = r.repo_id;
  full_name = r.full_name;
  owner = r.owner;
  owner_id = r.owner_id;
  visibility = r.visibility;
  updated_from = codes "api";
}

module _ {S : Type 0} (api : GithubApi S) where
  unfoldable pub read_sync : ℕ → H S (Option SyncRow)
  read_sync user = store api (λ w. found_or_zero (get_user_access_sync user w))

  abbrev pub new_refresh : TokensRow → UserToken → H S (List ℕ)
  new_refresh row tokens =
      if is_empty (trim_space tokens.refresh_token)
      then return row.refresh_enc
      else github (api.encrypt_token tokens.refresh_token)

  abbrev pub refreshed : ℕ → TokensRow → List ℕ → H S Text
  refreshed user row [] =
      lift (err (codes "github user token expired and no refresh token is available"))
  refreshed user row (b ∷ bs) = do
    refresh_token ← lift (api.decrypt_token (b ∷ bs))
    tokens ← github (api.refresh_user_token refresh_token)
    access_enc ← github (api.encrypt_token tokens.access_token)
    refresh_enc ← new_refresh row tokens
    store api (
        upsert_user_github_tokens user access_enc tokens.access_token_expires_at refresh_enc
          tokens.refresh_token_expires_at)
    return tokens.access_token

  abbrev pub fresh_token : ℕ → TokensRow → Text → ℕ → H S Text
  fresh_token user row token now =
      if has_expired row.access_expires_at now
      then refreshed user row row.refresh_enc
      else return token

  unfoldable pub put_repos : ℤ → List RepoLite → H S (List Grant)
  put_repos id [] s = (ok [], s)
  put_repos id (r ∷ rs) s =
      (do
        store api (upsert_repo api.columns (repo_input r))
        grants ← put_repos id rs
        return ((r.repo_id, id) ∷ grants))
        s

  unfoldable pub gather : Text → List InstallationLite → H S (List Grant)
  unfolding put_repos
  gather token [] s = (ok [], s)
  gather token (i ∷ is) s =
      (do
        repos ← github (api.list_user_installation_repositories token i.id)
        grants ← put_repos i.id repos
        rest ← gather token is
        return (grants ++ rest))
        s

  unfoldable pub sync_user_repo_access : ℕ → H S (Unit {0})
  unfolding gather
  sync_user_repo_access user = do
    row ← store api (get_user_github_tokens user)
    stored_token ← lift (api.decrypt_token row.access_enc)
    now ← time_now api
    token ← fresh_token user row stored_token now
    installations ← github (api.list_user_installations token)
    grants ← gather token installations
    store api (replace_user_repo_access user grants)

  -- The error of the statement is ignored.
  abbrev pub noting : ℕ → Option SyncRow → ℕ → Text → Site S → Site S
  noting user s now words site =
      (store api (upsert_user_access_sync user (synced_of s) now (some words) (etag_of s)) site).1

  abbrev pub after_sync :
      ℕ → Option SyncRow → ℕ → Result Text (Unit {0}) × Site S → Result Text Bool × Site S
  after_sync user s now (ok u, site) =
      (do
        later ← time_now api
        store api (upsert_user_access_sync user (some later) later none none)
        return false)
        site
  after_sync user s now (err words, site) =
      if is_within (synced_of s) access_max_staleness now
      then (ok true, noting user s now words site)
      else (err words, noting user s now words site)

  abbrev pub resync : ℕ → ℕ → Option SyncRow → H S Bool
  resync user now s site = after_sync user s now (sync_user_repo_access user site)

  abbrev pub within_ttl_or : (ℕ → Option SyncRow → H S Bool) → ℕ → Option SyncRow → H S Bool
  within_ttl_or otherwise now s =
      if is_within (synced_of s) access_cache_ttl now then return false else otherwise now s

  -- The read under the lock.
  abbrev pub locked : ℕ → H S Bool
  locked user = do now ← time_now api; s ← read_sync user; within_ttl_or (resync user) now s

  unfoldable pub ensure_user_repo_access : ℕ → H S Bool
  unfolding read_sync sync_user_repo_access
  ensure_user_repo_access user = do
    now ← time_now api
    s ← read_sync user
    within_ttl_or (λ now s. locked user) now s
