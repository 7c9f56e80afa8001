-- ===== src/Github/Listings.antt =====
-- server/internal/githubapp/client.go: the listings, and `GetRepository`. A decoder stands for
-- `json.Unmarshal` into the payload of a method.
pub mod Complete
mod Tests
use ghapp_demo.Base.{
  ℕ, zero, suc, ◌+◌, ◌-◌, ◌*◌, ◌^◌, Bool, true, false, List, [], ◌∷◌, ◌++◌, Option, none, some,
  ◌==◌, ltb, if◌then◌else◌,
}
use ghapp_demo.Base.Int.{ℤ, pos, eq_ℤ}
use ghapp_demo.Base.Result.{Result, ok, err}
use ghapp_demo.Github.Http.{
  Request, Response, Outside, Net, N, AppClaims, CachedInstallationToken, ClientError, no_response,
  undecodable, missing_token, refused, Page, fetched, not_modified, is_success, accept_json, bind,
  sent, get_json, get_json_with_etag,
}
use ghapp_demo.Github.Pages.{Run, Listing, listed, unmodified, list_pages}
use ghapp_demo.Text.{Text, codes, is_empty, trim_space, to_lower}
use ghapp_demo.Text.Number.{print_int}
use ghapp_demo.Text.Url.{path_escape}
use ghapp_demo.Github.Payloads.{
  InstallationPayload, InstallationLite, RepoPayload, RepoLite, RunJob, installation_of, repo_of,
  zero_repo, same_job,
}
use ghapp_demo.Github.Tokens.{TokenPayload, bearer, app_bearer_token, installation_token}

abbrev pub page_endpoint : Text → ℕ → Text
page_endpoint path page =
    codes "https://api.github.com/" ++ path ++ codes "?per_page=100&page=" ++ print_int (pos page)

abbrev pub with_token :
    {S B : Type 0} → (Text → Net S → Run S B) → Result ClientError Text × Net S → Run S B
with_token f (err e, w) = (some (err e), w)
with_token f (ok token, w) = f token w

abbrev pub jobs_path : Text → Text → ℤ → ℤ → Text
jobs_path owner repo run attempt =
    codes "repos/"
    ++ path_escape owner
    ++ codes "/"
    ++ path_escape repo
    ++ codes "/actions/runs/"
    ++ print_int run
    ++ codes "/attempts/"
    ++ print_int attempt
    ++ codes "/jobs"

abbrev pub repository_of : {S : Type 0} → Page RepoPayload → N S RepoLite
repository_of (fetched res p) w = (ok (repo_of p), w)
repository_of (not_modified res) w = (ok (repo_of zero_repo), w)

abbrev pub repository_auth : Result ClientError Text → Text
repository_auth (ok token) = bearer token
repository_auth (err e) = []

module _ {S : Type 0} (o : Outside S) where
  unfoldable pub list_user_installations :
      (Text → Option (List InstallationPayload))
      → (Text → Text)
      → ℕ
      → Text
      → Net S
      → Run S InstallationLite
  list_user_installations decode lower fuel access_token w =
      list_pages fuel
        (λ page.
          get_json o decode [] (page_endpoint (codes "user/installations") page)
            (bearer access_token))
        (installation_of lower) 1 [] [] w

  unfoldable pub list_user_installation_repositories :
      (Text → Option (List RepoPayload)) → ℕ → Text → ℤ → Net S → Run S RepoLite
  list_user_installation_repositories decode fuel access_token id w =
      list_pages fuel
        (λ page.
          get_json o decode []
            (page_endpoint (codes "user/installations/" ++ print_int id ++ codes "/repositories")
              page)
            (bearer access_token))
        repo_of 1 [] [] w

  unfoldable pub list_app_installations :
      (Text → Option (List InstallationPayload))
      → (Text → Text)
      → ℕ
      → Text
      → Text
      → Net S
      → Run S InstallationLite
  list_app_installations decode lower fuel app_id etag w =
      list_pages fuel
        (λ page w.
          get_json_with_etag o decode (page_endpoint (codes "app/installations") page)
            (app_bearer_token o app_id (o.clock w.outside)) etag w)
        (installation_of lower) 1 [] etag w

  unfoldable pub list_installation_repositories :
      (Text → Option TokenPayload)
      → (Text → Option (List RepoPayload))
      → ℕ
      → Text
      → ℤ
      → Text
      → Net S
      → Run S RepoLite
  list_installation_repositories decode_token decode fuel app_id id etag w =
      with_token
        (λ token w.
          list_pages fuel
            (λ page.
              get_json_with_etag o decode (page_endpoint (codes "installation/repositories") page)
                (bearer token) etag)
            repo_of 1 [] etag w)
        (installation_token o decode_token app_id id w)

  unfoldable pub list_run_attempt_jobs :
      (Text → Option TokenPayload)
      → (Text → Option (List RunJob))
      → ℕ
      → Text
      → Text
      → Text
      → ℤ
      → ℤ
      → ℤ
      → Net S
      → Run S RunJob
  list_run_attempt_jobs decode_token decode fuel app_id owner repo run attempt id w =
      with_token
        (λ token w.
          list_pages fuel
            (λ page.
              get_json o decode [] (page_endpoint (jobs_path owner repo run attempt) page)
                (bearer token))
            same_job 1 [] [] w)
        (installation_token o decode_token app_id id w)

  abbrev pub fetch_repository : (Text → Option RepoPayload) → Text → Text → Text → N S RepoLite
  fetch_repository decode owner repo auth w =
      bind
        (get_json o decode zero_repo
          (codes "https://api.github.com/repos/"
            ++ path_escape owner
            ++ codes "/"
            ++ path_escape repo)
          auth w)
        repository_of

  abbrev pub after_token :
      (Text → Option RepoPayload)
      → Text
      → Text
      → Result ClientError Text × Net S
      → Result ClientError RepoLite × Net S
  after_token decode owner repo (token, w) =
      fetch_repository decode owner repo (repository_auth token) w

  -- A token that is not given leaves the request without authorization.
  unfoldable pub get_repository :
      (Text → Option TokenPayload)
      → (Text → Option RepoPayload)
      → Text
      → Text
      → Text
      → Option ℤ
      → N S RepoLite
  get_repository decode_token decode app_id owner repo none w =
      fetch_repository decode owner repo [] w
  get_repository decode_token decode app_id owner repo (some id) w =
      after_token decode owner repo (installation_token o decode_token app_id id w)
