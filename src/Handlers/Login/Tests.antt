-- ===== src/Handlers/Login/Tests.antt =====
-- A login with a toy GitHub, and one whose state is not the cookie's.
use ghapp_demo.Base.{ℕ, ◌≡◌, refl, false, List, [], ◌∷◌, none, some}
use ghapp_demo.Base.Int.{pos}
use ghapp_demo.Base.Result.{ok}
use ghapp_demo.Handlers.Login.{handle_github_callback, error_answer, log_in}
use ghapp_demo.Handlers.Login.Matched.{IsLoggedIn, handle_github_callback-IsLoggedIn}
use ghapp_demo.Handlers.Session.{
  read_oauth_state_cookie, cleared_oauth_state_cookie, oauth_state_cookie_name, new_token,
}
use ghapp_demo.Handlers.Site.{Site, GithubApi}
use ghapp_demo.Store.Monad.{statement, transaction}
use ghapp_demo.Store.Sample.{columns, world}
use ghapp_demo.Store.Users.{
  upsert_user_from_github, upsert_user_body, identify, get_user_by_id_tx, upsert_user_github_tokens,
  create_session,
}
use ghapp_demo.Text.{Text, codes, equal, trim_space}
use ghapp_demo.Text.Dict.{Dict, lookup}
use ghapp_demo.Text.Number.{print_int}

abbrev friendly : GithubApi ℕ
friendly = record {
  clock = λ site. site.world.now;
  words = λ e. codes "store";
  columns = columns;
  decrypt_token = λ bytes. ok bytes;
  encrypt_token = λ token s. (ok token, s);
  exchange_user_code = λ code s. (
    ok (record {
      access_token = codes "a";
      access_token_expires_at = none;
      refresh_token = [];
      refresh_token_expires_at = none;
    }),
    s,
  );
  refresh_user_token = λ token s. (
    ok (record {
      access_token = codes "a";
      access_token_expires_at = none;
      refresh_token = [];
      refresh_token_expires_at = none;
    }),
    s,
  );
  github_user = λ token s. (ok (record { id = pos 9; login = codes "u"; avatar_url = [] }), s);
  list_user_installations = λ token s. (ok [], s);
  list_user_installation_repositories = λ token id s. (ok [], s);
}

abbrev start : Site ℕ
start = record { world = world; github = 0 }

abbrev cookies : Dict Text
cookies = (oauth_state_cookie_name, codes "s1") ∷ []

abbrev encode : List ℕ → Text
encode bytes = bytes

lands :
    (handle_github_callback
      (some friendly)
      encode
      (some (codes "tok"))
      false
      cookies
      (codes "s1")
      (codes "c")
      start).0.location
    ≡ some (codes "/dashboard")
unfolding handle_github_callback read_oauth_state_cookie lookup equal log_in upsert_user_from_github
    upsert_user_body identify get_user_by_id_tx transaction statement print_int trim_space
    upsert_user_github_tokens create_session new_token
lands = refl

other_state :
    (handle_github_callback
      (some friendly)
      encode
      (some (codes "tok"))
      false
      cookies
      (codes "s2")
      (codes "c")
      start).0
    ≡ error_answer 401 (cleared_oauth_state_cookie false ∷ [])
unfolding handle_github_callback read_oauth_state_cookie lookup equal
other_state = refl

handle_github_callback-IsLoggedIn_example : IsLoggedIn false cookies (codes "s1") (codes "c") (
    handle_github_callback
      (some friendly)
      encode
      (some (codes "tok"))
      false
      cookies
      (codes "s1")
      (codes "c")
      start)
handle_github_callback-IsLoggedIn_example =
    handle_github_callback-IsLoggedIn (some friendly) encode (some (codes "tok")) false cookies
      (codes "s1") (codes "c") start lands
