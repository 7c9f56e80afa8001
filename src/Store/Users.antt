-- ===== src/Store/Users.antt =====
-- server/internal/postgres/store.go: users, their GitHub identities, sessions and GitHub tokens.
pub mod Sessions
use ghapp_demo.Base.{
  ℕ, ◌+◌, Bool, true, false, not, ◌&&◌, List, [], ◌∷◌, ◌++◌, Option, none, some, ◌==◌, ltb,
  if◌then◌else◌, any, first,
}
use ghapp_demo.Base.Int.{ℤ}
use ghapp_demo.Base.Result.{ok, err}
use ghapp_demo.Store.Monad.{
  M, ◌>>=◌, ◌>>◌, return, throw, StoreError, failed, not_found, rejected, violated, unique,
  foreign_key, statement, query, exec, transaction,
}
use ghapp_demo.Store.Query.{update, delete, upsert}
use ghapp_demo.Store.Tables.{Db, UserRow, IdentityRow, SessionRow, TokensRow}
use ghapp_demo.Text.{Text, codes, equal}
use ghapp_demo.Text.Number.{print_int}

-- `types.User`
pub record User : Type 0 where
  pub id : ℕ
  pub display_name : Text
  pub login : Text
  pub email : Option Text
  pub avatar_url : Text
  pub created_at : ℕ

abbrev login_of : Option IdentityRow → Text
login_of none = []
login_of (some i) = i.provider_login

abbrev pub view_user : Db → UserRow → User
view_user db u = record {
  id = u.id;
  display_name = u.display_name;
  login = login_of (first (λ i. i.user_id == u.id) db.identities);
  email = u.email;
  avatar_url = u.avatar_url;
  created_at = u.created_at;
}

abbrev pub find_user : ℕ → Db → Option UserRow
find_user id db = first (λ u. u.id == id) db.users

abbrev pub has_user : ℕ → Db → Bool
has_user id db = any (λ u. u.id == id) db.users

abbrev pub found_user : Db → Option UserRow → Option User
found_user db none = none
found_user db (some u) = some (view_user db u)

-- No row is an error here: `pgx.ErrNoRows` has no case of its own.
abbrev require_row {ℓ} : {A : Type ℓ} → StoreError → Option A → M A
require_row e none = throw e
require_row e (some a) = return a

unfoldable pub get_user_by_id_tx : ℕ → M User
get_user_by_id_tx id = do
  found ← query (codes "get user by id") (λ db now. found_user db (find_user id db))
  require_row (failed (codes "get user by id") rejected) found

-- INSERT INTO users … RETURNING id
abbrev insert_user : Text → Text → M ℕ
insert_user login avatar = statement (codes "insert user") (λ db now. ok (
  db.next_user,
  record db {
    users =
        db.users
        ++ record {
          id = db.next_user;
          display_name = login;
          email = none;
          avatar_url = avatar;
          created_at = now;
        }
          ∷ [];
    next_user = db.next_user + 1;
  },
))

abbrev insert_identity : Text → Text → ℕ → M (Unit {0})
insert_identity key login id = statement (codes "insert github identity") (λ db now.
    if any (λ i. equal i.provider_user_id key) db.identities
    then err unique
    else ok (
      tt,
      record db {
        identities =
            db.identities
            ++ record { provider_user_id = key; provider_login = login; user_id = id } ∷ [];
      },
    ))

unfoldable pub identify : Text → Text → Text → Option IdentityRow → M ℕ
identify key login avatar none = do
  id ← insert_user login avatar
  insert_identity key login id
  return id
identify key login avatar (some i) = do
  exec (codes "update github identity login") (λ db now. record db {
    identities =
        update (λ j. equal j.provider_user_id key) (λ j. record j { provider_login = login })
          db.identities;
  })
  return i.user_id

abbrev set_profile : ℕ → Text → Text → Db → Db
set_profile id login avatar db = record db {
  users =
      update (λ u. u.id == id) (λ u. record u { display_name = login; avatar_url = avatar })
        db.users;
}

-- The statements of `UpsertUserFromGitHub` between Begin and Commit.
unfoldable pub upsert_user_body : ℤ → Text → Text → M User
unfolding identify get_user_by_id_tx
upsert_user_body github_id login avatar = do
  let key = print_int github_id
  known ←
      query (codes "lookup github identity")
        (λ db now. first (λ i. equal i.provider_user_id key) db.identities)
  id ← identify key login avatar known
  exec (codes "update user profile") (λ db now. set_profile id login avatar db)
  get_user_by_id_tx id

unfoldable pub upsert_user_from_github : ℤ → Text → Text → M User
unfolding upsert_user_body
upsert_user_from_github github_id login avatar =
    transaction (codes "begin user upsert") (codes "commit user upsert")
      (upsert_user_body github_id login avatar)

unfoldable pub create_session : ℕ → Text → ℕ → M (Unit {0})
create_session user token expires = statement (codes "create session") (λ db now.
    if any (λ s. equal s.token token) db.sessions
    then err unique
    else if not (has_user user db)
    then err foreign_key
    else ok (
      tt,
      record db {
        sessions =
            db.sessions ++ record { token = token; user_id = user; expires_at = expires } ∷ [];
      },
    ))

unfoldable pub delete_session : Text → M (Unit {0})
delete_session token =
    exec (codes "delete session")
      (λ db now. record db { sessions = delete (λ s. equal s.token token) db.sessions })

abbrev session_user : Db → Option SessionRow → Option User
session_user db none = none
session_user db (some s) = found_user db (find_user s.user_id db)

-- `none` is the nil user of an unknown or expired session.
unfoldable pub get_user_by_session_token : Text → M (Option User)
get_user_by_session_token token = query (codes "get user by session token") (λ db now.
    session_user db (first (λ s. equal s.token token && ltb now s.expires_at) db.sessions))

unfoldable pub upsert_user_github_tokens : ℕ → List ℕ → Option ℕ → List ℕ → Option ℕ → M (Unit {0})
upsert_user_github_tokens user access access_exp refresh refresh_exp =
    statement (codes "upsert user github tokens") (λ db now.
      let row : TokensRow = record {
        user_id = user;
        access_enc = access;
        access_expires_at = access_exp;
        refresh_enc = refresh;
        refresh_expires_at = refresh_exp;
        updated_at = now;
      } in
      if not (has_user user db)
      then err foreign_key
      else ok (tt, record db { tokens = upsert (λ t. t.user_id == user) (λ _. row) row db.tokens }))

unfoldable pub get_user_github_tokens : ℕ → M TokensRow
get_user_github_tokens user = do
  found ←
      query (codes "get user github tokens") (λ db now. first (λ t. t.user_id == user) db.tokens)
  require_row not_found found
