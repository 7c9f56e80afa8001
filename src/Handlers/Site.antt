-- ===== src/Handlers/Site.antt =====
-- server/web/handler/server.go: what the handlers share that call both the store and GitHub. The
-- client of GitHub is a record of operations over a state of its own; an error is its words.
use ghapp_demo.Base.{ℕ, List}
use ghapp_demo.Base.Int.{ℤ}
use ghapp_demo.Base.Result.{Result, ok, err}
use ghapp_demo.Github.Client.{UserToken}
use ghapp_demo.Github.Payloads.{InstallationLite, RepoLite}
use ghapp_demo.Store.Columns.{Columns}
use ghapp_demo.Store.Monad.{World, StoreError}
use ghapp_demo.Text.{Text}

pub record Site (S : Type 0) : Type 0 where
  pub world : World
  pub github : S

-- What the callback reads of `github.User`.
pub record GithubProfile : Type 0 where
  pub id : ℤ
  pub login : Text
  pub avatar_url : Text

-- The methods of `githubapp.Client` that the handlers call (Github.Client, Github.Tokens and
-- Github.Listings have them), `time.Now`, the words of an error of the store, and what the columns
-- of its tables take.
pub record GithubApi (S : Type 0) : Type 0 where
  pub clock : Site S → ℕ
  pub words : StoreError → Text
  pub columns : Columns
  pub decrypt_token : List ℕ → Result Text Text
  pub encrypt_token : Text → S → Result Text (List ℕ) × S
  pub exchange_user_code : Text → S → Result Text UserToken × S
  pub refresh_user_token : Text → S → Result Text UserToken × S
  pub github_user : Text → S → Result Text GithubProfile × S
  pub list_user_installations : Text → S → Result Text (List InstallationLite) × S
  pub list_user_installation_repositories : Text → ℤ → S → Result Text (List RepoLite) × S

-- A call that may end in an error, and one whose error is its words.
abbrev pub Call : Type 0 → Type 0 → Type 0 → Type 0
Call E S A = Site S → Result E A × Site S

abbrev pub H : Type 0 → Type 0 → Type 0
H S A = Call Text S A

abbrev pub sequel :
    {E S A B : Type 0} → Result E A × Site S → (A → Call E S B) → Result E B × Site S
sequel (ok a, s) f = f a s
sequel (err e, s) f = (err e, s)

infixl 5 ◌>>=◌ ◌>>◌
abbrev pub ◌>>=◌ : {E S A B : Type 0} → Call E S A → (A → Call E S B) → Call E S B
◌>>=◌ m f s = sequel (m s) f

abbrev pub ◌>>◌ : {E S B : Type 0} → Call E S (Unit {0}) → Call E S B → Call E S B
m >> k = m >>= λ _. k

abbrev pub return : {E S A : Type 0} → A → Call E S A
return a s = (ok a, s)

abbrev pub lift : {E S A : Type 0} → Result E A → Call E S A
lift r s = (r, s)

abbrev pub reworded : {A : Type 0} → (StoreError → Text) → Result StoreError A → Result Text A
reworded words (ok a) = ok a
reworded words (err e) = err (words e)

abbrev pub stored :
    {S A : Type 0} → (StoreError → Text) → S → Result StoreError A × World → Result Text A × Site S
stored words s (r, w) = (reworded words r, record { world = w; github = s })

-- A method of the store.
abbrev pub store : {S A : Type 0} → GithubApi S → (World → Result StoreError A × World) → H S A
store api m s = stored api.words s.github (m s.world)

abbrev pub answered : {S A : Type 0} → World → Result Text A × S → Result Text A × Site S
answered w (r, s) = (r, record { world = w; github = s })

-- A method of the client.
abbrev pub github : {S A : Type 0} → (S → Result Text A × S) → H S A
github call s = answered s.world (call s.github)

abbrev pub time_now : {E S : Type 0} → GithubApi S → Call E S ℕ
time_now api s = (ok (api.clock s), s)
