-- ===== src/Github/Listings/Complete.antt =====
-- server/internal/githubapp/client.go: a listing against a server that has a list of items.
use ghapp_demo.Base.{
  ℕ, suc, ◌*◌, ◌<◌, ◌≡◌, refl, ap, ◌∙◌, List, [], ◌++◌, Option, some, length, map,
}
use ghapp_demo.Base.Int.{ℤ}
use ghapp_demo.Base.Result.{ok}
use ghapp_demo.Github.Http.{
  Outside, Net, Response, fetched, get_request, get_json, get_json_with_etag, bind, sent, read_page,
  or_zero,
}
use ghapp_demo.Github.Payloads.{RepoPayload, repo_of}
use ghapp_demo.Github.Tokens.{bearer}
use ghapp_demo.Github.Listings.{page_endpoint, list_user_installation_repositories}
use ghapp_demo.Github.Pages.Complete.{slice, Serves, Lists, list_pages-Lists}
use ghapp_demo.Text.{Text, codes}
use ghapp_demo.Text.Number.{print_int}

module _ {S A : Type 0} (o : Outside S) (decode : Text → Option A) where
  read_page-ok :
      (res : Response) (a : A)
      → res.status ≡ 200
      → decode res.body ≡ some a
      → read_page decode (some res) ≡ ok (fetched res a)
  read_page-ok res a h d = rw (h, d, read_page) refl

  get_json-ok :
      (zero_value : A) (endpoint auth : Text) (w : Net S) (res : Response) (s : S) (a : A)
      → o.send (get_request endpoint auth []) w.outside ≡ (some res, s)
      → res.status ≡ 200
      → decode res.body ≡ some a
      → get_json o decode zero_value endpoint auth w
        ≡ (ok (fetched res a), record w { outside = s })
  unfolding get_json get_json_with_etag
  get_json-ok z endpoint auth w res s a e h d =
      ap (λ r. bind (sent w (read_page decode) r) (or_zero z)) e
      ∙ ap (λ r. bind (r, record w { outside = s }) (or_zero z)) (read_page-ok res a h d)

-- In every state of the invariant, each page of a listing without an ETag is answered by 200 and
-- its items, and the invariant stays.
abbrev pub Answers :
    {S A : Type 0}
    → Outside S
    → (Text → Option (List A))
    → Text
    → Text
    → (S → Type 0)
    → List A
    → Type 0
Answers {S} o decode path auth J all =
    (p : ℕ) (s : S)
    → J s
    → (res : Response) × (s' : S) × (o.send (get_request (page_endpoint path (suc p)) auth []) s
        ≡ (some res, s'))
      × (res.status ≡ 200)
      × (decode res.body ≡ some (slice p all))
      × J s'

Answers-Serves :
    {S A : Type 0} (o : Outside S) (decode : Text → Option (List A)) (path auth : Text)
    (J : S → Type 0) (all : List A)
    → Answers o decode path auth J all
    → Serves
        (λ (w : Net S). J w.outside)
        (λ page. get_json o decode [] (page_endpoint path page) auth)
        all
Answers-Serves o decode path auth J all answers p w j =
    let (res, s, e, h, d, j') = answers p w.outside j in
    (
      res,
      record w { outside = s },
      get_json-ok o decode [] (page_endpoint path (suc p)) auth w res s (slice p all) e h d,
      j',
    )

-- If GitHub answers each page of the repositories of an installation with its hundred items, then
-- the listing returns all repositories, once and in order, within as many requests as there are
-- full pages and one more.
pub list_user_installation_repositories-Lists :
    {S : Type 0} (o : Outside S) (decode : Text → Option (List RepoPayload)) (J : S → Type 0)
    (all : List RepoPayload) (fuel : ℕ) (token : Text) (id : ℤ) (w : Net S)
    → Answers o decode
        (codes "user/installations/" ++ print_int id ++ codes "/repositories")
        (bearer token)
        J
        all
    → J w.outside
    → length all < fuel * 100
    → Lists
        (λ w. J w.outside)
        (list_user_installation_repositories o decode fuel token id w)
        (map repo_of all)
unfolding list_user_installation_repositories
list_user_installation_repositories-Lists o decode J all fuel token id w answers j h =
    list_pages-Lists (λ w. J w.outside) _ repo_of all
      (Answers-Serves o decode
        (codes "user/installations/" ++ print_int id ++ codes "/repositories") (bearer token) J all
        answers)
      fuel [] w j h
