-- ===== src/Handlers/Public.antt =====
-- server/web/handler/server.go: the pages that need no session, `handleRunDetail` and
-- `handleRepoRuns`, with the limiter and the cache headers. Rendering has no error here.
pub mod Shown
pub mod Hidden
mod Tests
use ghapp_demo.Base.{
  ℕ, Bool, true, false, ◌||◌, List, [], ◌∷◌, ◌++◌, Option, none, some, if◌then◌else◌, ◌⊎◌,
}
use ghapp_demo.Base.Int.{ℤ, pos}
use ghapp_demo.Base.Result.{Result, ok, err}
use ghapp_demo.Handlers.Ingest.{ServerState}
use ghapp_demo.Handlers.Lineage.{RunSummaryPayload, RunSummaryView, build_run_summary_view}
use ghapp_demo.Limiter.{Counter, allow, minute}
use ghapp_demo.Store.Monad.{World, StoreError, not_found, failed}
use ghapp_demo.Store.Runs.{Run, get_run_by_public_id, list_runs_for_repo}
use ghapp_demo.Text.{Text, codes, is_empty, trim_space, split, cut}
use ghapp_demo.Text.Dict.{Dict}

-- The headers and the address that `requestIP` reads.
pub record Peer : Type 0 where
  pub forwarded_for : Text
  pub remote_addr : Text

-- `Cache-Control`; both answers carry `Vary: Cookie`.
pub data Caching : Type 0 where
  -- "public, max-age=30" and "private, no-store"
  public_30 private_no_store : Caching

pub data PublicPage : Type 0 where
  run_page : Run → RunSummaryView → Text → Text → Bool → PublicPage
  runs_page : Text → Text → List Run → PublicPage
  error_page : ℕ → Text → PublicPage

-- The caching is none where the handler returned before it set the header.
pub record PublicAnswer : Type 0 where
  pub caching : Option Caching
  pub page : PublicPage

abbrev pub cache_headers : Option ℕ → Caching
cache_headers none = public_30
cache_headers (some user) = private_no_store

abbrev host_or : Text → Option Text → Text
host_or host_port none = host_port
host_or host_port (some host) = if is_empty (trim_space host) then host_port else host

abbrev peer_host : (Text → Option Text) → Text → Text
peer_host split_host host_port =
    if is_empty host_port then codes "unknown" else host_or host_port (split_host host_port)

abbrev first_part : List Text → Text
first_part [] = []
first_part (p ∷ ps) = trim_space p

abbrev or_peer : Text → Text → Text
or_peer forwarded peer = if is_empty forwarded then peer else forwarded

-- `split_host` is the host that `net.SplitHostPort` gives, or none for its error.
unfoldable pub request_ip : (Text → Option Text) → Peer → Text
request_ip split_host p =
    let xff = trim_space p.forwarded_for in
    let peer = peer_host split_host (trim_space p.remote_addr) in
    if is_empty xff then peer else or_peer (first_part (split b',' xff)) peer

abbrev pub public_rate : ℤ
public_rate = pos 240

abbrev parts_of : Text → Text × Option Text → Text × Text
parts_of name (owner, none) = (name, [])
parts_of name (owner, some repo) = (owner, repo)

unfoldable pub split_repo_full_name : Text → Text × Text
split_repo_full_name name = parts_of name (cut b'/' (trim_space name))

abbrev pub limited_to :
    (ServerState → PublicAnswer × ServerState)
    → ServerState
    → Bool × Option (Dict Counter)
    → PublicAnswer × ServerState
limited_to serve st (true, hits) = serve (record st { limiter = hits })
limited_to serve st (false, hits) = (
  record { caching = none; page = error_page 429 (codes "rate limit exceeded") },
  record st { limiter = hits },
)

-- `allowPublicRouteRequest`, and the rest of the handler where it lets the request pass.
unfoldable pub allow_public_route :
    (Text → Option Text)
    → Peer
    → ℕ
    → (ServerState → PublicAnswer × ServerState)
    → ServerState
    → PublicAnswer × ServerState
allow_public_route split_host peer now serve st =
    limited_to serve st (allow st.limiter (request_ip split_host peer) public_rate (pos minute) now)

abbrev pub run_error : StoreError → PublicPage
run_error not_found = error_page 404 (codes "run not found")
run_error (failed label cause) = error_page 500 (codes "failed to load run")

abbrev pub answer : Option ℕ → PublicPage → PublicAnswer
answer user page = record { caching = some (cache_headers user); page = page }

abbrev pub page_answer : Option ℕ → ServerState → PublicPage × World → PublicAnswer × ServerState
page_answer user st (page, w) = (answer user page, record st { world = w })

module _ (uuid : Text → Option Text) (generate : ℕ → Text) (lower : Text → Text)
    (decode : Text → RunSummaryPayload ⊎ Text) where
  abbrev pub show_run : Run → PublicPage
  show_run run =
      let (owner, repo) = split_repo_full_name run.repo.full_name in
      run_page run (build_run_summary_view lower decode run run.viewer_is_member) owner repo
        run.viewer_is_member

  abbrev pub with_run : Result StoreError Run × World → PublicPage × World
  with_run (err e, w) = (run_error e, w)
  with_run (ok run, w) = (show_run run, w)

  abbrev pub load_run : Text → Option ℕ → World → PublicPage × World
  load_run public_id user w =
      if is_empty public_id
      then (error_page 400 (codes "invalid run id"), w)
      else with_run (get_run_by_public_id uuid generate public_id user w)

  -- `user` is the user that the session gave.
  unfoldable pub handle_run_detail :
      (Text → Option Text) → Peer → ℕ → Option ℕ → Text → ServerState → PublicAnswer × ServerState
  unfolding allow_public_route
  handle_run_detail split_host peer now user path_id =
      allow_public_route split_host peer now
        (λ st. page_answer user st (load_run (trim_space path_id) user st.world))

abbrev pub with_runs : Text → Text → Result StoreError (List Run) × World → PublicPage × World
with_runs owner repo (err e, w) = (error_page 500 (codes "failed to list runs"), w)
with_runs owner repo (ok [], w) = (error_page 404 (codes "repository not found"), w)
with_runs owner repo (ok (r ∷ rs), w) = (runs_page owner repo (r ∷ rs), w)

abbrev pub load_runs : Text → Text → Option ℕ → ServerState → PublicAnswer × ServerState
load_runs owner repo user st =
    if is_empty owner || is_empty repo
    then (record { caching = none; page = error_page 404 (codes "repository not found") }, st)
    else page_answer user st
        (with_runs owner repo (list_runs_for_repo owner repo user (pos 100) st.world))

unfoldable pub handle_repo_runs :
    (Text → Option Text)
    → Peer
    → ℕ
    → Option ℕ
    → Text
    → Text
    → ServerState
    → PublicAnswer × ServerState
unfolding allow_public_route
handle_repo_runs split_host peer now user owner repo =
    allow_public_route split_host peer now (load_runs (trim_space owner) (trim_space repo) user)
