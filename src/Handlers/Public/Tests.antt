-- ===== src/Handlers/Public/Tests.antt =====
-- The page of a run at concrete requests.
use ghapp_demo.Base.{◌∷◌, ◌≡◌, refl, [], Option, none, some, ◌⊎◌, inl}
use ghapp_demo.Handlers.Ingest.{ServerState}
use ghapp_demo.Handlers.Lineage.{
  RunSummaryPayload, ProcessPayload, no_trees, trees, tree, no_views, views, node_view,
  build_run_summary_view, convert_lineage_tree_to_view, process_node_display_label, command_label,
}
use ghapp_demo.Handlers.Lineage.Redacted.{redact}
use ghapp_demo.Handlers.Public.{
  Peer, PublicAnswer, handle_run_detail, request_ip, public_30, error_page, allow_public_route,
}
use ghapp_demo.Handlers.Public.Hidden.{handle_run_detail-redact, reporting}
use ghapp_demo.Handlers.Public.Shown.{Html, run_html, runs_html, error_html, shown, response}
use ghapp_demo.Base.Int.{pos}
use ghapp_demo.Limiter.{allow, new_limiter}
use ghapp_demo.Store.Monad.{statement}
use ghapp_demo.Store.Runs.{get_run_by_public_id}
use ghapp_demo.Store.Sample.{world, db, repo, uuid, generate}
use ghapp_demo.Store.Tables.{RunRow}
use ghapp_demo.Text.{Text, codes, equal, trim_space, to_lower, split}
use ghapp_demo.Text.Dict.{lookup, insert}

abbrev shell : Text → ProcessPayload
shell cmdline = record {
  node_type = [];
  pid = pos 7;
  ppid = pos 1;
  start_time_ticks = none;
  name = codes "bash";
  cmdline = cmdline;
  exe = [];
  direct_egress = pos 0;
  total_egress = pos 0;
  egress = [];
}

abbrev report : Text → Text → RunSummaryPayload ⊎ Text
report cmdline json =
    inl (record { errors = []; lineage_tree = trees (tree (shell cmdline) no_trees) no_trees })

abbrev peer : Peer
peer = record { forwarded_for = codes " 1.2.3.4 , 5.6.7.8"; remote_addr = codes "[::1]:9" }

abbrev split_host : Text → Option Text
split_host t = some (codes "::1")

abbrev before : ServerState
before = record { limiter = new_limiter; world = world }

first_address : request_ip split_host peer ≡ codes "1.2.3.4"
unfolding request_ip trim_space split
first_address = refl

hidden_404 :
    (handle_run_detail uuid generate to_lower
      (report [])
      split_host
      peer
      5
      none
      (codes "p1")
      before).0
    ≡ record { caching = some public_30; page = error_page 404 (codes "run not found") }
unfolding handle_run_detail allow_public_route allow request_ip trim_space split lookup insert equal
    get_run_by_public_id statement
hidden_404 = refl

-- The repository of the run is public, so that its page is shown.
abbrev open_world : ServerState
open_world = record before {
  world = record world {
    db = record db { repos = record repo { visibility = codes "public" } ∷ [] };
  };
}

-- The text of a report is the command line of its one process.
abbrev decode : Text → RunSummaryPayload ⊎ Text
decode json = report json json

abbrev ask : ServerState → PublicAnswer × ServerState
ask = handle_run_detail uuid generate to_lower decode split_host peer 5 none (codes "p1")

abbrev label_of : Html → Option Text
label_of (run_html h) = elim h.lineage_roots [
  | no_views ↦ none
  | views t ts ↦ elim t [ node_view n children ↦ some n.label ]
]
label_of (runs_html owner name runs) = none
label_of (error_html status words) = none

shown_name : label_of (response (ask open_world).0).1 ≡ some (codes "bash")
unfolding handle_run_detail allow_public_route allow request_ip trim_space split lookup insert equal
    get_run_by_public_id statement shown build_run_summary_view convert_lineage_tree_to_view
    process_node_display_label command_label
shown_name = refl

secret : RunRow → Text
secret r = codes "bash a s3cret"

handle_run_detail-redact_example :
    response (ask (reporting secret open_world)).0 ≡ response (ask open_world).0
unfolding redact
handle_run_detail-redact_example =
    handle_run_detail-redact uuid generate to_lower decode secret (λ r. refl) none split_host peer 5
      (codes "p1") open_world (λ repo. refl)
