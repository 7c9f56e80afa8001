-- ===== src/Handlers/Ingest/Tests.antt =====
-- An upload under the toy key pair, to an empty database.
use ghapp_demo.Base.{◌&&◌, inr, ◌≡◌, refl, true, [], none, some, arith, ◌+◌}
use ghapp_demo.Base.Int.{pos}
use ghapp_demo.Base.Result.{ok}
use ghapp_demo.Handlers.Ingest.{
  Reply, accepted, refused, ServerState, Request, Clock, Decoders, handle_runs_ingest, authenticate,
  check_upload, store_upload, with_claims, facts_from, owner_rate, repo_of,
}
use ghapp_demo.Handlers.Ingest.Accepted.{handle_runs_ingest-accepted, IsBelow}
use ghapp_demo.Handlers.Ingest.Refused.{handle_runs_ingest_refused}
use ghapp_demo.Handlers.Ingest.Stored.{handle_runs_ingest-IsIngested, IsIngested}
use ghapp_demo.Handlers.Request.{
  bearer_token, normalize_sha256_hex, parse_pr_number, repo_owner_from_full_name,
  nullable_int64_pointer, parse_optional_rfc3339, validate_run_summary_payload,
}
use ghapp_demo.Limiter.{allow, new_limiter, minute}
use ghapp_demo.Runsauth.{verify_upload_token, upload_claims}
use ghapp_demo.Runsauth.Laws.{verify-issue}
use ghapp_demo.Runsauth.Toy.{toy, principal, request, manager, token, claims, now, issued, complete}
use ghapp_demo.Store.Columns.{takes_facts}
use ghapp_demo.Store.Monad.{statement}
use ghapp_demo.Store.Runs.{
  RunInput, facts_of, visibility_ok, upsert_repo, upsert_run, count_runs_by_owner_since,
  stored_visibility, stored_source,
}
use ghapp_demo.Store.Sample.{world, uuid, generate, columns}
use ghapp_demo.Text.{codes, equal, trim_space, to_lower, cut}
use ghapp_demo.Text.Dict.{lookup, insert}
use ghapp_demo.Text.Number.{print_int}

-- A hash function with the digest that the toy token names.
abbrev decoders : Decoders
decoders = record {
  json_valid = λ t. true;
  summary = λ t. some (record { schema_version = codes "v2"; has_lineage_tree = true });
  sha256_hex = λ t. claims.payload_sha256;
  rfc3339 = λ t. none;
}

abbrev clock : Clock
clock = record { verified = now; limited = now; counted = now }

abbrev before : ServerState
before = record { limiter = new_limiter; world = world }

abbrev upload : Request
upload = record { authorization = codes "Bearer t"; body = some (codes "{}") }

abbrev ask : Request → Reply × ServerState
ask r =
    handle_runs_ingest uuid generate columns toy decoders (some manager) (pos 5000) r clock before

genuine : verify_upload_token toy manager token now ≡ ok claims
genuine =
    verify-issue toy manager principal request now token (now + manager.ttl) issued now complete
      (omega arith) (omega arith)

bearer : bearer_token (codes "Bearer t") ≡ some token
unfolding bearer_token to_lower equal cut trim_space
bearer = refl

verified : authenticate toy (some manager) upload.authorization now ≡ ok claims
unfolding authenticate
verified = rw bearer (rw genuine refl)

stored :
    (with_claims uuid generate columns toy decoders
      (some manager)
      (pos 5000)
      (ok claims)
      upload
      clock
      before).0
    ≡ accepted
unfolding check_upload store_upload upsert_repo upsert_run takes_facts count_runs_by_owner_since
    statement allow lookup insert equal trim_space to_lower print_int normalize_sha256_hex
    parse_pr_number repo_owner_from_full_name nullable_int64_pointer parse_optional_rfc3339
    validate_run_summary_payload stored_visibility stored_source cut upload_claims
stored = refl

taken : (ask upload).0 ≡ accepted
unfolding handle_runs_ingest
taken = rw verified stored

handle_runs_ingest-IsIngested_example :
    IsIngested uuid generate columns
      (pos 5000)
      toy
      decoders
      (some manager)
      upload
      clock
      before
      (ask upload).1
handle_runs_ingest-IsIngested_example =
    handle_runs_ingest-IsIngested uuid generate columns (pos 5000) toy decoders (some manager)
      upload clock before taken

abbrev run : RunInput
run = record {
  repo_id = claims.repository_id;
  execution_id = claims.execution_id;
  facts = facts_from claims (codes "{}") claims.payload_sha256 none none;
}

checked : check_upload decoders claims upload.body ≡ ok run
unfolding check_upload equal trim_space to_lower normalize_sha256_hex parse_pr_number
    repo_owner_from_full_name nullable_int64_pointer parse_optional_rfc3339
    validate_run_summary_payload upload_claims cut
checked = refl

passed :
    (allow before.limiter (print_int claims.repository_owner_id) owner_rate (pos minute) now).0
    ≡ true
unfolding allow lookup insert equal trim_space print_int upload_claims
passed = refl

takes_names :
    columns.text claims.repository && columns.text (repo_owner_from_full_name claims.repository)
    ≡ true
unfolding repo_owner_from_full_name upload_claims cut trim_space
takes_names = refl

takes_run : takes_facts columns (facts_of run.facts) ≡ true
unfolding takes_facts upload_claims parse_pr_number nullable_int64_pointer equal trim_space
takes_run = refl

takes_visibility : visibility_ok (stored_visibility claims.repository_visibility) ≡ true
unfolding stored_visibility equal trim_space to_lower upload_claims
takes_visibility = refl

below :
    IsBelow
      (pos 5000)
      claims.repository_owner_id
      now
      (upsert_repo columns (repo_of claims) before.world).1
unfolding upsert_repo count_runs_by_owner_since statement stored_visibility stored_source equal
    trim_space to_lower upload_claims repo_owner_from_full_name cut
below = inr (1, refl, omega arith)

handle_runs_ingest-accepted_example : (ask upload).0 ≡ accepted
handle_runs_ingest-accepted_example =
    handle_runs_ingest-accepted uuid generate columns (pos 5000) toy decoders manager upload clock
      before.limiter before.world.db before.world.now token claims.execution_id claims run bearer
      genuine passed checked takes_names takes_visibility refl takes_run below

abbrev bare : Request
bare = record { authorization = []; body = none }

turned_down : (ask bare).0 ≡ refused 401
unfolding handle_runs_ingest authenticate bearer_token trim_space
turned_down = refl

handle_runs_ingest_refused_example : (ask bare).1.world.db.runs ≡ before.world.db.runs
handle_runs_ingest_refused_example =
    handle_runs_ingest_refused uuid generate columns 401 toy decoders (some manager) (pos 5000) bare
      clock before turned_down
