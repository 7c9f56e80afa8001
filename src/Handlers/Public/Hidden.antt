-- ===== src/Handlers/Public/Hidden.antt =====
-- server/web/handler/server.go: what the page of a run shows to a viewer who is in no project.
use ghapp_demo.Base.{
  ℕ, ◌≡◌, refl, sym, ap, subst, ◌∙◌, Bool, true, false, ◌⊎◌, Option, some, Bool-cases, inl, inr,
}
use ghapp_demo.Base.Int.{ℤ, pos}
use ghapp_demo.Base.Result.{Result, ok, err}
use ghapp_demo.Handlers.Ingest.{ServerState}
use ghapp_demo.Handlers.Lineage.{RunSummaryPayload, build_run_summary_view}
use ghapp_demo.Handlers.Lineage.Redacted.{redact_report, build_run_summary_view-redact}
use ghapp_demo.Handlers.Public.{
  Peer, PublicAnswer, split_repo_full_name, limited_to, request_ip, public_rate, allow_public_route,
  cache_headers, show_run, with_run, load_run, page_answer, handle_run_detail,
}
use ghapp_demo.Handlers.Public.Shown.{run_html, run_template, shown, response}
use ghapp_demo.Limiter.{Counter, allow, minute}
use ghapp_demo.Store.Monad.{World, StoreError}
use ghapp_demo.Store.Monad.Related.{mapped, changed}
use ghapp_demo.Store.Runs.{Run, get_run_by_public_id, is_member_of_repo}
use ghapp_demo.Store.Runs.Reported.{with_reports, run_with, get_run_by_public_id-report}
use ghapp_demo.Store.Runs.Visibility.{get_run_by_public_id-viewer}
use ghapp_demo.Store.Tables.{RunRow}
use ghapp_demo.Text.{Text, is_empty, trim_space}
use ghapp_demo.Text.Dict.{Dict}

-- The state with the report that is given for each row.
abbrev pub reporting : (RunRow → Text) → ServerState → ServerState
reporting report st = record st { world = changed (with_reports report) st.world }

limited_to-same :
    (f g : ServerState → PublicAnswer × ServerState) (st st' : ServerState)
    (r : Bool × Option (Dict Counter))
    → ((hits : Option (Dict Counter))
        → response (f (record st { limiter = hits })).0
          ≡ response (g (record st' { limiter = hits })).0)
    → response (limited_to f st r).0 ≡ response (limited_to g st' r).0
limited_to-same f g st st' (true, hits) h = h hits
limited_to-same f g st st' (false, hits) h = refl

module _ (uuid : Text → Option Text) (generate : ℕ → Text) (lower : Text → Text)
    (decode : Text → RunSummaryPayload ⊎ Text) (report : RunRow → Text)
    (alike : (r : RunRow)
      → redact_report (decode (report r)) ≡ redact_report (decode r.facts.egress_json)) where
  show_run-same :
      (run : Run)
      → run.viewer_is_member ≡ false
      → shown (show_run uuid generate lower decode (run_with report run))
        ≡ shown (show_run uuid generate lower decode run)
  unfolding shown
  show_run-same run h =
      let view = λ (run : Run) (b : Bool). build_run_summary_view lower decode run b in
      let summary : view (run_with report run) run.viewer_is_member
          ≡ view run run.viewer_is_member =
        subst (λ b. view (run_with report run) b ≡ view run b) (sym h)
          (build_run_summary_view-redact lower decode (report run.row) run (alike run.row)) in
      let (owner, repo) = split_repo_full_name run.repo.full_name in
      ap (λ v. run_html (run_template run v owner repo run.viewer_is_member)) summary

  with_run-same :
      (r : Result StoreError Run) (v w : World)
      → ((run : Run) → r ≡ ok run → run.viewer_is_member ≡ false)
      → shown (with_run uuid generate lower decode (mapped (run_with report) r, v)).0
        ≡ shown (with_run uuid generate lower decode (r, w)).0
  with_run-same (err e) v w h = refl
  with_run-same (ok run) v w h = show_run-same run (h run refl)

  module _ (user : Option ℕ) where
    load_run-same :
        (id : Text) (w : World)
        → ((repo : ℤ) → is_member_of_repo w.db user repo ≡ false)
        → shown (load_run uuid generate lower decode id user (changed (with_reports report) w)).0
          ≡ shown (load_run uuid generate lower decode id user w).0
    load_run-same id w outside = elim (Bool-cases (is_empty id)) [
      | inl t ↦ rw (t, load_run) refl
      | inr t ↦
          let before = get_run_by_public_id uuid generate id user w in
          let after =
            get_run_by_public_id uuid generate id user (changed (with_reports report) w) in
          let same : shown (with_run uuid generate lower decode after).0
              ≡ shown (with_run uuid generate lower decode before).0 =
            ap (λ r. shown (with_run uuid generate lower decode (r, after.1)).0)
              (get_run_by_public_id-report report uuid generate user id w)
            ∙ with_run-same before.0 after.1 before.1 (λ run got.
              get_run_by_public_id-viewer uuid generate id user w run got
              ∙ outside run.row.repo_id) in
          rw (t, load_run) same
    ]

    -- If the report of every stored run is replaced by one that decodes to a payload which differs
    -- only in what is redacted (command lines, executables, parents, start times, types, families
    -- and times of connections), then what the handler shows to a viewer who is in no project that a
    -- repository is still bound to, as is a visitor without a session, stays the same.
    pub handle_run_detail-redact :
        (split_host : Text → Option Text) (peer : Peer) (now : ℕ) (path_id : Text)
        (st : ServerState)
        → ((repo : ℤ) → is_member_of_repo st.world.db user repo ≡ false)
        → response
            (handle_run_detail uuid generate lower decode split_host peer now user path_id
              (reporting report st)).0
          ≡ response
              (handle_run_detail uuid generate lower decode split_host peer now user path_id st).0
    unfolding handle_run_detail allow_public_route
    handle_run_detail-redact split_host peer now path_id st outside =
        let serve = λ (st : ServerState).
          page_answer user st
            (load_run uuid generate lower decode (trim_space path_id) user st.world) in
        limited_to-same serve serve (reporting report st) st
          (allow st.limiter (request_ip split_host peer) public_rate (pos minute) now)
          (λ hits.
            ap (λ h. (some (cache_headers user), h))
              (load_run-same (trim_space path_id) st.world outside))
