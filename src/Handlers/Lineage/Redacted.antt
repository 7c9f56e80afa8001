-- ===== src/Handlers/Lineage/Redacted.antt =====
-- server/web/handler/server.go: what a viewer who is not a member can learn of a run's processes.
use ghapp_demo.Base.{◌≡◌, refl, sym, ap, ◌∙◌, false, List, [], ◌∷◌, none, map, ◌⊎◌, inl, inr}
use ghapp_demo.Base.Int.{pos}
use ghapp_demo.Handlers.Lineage.{
  LineageEgressPayload, ProcessPayload, LineageTreePayload, tree, LineageTrees, no_trees, trees,
  RunSummaryPayload, egress_view, view_of, convert_lineage_tree_to_view, convert_node,
  format_egress_target_label, process_node_display_label, command_label, build_run_summary_view,
  summary_view, format_run_lineage_root_label,
}
use ghapp_demo.Store.Runs.{Run}
use ghapp_demo.Text.{Text}

-- The destination, the port and the number of connections are left.
abbrev redact_egress : LineageEgressPayload → LineageEgressPayload
redact_egress e = record {
  node_type = [];
  family = [];
  destination = e.destination;
  port = e.port;
  count = e.count;
  first_unix_nanos = 0;
  last_unix_nanos = 0;
}

-- The name, the process id and the two numbers are left, of each connection what is left of it.
abbrev redact_process : ProcessPayload → ProcessPayload
redact_process p = record {
  node_type = [];
  pid = p.pid;
  ppid = pos 0;
  start_time_ticks = none;
  name = p.name;
  cmdline = [];
  exe = [];
  direct_egress = p.direct_egress;
  total_egress = p.total_egress;
  egress = map redact_egress p.egress;
}

unfoldable mutual
  pub redact : LineageTrees → LineageTrees
  redact no_trees = no_trees
  redact (trees t ts) = trees (redact_node t) (redact ts)

  redact_node : LineageTreePayload → LineageTreePayload
  redact_node (tree p children) = tree (redact_process p) (redact children)

-- What is left of a report: its errors, and the redacted processes.
abbrev pub redact_report : RunSummaryPayload ⊎ Text → RunSummaryPayload ⊎ Text
redact_report (inl p) = inl (record { errors = p.errors; lineage_tree = redact p.lineage_tree })
redact_report (inr words) = inr words

egress_views-redact :
    (lower : Text → Text) (es : List LineageEgressPayload)
    → map (egress_view lower) (map redact_egress es) ≡ map (egress_view lower) es
unfolding format_egress_target_label
egress_views-redact lower [] = refl
egress_views-redact lower (e ∷ es) = ap (◌∷◌ (egress_view lower e)) (egress_views-redact lower es)

view_of-redact :
    (lower : Text → Text) (p : ProcessPayload)
    → view_of lower false (redact_process p) ≡ view_of lower false p
unfolding process_node_display_label command_label
view_of-redact lower p = rw (egress_views-redact lower p.egress) refl

mutual
  unfolding redact convert_lineage_tree_to_view

  views-redact :
      (lower : Text → Text) (ts : LineageTrees)
      → convert_lineage_tree_to_view lower (redact ts) false
        ≡ convert_lineage_tree_to_view lower ts false
  views-redact lower no_trees = refl
  views-redact lower (trees t ts) = rw (node-redact lower t, views-redact lower ts) refl

  node-redact :
      (lower : Text → Text) (t : LineageTreePayload)
      → convert_node lower (redact_node t) false ≡ convert_node lower t false
  node-redact lower (tree p children) =
      rw (view_of-redact lower p, views-redact lower children) refl

summary_view-redact :
    (lower : Text → Text) (run : Run) (report : RunSummaryPayload ⊎ Text)
    → summary_view lower run false (redact_report report) ≡ summary_view lower run false report
summary_view-redact lower run (inl p) = rw (views-redact lower p.lineage_tree) refl
summary_view-redact lower run (inr words) = refl

-- The run with another report.
abbrev pub reported : Text → Run → Run
reported json run = record run {
  row = record run.row { facts = record run.row.facts { egress_json = json } };
}

summary_view-reported :
    (lower : Text → Text) (json : Text) (run : Run) (report : RunSummaryPayload ⊎ Text)
    → summary_view lower (reported json run) false report ≡ summary_view lower run false report
unfolding format_run_lineage_root_label
summary_view-reported lower json run (inl p) = refl
summary_view-reported lower json run (inr words) = refl

-- If two reports decode to payloads that differ only in command lines, executables, parents, start
-- times, types, families and times of connections, then the summary of a run for a viewer who is
-- not a member is the same for both.
pub build_run_summary_view-redact :
    (lower : Text → Text) (decode : Text → RunSummaryPayload ⊎ Text) (json : Text) (run : Run)
    → redact_report (decode json) ≡ redact_report (decode run.row.facts.egress_json)
    → build_run_summary_view lower decode (reported json run) false
      ≡ build_run_summary_view lower decode run false
unfolding build_run_summary_view
build_run_summary_view-redact lower decode json run h =
    summary_view-reported lower json run (decode json)
    ∙ sym (summary_view-redact lower run (decode json))
    ∙ ap (summary_view lower run false) h
    ∙ summary_view-redact lower run (decode run.row.facts.egress_json)
