-- ===== src/Handlers/Lineage/Tests.antt =====
-- Views of a report at concrete processes: a shell that runs a script, with a connection.
use ghapp_demo.Base.{◌≡◌, refl, true, false, [], ◌∷◌, none, ◌⊎◌, inl}
use ghapp_demo.Base.Int.{pos}
use ghapp_demo.Handlers.Lineage.{
  ProcessPayload, LineageEgressPayload, no_trees, trees, tree, RunSummaryPayload,
  process_node_display_label, format_egress_target_label, convert_lineage_tree_to_view, script_of,
  command_label, is_localhost_host,
}
use ghapp_demo.Handlers.Lineage.Shape.{view_outline-convert, outline, view_outline}
use ghapp_demo.Store.Runs.{Run}
use ghapp_demo.Store.Sample.{run, repo}
use ghapp_demo.Text.{Text, codes, to_lower, trim_space, equal, starts_with}
use ghapp_demo.Text.Path.{base, fields, before_last}

abbrev dns : LineageEgressPayload
dns = record {
  node_type = codes "egress";
  family = codes "ipv4";
  destination = codes " 127.0.0.53.";
  port = pos 53;
  count = pos 4;
  first_unix_nanos = 1;
  last_unix_nanos = 2;
}

abbrev shell : Text → ProcessPayload
shell cmdline = record {
  node_type = codes "process";
  pid = pos 7;
  ppid = pos 1;
  start_time_ticks = none;
  name = codes "bash";
  cmdline = cmdline;
  exe = codes "/bin/bash";
  direct_egress = pos 4;
  total_egress = pos 4;
  egress = dns ∷ [];
}

abbrev report : Text → Text → RunSummaryPayload ⊎ Text
report cmdline json =
    inl (record { errors = []; lineage_tree = trees (tree (shell cmdline) no_trees) no_trees })

abbrev viewed : Run
viewed = record { row = run; repo = repo; viewer_is_member = false }

label_for_members :
    process_node_display_label (shell (codes "/bin/bash -e ci/deploy.sh s3cret")) true
    ≡ codes "deploy.sh"
unfolding process_node_display_label command_label script_of base fields trim_space to_lower equal
    starts_with
label_for_members = refl

label_for_others :
    process_node_display_label (shell (codes "/bin/bash -e ci/deploy.sh s3cret")) false
    ≡ codes "bash"
unfolding process_node_display_label command_label trim_space
label_for_others = refl

target_of_dns : format_egress_target_label to_lower dns ≡ codes "localhost (dns resolver)"
unfolding format_egress_target_label is_localhost_host to_lower trim_space before_last equal
    starts_with
target_of_dns = refl

view_outline-convert_example :
    view_outline 0
      (convert_lineage_tree_to_view to_lower (trees (tree (shell []) no_trees) no_trees) true)
    ≡ outline 0 (trees (tree (shell []) no_trees) no_trees)
view_outline-convert_example =
    view_outline-convert to_lower true (trees (tree (shell []) no_trees) no_trees)

-- An IPv6 address loses its last group.
loopback_cut :
    format_egress_target_label to_lower (record dns { destination = codes "::1" }) ≡ codes ":"
unfolding format_egress_target_label is_localhost_host to_lower trim_space before_last equal
    starts_with
loopback_cut = refl

address_cut :
    format_egress_target_label to_lower (record dns { destination = codes "2001:db8::1" })
    ≡ codes "2001:db8:"
unfolding format_egress_target_label is_localhost_host to_lower trim_space before_last equal
    starts_with
address_cut = refl
