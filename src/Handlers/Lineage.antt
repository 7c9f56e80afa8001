-- ===== src/Handlers/Lineage.antt =====
-- server/web/handler/server.go: `buildRunSummaryView` and what it calls, the view of a run's
-- processes and connections. Go's slice of nodes is `LineageTrees`.
pub mod Redacted
pub mod Shape
mod Tests
use ghapp_demo.Base.{
  ℕ, Bool, true, false, not, ◌&&◌, ◌||◌, List, [], ◌∷◌, ◌++◌, Option, none, some, if◌then◌else◌,
  map, ◌⊎◌, inl, inr,
}
use ghapp_demo.Base.Int.{ℤ, pos, is_positive, eq_ℤ}
use ghapp_demo.Store.Runs.{Run}
use ghapp_demo.Store.Tables.{RunFacts}
use ghapp_demo.Text.{Text, codes, equal, is_empty, starts_with, trim_space, to_lower}
use ghapp_demo.Text.Number.{print_int}
use ghapp_demo.Text.Path.{fields, before_last, or_all, base}

pub record LineageEgressPayload : Type 0 where
  pub node_type : Text
  pub family : Text
  pub destination : Text
  pub port : ℤ
  pub count : ℤ
  pub first_unix_nanos : ℕ
  pub last_unix_nanos : ℕ

-- The fields of `lineageTreePayload` but the last.
pub record ProcessPayload : Type 0 where
  pub node_type : Text
  pub pid : ℤ
  pub ppid : ℤ
  pub start_time_ticks : Option ℕ
  pub name : Text
  pub cmdline : Text
  pub exe : Text
  pub direct_egress : ℤ
  pub total_egress : ℤ
  pub egress : List LineageEgressPayload

mutual
  pub data LineageTreePayload : Type 0 where
    tree : ProcessPayload → LineageTrees → LineageTreePayload

  pub data LineageTrees : Type 0 where
    no_trees : LineageTrees
    trees : LineageTreePayload → LineageTrees → LineageTrees

pub record RunSummaryPayload : Type 0 where
  pub errors : List Text
  pub lineage_tree : LineageTrees

pub record LineageEgressNodeView : Type 0 where
  pub target : Text
  pub count : ℤ

-- The fields of `lineageTreeNodeView` but the last.
pub record NodeView : Type 0 where
  pub label : Text
  pub direct_egress : ℤ
  pub total_egress : ℤ
  pub egress : List LineageEgressNodeView

mutual
  pub data LineageTreeNodeView : Type 0 where
    node_view : NodeView → LineageViews → LineageTreeNodeView

  pub data LineageViews : Type 0 where
    no_views : LineageViews
    views : LineageTreeNodeView → LineageViews → LineageViews

pub record RunSummaryView : Type 0 where
  pub lineage_root_label : Text
  pub lineage_roots : LineageViews
  pub error_messages : List Text

unfoldable pub is_localhost_host : Text → Bool
is_localhost_host host =
    let h = trim_space (to_lower host) in
    equal h (codes "localhost")
    || equal h (codes "127.0.0.1")
    || equal h (codes "127.0.0.53")
    || equal h (codes "::1")

-- `strings.TrimSuffix(host, ".")`
abbrev pub without_dot : Text → Text
without_dot host = elim (before_last b'.' host) [
  | none ↦ host
  | some t ↦ if equal host (t ++ (b'.' ∷ [])) then t else host
]

-- The port behind the last colon goes, unless the host starts with a bracket.
abbrev pub without_port : Text → Text
without_port host =
    if starts_with host (b'[' ∷ []) then host else or_all host (before_last b':' host)

abbrev pub or_unknown : Text → Text
or_unknown host = if is_empty host then codes "unknown" else host

-- `lower` is `strings.ToLower`, with the letters outside ASCII.
unfoldable pub format_egress_target_label : (Text → Text) → LineageEgressPayload → Text
format_egress_target_label lower e =
    let host = or_unknown (without_port (without_dot (lower (trim_space e.destination)))) in
    if is_localhost_host host && eq_ℤ e.port (pos 53)
    then codes "localhost (dns resolver)"
    else host

-- The programs whose first argument without a dash is the script that they run.
abbrev pub is_interpreter : Text → Bool
is_interpreter first =
    starts_with first (codes "python")
    || starts_with first (codes "bash")
    || starts_with first (codes "sh")
    || starts_with first (codes "node")
    || starts_with first (codes "ruby")

-- `script != "" && script != "-"`
abbrev pub script_or : Text → Option Text → Option Text
script_or script later =
    if is_empty script then later else if equal script (codes "-") then later else some script

unfoldable pub script_of : List Text → Option Text
script_of [] = none
script_of (arg ∷ args) =
    let later = script_of args in
    let a = trim_space arg in
    if is_empty a || starts_with a (codes "-") then later else script_or (base a) later

abbrev pub script_of_command : List Text → Option Text
script_of_command [] = none
script_of_command (first ∷ args) =
    if is_interpreter (to_lower (base first)) then script_of args else none

abbrev pub entry_of_command : List Text → Option Text
entry_of_command [] = none
entry_of_command (first ∷ args) = if is_empty (base first) then none else some (base first)

abbrev pub or_else {ℓ} : {A : Type ℓ} → Option A → Option A → Option A
or_else (some a) later = some a
or_else none later = later

-- What the command line gives, if it may be shown.
unfoldable pub command_label : Text → Bool → Option Text
command_label cmdline include_sensitive =
    if include_sensitive
    then or_else (script_of_command (fields cmdline)) (entry_of_command (fields cmdline))
    else none

-- What the name and the process id give.
abbrev pub plain_label : ProcessPayload → Text
plain_label p =
    if is_empty (trim_space p.name)
    then if is_positive p.pid then codes "pid " ++ print_int p.pid else codes "process"
    else trim_space p.name

abbrev pub label_or : Text → Option Text → Text
label_or plain none = plain
label_or plain (some label) = label

unfoldable pub process_node_display_label : ProcessPayload → Bool → Text
process_node_display_label p include_sensitive =
    let cmdline = trim_space p.cmdline in
    label_or (plain_label p) (command_label cmdline (include_sensitive && not (is_empty cmdline)))

abbrev pub egress_view : (Text → Text) → LineageEgressPayload → LineageEgressNodeView
egress_view lower e = record { target = format_egress_target_label lower e; count = e.count }

abbrev pub view_of : (Text → Text) → Bool → ProcessPayload → NodeView
view_of lower include_sensitive p = record {
  label = process_node_display_label p include_sensitive;
  direct_egress = p.direct_egress;
  total_egress = p.total_egress;
  egress = map (egress_view lower) p.egress;
}

unfoldable mutual
  pub convert_lineage_tree_to_view : (Text → Text) → LineageTrees → Bool → LineageViews
  convert_lineage_tree_to_view lower no_trees sensitive = no_views
  convert_lineage_tree_to_view lower (trees t ts) sensitive =
      views (convert_node lower t sensitive) (convert_lineage_tree_to_view lower ts sensitive)

  pub convert_node : (Text → Text) → LineageTreePayload → Bool → LineageTreeNodeView
  convert_node lower (tree p children) sensitive =
      node_view (view_of lower sensitive p) (convert_lineage_tree_to_view lower children sensitive)

-- COALESCE(r.job_display_name, r.job_key)
abbrev pub job_name : RunFacts → Text
job_name r = elim r.job_display_name [ none ↦ r.job_key | some name ↦ name ]

unfoldable pub format_run_lineage_root_label : Run → Text
format_run_lineage_root_label run =
    let workflow = trim_space run.row.facts.workflow_name in
    let job = trim_space (job_name run.row.facts) in
    if is_empty workflow
    then if is_empty job then run.repo.full_name else job
    else if is_empty job
    then workflow
    else workflow ++ codes " · " ++ job

-- What `json.Unmarshal` makes of the stored report: the payload, or the words of its error.
abbrev pub summary_view : (Text → Text) → Run → Bool → RunSummaryPayload ⊎ Text → RunSummaryView
summary_view lower run sensitive (inl payload) = record {
  lineage_root_label = format_run_lineage_root_label run;
  lineage_roots = convert_lineage_tree_to_view lower payload.lineage_tree sensitive;
  error_messages = payload.errors;
}
summary_view lower run sensitive (inr words) = record {
  lineage_root_label = [];
  lineage_roots = no_views;
  error_messages = (codes "failed to parse summary JSON: " ++ words) ∷ [];
}

unfoldable pub build_run_summary_view :
    (Text → Text) → (Text → RunSummaryPayload ⊎ Text) → Run → Bool → RunSummaryView
build_run_summary_view lower decode run sensitive =
    summary_view lower run sensitive (decode run.row.facts.egress_json)
