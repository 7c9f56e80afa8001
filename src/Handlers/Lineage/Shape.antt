-- ===== src/Handlers/Lineage/Shape.antt =====
-- server/web/handler/server.go: what the view of a run's processes keeps of the report.
use ghapp_demo.Base.{
  ℕ, suc, ◌≡◌, refl, ap, Bool, true, false, List, [], ◌∷◌, ◌++◌, Option, none, some, map, ◌||◌,
  Bool-cases, inl, inr,
}
use ghapp_demo.Base.Int.{ℤ, is_positive}
use ghapp_demo.Handlers.Lineage.{
  LineageEgressPayload, ProcessPayload, LineageTreePayload, tree, LineageTrees, no_trees, trees,
  LineageEgressNodeView, LineageTreeNodeView, node_view, LineageViews, no_views, views, egress_view,
  convert_lineage_tree_to_view, convert_node, process_node_display_label, command_label, script_of,
  script_or, entry_of_command, script_of_command, or_else, plain_label, label_or, is_interpreter,
}
use ghapp_demo.Text.{Text, is_empty, trim_space, to_lower, equal, codes, starts_with}
use ghapp_demo.Text.Path.{base, base-is_empty, fields}

-- A process in a listing in preorder: its depth, its two numbers, and those of its connections.
pub record Line : Type 0 where
  pub depth : ℕ
  pub direct_egress : ℤ
  pub total_egress : ℤ
  pub counts : List ℤ

abbrev payload_count : LineageEgressPayload → ℤ
payload_count e = e.count

abbrev view_count : LineageEgressNodeView → ℤ
view_count e = e.count

unfoldable mutual
  pub outline : ℕ → LineageTrees → List Line
  outline d no_trees = []
  outline d (trees t ts) = outline_node d t ++ outline d ts

  pub outline_node : ℕ → LineageTreePayload → List Line
  outline_node d (tree p children) =
      record {
        depth = d;
        direct_egress = p.direct_egress;
        total_egress = p.total_egress;
        counts = map payload_count p.egress;
      }
      ∷ outline (suc d) children

unfoldable mutual
  pub view_outline : ℕ → LineageViews → List Line
  view_outline d no_views = []
  view_outline d (views v vs) = view_outline_node d v ++ view_outline d vs

  pub view_outline_node : ℕ → LineageTreeNodeView → List Line
  view_outline_node d (node_view p children) =
      record {
        depth = d;
        direct_egress = p.direct_egress;
        total_egress = p.total_egress;
        counts = map view_count p.egress;
      }
      ∷ view_outline (suc d) children

counts-egress_view :
    (lower : Text → Text) (es : List LineageEgressPayload)
    → map view_count (map (egress_view lower) es) ≡ map payload_count es
counts-egress_view lower [] = refl
counts-egress_view lower (e ∷ es) = ap (◌∷◌ e.count) (counts-egress_view lower es)

mutual
  unfolding outline view_outline convert_lineage_tree_to_view

  outline-views :
      (lower : Text → Text) (sensitive : Bool) (d : ℕ) (ts : LineageTrees)
      → view_outline d (convert_lineage_tree_to_view lower ts sensitive) ≡ outline d ts
  outline-views lower s d no_trees = refl
  outline-views lower s d (trees t ts) =
      rw (outline-node lower s d t, outline-views lower s d ts) refl

  outline-node :
      (lower : Text → Text) (sensitive : Bool) (d : ℕ) (t : LineageTreePayload)
      → view_outline_node d (convert_node lower t sensitive) ≡ outline_node d t
  outline-node lower s d (tree p children) =
      rw (counts-egress_view lower p.egress, outline-views lower s (suc d) children) refl

-- For members and for others, the view has the processes of the report at their places in the tree,
-- with the numbers of the report, and all their connections with their counts, in order.
pub view_outline-convert :
    (lower : Text → Text) (sensitive : Bool) (ts : LineageTrees)
    → view_outline 0 (convert_lineage_tree_to_view lower ts sensitive) ≡ outline 0 ts
view_outline-convert lower s ts = outline-views lower s 0 ts

abbrev IsLabel : Option Text → Type 0
IsLabel none = Unit
IsLabel (some t) = is_empty t ≡ false

script_or-IsLabel :
    (script : Text) (later : Option Text) → IsLabel later → IsLabel (script_or script later)
script_or-IsLabel [] later l = l
script_or-IsLabel (c ∷ s) later l = elim (Bool-cases (equal (c ∷ s) (codes "-"))) [
  | inl h ↦ rw (h) l
  | inr h ↦ rw (h) refl
]

script_of-IsLabel : (args : List Text) → IsLabel (script_of args)
unfolding script_of
script_of-IsLabel [] = tt
script_of-IsLabel (arg ∷ args) =
    elim (Bool-cases (is_empty (trim_space arg) || starts_with (trim_space arg) (codes "-"))) [
      | inl h ↦ rw (h) (script_of-IsLabel args)
      | inr h ↦
          rw (h)
            (script_or-IsLabel (base (trim_space arg)) (script_of args) (script_of-IsLabel args))
    ]

script_of_command-IsLabel : (words : List Text) → IsLabel (script_of_command words)
script_of_command-IsLabel [] = tt
script_of_command-IsLabel (first ∷ args) =
    elim (Bool-cases (is_interpreter (to_lower (base first)))) [
      | inl h ↦ rw (h) (script_of-IsLabel args)
      | inr h ↦ rw (h) tt
    ]

entry_of_command-IsLabel : (words : List Text) → IsLabel (entry_of_command words)
entry_of_command-IsLabel [] = tt
entry_of_command-IsLabel (first ∷ args) = rw (base-is_empty first) (base-is_empty first)

or_else-IsLabel : (a b : Option Text) → IsLabel a → IsLabel b → IsLabel (or_else a b)
or_else-IsLabel none b p q = q
or_else-IsLabel (some t) b p q = p

command_label-IsLabel : (cmdline : Text) (s : Bool) → IsLabel (command_label cmdline s)
unfolding command_label
command_label-IsLabel cmdline false = tt
command_label-IsLabel cmdline true =
    or_else-IsLabel _ _ (script_of_command-IsLabel (fields cmdline))
      (entry_of_command-IsLabel (fields cmdline))

plain_label-is_empty : (p : ProcessPayload) → is_empty (plain_label p) ≡ false
plain_label-is_empty p = elim (Bool-cases (is_empty (trim_space p.name))) [
  | inl h ↦ elim (Bool-cases (is_positive p.pid)) [
    | inl k ↦ rw (h, k) refl
    | inr k ↦ rw (h, k) refl
  ]
  | inr h ↦ rw (h) h
]

label_or-is_empty :
    (plain : Text) (label : Option Text)
    → is_empty plain ≡ false
    → IsLabel label
    → is_empty (label_or plain label) ≡ false
label_or-is_empty plain none h l = h
label_or-is_empty plain (some t) h l = l

-- Every process has a label that is not empty, whatever its name, id and command line are.
process_node_display_label-is_empty :
    (p : ProcessPayload) (sensitive : Bool)
    → is_empty (process_node_display_label p sensitive) ≡ false
unfolding process_node_display_label
process_node_display_label-is_empty p sensitive =
    label_or-is_empty _ _ (plain_label-is_empty p) (command_label-IsLabel _ _)
