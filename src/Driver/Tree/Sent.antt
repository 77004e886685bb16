-- ===== src/Driver/Tree/Sent.antt =====
-- driver/configfs_setup.c with the files of its groups: the messages that the directory sends.
use ikgt_usage.Base.{ℕ, List, [], ◌∷◌, Option, none, some, arith, Bool-cases, inl, inr}
use ikgt_usage.Driver.Kernel.{Kernel, Trace}
use ikgt_usage.Driver.Config.{Cfg}
use ikgt_usage.Driver.Nodes.{ConfigFile}
use ikgt_usage.Driver.Agent.{
  Children, cr0_children, cr4_children, msr_children, log_children, no_children,
  group_children_make_group,
}
use ikgt_usage.Driver.Types.{
  children_type, group_children_type, cr0_children_type, cr4_children_type, msr_children_type,
  log_children_type,
}
use ikgt_usage.Driver.Session.{Op, same_name}
use ikgt_usage.Driver.Session.Sent.{AllNamed, apply_op-AllNamed}
use ikgt_usage.Driver.Tree.{
  Group, TreeOp, make_group, remove_group, inside, file_of, find_group, add_group, release_group,
  drop_group, in_nodes, in_group, in_groups, apply_tree_op, run_tree,
}

in_nodes-AllNamed :
    (kernel : Kernel) (op : Op) (o : Option ConfigFile) (nodes : List Cfg) (t : Trace)
    → AllNamed t
    → AllNamed (in_nodes kernel op o nodes t).1
unfolding in_nodes
in_nodes-AllNamed kernel op none nodes t a = a
in_nodes-AllNamed kernel op (some file) nodes t a = apply_op-AllNamed kernel file op nodes t a

in_groups-AllNamed :
    (kernel : Kernel) (name : List ℕ) (op : Op) (groups : List Group) (t : Trace)
    → AllNamed t
    → AllNamed (in_groups kernel name op groups t).1
unfolding in_groups in_group
in_groups-AllNamed kernel name op [] t a = a
in_groups-AllNamed kernel name op (g ∷ groups) t a = elim (Bool-cases (same_name g.name name)) [
  | inl e ↦ rw e (in_nodes-AllNamed kernel op (file_of g.children) g.nodes t a)
  | inr e ↦ rw e (in_groups-AllNamed kernel name op groups t a)
]

release_group-AllNamed :
    (c : Children) (t : Trace) → AllNamed t → AllNamed (release_group (children_type c) t).1
unfolding release_group children_type cr0_children_type cr4_children_type msr_children_type
    log_children_type
release_group-AllNamed cr0_children t a = (tt, a)
release_group-AllNamed cr4_children t a = (tt, a)
release_group-AllNamed msr_children t a = (tt, a)
release_group-AllNamed log_children t a = (tt, a)
release_group-AllNamed no_children t a = a

add_group-AllNamed :
    (kernel : Kernel) (name : List ℕ) (groups : List Group) (o : Option Group) (t : Trace)
    → AllNamed t
    → AllNamed (add_group kernel name groups o t).1
unfolding add_group group_children_type group_children_make_group
add_group-AllNamed kernel name groups none t a = (tt, a)
add_group-AllNamed kernel name groups (some g) t a = a

drop_group-AllNamed :
    (name : List ℕ) (groups : List Group) (o : Option Group) (t : Trace)
    → AllNamed t
    → AllNamed (drop_group name groups o t).1
unfolding drop_group
drop_group-AllNamed name groups none t a = a
drop_group-AllNamed name groups (some g) t a =
    let r = release_group-AllNamed g.children t a in ground (arith, a, r)

-- Every message that the driver's directory sends, whatever the user does, is about a resource.
pub run_tree-AllNamed :
    (kernel : Kernel) (ops : List TreeOp) (groups : List Group) (t : Trace)
    → AllNamed t
    → AllNamed (run_tree kernel ops groups t).1
unfolding run_tree apply_tree_op
run_tree-AllNamed kernel [] groups t a = a
run_tree-AllNamed kernel (make_group name ∷ ops) groups t a =
    run_tree-AllNamed kernel ops _ _
      (add_group-AllNamed kernel name groups (find_group name groups) t a)
run_tree-AllNamed kernel (remove_group name ∷ ops) groups t a =
    run_tree-AllNamed kernel ops _ _ (drop_group-AllNamed name groups (find_group name groups) t a)
run_tree-AllNamed kernel (inside name op ∷ ops) groups t a =
    run_tree-AllNamed kernel ops _ _ (in_groups-AllNamed kernel name op groups t a)
