-- ===== src/Driver/Tree.antt =====
-- driver/configfs_setup.c with driver/cr0.c, driver/cr4.c, driver/msr.c and driver/log.c: the whole
-- directory of the driver, whose groups and nodes the user makes, writes and removes in any order.
-- Of configfs, beside what Driver/Session.antt uses: `mkdir` of a group calls `make_group`, `rmdir` of a
-- group is refused while it has nodes and then releases it, and a group type without `make_item` has no
-- nodes. A group that is left without a type is refused, and there is nothing to release it with.
pub mod Groups
pub mod Memory
pub mod Sent
pub mod Typed
use ikgt_usage.Base.{ℕ, List, [], ◌∷◌, Option, none, some, if◌then◌else◌}
use ikgt_usage.Driver.Kernel.{Kernel, Io, pure, ◌>>=◌, ◌>>◌}
use ikgt_usage.Driver.Config.{Cfg}
use ikgt_usage.Driver.Nodes.{ConfigFile, cr0_file, cr4_file, msr_file}
use ikgt_usage.Driver.Agent.{
  Children, cr0_children, cr4_children, msr_children, log_children, no_children,
}
use ikgt_usage.Driver.Types.{GroupType, children_type, group_children_type}
use ikgt_usage.Driver.Session.{Op, same_name, apply_op}

-- A `struct group_node` with the nodes in its directory.
pub record Group : Type 0 where
  pub name : List ℕ
  pub children : Children
  pub nodes : List Cfg

pub data TreeOp : Type 0 where
  make_group : List ℕ → TreeOp
  remove_group : List ℕ → TreeOp
  inside : List ℕ → Op → TreeOp

-- The file whose nodes a group has.
abbrev pub file_of : Children → Option ConfigFile
file_of cr0_children = some cr0_file
file_of cr4_children = some cr4_file
file_of msr_children = some msr_file
file_of log_children = none
file_of no_children = none

unfoldable pub find_group : List ℕ → List Group → Option Group
unfolding same_name
find_group name [] = none
find_group name (g ∷ groups) = if same_name g.name name then some g else find_group name groups

abbrev pub new_group : List ℕ → Option Children → List Group → List Group
new_group name none groups = groups
new_group name (some no_children) groups = groups
new_group name (some children) groups =
    record { name = name; children = children; nodes = [] } ∷ groups

unfoldable pub add_group : Kernel → List ℕ → List Group → Option Group → Io (List Group)
unfolding group_children_type
add_group kernel name groups (some _) = pure groups
add_group kernel name groups none = do
  made ← group_children_type.make_group kernel name
  pure (new_group name made groups)

unfoldable pub without : List ℕ → List Group → List Group
unfolding same_name
without name [] = []
without name (g ∷ groups) =
    let rest = without name groups in if same_name g.name name then rest else g ∷ rest

-- `->release` of the group's type, if it has one
unfoldable pub release_group : Option GroupType → Io (Unit {0})
release_group none = pure tt
release_group (some type) = type.release

-- A group with nodes is not removed.
unfoldable pub drop_group : List ℕ → List Group → Option Group → Io (List Group)
unfolding without release_group children_type
drop_group name groups none = pure groups
drop_group name groups (some g) = elim g.nodes [
  | [] ↦ do release_group (children_type g.children); pure (without name groups)
  | _ ∷ _ ↦ pure groups
]

-- An operation on the nodes of a group, by the file of the group.
unfoldable pub in_nodes : Kernel → Op → Option ConfigFile → List Cfg → Io (List Cfg)
unfolding apply_op
in_nodes kernel op none nodes = pure nodes
in_nodes kernel op (some file) nodes = apply_op kernel file op nodes

unfoldable pub in_group : Kernel → Op → Group → Io Group
unfolding in_nodes
in_group kernel op g = do
  nodes ← in_nodes kernel op (file_of g.children) g.nodes
  pure (record g { nodes = nodes })

unfoldable pub in_groups : Kernel → List ℕ → Op → List Group → Io (List Group)
unfolding in_group same_name
in_groups kernel name op [] = pure []
in_groups kernel name op (g ∷ groups) =
    let others : Io (List Group) = (do rest ← in_groups kernel name op groups; pure (g ∷ rest)) in
    let this : Io (List Group) = (do g' ← in_group kernel op g; pure (g' ∷ groups)) in
    if same_name g.name name then this else others

unfoldable pub apply_tree_op : Kernel → TreeOp → List Group → Io (List Group)
unfolding find_group add_group drop_group in_groups
apply_tree_op kernel (make_group name) groups =
    add_group kernel name groups (find_group name groups)
apply_tree_op kernel (remove_group name) groups = drop_group name groups (find_group name groups)
apply_tree_op kernel (inside name op) groups = in_groups kernel name op groups

unfoldable pub run_tree : Kernel → List TreeOp → List Group → Io (List Group)
unfolding apply_tree_op
run_tree kernel [] groups = pure groups
run_tree kernel (op ∷ ops) groups = do
  groups' ← apply_tree_op kernel op groups
  run_tree kernel ops groups'
