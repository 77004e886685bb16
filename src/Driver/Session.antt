-- ===== src/Driver/Session.antt =====
-- driver/cr0.c, driver/cr4.c and driver/msr.c as configfs calls them: the nodes of a group, made by
-- `mkdir`, written through their attributes and released by `rmdir`, in any order. Of configfs only what
-- it documents is used: a directory has a name once, `mkdir` calls `make_item`, a write to an attribute
-- calls the store function on its node, and `rmdir` releases the node.
pub mod Alias
pub mod Laws
pub mod Names
pub mod Sent
pub mod Typed
pub mod Memory
pub mod Locked
use ikgt_usage.Base.{
  ℕ, Bool, true, false, ◌&&◌, List, [], ◌∷◌, Option, none, some, ◌==◌, if◌then◌else◌,
}
use ikgt_usage.Driver.Kernel.{Kernel, Io, pure, ◌>>=◌, ◌>>◌}
use ikgt_usage.Driver.Config.{
  Cfg, Node, cr0_node, cr4_node, msr_node, Made, invalid_name, no_memory, item, make_item,
}
use ikgt_usage.Driver.Nodes.{
  ConfigFile, cr0_file, cr4_file, msr_file, Attribute, store_attribute, cr4_make_item,
  msr_make_item,
}
use ikgt_usage.Driver.Nodes.Show.{cfg_release}

-- What the user does to the group's directory.
pub data Op : Type 0 where
  mkdir : List ℕ → Op
  rmdir : List ℕ → Op
  write : List ℕ → Attribute → List ℕ → Op

-- Equal byte for byte; a directory's names are.
unfoldable pub same_name : List ℕ → List ℕ → Bool
same_name [] [] = true
same_name [] (_ ∷ _) = false
same_name (_ ∷ _) [] = false
same_name (a ∷ s) (b ∷ s') = (a == b) && same_name s s'

abbrev pub node_of : ConfigFile → Node
node_of cr0_file = cr0_node
node_of cr4_file = cr4_node
node_of msr_file = msr_node

-- The `make_item` of the group's type.
unfoldable pub make_item_of : Kernel → ConfigFile → List ℕ → Io Made
unfolding make_item cr4_make_item msr_make_item
make_item_of kernel cr0_file name = make_item kernel cr0_node name
make_item_of kernel cr4_file name = cr4_make_item kernel name
make_item_of kernel msr_file name = msr_make_item kernel name

unfoldable pub find_node : List ℕ → List Cfg → Option Cfg
unfolding same_name
find_node name [] = none
find_node name (n ∷ nodes) = if same_name n.name name then some n else find_node name nodes

-- The directory with the node that was made, if one was.
abbrev pub add_made : List Cfg → Made → List Cfg
add_made nodes invalid_name = nodes
add_made nodes no_memory = nodes
add_made nodes (item cfg) = cfg ∷ nodes

unfoldable pub remove_node : List ℕ → List Cfg → List Cfg
unfolding same_name
remove_node name [] = []
remove_node name (n ∷ nodes) =
    let rest = remove_node name nodes in if same_name n.name name then rest else n ∷ rest

-- The first node with the name written.
unfoldable pub write_node :
    Kernel → ConfigFile → List ℕ → Attribute → List ℕ → List Cfg → Io (List Cfg)
unfolding same_name store_attribute
write_node kernel file name attribute page [] = pure []
write_node kernel file name attribute page (n ∷ nodes) =
    let others : Io (List Cfg) = (do
      rest ← write_node kernel file name attribute page nodes
      pure (n ∷ rest)) in
    let this : Io (List Cfg) = (do
      stored ← store_attribute kernel file attribute n page
      pure (stored.1 ∷ nodes)) in
    if same_name n.name name then this else others

-- A name that is there is not made again, and only one that is there is removed.
unfoldable pub make_absent : Kernel → ConfigFile → List ℕ → List Cfg → Option Cfg → Io (List Cfg)
unfolding make_item_of
make_absent kernel file name nodes (some _) = pure nodes
make_absent kernel file name nodes none = do
  made ← make_item_of kernel file name
  pure (add_made nodes made)

unfoldable pub remove_present : List ℕ → List Cfg → Option Cfg → Io (List Cfg)
unfolding remove_node
remove_present name nodes none = pure nodes
remove_present name nodes (some _) = do cfg_release; pure (remove_node name nodes)

-- One operation.
unfoldable pub apply_op : Kernel → ConfigFile → Op → List Cfg → Io (List Cfg)
unfolding find_node make_absent remove_present write_node
apply_op kernel file (mkdir name) nodes = make_absent kernel file name nodes (find_node name nodes)
apply_op kernel file (rmdir name) nodes = remove_present name nodes (find_node name nodes)
apply_op kernel file (write name attribute page) nodes =
    write_node kernel file name attribute page nodes

unfoldable pub run_ops : Kernel → ConfigFile → List Op → List Cfg → Io (List Cfg)
unfolding apply_op
run_ops kernel file [] nodes = pure nodes
run_ops kernel file (op ∷ ops) nodes = do
  nodes' ← apply_op kernel file op nodes
  run_ops kernel file ops nodes'
