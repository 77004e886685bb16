-- ===== src/Driver/Session/Typed/Operations.antt =====
-- driver/cr0.c, driver/cr4.c and driver/msr.c: what configfs does with the nodes keeps their C types.
use ikgt_usage.Base.{
  ℕ, List, [], ◌∷◌, Option, none, some, arith, All, Bool-cases, inl, inr, if_both,
}
use ikgt_usage.Driver.Kernel.{Kernel, Trace}
use ikgt_usage.Driver.Config.{Cfg, Made, invalid_name, no_memory, item, make_item}
use ikgt_usage.Driver.Nodes.{
  ConfigFile, cr0_file, cr4_file, msr_file, Attribute, cr4_make_item, msr_make_item,
}
use ikgt_usage.Driver.Session.{
  Op, mkdir, rmdir, write, same_name, make_item_of, add_made, make_absent, remove_present,
  remove_node, write_node, find_node, apply_op,
}
use ikgt_usage.Driver.Session.Typed.{CfgFits, CallFits, Fits, ReadsWords, store_attribute-StoreFits}

abbrev MadeFits : Made → Type 0
MadeFits (item cfg) = CfgFits cfg
MadeFits _ = Unit

-- A new node has no action and no sticky value.
make_item_of-MadeFits :
    (kernel : Kernel) (file : ConfigFile) (name : List ℕ) (t : Trace)
    → All CallFits t
    → MadeFits (make_item_of kernel file name t).0
      × All CallFits (make_item_of kernel file name t).1
unfolding make_item_of make_item cr4_make_item msr_make_item
make_item_of-MadeFits kernel cr0_file name t a = ground (arith, a)
make_item_of-MadeFits kernel cr4_file name t a = ground (arith, a)
make_item_of-MadeFits kernel msr_file name t a = ground (arith, a)

add_made-CfgFits :
    (nodes : List Cfg) (made : Made)
    → All CfgFits nodes
    → MadeFits made
    → All CfgFits (add_made nodes made)
add_made-CfgFits nodes invalid_name h f = h
add_made-CfgFits nodes no_memory h f = h
add_made-CfgFits nodes (item cfg) h f = (f, h)

remove_node-CfgFits :
    (name : List ℕ) (nodes : List Cfg) → All CfgFits nodes → All CfgFits (remove_node name nodes)
unfolding remove_node
remove_node-CfgFits name [] h = tt
remove_node-CfgFits name (n ∷ nodes) h =
    if_both (All CfgFits) (same_name n.name name) (remove_node name nodes)
      (n ∷ remove_node name nodes) (remove_node-CfgFits name nodes h.1)
      (h.0, remove_node-CfgFits name nodes h.1)

module _ (kernel : Kernel) (words : ReadsWords kernel) (file : ConfigFile) where
  write_node-Fits :
      (name : List ℕ) (attribute : Attribute) (page : List ℕ) (nodes : List Cfg) (t : Trace)
      → Fits (nodes, t)
      → Fits (write_node kernel file name attribute page nodes t)
  unfolding write_node
  write_node-Fits name attribute page [] t h = h
  write_node-Fits name attribute page (n ∷ nodes) t h = elim (Bool-cases (same_name n.name name)) [
    | inl e ↦
        let (f, a) = store_attribute-StoreFits kernel words file attribute n page t h.0.0 h.1 in
        rw e ((f, h.0.1), a)
    | inr e ↦
        let (f, a) = write_node-Fits name attribute page nodes t (h.0.1, h.1) in
        rw e ((h.0.0, f), a)
  ]

  make_absent-Fits :
      (name : List ℕ) (nodes : List Cfg) (o : Option Cfg) (t : Trace)
      → Fits (nodes, t)
      → Fits (make_absent kernel file name nodes o t)
  unfolding make_absent
  make_absent-Fits name nodes (some cfg) t h = h
  make_absent-Fits name nodes none t h =
      let (f, a) = make_item_of-MadeFits kernel file name t h.1 in
      (add_made-CfgFits nodes (make_item_of kernel file name t).0 h.0 f, a)

  remove_present-Fits :
      (name : List ℕ) (nodes : List Cfg) (o : Option Cfg) (t : Trace)
      → Fits (nodes, t)
      → Fits (remove_present name nodes o t)
  unfolding remove_present
  remove_present-Fits name nodes none t h = h
  remove_present-Fits name nodes (some cfg) t h = (remove_node-CfgFits name nodes h.0, (tt, h.1))

  -- Every operation keeps the nodes and the messages in their types.
  pub apply_op-Fits :
      (op : Op) (nodes : List Cfg) (t : Trace)
      → Fits (nodes, t)
      → Fits (apply_op kernel file op nodes t)
  unfolding apply_op
  apply_op-Fits (mkdir name) nodes t h = make_absent-Fits name nodes (find_node name nodes) t h
  apply_op-Fits (rmdir name) nodes t h = remove_present-Fits name nodes (find_node name nodes) t h
  apply_op-Fits (write name attribute page) nodes t h =
      write_node-Fits name attribute page nodes t h
