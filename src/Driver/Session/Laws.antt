-- ===== src/Driver/Session/Laws.antt =====
-- driver/cr0.c, driver/cr4.c and driver/msr.c: what holds of every session with a group's nodes.
use ikgt_usage.Base.{
  ℕ, ◌≡◌, refl, sym, subst, Bool, false, List, [], ◌∷◌, Option, none, some, arith, All, if_both,
  Bool-cases, inl, inr, not, ◌==◌, if◌then◌else◌,
}
use ikgt_usage.Driver.Kernel.{Kernel, Trace}
use ikgt_usage.Driver.Config.{
  Cfg, Made, invalid_name, no_memory, item, make_item, store_write, store_sticky_value,
  store_enable, set_enabled,
}
use ikgt_usage.Driver.Nodes.{
  ConfigFile, cr0_file, cr4_file, msr_file, Attribute, enable_attr, write_attr, sticky_attr,
  store_attribute, cr0_cfg_store_enable, cr4_cfg_store_enable, msr_cfg_store_enable,
  cr4_cfg_store_write, msr_cfg_store_write, cr4_cfg_store_sticky_value, msr_cfg_store_sticky_value,
  cr4_make_item, msr_make_item,
}
use ikgt_usage.Driver.Nodes.Enable.{RowOf, valid_attr-RowOf}
use ikgt_usage.Driver.Session.{
  Op, mkdir, rmdir, write, same_name, node_of, make_item_of, find_node, add_made, make_absent,
  remove_present, remove_node, write_node, apply_op, run_ops,
}

-- The node's name is in the table of its file.
abbrev pub HasRow : ConfigFile → Cfg → Type 0
HasRow file cfg = RowOf (node_of file).rows cfg.name

pub store_attribute-name :
    (kernel : Kernel) (file : ConfigFile) (attribute : Attribute) (cfg : Cfg) (page : List ℕ)
    (t : Trace)
    → (store_attribute kernel file attribute cfg page t).0.1.name ≡ cfg.name
unfolding store_attribute store_write store_sticky_value store_enable set_enabled
    cr0_cfg_store_enable cr4_cfg_store_enable msr_cfg_store_enable cr4_cfg_store_write
    msr_cfg_store_write cr4_cfg_store_sticky_value msr_cfg_store_sticky_value
store_attribute-name kernel cr0_file enable_attr cfg page t = ground arith
store_attribute-name kernel cr0_file write_attr cfg page t = ground arith
store_attribute-name kernel cr0_file sticky_attr cfg page t = ground arith
store_attribute-name kernel cr4_file enable_attr cfg page t = ground arith
store_attribute-name kernel cr4_file write_attr cfg page t = ground arith
store_attribute-name kernel cr4_file sticky_attr cfg page t = ground arith
store_attribute-name kernel msr_file enable_attr cfg page t = ground arith
store_attribute-name kernel msr_file write_attr cfg page t = ground arith
store_attribute-name kernel msr_file sticky_attr cfg page t = ground arith

-- What a new node is.
abbrev pub IsNew : ConfigFile → List ℕ → Made → Type 0
IsNew file name invalid_name = Unit
IsNew file name no_memory = Unit
IsNew file name (item cfg) = HasRow file cfg × (cfg.name ≡ name)

make_item-IsNew :
    (kernel : Kernel) (file : ConfigFile) (name : List ℕ) (t : Trace)
    → IsNew file name (make_item kernel (node_of file) name t).0
unfolding make_item
make_item-IsNew kernel file name t = elim (valid_attr-RowOf (node_of file).rows name) [
  | inl n ↦
      let failed : (make_item kernel (node_of file) name t).0 ≡ invalid_name = ground (arith, n) in
      subst (IsNew file name) (sym failed) tt
  | inr r ↦
      let allocated : Bool = not (kernel.kzalloc_address t == 0) in
      let made : Made =
        item
          (record { name = name; enable = false; locked = false; write = 0; sticky_value = 0 }) in
      let result : (make_item kernel (node_of file) name t).0
          ≡ (if allocated then made else no_memory) =
        ground (arith, r.found) in
      subst (IsNew file name) (sym result)
        (if_both (IsNew file name) allocated made no_memory (r, refl) tt)
]

pub make_item_of-IsNew :
    (kernel : Kernel) (file : ConfigFile) (name : List ℕ) (t : Trace)
    → IsNew file name (make_item_of kernel file name t).0
unfolding make_item_of cr4_make_item msr_make_item
make_item_of-IsNew kernel cr0_file name t = make_item-IsNew kernel cr0_file name t
make_item_of-IsNew kernel cr4_file name t = make_item-IsNew kernel cr4_file name t
make_item_of-IsNew kernel msr_file name t = make_item-IsNew kernel msr_file name t

module _ (kernel : Kernel) (file : ConfigFile) where
  write_node-HasRow :
      (name : List ℕ) (attribute : Attribute) (page : List ℕ) (nodes : List Cfg) (t : Trace)
      → All (HasRow file) nodes
      → All (HasRow file) (write_node kernel file name attribute page nodes t).0
  unfolding write_node
  write_node-HasRow name attribute page [] t h = tt
  write_node-HasRow name attribute page (n ∷ nodes) t h =
      elim (Bool-cases (same_name n.name name)) [
        | inl e ↦ rw e (
          subst (RowOf (node_of file).rows)
              (sym (store_attribute-name kernel file attribute n page t)) h.0,
          h.1,
        )
        | inr e ↦ rw e (h.0, write_node-HasRow name attribute page nodes t h.1)
      ]

  remove_node-HasRow :
      (name : List ℕ) (nodes : List Cfg)
      → All (HasRow file) nodes
      → All (HasRow file) (remove_node name nodes)
  unfolding remove_node
  remove_node-HasRow name [] h = tt
  remove_node-HasRow name (n ∷ nodes) h =
      if_both (All (HasRow file)) (same_name n.name name) (remove_node name nodes)
        (n ∷ remove_node name nodes) (remove_node-HasRow name nodes h.1)
        (h.0, remove_node-HasRow name nodes h.1)

  add_made-HasRow :
      (name : List ℕ) (nodes : List Cfg) (made : Made)
      → IsNew file name made
      → All (HasRow file) nodes
      → All (HasRow file) (add_made nodes made)
  add_made-HasRow name nodes invalid_name m h = h
  add_made-HasRow name nodes no_memory m h = h
  add_made-HasRow name nodes (item cfg) m h = (m.0, h)

  make_absent-HasRow :
      (name : List ℕ) (nodes : List Cfg) (o : Option Cfg) (t : Trace)
      → All (HasRow file) nodes
      → All (HasRow file) (make_absent kernel file name nodes o t).0
  unfolding make_absent
  make_absent-HasRow name nodes (some c) t h = h
  make_absent-HasRow name nodes none t h =
      add_made-HasRow name nodes (make_item_of kernel file name t).0
        (make_item_of-IsNew kernel file name t) h

  remove_present-HasRow :
      (name : List ℕ) (nodes : List Cfg) (o : Option Cfg) (t : Trace)
      → All (HasRow file) nodes
      → All (HasRow file) (remove_present name nodes o t).0
  unfolding remove_present
  remove_present-HasRow name nodes none t h = h
  remove_present-HasRow name nodes (some c) t h = remove_node-HasRow name nodes h

  pub apply_op-HasRow :
      (op : Op) (nodes : List Cfg) (t : Trace)
      → All (HasRow file) nodes
      → All (HasRow file) (apply_op kernel file op nodes t).0
  unfolding apply_op
  apply_op-HasRow (mkdir name) nodes t h = make_absent-HasRow name nodes (find_node name nodes) t h
  apply_op-HasRow (rmdir name) nodes t h =
      remove_present-HasRow name nodes (find_node name nodes) t h
  apply_op-HasRow (write name attribute page) nodes t h =
      write_node-HasRow name attribute page nodes t h

-- In every session with the nodes of CR0, CR4 or the MSRs, whatever is made, written and removed in
-- whatever order: if the nodes at first have names that stand in the table of their file, so have all
-- nodes at the end, so that a write to `enable` always finds the row that its message is made from.
pub run_ops-HasRow :
    (kernel : Kernel) (file : ConfigFile) (ops : List Op) (nodes : List Cfg) (t : Trace)
    → All (HasRow file) nodes
    → All (HasRow file) (run_ops kernel file ops nodes t).0
unfolding run_ops
run_ops-HasRow kernel file [] nodes t h = h
run_ops-HasRow kernel file (op ∷ ops) nodes t h =
    let next = apply_op kernel file op nodes t in
    run_ops-HasRow kernel file ops next.0 next.1 (apply_op-HasRow kernel file op nodes t h)
