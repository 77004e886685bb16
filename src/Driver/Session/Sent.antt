-- ===== src/Driver/Session/Sent.antt =====
-- driver/cr0.c, driver/cr4.c and driver/msr.c: the messages that a session sends.
use ikgt_usage.Base.{
  ℕ, ◌≡◌, subst, Bool, true, false, List, [], ◌∷◌, Option, none, some, arith, All, Bool-cases, inl,
  inr, get_elem?, suc, zero,
}
use ikgt_usage.Handler.Table.Room.{IsResource}
use ikgt_usage.Driver.Tables.{NameValueMap}
use ikgt_usage.Driver.Kernel.{Kernel, Trace, Call, hypercall}
use ikgt_usage.Driver.Config.{
  Cfg, Node, cr0_node, cr4_node, msr_node, policy_set, policy_message, make_item, store_enable,
}
use ikgt_usage.Driver.Nodes.{
  ConfigFile, cr0_file, cr4_file, msr_file, Attribute, enable_attr, write_attr, sticky_attr,
  store_attribute, cr0_cfg_store_enable, cr4_cfg_store_enable, msr_cfg_store_enable, cr4_make_item,
  msr_make_item,
}
use ikgt_usage.Driver.Nodes.Enable.{valid_attr-RowOf}
use ikgt_usage.Driver.Session.{
  Op, mkdir, rmdir, write, same_name, node_of, make_item_of, make_absent, remove_present,
  write_node, find_node, apply_op,
}

-- A message is about a resource.
abbrev pub Names : Call → Type 0
Names (hypercall message) = IsResource message.policy_data.resource_id
Names _ = Unit

-- All messages that were sent are.
abbrev pub AllNamed : Trace → Type 0
AllNamed t = All Names t

abbrev HasResources : List NameValueMap → Type 0
HasResources = All (λ r. IsResource r.res_id)

row_of :
    (rows : List NameValueMap) (i : ℕ) (r : NameValueMap)
    → HasResources rows
    → get_elem? rows i ≡ some r
    → IsResource r.res_id
row_of [] i r h e = cc
row_of (x ∷ rows) zero r h e =
    let same : x ≡ r = ground (arith, e) in subst (λ y. IsResource y.res_id) same h.0
row_of (x ∷ rows) (suc i) r h e = row_of rows i r h.1 e

tables : (file : ConfigFile) → HasResources (node_of file).rows
tables cr0_file = ground arith
tables cr4_file = ground arith
tables msr_file = ground arith

policy_set-AllNamed :
    (kernel : Kernel) (node : Node) (cfg : Cfg) (enable : Bool) (t : Trace)
    → HasResources node.rows
    → AllNamed t
    → AllNamed (policy_set kernel node cfg enable t).1
unfolding policy_set policy_message
policy_set-AllNamed kernel node cfg enable t h a = elim (valid_attr-RowOf node.rows cfg.name) [
  | inl n ↦ ground (arith, n, a)
  | inr r ↦
      let named : IsResource r.row.res_id = row_of node.rows r.index r.row h r.there in
      ground (arith, r.found, r.there, a, named)
]

store_enable-AllNamed :
    (kernel : Kernel) (node : Node) (cfg : Cfg) (page : List ℕ) (t : Trace)
    → HasResources node.rows
    → AllNamed t
    → AllNamed (store_enable kernel node cfg page t).1
unfolding store_enable
store_enable-AllNamed kernel node cfg page t h a = ground (
  arith,
  a,
  policy_set-AllNamed kernel node cfg true t h a,
  policy_set-AllNamed kernel node cfg false t h a,
)

store_attribute-AllNamed :
    (kernel : Kernel) (file : ConfigFile) (attribute : Attribute) (cfg : Cfg) (page : List ℕ)
    (t : Trace)
    → AllNamed t
    → AllNamed (store_attribute kernel file attribute cfg page t).1
unfolding store_attribute cr0_cfg_store_enable cr4_cfg_store_enable msr_cfg_store_enable
store_attribute-AllNamed kernel cr0_file enable_attr cfg page t a =
    store_enable-AllNamed kernel cr0_node cfg page t (tables cr0_file) a
store_attribute-AllNamed kernel cr4_file enable_attr cfg page t a =
    store_enable-AllNamed kernel cr4_node cfg page t (tables cr4_file) a
store_attribute-AllNamed kernel msr_file enable_attr cfg page t a =
    store_enable-AllNamed kernel msr_node cfg page t (tables msr_file) a
store_attribute-AllNamed kernel cr0_file write_attr cfg page t a = a
store_attribute-AllNamed kernel cr4_file write_attr cfg page t a = a
store_attribute-AllNamed kernel msr_file write_attr cfg page t a = a
store_attribute-AllNamed kernel cr0_file sticky_attr cfg page t a = a
store_attribute-AllNamed kernel cr4_file sticky_attr cfg page t a = a
store_attribute-AllNamed kernel msr_file sticky_attr cfg page t a = a

make_item_of-AllNamed :
    (kernel : Kernel) (file : ConfigFile) (name : List ℕ) (t : Trace)
    → AllNamed t
    → AllNamed (make_item_of kernel file name t).1
unfolding make_item_of make_item cr4_make_item msr_make_item
make_item_of-AllNamed kernel cr0_file name t a = ground (arith, a)
make_item_of-AllNamed kernel cr4_file name t a = ground (arith, a)
make_item_of-AllNamed kernel msr_file name t a = ground (arith, a)

module _ (kernel : Kernel) (file : ConfigFile) where
  write_node-AllNamed :
      (name : List ℕ) (attribute : Attribute) (page : List ℕ) (nodes : List Cfg) (t : Trace)
      → AllNamed t
      → AllNamed (write_node kernel file name attribute page nodes t).1
  unfolding write_node
  write_node-AllNamed name attribute page [] t a = a
  write_node-AllNamed name attribute page (n ∷ nodes) t a =
      elim (Bool-cases (same_name n.name name)) [
        | inl e ↦ rw e (store_attribute-AllNamed kernel file attribute n page t a)
        | inr e ↦ rw e (write_node-AllNamed name attribute page nodes t a)
      ]

  make_absent-AllNamed :
      (name : List ℕ) (nodes : List Cfg) (o : Option Cfg) (t : Trace)
      → AllNamed t
      → AllNamed (make_absent kernel file name nodes o t).1
  unfolding make_absent
  make_absent-AllNamed name nodes none t a = make_item_of-AllNamed kernel file name t a
  make_absent-AllNamed name nodes (some cfg) t a = a

  remove_present-AllNamed :
      (name : List ℕ) (nodes : List Cfg) (o : Option Cfg) (t : Trace)
      → AllNamed t
      → AllNamed (remove_present name nodes o t).1
  unfolding remove_present
  remove_present-AllNamed name nodes none t a = a
  remove_present-AllNamed name nodes (some cfg) t a = (tt, a)

  -- Every message of an operation on the nodes is about a resource.
  pub apply_op-AllNamed :
      (op : Op) (nodes : List Cfg) (t : Trace)
      → AllNamed t
      → AllNamed (apply_op kernel file op nodes t).1
  unfolding apply_op
  apply_op-AllNamed (mkdir name) nodes t a =
      make_absent-AllNamed name nodes (find_node name nodes) t a
  apply_op-AllNamed (rmdir name) nodes t a =
      remove_present-AllNamed name nodes (find_node name nodes) t a
  apply_op-AllNamed (write name attribute page) nodes t a =
      write_node-AllNamed name attribute page nodes t a
