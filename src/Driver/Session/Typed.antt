-- ===== src/Driver/Session/Typed.antt =====
-- driver/cr0.c, driver/cr4.c and driver/msr.c: the fields of the nodes and of the messages in their C types.
pub mod Operations
use ikgt_usage.Base.{
  ℕ, ◌<◌, ◌^◌, ◌≡◌, refl, sym, subst, Bool, true, false, List, [], ◌∷◌, Option, none, some, arith,
  All, if◌then◌else◌, ◌==◌, not, Bool-cases, Option-cases, inl, inr, if_both, get_elem?, suc, zero,
}
use ikgt_usage.PolicyCommon.{PolicyMessage}
use ikgt_usage.Driver.Tables.{NameValueMap}
use ikgt_usage.Driver.Kernel.{Kernel, Trace, Call, Io, hypercall}
use ikgt_usage.Driver.Config.{
  Cfg, Node, Stored, Made, invalid_name, no_memory, item, cr0_node, cr4_node, msr_node, policy_set,
  policy_message, make_item, store_enable, store_write, store_sticky_value, set_enabled,
}
use ikgt_usage.Driver.Nodes.{
  ConfigFile, cr0_file, cr4_file, msr_file, Attribute, enable_attr, write_attr, sticky_attr,
  store_attribute, cr0_cfg_store_enable, cr4_cfg_store_enable, msr_cfg_store_enable,
  cr4_cfg_store_write, msr_cfg_store_write, cr4_cfg_store_sticky_value, msr_cfg_store_sticky_value,
  cr4_make_item, msr_make_item,
}
use ikgt_usage.Driver.Nodes.Enable.{RowOf, valid_attr-RowOf}
use ikgt_usage.Driver.Session.{
  Op, mkdir, rmdir, write, same_name, node_of, make_item_of, add_made, make_absent, remove_present,
  remove_node, write_node, find_node, apply_op,
}

-- A `uint8_t` and an `unsigned long`.
abbrev pub CfgFits : Cfg → Type 0
CfgFits cfg = (cfg.write < 2 ^ 8) × (cfg.sticky_value < 2 ^ 64)

-- The fields of a `policy_update_rec_t`, and the command.
pub record MessageFits (message : PolicyMessage) : Type 0 where
  pub command : message.command < 2 ^ 32
  pub resource_id : message.policy_data.resource_id < 2 ^ 32
  pub r_action : message.policy_data.r_action < 2 ^ 32
  pub w_action : message.policy_data.w_action < 2 ^ 32
  pub x_action : message.policy_data.x_action < 2 ^ 32
  pub sticky_val : message.policy_data.sticky_val < 2 ^ 64
  pub mask : message.policy_data.resource_info.mask < 2 ^ 64
  pub cpu_mask_1 : message.policy_data.resource_info.cpu_mask_1 < 2 ^ 64
  pub cpu_mask_2 : message.policy_data.resource_info.cpu_mask_2 < 2 ^ 64

abbrev pub CallFits : Call → Type 0
CallFits (hypercall message) = MessageFits message
CallFits _ = Unit

-- The nodes and the calls, as an operation leaves them.
abbrev pub Fits : List Cfg × Trace → Type 0
Fits (nodes, t) = All CfgFits nodes × All CallFits t

-- What `kstrtoul` reads is an `unsigned long`.
abbrev pub ReadsWords : Kernel → Type 0
ReadsWords kernel =
    (page : List ℕ) (radix value : ℕ) → kernel.kstrtoul page radix ≡ some value → value < 2 ^ 64

abbrev RowFits : NameValueMap → Type 0
RowFits r = (r.res_id < 2 ^ 32) × (r.value < 2 ^ 64)

row_fits :
    (rows : List NameValueMap) (i : ℕ) (r : NameValueMap)
    → All RowFits rows
    → get_elem? rows i ≡ some r
    → RowFits r
row_fits [] i r h e = cc
row_fits (x ∷ rows) zero r h e = let same : x ≡ r = ground (arith, e) in subst RowFits same h.0
row_fits (x ∷ rows) (suc i) r h e = row_fits rows i r h.1 e

tables : (file : ConfigFile) → All RowFits (node_of file).rows
tables cr0_file = ground arith
tables cr4_file = ground arith
tables msr_file = ground arith

policy_message-MessageFits :
    (node : Node) (r : NameValueMap) (cfg : Cfg) (enable : Bool)
    → RowFits r
    → CfgFits cfg
    → MessageFits (policy_message node r cfg enable)
unfolding policy_message
policy_message-MessageFits node r cfg enable h f = record {
  command = ground arith;
  resource_id = h.0;
  r_action = omega arith;
  w_action = omega (arith, f.0);
  x_action = omega arith;
  sticky_val = f.1;
  mask = ground (arith, h.1);
  cpu_mask_1 = ground arith;
  cpu_mask_2 = ground arith;
}

policy_set-CallFits :
    (kernel : Kernel) (node : Node) (cfg : Cfg) (enable : Bool) (t : Trace)
    → All RowFits node.rows
    → CfgFits cfg
    → All CallFits t
    → All CallFits (policy_set kernel node cfg enable t).1
unfolding policy_set
policy_set-CallFits kernel node cfg enable t h f a = elim (valid_attr-RowOf node.rows cfg.name) [
  | inl n ↦ ground (arith, n, a)
  | inr r ↦
      let fits : MessageFits (policy_message node r.row cfg enable) =
        policy_message-MessageFits node r.row cfg enable
          (row_fits node.rows r.index r.row h r.there) f in
      ground (arith, r.found, r.there, a, fits)
]

set_enabled-CfgFits :
    (cfg : Cfg) (value ret : Bool) → CfgFits cfg → CfgFits (set_enabled cfg value ret)
unfolding set_enabled
set_enabled-CfgFits cfg value true f = f
set_enabled-CfgFits cfg value false f = f

module _ (kernel : Kernel) (words : ReadsWords kernel) where
  -- A node after a store, and the calls.
  abbrev pub StoreFits : {A : Type 0} → (A × Cfg) × Trace → Type 0
  StoreFits ((_, cfg), t) = CfgFits cfg × All CallFits t

  store_enable-StoreFits :
      (node : Node) (cfg : Cfg) (page : List ℕ) (t : Trace)
      → All RowFits node.rows
      → CfgFits cfg
      → All CallFits t
      → StoreFits (store_enable kernel node cfg page t)
  unfolding store_enable
  store_enable-StoreFits node cfg page t h f a = elim (Option-cases (kernel.kstrtoul page 0)) [
    | inl n ↦ rw (store_enable, n) (f, a)
    | inr (value, s) ↦
        let enable : Bool = not (value == 0) in
        rw (store_enable, s)
          (if_both (λ (k : Io (Stored × Cfg)). StoreFits (k t)) cfg.locked _ _ (f, a)
            (
              set_enabled-CfgFits cfg enable (policy_set kernel node cfg enable t).0 f,
              policy_set-CallFits kernel node cfg enable t h f a,
            ))
  ]

  store_write-CfgFits :
      (cfg : Cfg) (page : List ℕ) → CfgFits cfg → CfgFits (store_write kernel cfg page).1
  unfolding store_write
  store_write-CfgFits cfg page f = ground (arith, f.0, f.1)

  store_sticky_value-CfgFits :
      (cfg : Cfg) (page : List ℕ) → CfgFits cfg → CfgFits (store_sticky_value kernel cfg page).1
  unfolding store_sticky_value
  store_sticky_value-CfgFits cfg page f = elim (Option-cases (kernel.kstrtoul page 0)) [
    | inl n ↦ ground (arith, n, f.0, f.1)
    | inr (value, s) ↦ ground (arith, s, f.0, f.1, words page 0 value s)
  ]

  pub store_attribute-StoreFits :
      (file : ConfigFile) (attribute : Attribute) (cfg : Cfg) (page : List ℕ) (t : Trace)
      → CfgFits cfg
      → All CallFits t
      → StoreFits (store_attribute kernel file attribute cfg page t)
  unfolding store_attribute cr0_cfg_store_enable cr4_cfg_store_enable msr_cfg_store_enable
      cr4_cfg_store_write msr_cfg_store_write cr4_cfg_store_sticky_value msr_cfg_store_sticky_value
  store_attribute-StoreFits cr0_file enable_attr cfg page t f a =
      store_enable-StoreFits cr0_node cfg page t (tables cr0_file) f a
  store_attribute-StoreFits cr4_file enable_attr cfg page t f a =
      store_enable-StoreFits cr4_node cfg page t (tables cr4_file) f a
  store_attribute-StoreFits msr_file enable_attr cfg page t f a =
      store_enable-StoreFits msr_node cfg page t (tables msr_file) f a
  store_attribute-StoreFits cr0_file write_attr cfg page t f a = (store_write-CfgFits cfg page f, a)
  store_attribute-StoreFits cr4_file write_attr cfg page t f a = (store_write-CfgFits cfg page f, a)
  store_attribute-StoreFits msr_file write_attr cfg page t f a = (store_write-CfgFits cfg page f, a)
  store_attribute-StoreFits cr0_file sticky_attr cfg page t f a =
      (store_sticky_value-CfgFits cfg page f, a)
  store_attribute-StoreFits cr4_file sticky_attr cfg page t f a =
      (store_sticky_value-CfgFits cfg page f, a)
  store_attribute-StoreFits msr_file sticky_attr cfg page t f a =
      (store_sticky_value-CfgFits cfg page f, a)
