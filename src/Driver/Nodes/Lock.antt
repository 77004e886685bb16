-- ===== src/Driver/Nodes/Lock.antt =====
-- The lock that a sticky policy puts on its node.
use ikgt_usage.Base.{ℕ, ◌≡◌, refl, true, List, [], ◌∷◌, arith}
use ikgt_usage.Driver.Kernel.{Kernel, Trace}
use ikgt_usage.Driver.Config.{Cfg, store_write, store_sticky_value, store_enable}
use ikgt_usage.Driver.Nodes.{
  ConfigFile, cr0_file, cr4_file, msr_file, Attribute, enable_attr, write_attr, sticky_attr,
  store_attribute, store_attributes, cr0_cfg_store_enable, cr4_cfg_store_enable,
  msr_cfg_store_enable, cr4_cfg_store_write, msr_cfg_store_write, cr4_cfg_store_sticky_value,
  msr_cfg_store_sticky_value,
}

pub store_attribute-locked :
    (kernel : Kernel) (file : ConfigFile) (attribute : Attribute) (cfg : Cfg) (page : List ℕ)
    (t : Trace)
    → cfg.locked ≡ true
    → ((store_attribute kernel file attribute cfg page t).0.1 ≡ cfg)
      × ((store_attribute kernel file attribute cfg page t).1 ≡ t)
unfolding store_attribute store_write store_sticky_value store_enable cr0_cfg_store_enable
    cr4_cfg_store_enable msr_cfg_store_enable cr4_cfg_store_write msr_cfg_store_write
    cr4_cfg_store_sticky_value msr_cfg_store_sticky_value
store_attribute-locked kernel cr0_file enable_attr cfg page t h = ground arith
store_attribute-locked kernel cr0_file write_attr cfg page t h = ground arith
store_attribute-locked kernel cr0_file sticky_attr cfg page t h = ground arith
store_attribute-locked kernel cr4_file enable_attr cfg page t h = ground arith
store_attribute-locked kernel cr4_file write_attr cfg page t h = ground arith
store_attribute-locked kernel cr4_file sticky_attr cfg page t h = ground arith
store_attribute-locked kernel msr_file enable_attr cfg page t h = ground arith
store_attribute-locked kernel msr_file write_attr cfg page t h = ground arith
store_attribute-locked kernel msr_file sticky_attr cfg page t h = ground arith

-- Once a node of any of the three files is locked, no sequence of writes to its attributes changes
-- it, and none of them makes an allocation or a hypercall.
pub store_attributes-locked :
    (kernel : Kernel) (file : ConfigFile) (writes : List (Attribute × List ℕ)) (cfg : Cfg)
    (t : Trace)
    → cfg.locked ≡ true
    → store_attributes kernel file writes cfg t ≡ (cfg, t)
unfolding store_attributes
store_attributes-locked kernel file [] cfg t h = refl
store_attributes-locked kernel file ((attribute, page) ∷ writes) cfg t h =
    let one = store_attribute-locked kernel file attribute cfg page t h in
    rw (one.0, one.1) (store_attributes-locked kernel file writes cfg t h)
