-- ===== src/Driver/Nodes.antt =====
-- The entry points of driver/cr0.c, driver/cr4.c and driver/msr.c: the stores of a node's attributes
-- and the creation of a node, for each of the three files.
pub mod Lock
pub mod Show
pub mod Enable
use ikgt_usage.Base.{ℕ, Bool, List, [], ◌∷◌, Option}
use ikgt_usage.Driver.Kernel.{Kernel, Io, pure, ◌>>=◌}
use ikgt_usage.Driver.Tables.{cr4_bits, msr_regs}
use ikgt_usage.Driver.Config.{
  Cfg, valid_attr, cr0_node, cr4_node, msr_node, policy_set, Stored, store_write,
  store_sticky_value, store_enable, Made, make_item,
}

unfoldable pub cr0_cfg_store_enable : Kernel → Cfg → List ℕ → Io (Stored × Cfg)
unfolding store_enable
cr0_cfg_store_enable kernel = store_enable kernel cr0_node

unfoldable pub cr4_cfg_store_enable : Kernel → Cfg → List ℕ → Io (Stored × Cfg)
unfolding store_enable
cr4_cfg_store_enable kernel = store_enable kernel cr4_node

unfoldable pub msr_cfg_store_enable : Kernel → Cfg → List ℕ → Io (Stored × Cfg)
unfolding store_enable
msr_cfg_store_enable kernel = store_enable kernel msr_node

unfoldable pub cr4_cfg_store_write : Kernel → Cfg → List ℕ → Stored × Cfg
unfolding store_write
cr4_cfg_store_write = store_write

unfoldable pub msr_cfg_store_write : Kernel → Cfg → List ℕ → Stored × Cfg
unfolding store_write
msr_cfg_store_write = store_write

unfoldable pub cr4_cfg_store_sticky_value : Kernel → Cfg → List ℕ → Stored × Cfg
unfolding store_sticky_value
cr4_cfg_store_sticky_value = store_sticky_value

unfoldable pub msr_cfg_store_sticky_value : Kernel → Cfg → List ℕ → Stored × Cfg
unfolding store_sticky_value
msr_cfg_store_sticky_value = store_sticky_value

unfoldable pub valid_cr4_attr : List ℕ → Option ℕ
unfolding valid_attr
valid_cr4_attr = valid_attr cr4_bits

unfoldable pub valid_msr_attr : List ℕ → Option ℕ
unfolding valid_attr
valid_msr_attr = valid_attr msr_regs

unfoldable pub policy_set_cr4 : Kernel → Cfg → Bool → Io Bool
unfolding policy_set
policy_set_cr4 kernel = policy_set kernel cr4_node

unfoldable pub policy_set_msr : Kernel → Cfg → Bool → Io Bool
unfolding policy_set
policy_set_msr kernel = policy_set kernel msr_node

unfoldable pub cr4_make_item : Kernel → List ℕ → Io Made
unfolding make_item
cr4_make_item kernel = make_item kernel cr4_node

unfoldable pub msr_make_item : Kernel → List ℕ → Io Made
unfolding make_item
msr_make_item kernel = make_item kernel msr_node

-- The file whose node is written, and the attribute.
pub data ConfigFile : Type 0 where
  cr0_file cr4_file msr_file : ConfigFile

pub data Attribute : Type 0 where
  enable_attr write_attr sticky_attr : Attribute

-- One write to an attribute: configfs calls the attribute's store function on the node.
unfoldable pub store_attribute : Kernel → ConfigFile → Attribute → Cfg → List ℕ → Io (Stored × Cfg)
unfolding cr0_cfg_store_enable cr4_cfg_store_enable msr_cfg_store_enable cr4_cfg_store_write
    msr_cfg_store_write cr4_cfg_store_sticky_value msr_cfg_store_sticky_value
store_attribute kernel cr0_file enable_attr cfg page = cr0_cfg_store_enable kernel cfg page
store_attribute kernel cr0_file write_attr cfg page = pure (store_write kernel cfg page)
store_attribute kernel cr0_file sticky_attr cfg page = pure (store_sticky_value kernel cfg page)
store_attribute kernel cr4_file enable_attr cfg page = cr4_cfg_store_enable kernel cfg page
store_attribute kernel cr4_file write_attr cfg page = pure (cr4_cfg_store_write kernel cfg page)
store_attribute kernel cr4_file sticky_attr cfg page =
    pure (cr4_cfg_store_sticky_value kernel cfg page)
store_attribute kernel msr_file enable_attr cfg page = msr_cfg_store_enable kernel cfg page
store_attribute kernel msr_file write_attr cfg page = pure (msr_cfg_store_write kernel cfg page)
store_attribute kernel msr_file sticky_attr cfg page =
    pure (msr_cfg_store_sticky_value kernel cfg page)

-- Writes to the attributes of one node, in order.
unfoldable pub store_attributes : Kernel → ConfigFile → List (Attribute × List ℕ) → Cfg → Io Cfg
unfolding store_attribute
store_attributes kernel file [] cfg = pure cfg
store_attributes kernel file ((attribute, page) ∷ writes) cfg = do
  stored ← store_attribute kernel file attribute cfg page
  store_attributes kernel file writes stored.1
