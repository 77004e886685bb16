-- ===== src/Driver/Config.antt =====
-- driver/cr0.c, driver/cr4.c and driver/msr.c: the configfs node of a resource. The three files have
-- the same code over their own table; only the message of cr0.c and cr4.c carries masks.
use ikgt_usage.Base.{
  ℕ, suc, ◌-◌, ◌^◌, Bool, true, false, not, List, [], ◌∷◌, Option, none, some, bit_and, ◌==◌,
  if◌then◌else◌, get_elem?, u8, u32,
}
use ikgt_usage.Base.Text.{eq_ignoring_case}
use ikgt_usage.PolicyCommon.{
  PolicyMessage, policy_act_sticky, policy_entry_enable, policy_entry_disable,
}
use ikgt_usage.Driver.Kernel.{Kernel, Io, pure, ◌>>=◌, ◌>>◌, allocate, ikgt_hypercall, release}
use ikgt_usage.Driver.Tables.{NameValueMap, cr0_bits, cr4_bits, msr_regs}

-- `struct cr0_cfg`, `struct cr4_cfg` and `struct msr_cfg`; `name` is `item.ci_name`.
pub record Cfg : Type 0 where
  pub name : List ℕ
  pub enable : Bool
  pub locked : Bool
  pub write : ℕ
  pub sticky_value : ℕ

-- What one of the three files has for its own.
pub record Node : Type 0 where
  pub rows : List NameValueMap
  pub has_masks : Bool

abbrev pub cr0_node : Node
cr0_node = record { rows = cr0_bits; has_masks = true }

abbrev pub cr4_node : Node
cr4_node = record { rows = cr4_bits; has_masks = true }

abbrev pub msr_node : Node
msr_node = record { rows = msr_regs; has_masks = false }

-- `valid_cr0_attr`: the index of the first row with the name, whatever its case; `none` is -1.
unfoldable pub valid_attr : List NameValueMap → List ℕ → Option ℕ
valid_attr [] name = none
valid_attr (r ∷ rows) name =
    let rest = valid_attr rows name in
    if eq_ignoring_case r.name name
    then some 0
    else elim rest [ none ↦ none | some i ↦ some (suc i) ]

-- The message of `policy_set_cr0`: what the assignments leave in the cleared block. -1 as a uint64_t
-- stands for all CPUs.
unfoldable pub policy_message : Node → NameValueMap → Cfg → Bool → PolicyMessage
policy_message node r cfg enable = record {
  command = if enable then policy_entry_enable else policy_entry_disable;
  count = 1;
  policy_data = record {
    resource_id = r.res_id;
    r_action = 0;
    w_action = cfg.write;
    x_action = 0;
    sticky_val = cfg.sticky_value;
    resource_info =
        if node.has_masks
        then record { mask = r.value; cpu_mask_1 = 2 ^ 64 - 1; cpu_mask_2 = 2 ^ 64 - 1 }
        else record { mask = 0; cpu_mask_1 = 0; cpu_mask_2 = 0 };
  };
  log_param = record { log_addr = 0; log_size = 0 };
  debug_parameter = 0;
}

-- `policy_set_cr0`, `policy_set_cr4` and `policy_set_msr`
unfoldable pub policy_set : Kernel → Node → Cfg → Bool → Io Bool
unfolding valid_attr policy_message
policy_set kernel node cfg enable = elim (valid_attr node.rows cfg.name) [
  | none ↦ pure false
  | some idx ↦ elim (get_elem? node.rows idx) [
    | none ↦ pure false
    | some r ↦ do
      allocated ← allocate kernel
      if allocated
          then (do
            ret ← ikgt_hypercall kernel (policy_message node r cfg enable)
            release
            pure ret)
          else pure false
  ]
]

-- What a store returns: `count`, -EPERM or -EINVAL.
pub data Stored : Type 0 where
  all_bytes eperm einval : Stored

-- The stores that the macros of common.h define, as the result and the value of the field: a decimal
-- (or, with its prefix, other) number cut to a uint32_t, and a hexadecimal one.
unfoldable pub uint32_store : Kernel → ℕ → List ℕ → Stored × ℕ
uint32_store kernel field page = elim (kernel.kstrtoul page 0) [
  | none ↦ (einval, field)
  | some value ↦ (all_bytes, u32 value)
]

unfoldable pub ulong_hex_store : Kernel → ℕ → List ℕ → Stored × ℕ
ulong_hex_store kernel field page = elim (kernel.kstrtoul page 16) [
  | none ↦ (einval, field)
  | some value ↦ (all_bytes, value)
]

-- `cr0_cfg_store_write`: the value is cut to a uint8_t.
unfoldable pub store_write : Kernel → Cfg → List ℕ → Stored × Cfg
store_write kernel cfg page = if cfg.locked then (eperm, cfg) else elim (kernel.kstrtoul page 0) [
  | none ↦ (einval, cfg)
  | some value ↦ (all_bytes, record cfg { write = u8 value })
]

-- `cr0_cfg_store_sticky_value`
unfoldable pub store_sticky_value : Kernel → Cfg → List ℕ → Stored × Cfg
store_sticky_value kernel cfg page =
    if cfg.locked then (eperm, cfg) else elim (kernel.kstrtoul page 0) [
      | none ↦ (einval, cfg)
      | some value ↦ (all_bytes, record cfg { sticky_value = value })
    ]

-- What `cr0_cfg_store_enable` does with the result of `policy_set_cr0`.
unfoldable pub set_enabled : Cfg → Bool → Bool → Cfg
set_enabled cfg value ret =
    if ret
    then record cfg {
      enable = value;
      locked = if bit_and cfg.write policy_act_sticky == 0 then cfg.locked else true;
    }
    else cfg

-- `cr0_cfg_store_enable`: any value but 0 is true.
unfoldable pub store_enable : Kernel → Node → Cfg → List ℕ → Io (Stored × Cfg)
unfolding policy_set set_enabled
store_enable kernel node cfg page = elim (kernel.kstrtoul page 0) [
  | none ↦ pure (einval, cfg)
  | some value ↦ if cfg.locked then pure (eperm, cfg) else (do
    ret ← policy_set kernel node cfg (not (value == 0))
    pure (all_bytes, set_enabled cfg (not (value == 0)) ret))
]

-- What `cr0_make_item` returns: an error (NULL or an error pointer), or the new node.
pub data Made : Type 0 where
  invalid_name no_memory : Made
  item : Cfg → Made

unfoldable pub make_item : Kernel → Node → List ℕ → Io Made
unfolding valid_attr
make_item kernel node name = elim (valid_attr node.rows name) [
  | none ↦ pure invalid_name
  | some _ ↦ do
    allocated ← allocate kernel
    pure (
        if allocated
        then item
            (record { name = name; enable = false; locked = false; write = 0; sticky_value = 0 })
        else no_memory)
]
