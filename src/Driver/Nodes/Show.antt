-- ===== src/Driver/Nodes/Show.antt =====
-- driver/cr0.c, driver/cr4.c, driver/msr.c and driver/log.c: the texts that configfs shows, from the
-- macros of driver/common.h, and the release of nodes.
use ikgt_usage.Base.{ℕ, List, ◌++◌, if◌then◌else◌}
use ikgt_usage.Base.Text.{codes, print_decimal, print_hex}
use ikgt_usage.Driver.Kernel.{Io, release}
use ikgt_usage.Driver.Config.{Cfg}
use ikgt_usage.Driver.Nodes.{Attribute, enable_attr, write_attr, sticky_attr}

-- `sprintf(page, "%u\n", _)`
unfoldable pub uint32_show : ℕ → List ℕ
unfolding print_decimal
uint32_show v = print_decimal v ++ codes "\n"

-- `sprintf(page, "0x%X\n", _)`
unfoldable pub uint32_hex_show : ℕ → List ℕ
unfolding print_hex
uint32_hex_show v = codes "0x" ++ (print_hex v ++ codes "\n")

-- `sprintf(page, "0x%lX\n", _)`
unfoldable pub ulong_hex_show : ℕ → List ℕ
unfolding print_hex
ulong_hex_show v = codes "0x" ++ (print_hex v ++ codes "\n")

-- The show function of each attribute of a node of CR0, CR4 or an MSR.
unfoldable pub cfg_attr_show : Attribute → Cfg → List ℕ
unfolding uint32_show uint32_hex_show ulong_hex_show
cfg_attr_show enable_attr cfg = uint32_show (if cfg.enable then 1 else 0)
cfg_attr_show write_attr cfg = uint32_hex_show cfg.write
cfg_attr_show sticky_attr cfg = ulong_hex_show cfg.sticky_value

unfoldable pub cr4_cfg_attr_show : Attribute → Cfg → List ℕ
unfolding cfg_attr_show
cr4_cfg_attr_show = cfg_attr_show

unfoldable pub msr_cfg_attr_show : Attribute → Cfg → List ℕ
unfolding cfg_attr_show
msr_cfg_attr_show = cfg_attr_show

-- `cr0_cfg_release`, and the same for the other nodes and for the groups
abbrev pub cfg_release : Io (Unit {0})
cfg_release = release

abbrev pub cr0_children_attr_show : List ℕ
cr0_children_attr_show =
    codes
      "CR0\n\nUsed in protected mode to control operations .  \nitems are readable and writable.\n"

abbrev pub cr4_children_attr_show : List ℕ
cr4_children_attr_show =
    codes
      "CR4\n\nUsed in protected mode to control operations .  \nitems are readable and writable.\n"

abbrev pub msr_children_attr_show : List ℕ
msr_children_attr_show =
    codes
      "MSR\n\nUsed in protected mode to control operations .  \nitems are readable and writable.\n"

abbrev pub cr4_cfg_release : Io (Unit {0})
cr4_cfg_release = release

abbrev pub msr_cfg_release : Io (Unit {0})
msr_cfg_release = release

-- `cr0_children_release`, and the same in the other files
abbrev pub cr0_children_release : Io (Unit {0})
cr0_children_release = release

abbrev pub cr4_children_release : Io (Unit {0})
cr4_children_release = release

abbrev pub msr_children_release : Io (Unit {0})
msr_children_release = release

abbrev pub log_children_release : Io (Unit {0})
log_children_release = release
