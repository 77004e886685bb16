-- ===== src/Driver/Types.antt =====
-- The types of configfs items in driver/cr0.c, driver/cr4.c, driver/msr.c, driver/log.c and
-- driver/configfs_setup.c: for each directory its attributes and the functions that configfs calls.
use ikgt_usage.Base.{ℕ, List, [], ◌∷◌, Option, none, some}
use ikgt_usage.Base.Text.{codes}
use ikgt_usage.PolicyCommon.{LogBuffer}
use ikgt_usage.Driver.Kernel.{Kernel, Io, pure, ◌>>=◌}
use ikgt_usage.Driver.Config.{Cfg, cr0_node, Stored, Made, make_item}
use ikgt_usage.Driver.Nodes.{
  cr0_file, cr4_file, msr_file, Attribute, enable_attr, write_attr, sticky_attr, store_attribute,
  cr4_make_item, msr_make_item,
}
use ikgt_usage.Driver.Nodes.Show.{
  cfg_attr_show, cr4_cfg_attr_show, msr_cfg_attr_show, cfg_release, cr4_cfg_release,
  msr_cfg_release, cr0_children_attr_show, cr4_children_attr_show, msr_children_attr_show,
  cr0_children_release, cr4_children_release, msr_children_release, log_children_release,
}
use ikgt_usage.Driver.Agent.{
  AgentLog, show_log, Children, cr0_children, cr4_children, msr_children, log_children, no_children,
  group_children_make_group, group_children_attr_show,
}

-- The type of a node: the names of its attributes, and their functions.
pub record CfgType : Type 0 where
  pub attributes : List (List ℕ × Attribute)
  pub show : Attribute → Cfg → List ℕ
  pub store : Kernel → Attribute → Cfg → List ℕ → Io (Stored × Cfg)
  pub release : Io (Unit {0})

-- `cr0_cfg_attrs`, and the same in the other files
abbrev pub cfg_attrs : List (List ℕ × Attribute)
cfg_attrs =
    (codes "enable", enable_attr)
    ∷ (codes "write", write_attr)
    ∷ (codes "sticky_value", sticky_attr)
    ∷ []

unfoldable pub cr0_cfg_type : CfgType
unfolding cfg_attr_show store_attribute
cr0_cfg_type = record {
  attributes = cfg_attrs;
  show = cfg_attr_show;
  store = λ kernel. store_attribute kernel cr0_file;
  release = cfg_release;
}

unfoldable pub cr4_cfg_type : CfgType
unfolding cr4_cfg_attr_show store_attribute
cr4_cfg_type = record {
  attributes = cfg_attrs;
  show = cr4_cfg_attr_show;
  store = λ kernel. store_attribute kernel cr4_file;
  release = cr4_cfg_release;
}

unfoldable pub msr_cfg_type : CfgType
unfolding msr_cfg_attr_show store_attribute
msr_cfg_type = record {
  attributes = cfg_attrs;
  show = msr_cfg_attr_show;
  store = λ kernel. store_attribute kernel msr_file;
  release = msr_cfg_release;
}

-- The type of a group. `show` gives the text of its one attribute and the variables of log.c after it, or
-- none where the kernel stops at BUG_ON. `make_item` is absent where it is NULL.
pub record GroupType : Type 0 where
  pub attribute : List ℕ
  pub show : Kernel → LogBuffer → AgentLog → Io (Option (List ℕ × AgentLog))
  pub release : Io (Unit {0})
  pub make_item : Option (Kernel → List ℕ → Io Made)

-- An attribute with a fixed text.
abbrev shows : List ℕ → Kernel → LogBuffer → AgentLog → Io (Option (List ℕ × AgentLog))
shows text kernel buffer log = pure (some (text, log))

unfoldable pub cr0_children_type : GroupType
unfolding make_item
cr0_children_type = record {
  attribute = codes "description";
  show = shows cr0_children_attr_show;
  release = cr0_children_release;
  make_item = some (λ kernel. make_item kernel cr0_node);
}

unfoldable pub cr4_children_type : GroupType
unfolding cr4_make_item
cr4_children_type = record {
  attribute = codes "description";
  show = shows cr4_children_attr_show;
  release = cr4_children_release;
  make_item = some cr4_make_item;
}

unfoldable pub msr_children_type : GroupType
unfolding msr_make_item
msr_children_type = record {
  attribute = codes "description";
  show = shows msr_children_attr_show;
  release = msr_children_release;
  make_item = some msr_make_item;
}

-- `log_children_attr_show`: what `dump_log` leaves in the page.
unfoldable pub log_children_attr_show :
    Kernel → LogBuffer → AgentLog → Io (Option (List ℕ × AgentLog))
unfolding show_log
log_children_attr_show kernel buffer log = do
  shown ← show_log kernel buffer log
  pure (elim shown [ none ↦ none | some (page, log') ↦ some (page.bytes, log') ])

unfoldable pub log_children_type : GroupType
unfolding log_children_attr_show
log_children_type = record {
  attribute = codes "log.txt";
  show = log_children_attr_show;
  release = log_children_release;
  make_item = none;
}

-- `get_cr0_children_type`, `get_cr4_children_type`, `get_msr_children_type` and `get_log_children_type`,
-- by the branch of `group_children_make_group`; without one the group has no type.
unfoldable pub children_type : Children → Option GroupType
unfolding cr0_children_type cr4_children_type msr_children_type log_children_type
children_type cr0_children = some cr0_children_type
children_type cr4_children = some cr4_children_type
children_type msr_children = some msr_children_type
children_type log_children = some log_children_type
children_type no_children = none

-- The type of the subsystem's own directory.
pub record RootType : Type 0 where
  pub attribute : List ℕ
  pub show : List ℕ
  pub make_group : Kernel → List ℕ → Io (Option Children)

unfoldable pub group_children_type : RootType
unfolding group_children_make_group
group_children_type = record {
  attribute = codes "description";
  show = group_children_attr_show;
  make_group = group_children_make_group;
}
