-- ===== src/Handler/Entry.antt =====
-- handler/policy.h: a slot of the policy table, the table, and the tests on a slot.
use ikgt_usage.Base.{ℕ, ◌-◌, Bool, not, ◌&&◌, List, bit_and, ◌==◌, leb, inc32}
use ikgt_usage.PolicyCommon.{ResourceInfo, policy_act_log, policy_act_skip, policy_act_sticky}
use ikgt_usage.PolicyCommon.Resource.{
  resource_id_start, resource_id_end, resource_id_cr0_pe, resource_id_cr0_pg, resource_id_cr4_vme,
  resource_id_cr4_smap,
}

abbrev pub policy_table_ver : ℕ
policy_table_ver = 0x1

abbrev pub policy_table_signature : ℕ
policy_table_signature = 0x1689a569

abbrev pub policy_max_entries : ℕ
policy_max_entries = resource_id_end - resource_id_start

-- `policy_entry_t`
pub record PolicyEntry : Type 0 where
  pub resource_id : ℕ
  pub flags : ℕ
  pub access_count : ℕ
  pub r_action : ℕ
  pub w_action : ℕ
  pub x_action : ℕ
  pub sticky_val : ℕ
  pub resource_info : ResourceInfo

-- `policy_table_t`; `policy_entry` has POLICY_MAX_ENTRIES slots.
pub record PolicyTable : Type 0 where
  pub version : ℕ
  pub signature : ℕ
  pub num_entries : ℕ
  pub policy_entry : List PolicyEntry

unfoldable pub is_cr0_entry : PolicyEntry → Bool
is_cr0_entry e = leb resource_id_cr0_pe e.resource_id && leb e.resource_id resource_id_cr0_pg

unfoldable pub is_cr4_entry : PolicyEntry → Bool
is_cr4_entry e = leb resource_id_cr4_vme e.resource_id && leb e.resource_id resource_id_cr4_smap

-- A flag test of C: the masked word is not 0.
unfoldable pub policy_entry_has_sticky : PolicyEntry → Bool
policy_entry_has_sticky e = not (bit_and e.w_action policy_act_sticky == 0)

unfoldable pub policy_entry_w_has_skip : PolicyEntry → Bool
policy_entry_w_has_skip e = not (bit_and e.w_action policy_act_skip == 0)

unfoldable pub policy_entry_w_has_log : PolicyEntry → Bool
policy_entry_w_has_log e = not (bit_and e.w_action policy_act_log == 0)

-- `access_count++` on a uint32_t
unfoldable pub policy_entry_inc_access_count : PolicyEntry → PolicyEntry
policy_entry_inc_access_count e = record e { access_count = inc32 e.access_count }

unfoldable pub policy_entry_init_access_count : PolicyEntry → PolicyEntry
policy_entry_init_access_count e = record e { access_count = 0 }
