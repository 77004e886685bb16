-- ===== src/PolicyCommon.antt =====
-- common/include/policy_common.h: what the driver and the handler share. The policy record and the
-- message that carries it, the action bits, and the layout of the log buffer.
pub mod Resource
use ikgt_usage.Base.{ℕ, ◌+◌, ◌-◌, ◌*◌, ◌/◌, ◌%◌, bit_mask, bit_or, bit_or}

abbrev pub policy_act_log : ℕ
policy_act_log = bit_mask 0

abbrev pub policy_act_skip : ℕ
policy_act_skip = bit_mask 1

abbrev pub policy_act_allow : ℕ
policy_act_allow = 0

abbrev pub policy_act_sticky : ℕ
policy_act_sticky = bit_mask 7

abbrev pub policy_act_log_allow : ℕ
policy_act_log_allow = bit_or policy_act_log policy_act_allow

abbrev pub permission_read : ℕ
permission_read = 0x1

-- `PERMISSION_READ | PERMISSION_WRITE | PERMISSION_EXECUTE`
abbrev pub permission_rwx : ℕ
permission_rwx = bit_or (bit_or permission_read 0x2) 0x4

-- `COMMAND_CODE`
abbrev pub policy_entry_enable : ℕ
policy_entry_enable = 0

abbrev pub policy_entry_disable : ℕ
policy_entry_disable = 1

abbrev pub policy_make_immutable : ℕ
policy_make_immutable = 2

abbrev pub policy_init_log : ℕ
policy_init_log = 3

abbrev pub policy_debug_command : ℕ
policy_debug_command = 4

-- `resource_info[POLICY_INFO_IDX_MAX]`, one field for each index of POLICY_RESOUCE_INFO_IDX
pub record ResourceInfo : Type 0 where
  pub mask : ℕ
  pub cpu_mask_1 : ℕ
  pub cpu_mask_2 : ℕ

-- `policy_update_rec_t`
pub record PolicyUpdateRec : Type 0 where
  pub resource_id : ℕ
  pub r_action : ℕ
  pub w_action : ℕ
  pub x_action : ℕ
  pub sticky_val : ℕ
  pub resource_info : ResourceInfo

-- `log_message_t`; a null address is 0.
pub record LogMessage : Type 0 where
  pub log_addr : ℕ
  pub log_size : ℕ

-- `policy_message_t`. The members of the union are separate fields; the command says which one is
-- written and read. (`report_param` is never used.)
pub record PolicyMessage : Type 0 where
  pub command : ℕ
  pub count : ℕ
  pub policy_data : PolicyUpdateRec
  pub log_param : LogMessage
  pub debug_parameter : ℕ

-- `log_entry_t`: the member `data` of the union. `meta.head` is the same eight bytes as `seq_num`,
-- and `meta.test` the next eight, `reason` and `valid`.
pub record LogEntry : Type 0 where
  pub seq_num : ℕ
  pub reason : ℕ
  pub valid : ℕ
  pub qualification : ℕ
  pub rip : ℕ
  pub gva : ℕ

abbrev pub page_4kb : ℕ
page_4kb = 4096

abbrev pub log_pages_per_cpu : ℕ
log_pages_per_cpu = 2

-- `sizeof(log_entry_t)`: 8 + 4 + 4 + 8 + 8 + 8
abbrev pub log_entry_size : ℕ
log_entry_size = 40

abbrev pub entries_per_cpu : ℕ
entries_per_cpu = log_pages_per_cpu * page_4kb / log_entry_size

abbrev pub logs_per_cpu : ℕ
logs_per_cpu = entries_per_cpu - 1

-- `LOG_SEQ_NUM_TO_INDEX`
unfoldable pub log_seq_num_to_index : ℕ → ℕ
log_seq_num_to_index seq = seq % logs_per_cpu + 1

-- An array of log entries, by index.
abbrev pub LogBuffer : Type 0
LogBuffer = ℕ → LogEntry

-- The index at which the buffer of a CPU starts, in the array of all CPUs.
unfoldable pub get_cpu_log_buffer_start : ℕ → ℕ
get_cpu_log_buffer_start cpu_index = cpu_index * entries_per_cpu

-- `meta.head` of entry 0 of the buffer that starts at `start`
unfoldable pub get_last_seq_num : LogBuffer → ℕ → ℕ
get_last_seq_num buffer start = (buffer start).seq_num
