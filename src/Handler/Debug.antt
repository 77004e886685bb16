-- ===== src/Handler/Debug.antt =====
-- handler/policy.c: the dump of the policy table, and the debug command of handler/message.c with what
-- the other files print for it.
pub mod Laws
use ikgt_usage.Base.{
  ℕ, zero, suc, ◌+◌, ◌*◌, ◌-◌, Bool, true, false, not, ◌&&◌, List, [], ◌∷◌, ◌++◌, Option, none,
  some, ltb, leb, ◌==◌, if◌then◌else◌, get_elem?, length,
}
use Prim.Native.String.{String}
use ikgt_usage.PolicyCommon.{LogBuffer, get_cpu_log_buffer_start, get_last_seq_num, logs_per_cpu}
use ikgt_usage.Handler.Log.{log_buffer_add_record, set_memory}
use ikgt_usage.PolicyCommon.Resource.{resource_id_start, resource_id_end, resource_id_unknown}
use ikgt_usage.Handler.Entry.{PolicyEntry, PolicyTable, policy_max_entries}
use ikgt_usage.Handler.Machine.{Machine, PolicyCounters, CpuCounters, MemCounters}
use ikgt_usage.Handler.Names.{res_id_to_string}
use ikgt_usage.Handler.Print.{Arg, Print, number, text}
use ikgt_usage.Handler.Policy.{policy_debug}

-- A line with a number.
abbrev pub line : String → ℕ → Print
line format n = record { format = format; args = number n ∷ [] }

abbrev pub words : String → Print
words format = record { format = format; args = [] }

-- `ikgt_printf("%s(%u)\n", __func__, command_code)`
abbrev pub title : String → ℕ → Print
title func command_code = record {
  format = "%s(%u)\n";
  args = text (some func) ∷ number command_code ∷ [];
}

-- One round of the inner loop, for an element that is not 0.
abbrev info_line : ℕ → ℕ → List Print → List Print
info_line j value rest =
    if value == 0
    then rest
    else record { format = "resource_info[%u]=0x%llx\n"; args = number j ∷ number value ∷ [] }
      ∷ rest

-- What is printed of the used slot `i`.
unfoldable pub slot_lines : ℕ → PolicyEntry → List Print
unfolding res_id_to_string
slot_lines i e =
    line "#%d:\n" i
    ∷ record {
      format = "resource_id=%u (%s)\n";
      args = number e.resource_id ∷ text (res_id_to_string e.resource_id) ∷ [];
    }
    ∷ line "sticky_val=0x%llx\n" e.sticky_val
    ∷ record {
      format = "rwx=(0x%x, 0x%x, 0x%x)\n";
      args = number e.r_action ∷ number e.w_action ∷ number e.x_action ∷ [];
    }
    ∷ line "access_count=%u\n" e.access_count
    ∷ info_line 0 e.resource_info.mask
        (info_line 1 e.resource_info.cpu_mask_1 (info_line 2 e.resource_info.cpu_mask_2 []))

-- The loop from slot `i` on, with `count` used slots before it.
unfoldable pub dump_slots : ℕ → ℕ → List PolicyEntry → List Print
unfolding slot_lines
dump_slots i count [] = []
dump_slots i count (e ∷ es) =
    let next = dump_slots (i + 1) count es in
    let more = dump_slots (i + 1) (count + 1) es in
    if e.resource_id == resource_id_unknown
    then next
    else slot_lines i e ++ (if ltb 100 (count + 1) then words "count > 100\n" ∷ [] else more)

abbrev sizeof_policy_update_rec : ℕ
sizeof_policy_update_rec = 4 * 4 + 8 + 3 * 8

abbrev sizeof_policy_entry : ℕ
sizeof_policy_entry = 6 * 4 + 8 + 3 * 8

abbrev sizeof_policy_table : ℕ
sizeof_policy_table = 3 * 8 + policy_max_entries * sizeof_policy_entry

-- The lines before the loop.
abbrev pub dump_header : PolicyTable → Bool → List Print
dump_header t immutable =
    record { format = "%s:\n"; args = text (some "policy_dump") ∷ [] }
    ∷ line "POLICY_MAX_ENTRIES=%u\n" policy_max_entries
    ∷ line "num_entries=%u\n" t.num_entries
    ∷ line "sizeof(policy_update_rec_t)=%u\n" sizeof_policy_update_rec
    ∷ line "sizeof(policy_entry_t)=%u\n" sizeof_policy_entry
    ∷ line "sizeof(policy_table_t)=%u\n" sizeof_policy_table
    ∷ line "g_policy_immutable=%u\n" (if immutable then 1 else 0)
    ∷ []

-- `policy_dump` where DEBUG is defined
unfoldable pub policy_dump : PolicyTable → Bool → List Print
unfolding dump_slots
policy_dump t immutable =
    dump_header t immutable ++ (dump_slots 0 0 t.policy_entry ++ (words "\n" ∷ []))

-- `policy_cr0_dump`, `policy_cr4_dump` and `policy_msr_dump`
abbrev policy_cr0_dump : PolicyCounters → List Print
policy_cr0_dump c =
    record { format = "%s:\n"; args = text (some "policy_cr0_dump") ∷ [] }
    ∷ line "g_cr0_count=%u\n" c.count
    ∷ line "g_cr0_allow_count=%u\n" c.allow_count
    ∷ line "g_cr0_skip_count=%u\n" c.skip_count
    ∷ line "g_cr0_sticky_count_allow=%u\n" c.sticky_count_allow
    ∷ line "g_cr0_sticky_count_skip=%u\n" c.sticky_count_skip
    ∷ words "\n"
    ∷ []

abbrev policy_cr4_dump : PolicyCounters → List Print
policy_cr4_dump c =
    record { format = "%s:\n"; args = text (some "policy_cr4_dump") ∷ [] }
    ∷ line "g_cr4_count=%u\n" c.count
    ∷ line "g_cr4_allow_count=%u\n" c.allow_count
    ∷ line "g_cr4_skip_count=%u\n" c.skip_count
    ∷ line "g_cr4_sticky_count_allow=%u\n" c.sticky_count_allow
    ∷ line "g_cr4_sticky_count_skip=%u\n" c.sticky_count_skip
    ∷ words "\n"
    ∷ []

abbrev policy_msr_dump : PolicyCounters → List Print
policy_msr_dump c =
    line "g_msr_count=%u\n" c.count
    ∷ line "g_msr_allow_count=%u\n" c.allow_count
    ∷ line "g_msr_skip_count=%u\n" c.skip_count
    ∷ line "g_msr_sticky_count_allow=%u\n" c.sticky_count_allow
    ∷ line "g_msr_sticky_count_skip=%u\n" c.sticky_count_skip
    ∷ []

abbrev pub policy_cr0_debug : ℕ → Machine → List Print
policy_cr0_debug command_code m =
    title "policy_cr0_debug" command_code ∷ policy_cr0_dump m.cr0_counters

abbrev pub policy_cr4_debug : ℕ → Machine → List Print
policy_cr4_debug command_code m =
    title "policy_cr4_debug" command_code ∷ policy_cr4_dump m.cr4_counters

abbrev pub policy_msr_debug : ℕ → Machine → List Print
policy_msr_debug command_code m =
    title "policy_msr_debug" command_code ∷ policy_msr_dump m.msr_counters

abbrev pub memory_debug : ℕ → Machine → List Print
memory_debug command_code m =
    title "memory_debug" command_code
    ∷ line "g_mem_write_count=%u\n" m.mem_counters.write_count
    ∷ []

abbrev pub cpu_debug : ℕ → Machine → List Print
cpu_debug command_code m =
    title "cpu_debug" command_code
    ∷ line "g_cpu_reg_count=%u\n" m.cpu_counters.reg_count
    ∷ line "g_cpu_msr_count=%u\n" m.cpu_counters.msr_count
    ∷ []

abbrev pub log_debug : ℕ → List Print
log_debug command_code = title "log_debug" command_code ∷ line "LOGS_PER_CPU=%u\n" logs_per_cpu ∷ []

-- The default branch of `policy_debug`, for what `g_policy_table` points to; a null table has faulted.
abbrev default_lines : ℕ → Option PolicyTable → Machine → List Print
default_lines parameter none m = []
default_lines parameter (some t) m =
    policy_dump t m.immutable
    ++ (policy_cr0_debug parameter m
        ++ (policy_cr4_debug parameter m ++ policy_msr_debug parameter m))

-- What `policy_debug` prints.
unfoldable pub policy_debug_lines : ℕ → Machine → List Print
unfolding policy_dump
policy_debug_lines parameter m =
    record { format = "%s: %lu\n"; args = text (some "policy_debug") ∷ number parameter ∷ [] }
    ∷ (if parameter == 400
        then record { format = "%s\n"; args = text (some "handle_msg_policy_make_immutable") ∷ [] }
          ∷ []
        else default_lines parameter m.table m)

-- `handle_msg_debug`: the machine afterwards, and what is printed.
unfoldable pub handle_msg_debug : ℕ → Machine → Machine × List Print
unfolding policy_debug policy_debug_lines
handle_msg_debug parameter m = (
  policy_debug parameter m,
  memory_debug parameter m
      ++ (cpu_debug parameter m ++ (policy_debug_lines parameter m ++ log_debug parameter)),
)

-- The first `n` rounds of the loop of `log_debug_fill`.
unfoldable pub fill_records : LogBuffer → ℕ → ℕ → LogBuffer
unfolding log_buffer_add_record
fill_records buffer start zero = buffer
fill_records buffer start (suc i) =
    log_buffer_add_record (fill_records buffer start i) start i (i + 3) (i + 5) (i + 7)

-- `log_debug_fill`, with the buffer of CPU 3; the call of it in `log_debug` is commented out.
unfoldable pub log_debug_fill : Machine → Machine × List Print
unfolding fill_records get_cpu_log_buffer_start get_last_seq_num
log_debug_fill m =
    let func : Print = record { format = "%s:\n"; args = text (some "log_debug_fill") ∷ [] } in
    elim m.log.log_data_hva [
      | none ↦ (m, func ∷ [])
      | some hva ↦
          let start : ℕ = get_cpu_log_buffer_start 3 in
          let filled : LogBuffer = fill_records (m.log.memory hva) start 10000 in
          (
            record m { log = set_memory m.log hva filled },
            func ∷ line "get_last_seq_num()=%llu\n" (get_last_seq_num filled start) ∷ [],
          )
    ]
