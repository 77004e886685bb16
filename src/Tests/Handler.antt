-- ===== src/Tests/Handler.antt =====
-- The handler on a policy that keeps CR0.WP set.
use ikgt_usage.Base.{
  ℕ, zero, suc, ◌≡◌, refl, true, All, [], ◌∷◌, ◌++◌, none, some, arith, replicate, if◌then◌else◌,
  ◌==◌, ◌&&◌,
}
use ikgt_usage.PolicyCommon.Resource.{resource_id_cr0_wp}
use ikgt_usage.Handler.Entry.{is_cr0_entry}
use ikgt_usage.Handler.Api.{is_success, Permissions, allow, unspecified, error}
use ikgt_usage.Handler.Machine.{Machine, boot, PolicyCounters}
use ikgt_usage.Handler.Utils.{
  page_start, page_count, translate_pages, update_pages, util_monitor_memory, monitor_blocks,
  util_monitor_memory_ex,
}
use ikgt_usage.Handler.Utils.Coverage.{changed, page_range, pages, changed-util_monitor_memory_ex}
use ikgt_usage.Handler.Utils.Blocks.{util_monitor_memory_ex_enough}
use ikgt_usage.Handler.Table.{
  empty_table, free_entry, update_first, policy_entry_add, policy_entry_del,
}
use ikgt_usage.Handler.Table.Lookup.{lookup, IsValid}
use ikgt_usage.Handler.Table.Laws.{empty_table-IsValid, add-IsValid, lookup-add, lookup-del}
use ikgt_usage.Handler.Crx.{cr0}
use ikgt_usage.Handler.Crx.Bits.{Elsewhere}
use ikgt_usage.Handler.Crx.Rows.{cr0-IsCrx}
use ikgt_usage.Handler.Msr.{handle_msr_event}
use ikgt_usage.Handler.Msr.Index.{handle_msr_event-wide}
use ikgt_usage.Handler.Memory.{handle_memory_event}
use ikgt_usage.Handler.Memory.Laws.{handle_memory_event-response}
use ikgt_usage.Handler.Events.{handler_initialize, report_events}
use ikgt_usage.Handler.Balance.{live}
use ikgt_usage.Handler.Balance.Sequences.{report_events-IsEven}
use ikgt_usage.Handler.Invariant.{IsRunning}
use ikgt_usage.Handler.Invariant.Sequences.{report_events-init}
use ikgt_usage.Handler.Invariant.Immutable.{IsFrozen, report_events-IsFrozen}
use ikgt_usage.Tests.{cleared, wp_entry, sample_env, message_event}

wp_table-IsValid : IsValid (policy_entry_add wp_entry empty_table)
wp_table-IsValid = add-IsValid wp_entry empty_table (omega arith) empty_table-IsValid.0

lookup-add_example :
    lookup 7 (policy_entry_add wp_entry empty_table).policy_entry
    ≡ (if wp_entry.resource_id == 7 then some wp_entry else lookup 7 empty_table.policy_entry)
lookup-add_example =
    lookup-add wp_entry empty_table 7 empty_table-IsValid.0 empty_table-IsValid.1
      (omega arith, omega arith) (omega arith)

lookup-del_example :
    lookup 7 (policy_entry_del wp_entry (policy_entry_add wp_entry empty_table)).policy_entry ≡ (
      if wp_entry.resource_id == 7
      then none
      else lookup 7 (policy_entry_add wp_entry empty_table).policy_entry)
lookup-del_example =
    lookup-del wp_entry (policy_entry_add wp_entry empty_table) 7 wp_table-IsValid (omega arith)
      (omega arith)

abbrev no_counts : PolicyCounters
no_counts = record {
  count = 0;
  allow_count = 0;
  skip_count = 0;
  sticky_count_allow = 0;
  sticky_count_skip = 0;
}

wp_found :
    lookup resource_id_cr0_wp (policy_entry_add wp_entry empty_table).policy_entry ≡ some wp_entry
unfolding lookup policy_entry_add update_first
wp_found = refl

wp_in_range : is_cr0_entry wp_entry ≡ true
unfolding is_cr0_entry
wp_in_range = refl

free_Elsewhere : (k n : ℕ) → All (Elsewhere cr0 cr0-IsCrx k) (replicate n free_entry)
unfolding is_cr0_entry
free_Elsewhere k zero = tt
free_Elsewhere k (suc n) = (λ h. cc, free_Elsewhere k n)

wp_machine : Machine
wp_machine = record (boot (λ h. cleared) []) {
  init_status = true;
  table = some (policy_entry_add wp_entry empty_table);
  immutable = true;
}

handle_msr_event-wide_example :
    ((handle_msr_event (sample_env true) message_event wp_machine).response ≡ allow)
    × ((handle_msr_event (sample_env true) message_event wp_machine).table ≡ wp_machine.table)
handle_msr_event-wide_example =
    handle_msr_event-wide (sample_env true) message_event wp_machine (λ t. omega arith)

abbrev no_execute : Permissions
no_execute = record { readable = 1; writable = 1; executable = 0 }

abbrev fetch : Permissions
fetch = record { readable = 1; writable = 0; executable = 1 }

handle_memory_event-response_example :
    (handle_memory_event (sample_env true) message_event no_execute fetch wp_machine).response
    ≡ (if no_execute.executable == 0 && fetch.executable == 1 then unspecified else allow)
handle_memory_event-response_example =
    handle_memory_event-response (sample_env true) message_event no_execute fetch wp_machine

util_monitor_memory_ex_enough_example :
    monitor_blocks (sample_env true) 70000 0x10000 65536 1 error
    ≡ util_monitor_memory_ex (sample_env true) 0x10000 65536 1
util_monitor_memory_ex_enough_example =
    util_monitor_memory_ex_enough (sample_env true) 70000 0x10000 65536 1 (omega arith)
      (omega arith)

started : IsRunning (handler_initialize (sample_env true) (boot (λ h. cleared) []))
unfolding report_events
started = report_events-init (sample_env true) (λ h. cleared) [] [] refl

report_events-init_example : IsRunning (
    report_events
      (sample_env true)
      (message_event ∷ message_event ∷ [])
      (handler_initialize (sample_env true) (boot (λ h. cleared) [])))
report_events-init_example =
    report_events-init (sample_env true) (λ h. cleared) [] (message_event ∷ message_event ∷ []) refl

report_events-IsFrozen_example :
    IsFrozen wp_machine (report_events (sample_env true) (message_event ∷ []) wp_machine)
unfolding wp_machine
report_events-IsFrozen_example =
    report_events-IsFrozen (sample_env true) (message_event ∷ []) wp_machine refl

-- Ten pages, in blocks of at most eight.
ten_pages : is_success (util_monitor_memory_ex (sample_env true) 0x10800 40000 1 []).0 ≡ true
unfolding util_monitor_memory_ex monitor_blocks util_monitor_memory update_pages translate_pages
    page_start page_count
ten_pages = refl

changed-util_monitor_memory_ex_example :
    changed (util_monitor_memory_ex (sample_env true) 0x10800 40000 1 []).1
    ≡ changed [] ++ page_range (pages 40000) (page_start 0x10800) 1
changed-util_monitor_memory_ex_example =
    changed-util_monitor_memory_ex (sample_env true) 0x10800 40000 1 [] (omega arith) (omega arith)
      (omega arith) ten_pages

report_events-IsEven_example :
    live (report_events (sample_env true) (message_event ∷ []) wp_machine).trace
    ≡ live wp_machine.trace
report_events-IsEven_example =
    report_events-IsEven (sample_env true) (message_event ∷ []) wp_machine
