-- ===== src/Handler/Memory.antt =====
-- handler/memory.c: violations of the permissions of guest pages.
pub mod Laws
use ikgt_usage.Base.{◌&&◌, ◌==◌, if◌then◌else◌, inc64}
use ikgt_usage.Handler.Api.{EventInfo, Permissions, Env, unspecified, allow}
use ikgt_usage.Handler.Machine.{Machine}
use ikgt_usage.Handler.Log.{log_event}

-- `violation_type_t`; NOT_PRESENT_VIOLATION is never produced.
pub data Violation : Type 0 where
  execute_violation write_violation read_violation unknown_violation : Violation

-- the type of the access that caused the event
unfoldable pub violation_type : Permissions → Permissions → Violation
violation_type perms attempt =
    if perms.executable == 0 && attempt.executable == 1
    then execute_violation
    else if perms.readable == 0 && attempt.readable == 1
    then read_violation
    else if perms.writable == 0 && attempt.writable == 1
    then write_violation
    else unknown_violation

-- the `switch (type)`
unfoldable pub handle_violation : Env → EventInfo → Violation → Machine → Machine
unfolding log_event
handle_violation env event_info execute_violation m = record m {
  mem_counters = record (m.mem_counters) { exec_count = inc64 m.mem_counters.exec_count };
}
handle_violation env event_info read_violation m = record m {
  mem_counters = record (m.mem_counters) { read_count = inc64 m.mem_counters.read_count };
  response = allow;
}
handle_violation env event_info write_violation m = log_event env event_info (record m {
  mem_counters = record (m.mem_counters) { write_count = inc64 m.mem_counters.write_count };
  response = allow;
})
handle_violation env event_info unknown_violation m = record m { response = allow }

unfoldable pub handle_memory_event : Env → EventInfo → Permissions → Permissions → Machine → Machine
unfolding violation_type handle_violation
handle_memory_event env event_info perms attempt m =
    handle_violation env event_info (violation_type perms attempt)
      (record m { response = unspecified })
