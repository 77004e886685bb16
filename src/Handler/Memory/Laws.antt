-- ===== src/Handler/Memory/Laws.antt =====
-- The response to a violation of a page's permissions.
use ikgt_usage.Base.{◌≡◌, arith, ◌==◌, if◌then◌else◌, ◌&&◌, inc64}
use ikgt_usage.Handler.Api.{EventInfo, Env, Permissions, allow, unspecified}
use ikgt_usage.Handler.Machine.{Machine}
use ikgt_usage.Handler.Log.{log_event}
use ikgt_usage.Handler.Memory.{violation_type, handle_violation, handle_memory_event}

log_event-response :
    (env : Env) (info : EventInfo) (m : Machine) → (log_event env info m).response ≡ m.response
unfolding log_event
log_event-response env info m = ground arith

-- `handle_memory_event` leaves the response unspecified for the execution of a page that is not
-- executable, whatever else the access attempts, against the note above the function, which asks for a
-- specific response; and it allows every other access.
pub handle_memory_event-response :
    (env : Env) (info : EventInfo) (perms attempt : Permissions) (m : Machine)
    → (handle_memory_event env info perms attempt m).response
      ≡ (if perms.executable == 0 && attempt.executable == 1 then unspecified else allow)
unfolding handle_memory_event handle_violation violation_type
handle_memory_event-response env info perms attempt m = ground (
  arith,
  log_event-response env info (record m {
    mem_counters = record (m.mem_counters) { write_count = inc64 m.mem_counters.write_count };
    response = allow;
  }),
)
