-- ===== src/Handler/Invariant/Sequences.antt =====
-- The invariants over every sequence of events.
use ikgt_usage.Base.{◌≡◌, refl, true, List, [], ◌∷◌, if_both, ℕ}
use ikgt_usage.PolicyCommon.{LogBuffer}
use ikgt_usage.Handler.Api.{Trace, EventInfo, EventData, mem, cpu, msg, other_event, Env, allow}
use ikgt_usage.Handler.Machine.{boot, Machine}
use ikgt_usage.Handler.Table.{empty_table}
use ikgt_usage.Handler.Table.Laws.{empty_table-IsValid}
use ikgt_usage.Handler.Policy.{policy_initialize}
use ikgt_usage.Handler.Events.{
  handler_initialize, dispatch_event, handler_report_event, report_events,
}
use ikgt_usage.Handler.Frame.{rules, rules_of, Keeps-same}
use ikgt_usage.Handler.Frame.Cpu.{handle_memory_event-Keeps, handle_cpu_event-Keeps}
use ikgt_usage.Handler.Invariant.{IsRunning, Keeps-IsRunning, IsValid-rules_of}
use ikgt_usage.Handler.Invariant.Messages.{handle_msg_event-IsRunning}

dispatch_event-IsRunning :
    (env : Env) (info : EventInfo) (data_ : EventData) (m : Machine)
    → IsRunning m
    → IsRunning (dispatch_event env info data_ m)
unfolding dispatch_event
dispatch_event-IsRunning env info (mem perms attempt) m r =
    Keeps-IsRunning m _ (handle_memory_event-Keeps env info perms attempt m) r
dispatch_event-IsRunning env info (cpu op event_reg operand) m r =
    Keeps-IsRunning m _ (handle_cpu_event-Keeps env info op event_reg operand m) r
dispatch_event-IsRunning env info (msg gva) m r = handle_msg_event-IsRunning env info gva m r
dispatch_event-IsRunning env info other_event m r = r

handler_report_event-IsRunning :
    (env : Env) (info : EventInfo) (m : Machine)
    → IsRunning m
    → IsRunning (handler_report_event env info m)
unfolding handler_report_event
handler_report_event-IsRunning env info m r =
    let start : Machine = record m { response = allow } in
    let r' = Keeps-IsRunning m start (Keeps-same m start refl refl refl refl) r in
    if_both IsRunning m.init_status (dispatch_event env info info.event_data start) start
      (dispatch_event-IsRunning env info info.event_data start r') r'

-- A running handler stays so over every sequence of events, whatever the hypervisor answers: it is
-- initialised, its policy table is valid (each resource at most once, the count right), and it has
-- followed no null table.
pub report_events-IsRunning :
    (env : Env) (events : List EventInfo) (m : Machine)
    → IsRunning m
    → IsRunning (report_events env events m)
unfolding report_events
report_events-IsRunning env [] m r = r
report_events-IsRunning env (e ∷ es) m r =
    report_events-IsRunning env es (handler_report_event env e m)
      (handler_report_event-IsRunning env e m r)

init-boot :
    (env : Env) (memory : ℕ → LogBuffer) (t : Trace)
    → env.malloc_succeeds t ≡ true
    → IsRunning (handler_initialize env (boot memory t))
unfolding handler_initialize policy_initialize boot rules
init-boot env memory t h = rw h (record {
  initialised = refl;
  loaded = (rules_of empty_table, refl, (IsValid-rules_of empty_table).0 empty_table-IsValid.0);
  no_fault = refl;
})

-- When `handler_initialize` gets its memory, then over every later sequence of events the handler is
-- initialised, its policy table is valid, and it follows no null table.
pub report_events-init :
    (env : Env) (memory : ℕ → LogBuffer) (t : Trace) (events : List EventInfo)
    → env.malloc_succeeds t ≡ true
    → IsRunning (report_events env events (handler_initialize env (boot memory t)))
report_events-init env memory t events h =
    report_events-IsRunning env events (handler_initialize env (boot memory t))
      (init-boot env memory t h)
