-- ===== src/Handler/Balance/Sequences.antt =====
-- The blocks allocated over a sequence of events: handler/policy.c, message.c and handler.c.
use ikgt_usage.Base.{
  ℕ, ◌≡◌, inc64, refl, ◌∙◌, true, false, Bool, List, [], ◌∷◌, Option, none, some, arith, if_both,
  ◌==◌,
}
use ikgt_usage.PolicyCommon.{PolicyMessage, PolicyUpdateRec}
use ikgt_usage.PolicyCommon.Resource.{resource_id_unknown}
use ikgt_usage.Handler.Entry.{PolicyEntry, PolicyTable, is_cr0_entry, is_cr4_entry}
use ikgt_usage.Handler.Api.{
  Env, CpuReg, CpuOp, cpuid, reg, msr, other_op, EventInfo, EventData, mem, cpu, msg, other_event,
  Status, malloc, allow, cr0, cr4, call, copy_gva_to_hva, pure, error,
}
use ikgt_usage.Handler.MaskTables.{ia32_msr_invalid}
use ikgt_usage.Handler.Machine.{Machine}
use ikgt_usage.Handler.Crx
use ikgt_usage.Handler.Crx.{handle_cr0_event, handle_cr4_event}
use ikgt_usage.Handler.Msr.{res_id_to_msr}
use ikgt_usage.Handler.Memory.{
  Violation, execute_violation, read_violation, write_violation, unknown_violation,
  handle_violation, handle_memory_event,
}
use ikgt_usage.Handler.Policy.{
  policy_monitor_cpu_events, policy_set_monitor, policy_msg_add_to, policy_msg_add,
  policy_msg_del_to, policy_msg_del, handle_msg_policy_enable, handle_msg_policy_disable,
  handle_msg_policy_make_immutable, policy_sanity_check, policy_debug,
}
use ikgt_usage.Handler.Table.{policy_msg_to_entry}
use ikgt_usage.Handler.Events.{
  handle_reg_event, handle_cpu_event, handle_command, receive_message, handle_msg_event,
  dispatch_event, handler_report_event, report_events,
}
use ikgt_usage.Handler.Balance.{
  live, IsBalanced, util_monitor_cpu_events-IsBalanced, util_monitor_msr-IsBalanced,
}
use ikgt_usage.Handler.Balance.Events.{
  IsEven, log_event-IsEven, handle_crx_event-IsEven, handle_msr_event-IsEven, start_log-IsEven,
}

policy_set_monitor-IsBalanced :
    (env : Env) (e : PolicyEntry) (enable : Bool) → IsBalanced (policy_set_monitor env e enable)
unfolding policy_set_monitor policy_monitor_cpu_events
policy_set_monitor-IsBalanced env e enable =
    if_both IsBalanced (is_cr0_entry e) _ _ (util_monitor_cpu_events-IsBalanced env _ _ _ _ enable)
      (if_both IsBalanced (is_cr4_entry e) _ _
        (util_monitor_cpu_events-IsBalanced env _ _ _ _ enable)
        (if_both IsBalanced (res_id_to_msr e.resource_id == ia32_msr_invalid) (pure error) _
          (λ t. refl) (util_monitor_msr-IsBalanced env (res_id_to_msr e.resource_id) enable)))

add_to-IsEven :
    (env : Env) (m : PolicyUpdateRec) (o : Option PolicyTable) (s : Machine)
    → IsEven s (policy_msg_add_to env m o s).1
unfolding policy_msg_add_to
add_to-IsEven env m none s = refl
add_to-IsEven env m (some t) s =
    if_both (λ (r : Status × Machine). IsEven s r.1) (m.resource_id == resource_id_unknown)
      (error, s) _ refl
      (policy_set_monitor-IsBalanced env (policy_msg_to_entry m env.stack_entry) true s.trace)

del_to-IsEven :
    (env : Env) (m : PolicyUpdateRec) (o : Option PolicyTable) (s : Machine)
    → IsEven s (policy_msg_del_to env m o s).1
unfolding policy_msg_del_to
del_to-IsEven env m none s = refl
del_to-IsEven env m (some t) s =
    if_both (λ (r : Status × Machine). IsEven s r.1) (m.resource_id == resource_id_unknown)
      (error, s) _ refl
      (policy_set_monitor-IsBalanced env (policy_msg_to_entry m env.stack_entry) false s.trace)

handle_command-IsEven :
    (env : Env) (e : EventInfo) (message : PolicyMessage) (m : Machine)
    → IsEven m (handle_command env e message m)
unfolding handle_command handle_msg_policy_enable handle_msg_policy_disable policy_msg_add
    policy_msg_del handle_msg_policy_make_immutable policy_debug policy_sanity_check
handle_command-IsEven env e message m = ground (
  arith,
  start_log-IsEven env e message.log_param m,
  add_to-IsEven env message.policy_data m.table m,
  del_to-IsEven env message.policy_data m.table m,
)

handle_msg_event-IsEven :
    (env : Env) (e : EventInfo) (gva : ℕ) (m : Machine) → IsEven m (handle_msg_event env e gva m)
unfolding handle_msg_event receive_message live
handle_msg_event-IsEven env e gva m =
    let answer =
      call (λ t. env.copy_message t gva) (copy_gva_to_hva gva)
        (malloc (env.malloc_succeeds m.trace) ∷ m.trace) in
    ground (arith, handle_command-IsEven env e answer.0.1 (record m { trace = answer.1 }))

handle_violation-IsEven :
    (env : Env) (e : EventInfo) (v : Violation) (m : Machine)
    → IsEven m (handle_violation env e v m)
unfolding handle_violation
handle_violation-IsEven env e execute_violation m = refl
handle_violation-IsEven env e read_violation m = refl
handle_violation-IsEven env e write_violation m = log_event-IsEven env e _
handle_violation-IsEven env e unknown_violation m = refl

handle_cpu_event-IsEven :
    (env : Env) (e : EventInfo) (op : CpuOp) (event_reg operand : CpuReg) (m : Machine)
    → IsEven m (handle_cpu_event env e op event_reg operand m)
unfolding handle_cpu_event handle_reg_event handle_cr0_event handle_cr4_event
handle_cpu_event-IsEven env e cpuid event_reg operand m = refl
handle_cpu_event-IsEven env e reg cr0 operand m =
    handle_crx_event-IsEven Crx.cr0 (λ m c. refl) env e operand
      (record m {
        cpu_counters = record (m.cpu_counters) { reg_count = inc64 m.cpu_counters.reg_count };
      })
handle_cpu_event-IsEven env e reg cr4 operand m =
    handle_crx_event-IsEven Crx.cr4 (λ m c. refl) env e operand
      (record m {
        cpu_counters = record (m.cpu_counters) { reg_count = inc64 m.cpu_counters.reg_count };
      })
handle_cpu_event-IsEven env e reg _ operand m = refl
handle_cpu_event-IsEven env e msr event_reg operand m = handle_msr_event-IsEven env e (record m {
  cpu_counters = record (m.cpu_counters) { msr_count = inc64 m.cpu_counters.msr_count };
})
handle_cpu_event-IsEven env e other_op event_reg operand m = refl

dispatch_event-IsEven :
    (env : Env) (e : EventInfo) (d : EventData) (m : Machine) → IsEven m (dispatch_event env e d m)
unfolding dispatch_event handle_memory_event
dispatch_event-IsEven env e (mem perms attempt) m = handle_violation-IsEven env e _ _
dispatch_event-IsEven env e (cpu op event_reg operand) m =
    handle_cpu_event-IsEven env e op event_reg operand m
dispatch_event-IsEven env e (msg gva) m = handle_msg_event-IsEven env e gva m
dispatch_event-IsEven env e other_event m = refl

-- Over every sequence of events, whatever the hypervisor answers and whichever allocations fail, the
-- handler frees as many blocks as it allocates: after it, as many are allocated as before.
pub report_events-IsEven :
    (env : Env) (events : List EventInfo) (m : Machine)
    → live (report_events env events m).trace ≡ live m.trace
unfolding report_events handler_report_event
report_events-IsEven env [] m = refl
report_events-IsEven env (e ∷ es) m =
    report_events-IsEven env es (handler_report_event env e m)
    ∙ if_both (IsEven m) m.init_status _ _
        (dispatch_event-IsEven env e e.event_data (record m { response = allow })) refl
