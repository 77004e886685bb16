-- ===== src/Handler/Events.antt =====
-- handler/cpu.c, handler/message.c and handler/handler.c: the dispatch of an event to its handler.
use ikgt_usage.Base.{ℕ, ◌&&◌, List, [], ◌∷◌, ◌==◌, if◌then◌else◌, inc64}
use ikgt_usage.PolicyCommon.{
  PolicyMessage, LogMessage, policy_entry_enable, policy_entry_disable, policy_make_immutable,
  policy_init_log, policy_debug_command,
}
use ikgt_usage.Handler.Api.{
  CpuReg, CpuOp, cpuid, reg, msr, other_op, EventInfo, EventData, mem, cpu, msg, other_event, Env,
  Status, is_success, unspecified, allow, copy_gva_to_hva, call, ikgt_malloc, ikgt_free,
}
use ikgt_usage.Handler.Debug.{handle_msg_debug}
use ikgt_usage.Handler.Machine.{Machine}
use ikgt_usage.Handler.Log.{start_log}
use ikgt_usage.Handler.Crx.{handle_cr0_event, handle_cr4_event}
use ikgt_usage.Handler.Msr.{handle_msr_event}
use ikgt_usage.Handler.Memory.{handle_memory_event}
use ikgt_usage.Handler.Policy.{
  policy_initialize, handle_msg_policy_enable, handle_msg_policy_disable,
  handle_msg_policy_make_immutable,
}

-- the inner `switch (cpuinfo->event_reg)`
unfoldable pub handle_reg_event : Env → EventInfo → CpuReg → CpuReg → Machine → Machine
unfolding handle_cr0_event handle_cr4_event
handle_reg_event env event_info CpuReg.cr0 operand_reg = handle_cr0_event env event_info operand_reg
handle_reg_event env event_info CpuReg.cr4 operand_reg = handle_cr4_event env event_info operand_reg
handle_reg_event env event_info _ operand_reg = λ m. m

unfoldable pub handle_cpu_event : Env → EventInfo → CpuOp → CpuReg → CpuReg → Machine → Machine
unfolding handle_reg_event handle_msr_event
handle_cpu_event env event_info cpuid event_reg operand_reg m = record m { response = unspecified }
handle_cpu_event env event_info reg event_reg operand_reg m =
    handle_reg_event env event_info event_reg operand_reg (record m {
      cpu_counters = record (m.cpu_counters) { reg_count = inc64 m.cpu_counters.reg_count };
    })
handle_cpu_event env event_info msr event_reg operand_reg m =
    handle_msr_event env event_info (record m {
      cpu_counters = record (m.cpu_counters) { msr_count = inc64 m.cpu_counters.msr_count };
    })
handle_cpu_event env event_info other_op event_reg operand_reg m = m

abbrev pub handle_msg_init : Env → EventInfo → LogMessage → Machine → Machine
handle_msg_init = start_log

-- the `switch (msg->command)`; POLICY_DEBUG is there only if DEBUG is defined.
unfoldable pub handle_command : Env → EventInfo → PolicyMessage → Machine → Machine
unfolding start_log handle_msg_policy_enable handle_msg_policy_disable
    handle_msg_policy_make_immutable handle_msg_debug
handle_command env event_info message m =
    if message.command == policy_init_log
    then handle_msg_init env event_info message.log_param m
    else if message.command == policy_entry_enable
    then handle_msg_policy_enable env message.policy_data m
    else if message.command == policy_entry_disable
    then handle_msg_policy_disable env message.policy_data m
    else if message.command == policy_make_immutable
    then handle_msg_policy_make_immutable m
    else if env.debug && message.command == policy_debug_command
    then (handle_msg_debug message.debug_parameter m).0
    else m

-- the message as `ikgt_copy_gva_to_hva` leaves it, handled if the copy succeeded
unfoldable pub receive_message : Env → EventInfo → Status × PolicyMessage → Machine → Machine
unfolding handle_command
receive_message env event_info (status, message) m =
    if is_success status then handle_command env event_info message m else m

unfoldable pub handle_msg_event : Env → EventInfo → ℕ → Machine → Machine
unfolding receive_message
handle_msg_event env event_info gva m =
    let allocated = ikgt_malloc env m.trace in
    let answer = call (λ t. env.copy_message t gva) (copy_gva_to_hva gva) allocated.1 in
    let handled = receive_message env event_info answer.0 (record m { trace = answer.1 }) in
    if allocated.0
    then record handled { trace = (ikgt_free env handled.trace).1 }
    else record m { trace = allocated.1 }

-- `handler_initialize`. It is declared to return a boolean_t but has no return statement, so only
-- its effect is modelled.
unfoldable pub handler_initialize : Env → Machine → Machine
unfolding policy_initialize
handler_initialize env m =
    let (status, m') = policy_initialize env m in record m' { init_status = status }

unfoldable pub dispatch_event : Env → EventInfo → EventData → Machine → Machine
unfolding handle_memory_event handle_cpu_event handle_msg_event
dispatch_event env event_info (mem perms attempt) = handle_memory_event env event_info perms attempt
dispatch_event env event_info (cpu op event_reg operand_reg) =
    handle_cpu_event env event_info op event_reg operand_reg
dispatch_event env event_info (msg gva) = handle_msg_event env event_info gva
dispatch_event env event_info other_event = λ m. m

unfoldable pub handler_report_event : Env → EventInfo → Machine → Machine
unfolding dispatch_event
handler_report_event env event_info m =
    if m.init_status
    then dispatch_event env event_info event_info.event_data (record m { response = allow })
    else record m { response = allow }

-- A sequence of events, one after the other.
unfoldable pub report_events : Env → List EventInfo → Machine → Machine
unfolding handler_report_event
report_events env [] m = m
report_events env (e ∷ es) m = report_events env es (handler_report_event env e m)
