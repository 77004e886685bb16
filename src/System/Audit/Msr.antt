-- ===== src/System/Audit/Msr.antt =====
-- What a guest's write to a model-specific register leaves behind: from handler/handler.c through
-- handler/cpu.c to the loop of handler/cpu_msr.c and the record in handler/log.c.
use ikgt_usage.Base.{ℕ, ◌≡◌, ◌≢◌, sym, subst, true, some, inc64}
use ikgt_usage.PolicyCommon.Resource.{resource_id_unknown}
use ikgt_usage.Handler.Entry.{PolicyTable}
use ikgt_usage.Handler.Api.{Env, EventInfo, CpuReg, cpu, msr}
use ikgt_usage.Handler.MaskTables.{ia32_msr_invalid}
use ikgt_usage.Handler.Machine.{Machine}
use ikgt_usage.Base.Join.{join}
use ikgt_usage.Handler.Msr.Wrmsr.{IsWrmsr, msr_operands-IsWrmsr}
use ikgt_usage.Handler.Msr.{
  res_id_to_msr, msr_operands, scan_msr_slots, decide_msr, handle_msr_event,
}
use ikgt_usage.Handler.Msr.Audit.{MsrAudited, scan_msr_slots-MsrAudited}
use ikgt_usage.Handler.Events.{handler_report_event}
use ikgt_usage.System.Protection.Msr.{entering_msr, reported_msr}

-- The machine when the operands have been read: the write is counted.
abbrev pub read_by : Env → Machine → Machine
read_by env m = record (entering_msr m) {
  msr_counters = record (m.msr_counters) { count = inc64 m.msr_counters.count };
  trace = (msr_operands env m.trace).1;
}

-- The audit of the program for a model-specific register. On an initialised handler with a table, a WRMSR
-- whose RCX is the number of a register that the handler's table knows, with no bit set above it, gives
-- the first entry of its resource, if there is one, one more access, and no other entry, if there is
-- memory for the reads of the guest's registers and the hypervisor answers them; the four counters of
-- outcomes together then grow by one, up to their wrap-around; and the write is logged exactly when that
-- entry asks for it. Without such an entry the table, these counters and the log stay as they are.
pub handler_report_event-MsrAudited :
    (env : Env) (info : EventInfo) (id rax rdx : ℕ) (t : PolicyTable) (m : Machine)
    (event_reg operand_reg : CpuReg)
    → m.init_status ≡ true
    → m.table ≡ some t
    → id ≢ resource_id_unknown
    → res_id_to_msr id ≢ ia32_msr_invalid
    → info.event_data ≡ cpu msr event_reg operand_reg
    → IsWrmsr env m.trace (res_id_to_msr id) rax rdx
    → MsrAudited env info id t (read_by env m) (handler_report_event env info m)
unfolding handle_msr_event decide_msr
handler_report_event-MsrAudited env info id rax rdx t m event_reg operand_reg i loaded named known d
      w =
    let value : ℕ = join rdx rax in
    let operands = msr_operands-IsWrmsr env m.trace id rax rdx known w in
    let m1 : Machine = read_by env m in
    subst (MsrAudited env info id t m1) (sym (reported_msr env info event_reg operand_reg m i d)) (
      subst (λ o. MsrAudited env info id t m1 (decide_msr env info o m1)) (sym operands)
        (subst
          (λ o. MsrAudited env info id t m1 (scan_msr_slots env info value (res_id_to_msr id) o m1))
          (sym loaded) (scan_msr_slots-MsrAudited env info id value t m1 loaded named known)))
