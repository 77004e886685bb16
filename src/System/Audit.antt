-- ===== src/System/Audit.antt =====
-- What a guest's write to a control register leaves behind: from handler/handler.c through handler/cpu.c
-- to the loops of handler/cpu_cr0.c and handler/cpu_cr4.c and the record in handler/log.c.
pub mod Msr
use ikgt_usage.Base.{ℕ, ◌≡◌, ◌≢◌, sym, subst, ◌∙◌, true, some, bit_xor}
use ikgt_usage.Handler.Entry.{PolicyTable}
use ikgt_usage.Handler.Api.{Env, EventInfo, CpuReg, cpu, reg, VmcsReg}
use ikgt_usage.Handler.Machine.{Machine, resume}
use ikgt_usage.Handler.Crx.{Crx, crx_operands, decide_crx, handle_crx_event}
use ikgt_usage.Handler.Crx.Audit.{IsApart, Audited, decide_crx-Audited}
use ikgt_usage.Handler.Events.{handler_report_event}
use ikgt_usage.System.Protection.{IsHandled, entering, operands-table, reported}

-- The audit of the program for a control register. On an initialised handler with a table, a write to the
-- register that changes its value and whose operand can be read gives each entry about a changed bit one
-- more access, and no other entry; the four counters of outcomes together grow by the number of these
-- entries, up to their wrap-around; and the write is logged exactly when one of these entries asks for
-- it, and else leaves the log as it is after the reads.
pub handler_report_event-Audited :
    (crx : Crx) (a : IsApart crx) (r : CpuReg) (h : IsHandled crx r) (env : Env) (info : EventInfo)
    (operand : CpuReg) (id : VmcsReg) (cur new : ℕ) (t : PolicyTable) (m : Machine)
    → m.init_status ≡ true
    → m.table ≡ some t
    → info.event_data ≡ cpu reg r operand
    → (crx_operands crx env operand (entering m)).0 ≡ some (id, (cur, new))
    → bit_xor cur new ≢ 0
    → Audited crx env info cur new t
        (crx_operands crx env operand (entering m)).1
        (handler_report_event env info m)
unfolding handle_crx_event
handler_report_event-Audited crx a r h env info operand id cur new t m i loaded d operands ne =
    let m1 : Machine = (crx_operands crx env operand (entering m)).1 in
    subst (Audited crx env info cur new t m1) (sym (reported crx r h env info operand m i d)) (
      subst (λ o. Audited crx env info cur new t m1 (resume (decide_crx crx env info) o m1).1)
        (sym operands)
        (decide_crx-Audited crx a env info id cur new t m1 ne
          (operands-table crx r h env operand (entering m) ∙ loaded)))
