-- ===== src/System/Session/Answers.antt =====
-- A guest's write at a moment of the whole program, from driver/cr0.c, driver/cr4.c and driver/msr.c to
-- handler/cpu_cr0.c, handler/cpu_cr4.c and handler/cpu_msr.c.
use ikgt_usage.Base.{ℕ, ◌≡◌, ◌≢◌, ap, subst, ◌∙◌, true, List, Option, some, bit_xor}
use ikgt_usage.PolicyCommon.{LogBuffer}
use ikgt_usage.PolicyCommon.Resource.{resource_id_unknown}
use ikgt_usage.Handler.Api.{Env, EventInfo, CpuReg, cpu, reg, msr, VmcsReg}
use ikgt_usage.Handler.Api
use ikgt_usage.Handler.Entry.{PolicyEntry}
use ikgt_usage.Handler.MaskTables.{ia32_msr_invalid}
use ikgt_usage.Handler.Machine.{Machine}
use ikgt_usage.Handler.Crx.{Crx, crx_operands}
use ikgt_usage.Handler.Crx.Bits.{IsCrx}
use ikgt_usage.Base.Join.{join}
use ikgt_usage.Handler.Msr.Wrmsr.{IsWrmsr, msr_operands-IsWrmsr}
use ikgt_usage.Handler.Msr.{res_id_to_msr}
use ikgt_usage.Handler.Events.{handler_report_event}
use ikgt_usage.Handler.Policies.{replay}
use ikgt_usage.Handler.Policies.Sequences.{no_policies}
use ikgt_usage.Driver.Kernel.{Kernel}
use ikgt_usage.Driver.Tree.{TreeOp}
use ikgt_usage.System.Protection.{IsHandled, entering}
use ikgt_usage.System.Answers.{Answers, entry_named, handler_report_event-Answers}
use ikgt_usage.System.Answers.Msr.{answer_by, handler_report_event-answer_by}
use ikgt_usage.System.Session.{
  Step, calls_in, sent, IsMoment, handler_at, moment-Runs, policies-run_steps,
}

-- The policy of a resource that the driver's messages so far make of none.
abbrev pub sent_policy : Env → List Step → ℕ → Option PolicyEntry
sent_policy env steps = (replay env (sent (calls_in steps)) no_policies).policy

module _ (kernel : Kernel) (env : Env) (info : EventInfo) (memory : ℕ → LogBuffer)
    (start : Api.Trace) (gva : ℕ) (d : info.event_data ≡ Api.msg gva)
    (memory_left : (t : Api.Trace) → env.malloc_succeeds t ≡ true) (ops : List TreeOp)
    (steps : List Step) (now : IsMoment kernel ops steps) where
  -- What the user of the driver gets for a control register. If the handler gets its memory at the start
  -- and for every message, and each message of the driver is delivered as it was sent, then at any moment
  -- of the whole program, whatever the user does from an empty directory and the guest accesses in between,
  -- a write of the guest to the register that changes its value and whose operand can be read is given a
  -- value in which the bit of each resource is what the policy says that the driver's messages so far have
  -- made for it, or the guest's if they have made none. If this is the register's own value, the write is
  -- redirected. Otherwise it is allowed after a last call that puts the value in place of the guest's; if
  -- there is no memory for this call, or the hypervisor refuses it, the write is allowed all the same, and
  -- the guest's own value goes through.
  pub run_steps-Answers :
      (crx : Crx) (c : IsCrx crx) (r : CpuReg) (h : IsHandled crx r) (resource : ℕ)
      (of_crx : crx.is_crx_entry (entry_named resource) ≡ true) (env' : Env) (write : EventInfo)
      (operand : CpuReg) (id : VmcsReg) (cur new : ℕ)
      → write.event_data ≡ cpu reg r operand
      → (crx_operands crx env' operand (entering (handler_at env info memory start steps))).0
        ≡ some (id, (cur, new))
      → bit_xor cur new ≢ 0
      → Answers env' id cur new
          (c.position resource)
          (sent_policy env steps resource)
          (handler_report_event env' write (handler_at env info memory start steps))
  run_steps-Answers crx c r h resource of_crx env' write operand id cur new w operands ne =
      let m : Machine = handler_at env info memory start steps in
      subst
        (λ p.
          Answers env' id cur new (c.position resource) (p.policy resource)
            (handler_report_event env' write m))
        (policies-run_steps kernel env info memory start gva d memory_left ops steps now)
        (handler_report_event-Answers crx c r h resource of_crx env' write operand id cur new m
          (moment-Runs kernel env info memory start gva d memory_left ops steps now).running w
          operands ne)

  -- What the user of the driver gets for a model-specific register. If the handler gets its memory
  -- at the start and for every message, and each message of the driver is delivered as it was sent, then
  -- at any moment of the whole program, a WRMSR whose RCX is the number of a register that the handler's
  -- table knows, with no bit set above it, is answered by the policy that the driver's messages so far
  -- have made for it, and allowed if they have made none, if there is memory for the reads of the guest's
  -- registers and the hypervisor answers them. The policy is asked about the value that the lower halves of
  -- RDX and RAX make.
  pub run_steps-answer_by :
      (env' : Env) (write : EventInfo) (id rax rdx : ℕ)
      → id ≢ resource_id_unknown
      → res_id_to_msr id ≢ ia32_msr_invalid
      → (event_reg operand_reg : CpuReg) → write.event_data ≡ cpu msr event_reg operand_reg
      → IsWrmsr env' (handler_at env info memory start steps).trace (res_id_to_msr id) rax rdx
      → (handler_report_event env' write (handler_at env info memory start steps)).response
        ≡ answer_by (sent_policy env steps id) (join rdx rax)
  run_steps-answer_by env' write id rax rdx named known event_reg operand_reg d' w =
      let m : Machine = handler_at env info memory start steps in
      handler_report_event-answer_by env' write id (join rdx rax) named known event_reg operand_reg
        m (moment-Runs kernel env info memory start gva d memory_left ops steps now).running d'
        (msr_operands-IsWrmsr env' m.trace id rax rdx known w)
      ∙ ap (λ p. answer_by (p.policy id) (join rdx rax))
          (policies-run_steps kernel env info memory start gva d memory_left ops steps now)
